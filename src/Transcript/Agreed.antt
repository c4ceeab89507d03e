-- ===== src/Transcript/Agreed.antt =====
-- The two backends of the transcripts, after the same contents are put to both.
use security_tool.Prelude.{
  ℕ, List, [], ◌∷◌, ◌++◌, take, length, Text, codes, text_eq, text_beq, text_beq_iff, ok, ◌≡◌, refl,
  ap, sym, subst, ◌∙◌, Memᴰ, Bool-cases, inl, inr, arith,
}
use mathlib.Core.Bool.{true≢false}
use security_tool.Transcript.Store.{
  Content, Files, put, put_all, get, IsAddressed, id-put, put-IsAddressed, get-put,
}
use security_tool.Transcript.Remote.{
  Client, IsObjectStore, S3TranscriptStore, key_for, upload, download, upload_all,
}

tail_of : Text → Text
tail_of [] = []
tail_of (c ∷ s) = s

-- Texts that are the same from parts of the same length on.
same_rest : (p q a b : Text) → length p ≡ length q → p ++ a ≡ q ++ b → a ≡ b
unfolding tail_of
same_rest [] [] a b n h = h
same_rest [] (d ∷ q) a b n h = absurd (omega (arith, n))
same_rest (c ∷ p) [] a b n h = absurd (omega (arith, n))
same_rest (c ∷ p) (d ∷ q) a b n h = same_rest p q a b (omega (arith, n)) (ap tail_of h)

head_of : Text → ℕ
head_of [] = 0
head_of (c ∷ s) = c

same_start : (p q a b : Text) → length p ≡ length q → p ++ a ≡ q ++ b → p ≡ q
unfolding tail_of head_of
same_start [] [] a b n h = refl
same_start [] (d ∷ q) a b n h = absurd (omega (arith, n))
same_start (c ∷ p) [] a b n h = absurd (omega (arith, n))
same_start (c ∷ p) (d ∷ q) a b n h =
    let e : c ≡ d = ap head_of h in
    let f = same_start p q a b (omega (arith, n)) (ap tail_of h) in cc

length-take_two : (s : Text) → length s ≡ 64 → length (take 2 s) ≡ 2
length-take_two [] n = absurd (omega (arith, n))
length-take_two (c ∷ []) n = absurd (omega (arith, n))
length-take_two (c ∷ d ∷ s) n = refl

-- The identifiers of objects with the same key are the same.
key_for_inj :
    (store : S3TranscriptStore) (i j : Text)
    → length i ≡ 64
    → length j ≡ 64
    → key_for store i ≡ key_for store j
    → i ≡ j
unfolding key_for
key_for_inj store i j m n h =
    let a = same_rest store.prefix store.prefix _ _ refl h in
    let b = same_rest (codes "/") (codes "/") _ _ refl a in
    let c =
      same_rest (take 2 i) (take 2 j) (codes "/" ++ (i ++ codes ".bin"))
        (codes "/" ++ (j ++ codes ".bin")) (length-take_two i m ∙ sym (length-take_two j n)) b in
    let d = same_rest (codes "/") (codes "/") (i ++ codes ".bin") (j ++ codes ".bin") refl c in
    same_start i j (codes ".bin") (codes ".bin") (m ∙ sym n) d

module _ (c : Client) (documented : IsObjectStore c) (content_id : Content → Text)
    (store : S3TranscriptStore) (hex : (x : Content) → length (content_id x) ≡ 64) (x : Content)
    (unique : (y : Content) → content_id y ≡ content_id x → y ≡ x) where
  local_get :
      (files : Files) (xs : List Content)
      → IsAddressed content_id files
      → Memᴰ x xs
      → get (put_all content_id files xs) (content_id x) ≡ ok x
  unfolding put_all
  local_get files [] a m = elim m [ ]
  local_get files (y ∷ xs) a (Memᴰ.tail m) =
      local_get (put content_id files y).0 xs (put-IsAddressed content_id files y a) m
  local_get files (y ∷ xs) a (Memᴰ.head e) =
      subst (λ z. get (put_all content_id (put content_id files z).0 xs) (content_id x) ≡ ok x) e
        (subst (λ i. get (put_all content_id (put content_id files x).0 xs) i ≡ ok x)
          (id-put content_id files x) (get-put content_id files x xs unique a))

  download-upload_same :
      (s : c.State)
      → download c content_id store
          (content_id x)
          (upload c content_id store x (codes "application/json") s).0
        ≡ ok x
  unfolding upload download
  download-upload_same s =
      documented.get-put_same store.bucket (key_for store (content_id x)) x
        (codes "application/json") s

  -- One more upload leaves the object of `x` as it is.
  download-upload :
      (y : Content) (s : c.State)
      → download c content_id store (content_id x) s ≡ ok x
      → download c content_id store
          (content_id x)
          (upload c content_id store y (codes "application/json") s).0
        ≡ ok x
  unfolding download upload
  download-upload y s h = elim (Bool-cases (text_beq (content_id y) (content_id x))) [
    | inl e ↦
        let same : y ≡ x = unique y ((text_beq_iff (content_id y) (content_id x)).0 e) in
        subst
          (λ z.
            c.get_object store.bucket (key_for store (content_id x)) (
              c.put_object store.bucket (key_for store (content_id z)) z (codes "application/json")
                s)
            ≡ ok x)
          (sym same)
          (documented.get-put_same store.bucket (key_for store (content_id x)) x
            (codes "application/json") s)
    | inr e ↦
        documented.get-put_other store.bucket (key_for store (content_id y))
          (key_for store (content_id x)) y (codes "application/json") s
          (λ k. true≢false (
            sym (
              (text_beq_iff (content_id y) (content_id x)).1
                (key_for_inj store (content_id y) (content_id x) (hex y) (hex x) k))
            ∙ e))
        ∙ h
  ]

  download-upload_all :
      (ys : List Content) (s : c.State)
      → download c content_id store (content_id x) s ≡ ok x
      → download c content_id store (content_id x) (upload_all c content_id store ys s) ≡ ok x
  unfolding upload_all
  download-upload_all [] s h = h
  download-upload_all (y ∷ ys) s h =
      download-upload_all ys (upload c content_id store y (codes "application/json") s).0
        (download-upload y s h)

  remote_get :
      (xs : List Content) (s : c.State)
      → Memᴰ x xs
      → download c content_id store (content_id x) (upload_all c content_id store xs s) ≡ ok x
  unfolding upload_all
  remote_get [] s m = elim m [ ]
  remote_get (y ∷ xs) s (Memᴰ.tail m) =
      remote_get xs (upload c content_id store y (codes "application/json") s).0 m
  remote_get (y ∷ xs) s (Memᴰ.head e) =
      subst
        (λ z.
          download c content_id store (content_id x) (
            upload_all c content_id store xs
              (upload c content_id store z (codes "application/json") s).0)
          ≡ ok x)
        e
        (download-upload_all xs (upload c content_id store x (codes "application/json") s).0
          (download-upload_same s))

  -- After a list of contents has been put to both backends, one after the other, the local one over
  -- files that are named by their contents, either of them gives each content in the list back by
  -- its identifier. The identifiers are 64 characters long, no other content has that of `x`, and
  -- the objects behind the client are kept as it is documented.
  pub get-download :
      (files : Files) (xs : List Content) (s : c.State)
      → IsAddressed content_id files
      → Memᴰ x xs
      → (get (put_all content_id files xs) (content_id x) ≡ ok x)
        × (download c content_id store (content_id x) (upload_all c content_id store xs s) ≡ ok x)
  get-download files xs s a m = (local_get files xs a m, remote_get xs s m)
