-- ===== src/Transcript/Store.antt =====
-- packages/core/src/sentinel_core/transcript/store.py, `LocalTranscriptStore`: files named by the
-- hash of their contents. The hash is a parameter; a file's path is a function of its id, so the
-- model names a file by the id. recorder.py's `record` and `load` store what they are given.
use security_tool.Prelude.{
  ℕ, Bool, false, ◌≡◌, refl, ap, ◌∙◌, List, [], ◌∷◌, Option, none, some, Text, ◌==◌, text_eq,
  text_beq_iff, if◌then◌else◌, Bool-cases, ◌⊎◌, Option-cases, inl, inr, Outcome, ok, raise,
}
use security_tool.Transcript.{Transcript, RecordedRequest, RecordedResponse, scrubbed}

abbrev pub Content : Type 0
Content = List ℕ

-- The directory: the files by their ids.
abbrev pub Files : Type 0
Files = List (Text × Content)

unfoldable pub read : Files → Text → Option Content
read [] i = none
read ((j, c) ∷ files) i = if j == i then some c else read files i

pub data StoreError : Type 0 where
  file_not_found : Text → StoreError

module _ (content_id : Content → Text) where
  -- `put`: an id that is there is not written again.
  unfoldable pub put : Files → Content → Files × Text
  put files content =
      let i = content_id content in
      elim (read files i) [ some c ↦ (files, i) | none ↦ ((i, content) ∷ files, i) ]

  unfoldable pub put_all : Files → List Content → Files
  unfolding put
  put_all files [] = files
  put_all files (c ∷ cs) = put_all (put files c).0 cs

  -- `TranscriptRecorder.record`: what is stored is the serialised scrubbed transcript.
  unfoldable pub record_transcript :
      (ℕ → Bool)
      → (Transcript → Content)
      → List Text
      → Files
      → Text
      → Option Text
      → RecordedRequest
      → Option RecordedResponse
      → Option Text
      → Files × Text
  record_transcript alnum serialise secrets files scan persona request response error =
      put files (serialise (scrubbed alnum secrets scan persona request response error))

-- `get`
unfoldable pub get : Files → Text → Outcome StoreError Content
get files i = elim (read files i) [ some c ↦ ok c | none ↦ raise (file_not_found i) ]

-- Every file is named by the hash of what it holds.
abbrev pub IsAddressed : (Content → Text) → Files → Type 0
IsAddressed content_id files = (i : Text) (c : Content) → read files i ≡ some c → content_id c ≡ i

module _ (content_id : Content → Text) where
  put-cases :
      (files : Files) (c : Content)
      → ((d : Content) × (read files (content_id c) ≡ some d)
          × (put content_id files c ≡ (files, content_id c)))
        ⊎ ((read files (content_id c) ≡ none)
            × (put content_id files c ≡ ((content_id c, c) ∷ files, content_id c)))
  unfolding put
  put-cases files c = elim (Option-cases (read files (content_id c))) [
    | inl e ↦ inr (e, rw (e, put))
    | inr (d, e) ↦ inl (d, e, rw (e, put))
  ]

  pub id-put : (files : Files) (c : Content) → (put content_id files c).1 ≡ content_id c
  id-put files c = elim (put-cases files c) [ inl (x, e, q) ↦ rw q | inr (e, q) ↦ rw q ]

  fresh :
      (files : Files) (c d : Content) (i : Text)
      → read files (content_id c) ≡ none
      → read files i ≡ some d
      → (content_id c == i) ≡ false
  fresh files c d i n h = elim (Bool-cases (content_id c == i)) [
    | inl e ↦ absurd (apart n (ap (read files) ((text_beq_iff (content_id c) i).0 e)))
    | inr e ↦ e
  ]
    where
      apart : read files (content_id c) ≡ none → read files (content_id c) ≡ read files i → ⊥
      apart n q = cc

  -- What is stored stays what it is, whatever is put later.
  read-put :
      (files : Files) (c d : Content) (i : Text)
      → read files i ≡ some d
      → read (put content_id files c).0 i ≡ some d
  unfolding read
  read-put files c d i h = elim (put-cases files c) [
    | inl (x, e, q) ↦ rw q h
    | inr (e, q) ↦ rw (q, fresh files c d i e h) h
  ]

  pub put-IsAddressed :
      (files : Files) (c : Content)
      → IsAddressed content_id files
      → IsAddressed content_id (put content_id files c).0
  unfolding read
  put-IsAddressed files c a i d h = elim (put-cases files c) [
    | inl (x, e, q) ↦ a i d (rw q at h)
    | inr (e, q) ↦ elim (Bool-cases (content_id c == i)) [
      | inl k ↦
          let s : some c ≡ some d = rw (q, k) at h in
          let same : c ≡ d = cc in rw (← same) ((text_beq_iff (content_id c) i).0 k)
      | inr k ↦ a i d (rw (q, k) at h)
    ]
  ]

  -- Storing any contents, one after another, keeps every file named by the hash of what it holds,
  -- and changes no file that was there.
  pub put_all-keeps :
      (files : Files) (cs : List Content)
      → IsAddressed content_id files
      → IsAddressed content_id (put_all content_id files cs)
        × ((i : Text) (d : Content)
            → read files i ≡ some d
            → read (put_all content_id files cs) i ≡ some d)
  unfolding put_all
  put_all-keeps files [] a = (a, λ i d h. h)
  put_all-keeps files (c ∷ cs) a =
      let (b, k) = put_all-keeps (put content_id files c).0 cs (put-IsAddressed files c a) in
      (b, λ i d h. k i d (read-put files c d i h))

  read-put_self :
      (files : Files) (c : Content)
      → (d : Content) × (read (put content_id files c).0 (put content_id files c).1 ≡ some d)
  unfolding read
  read-put_self files c = elim (put-cases files c) [
    | inl (d, e, q) ↦ (d, rw q e)
    | inr (e, q) ↦ (c, rw (q, (text_beq_iff (content_id c) (content_id c)).1 refl))
  ]

  -- Where no other content has the hash of `c`, what is put is what any later `get` of its id
  -- returns.
  pub get-put :
      (files : Files) (c : Content) (cs : List Content)
      → ((x : Content) → content_id x ≡ content_id c → x ≡ c)
      → IsAddressed content_id files
      → get (put_all content_id (put content_id files c).0 cs) (put content_id files c).1 ≡ ok c
  unfolding get
  get-put files c cs unique a =
      let (d, e) = read-put_self files c in
      let after = put_all-keeps (put content_id files c).0 cs (put-IsAddressed files c a) in
      let same : d ≡ c = unique d (put-IsAddressed files c a _ d e ∙ id-put files c) in
      rw (after.1 _ d e, get) (ap (λ (x : Content). ok x) same)
