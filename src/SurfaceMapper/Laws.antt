-- ===== src/SurfaceMapper/Laws.antt =====
-- A template is its own template.
use security_tool.Prelude.{
  text_beq, ℕ, false, ◌≡◌, refl, ap, subst, ◌∙◌, List, [], ◌∷◌, ◌++◌, map, Text, nat_beq, nat_eq,
  split, split_from, join, contains, contains-append, arith, Bool-cases, inl, inr, All,
}
use mathlib.Core.List.{append_assoc, append-nil}
use security_tool.SurfaceMapper.{normalize_path, normalize_segment, looks_like_id, placeholder}

abbrev HasNo : ℕ → Text → Type 0
HasNo c s = contains s c ≡ false

module _ (c : ℕ) where
  join-cons :
      (d : ℕ) (p : Text) (ps : List Text)
      → join (c ∷ []) ((d ∷ p) ∷ ps) ≡ d ∷ join (c ∷ []) (p ∷ ps)
  unfolding join
  join-cons d p [] = refl
  join-cons d p (q ∷ qs) = refl

  -- Splitting what was joined gives the parts back, when none holds the separator.
  split_from-join :
      (cur p : Text) (ps : List Text)
      → HasNo c p
      → All (HasNo c) ps
      → split_from c cur (join (c ∷ []) (p ∷ ps)) ≡ (cur ++ p) ∷ ps
  unfolding split_from contains join
  split_from-join cur [] [] h a = rw (append-nil cur) refl
  split_from-join cur [] (q ∷ qs) h a =
      rw ((nat_eq.same_iff c c).1 refl, split_from-join [] q qs a.0 a.1, append-nil cur) refl
  split_from-join cur (d ∷ p) ps h a =
      let n : nat_beq d c ≡ false = ground arith in
      rw (join-cons d p ps, n, split_from-join (cur ++ d ∷ []) p ps (ground arith) a)
        (ap (λ (x : Text). x ∷ ps) (append_assoc cur (d ∷ []) p))

  split_from-HasNo : (cur s : Text) → HasNo c cur → All (HasNo c) (split_from c cur s)
  unfolding split_from contains
  split_from-HasNo cur [] h = (h, tt)
  split_from-HasNo cur (d ∷ s) h = elim (Bool-cases (nat_beq d c)) [
    | inl k ↦ rw k (h, split_from-HasNo [] s refl)
    | inr k ↦
        rw k (split_from-HasNo (cur ++ d ∷ []) s (ground (arith, contains-append cur (d ∷ []) c)))
  ]

  split_from-cons : (cur s : Text) → (p : Text) × (ps : List Text) × (split_from c cur s ≡ p ∷ ps)
  unfolding split_from
  split_from-cons cur [] = (cur, [], refl)
  split_from-cons cur (d ∷ s) = elim (Bool-cases (nat_beq d c)) [
    | inl k ↦ (cur, split_from c [] s, rw k refl)
    | inr k ↦ let (p, ps, e) = split_from-cons (cur ++ d ∷ []) s in (p, ps, rw (k, e) refl)
  ]

  -- The parts of a text, each changed without the separator, are the parts of what they join to.
  split-join-map :
      (f : Text → Text) (s : Text)
      → ((p : Text) → HasNo c p → HasNo c (f p))
      → split c (join (c ∷ []) (map f (split c s))) ≡ map f (split c s)
  unfolding split contains
  split-join-map f s keeps =
      let (p, ps, e) = split_from-cons [] s in
      let a : All (HasNo c) (p ∷ ps) = subst (All (HasNo c)) e (split_from-HasNo [] s refl) in
      rw e (split_from-join [] (f p) (map f ps) (keeps p a.0) (All-map f ps keeps a.1))
    where
      All-map :
          (f : Text → Text) (ps : List Text)
          → ((p : Text) → HasNo c p → HasNo c (f p))
          → All (HasNo c) ps
          → All (HasNo c) (map f ps)
      All-map f [] keeps a = tt
      All-map f (p ∷ ps) keeps a = (keeps p a.0, All-map f ps keeps a.1)

placeholder_stays : looks_like_id placeholder ≡ false
unfolding looks_like_id text_beq
placeholder_stays = refl

normalize_segment-HasNo : (s : Text) → HasNo b'/' s → HasNo b'/' (normalize_segment s)
unfolding normalize_segment contains
normalize_segment-HasNo s h = elim (Bool-cases (looks_like_id s)) [
  | inl k ↦ rw k refl
  | inr k ↦ rw k h
]

normalize_segment_idem : (s : Text) → normalize_segment (normalize_segment s) ≡ normalize_segment s
unfolding normalize_segment
normalize_segment_idem s = elim (Bool-cases (looks_like_id s)) [
  | inl k ↦ rw (k, placeholder_stays) refl
  | inr k ↦ rw (k, k) refl
]

normalize_all_idem :
    (ps : List Text) → map normalize_segment (map normalize_segment ps) ≡ map normalize_segment ps
normalize_all_idem [] = refl
normalize_all_idem (p ∷ ps) = rw (normalize_segment_idem p, normalize_all_idem ps) refl

split-normalize_path :
    (path : Text) → split b'/' (normalize_path path) ≡ map normalize_segment (split b'/' path)
unfolding normalize_path
split-normalize_path path = split-join-map b'/' normalize_segment path normalize_segment-HasNo

-- A template is its own template.
pub normalize_path_idem : (path : Text) → normalize_path (normalize_path path) ≡ normalize_path path
unfolding normalize_path
normalize_path_idem path =
    ap (λ ps. join (b'/' ∷ []) (map normalize_segment ps)) (split-normalize_path path)
    ∙ ap (join (b'/' ∷ [])) (normalize_all_idem (split b'/' path))
