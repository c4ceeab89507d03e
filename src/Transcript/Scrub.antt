-- ===== src/Transcript/Scrub.antt =====
-- What scrubbing leaves behind.
use security_tool.Prelude.{
  ℕ, Bool, zero, suc, true, false, ◌≡◌, refl, List, [], ◌∷◌, ◌++◌, Option, none, some, Text,
  text_eq, nat_eq, contains, starts_with, has_sub, arith, All, Bool-cases, inl, inr, ◌⊎◌, Memᴰ,
  length,
}
use security_tool.Transcript.{
  Headers, redacted, scrub_headers, sub_from, substitute, literal, match_jwt, match_key,
  scrub_secrets, scrub_text,
}

-- No character of the text stands in the replacement.
abbrev pub IsApart : Text → Type 0
IsApart w = All (λ c. contains redacted c ≡ false) w

ℕ-cases : (n : ℕ) → (n ≡ 0) ⊎ ((k : ℕ) × (n ≡ suc k))
ℕ-cases zero = inl refl
ℕ-cases (suc k) = inr (k, refl)

has_sub-skip :
    (c : ℕ) (w r s : Text) → contains r c ≡ false → has_sub (r ++ s) (c ∷ w) ≡ has_sub s (c ∷ w)
unfolding has_sub contains
has_sub-skip c w [] s h = refl
has_sub-skip c w (d ∷ r) s h = ground (arith, has_sub-skip c w r s)

module _ (matcher : Option ℕ → Text → ℕ) where
  -- At the start of a text either its first character is kept or a replacement is written.
  sub_from-cases :
      (before : Option ℕ) (c : ℕ) (s : Text)
      → (sub_from matcher before 0 (c ∷ s) ≡ c ∷ sub_from matcher (some c) 0 s)
        ⊎ ((n : ℕ) × (sub_from matcher before 0 (c ∷ s)
              ≡ redacted ++ sub_from matcher (some c) n s))
  unfolding sub_from
  sub_from-cases before c s = elim (ℕ-cases (matcher before (c ∷ s))) [
    | inl e ↦ inl (rw (e, sub_from))
    | inr (k, e) ↦ inr (k, rw (e, sub_from))
  ]

  -- A prefix of the output that is apart from the replacement is a prefix of the input.
  sub_from-prefix :
      (before : Option ℕ) (s p : Text)
      → IsApart p
      → starts_with (sub_from matcher before 0 s) p ≡ true
      → starts_with s p ≡ true
  unfolding starts_with contains
  sub_from-prefix before s [] a h = refl
  sub_from-prefix before [] (d ∷ p) a h = unfold sub_from in h
  sub_from-prefix before (c ∷ s) (d ∷ p) a h = elim (sub_from-cases before c s) [
    | inl e ↦
        let k : starts_with (c ∷ sub_from matcher (some c) 0 s) (d ∷ p) ≡ true = rw e at h in
        ground (arith, sub_from-prefix (some c) s p a.1)
    | inr (n, e) ↦
        let k : starts_with (redacted ++ sub_from matcher (some c) n s) (d ∷ p) ≡ true =
          rw e at h in
        ground (arith, a.0)
  ]

  keep_apart :
      (c : ℕ) (w : Text) (d : ℕ) (s : Text)
      → IsApart (c ∷ w)
      → has_sub (d ∷ s) (c ∷ w) ≡ false
      → has_sub (sub_from matcher (some d) 0 s) (c ∷ w) ≡ false
      → has_sub (d ∷ sub_from matcher (some d) 0 s) (c ∷ w) ≡ false
  unfolding has_sub
  keep_apart c w d s a h k = ground (arith, sub_from-prefix (some d) s w a.1)

  -- A text that is not in the input, and apart from the replacement, is not in the output.
  sub_from-apart :
      (c : ℕ) (w : Text)
      → IsApart (c ∷ w)
      → (before : Option ℕ) (skip : ℕ) (s : Text) → has_sub s (c ∷ w) ≡ false
      → has_sub (sub_from matcher before skip s) (c ∷ w) ≡ false
  unfolding has_sub sub_from
  sub_from-apart c w a before skip [] h = refl
  sub_from-apart c w a before (suc skip) (d ∷ s) h =
      sub_from-apart c w a (some d) skip s (ground arith)
  sub_from-apart c w a before zero (d ∷ s) h = elim (sub_from-cases before d s) [
    | inl e ↦ rw e (keep_apart c w d s a h (sub_from-apart c w a (some d) 0 s (ground arith)))
    | inr (n, e) ↦
        rw (e, has_sub-skip c w redacted (sub_from matcher (some d) n s) a.0)
          (sub_from-apart c w a (some d) n s (ground arith))
  ]

literal-hit :
    (w : Text) (before : Option ℕ) (c d : ℕ) (s : Text)
    → starts_with (d ∷ s) (c ∷ w) ≡ true
    → sub_from (literal (c ∷ w)) before 0 (d ∷ s)
      ≡ redacted ++ sub_from (literal (c ∷ w)) (some d) (length w) s
unfolding sub_from
literal-hit w before c d s e = rw (e, sub_from)

literal-miss :
    (w : Text) (before : Option ℕ) (c d : ℕ) (s : Text)
    → starts_with (d ∷ s) (c ∷ w) ≡ false
    → sub_from (literal (c ∷ w)) before 0 (d ∷ s) ≡ d ∷ sub_from (literal (c ∷ w)) (some d) 0 s
unfolding sub_from
literal-miss w before c d s e = rw (e, sub_from)

missed :
    (c : ℕ) (w : Text) (d : ℕ) (s : Text)
    → IsApart (c ∷ w)
    → starts_with (d ∷ s) (c ∷ w) ≡ false
    → has_sub (sub_from (literal (c ∷ w)) (some d) 0 s) (c ∷ w) ≡ false
    → has_sub (d ∷ sub_from (literal (c ∷ w)) (some d) 0 s) (c ∷ w) ≡ false
unfolding has_sub
missed c w d s a e k = ground (arith, sub_from-prefix (literal (c ∷ w)) (some d) s w a.1)

-- Replacing a text leaves none of it.
literal-apart :
    (c : ℕ) (w : Text)
    → IsApart (c ∷ w)
    → (before : Option ℕ) (skip : ℕ) (s : Text)
    → has_sub (sub_from (literal (c ∷ w)) before skip s) (c ∷ w) ≡ false
unfolding sub_from has_sub
literal-apart c w a before skip [] = refl
literal-apart c w a before (suc skip) (d ∷ s) = literal-apart c w a (some d) skip s
literal-apart c w a before zero (d ∷ s) = elim (Bool-cases (starts_with (d ∷ s) (c ∷ w))) [
  | inl e ↦
      rw
        (
          literal-hit w before c d s e,
          has_sub-skip c w redacted (sub_from (literal (c ∷ w)) (some d) (length w) s) a.0,
        )
        (literal-apart c w a (some d) (length w) s)
  | inr e ↦
      rw (literal-miss w before c d s e) (missed c w d s a e (literal-apart c w a (some d) 0 s))
]

kept_out :
    (c : ℕ) (w : Text) (secrets : List Text) (s : Text)
    → IsApart (c ∷ w)
    → has_sub s (c ∷ w) ≡ false
    → has_sub (scrub_secrets secrets s) (c ∷ w) ≡ false
unfolding scrub_secrets substitute
kept_out c w [] s a h = h
kept_out c w ([] ∷ secrets) s a h = kept_out c w secrets s a h
kept_out c w ((d ∷ v) ∷ secrets) s a h =
    kept_out c w secrets (substitute (literal (d ∷ v)) s) a
      (sub_from-apart (literal (d ∷ v)) c w a none 0 s h)

taken_out :
    (c : ℕ) (w : Text) (secrets : List Text) (s : Text)
    → IsApart (c ∷ w)
    → Memᴰ (c ∷ w) secrets
    → has_sub (scrub_secrets secrets s) (c ∷ w) ≡ false
unfolding scrub_secrets substitute
taken_out c w [] s a m = elim m [ ]
taken_out c w (x ∷ secrets) s a (Memᴰ.head e) =
    rw (← e)
      (kept_out c w secrets (substitute (literal (c ∷ w)) s) a (literal-apart c w a none 0 s))
taken_out c w ([] ∷ secrets) s a (Memᴰ.tail m) = taken_out c w secrets s a m
taken_out c w ((d ∷ v) ∷ secrets) s a (Memᴰ.tail m) =
    taken_out c w secrets (substitute (literal (d ∷ v)) s) a m

-- A known secret that shares no character with the replacement does not occur in a text that
-- `scrub_text` returns, whatever the other secrets are and however the token patterns rewrite it.
pub scrub_text-known_secret :
    (alnum : ℕ → Bool) (c : ℕ) (w : Text) (secrets : List Text) (s : Text)
    → IsApart (c ∷ w)
    → Memᴰ (c ∷ w) secrets
    → has_sub (scrub_text alnum secrets s) (c ∷ w) ≡ false
unfolding scrub_text substitute
scrub_text-known_secret alnum c w secrets s a m =
    sub_from-apart (match_key alnum) c w a none 0 (substitute match_jwt (scrub_secrets secrets s)) (
      sub_from-apart match_jwt c w a none 0 (scrub_secrets secrets s) (taken_out c w secrets s a m))

-- Scrubbing a second time changes no header.
pub scrub_headers_idem : (hs : Headers) → scrub_headers (scrub_headers hs) ≡ scrub_headers hs
unfolding scrub_headers
scrub_headers_idem [] = refl
scrub_headers_idem ((k, v) ∷ hs) = ground (arith, scrub_headers_idem hs)
