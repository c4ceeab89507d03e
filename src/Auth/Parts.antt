-- ===== src/Auth/Parts.antt =====
-- Parts of a text: what the stripping of a text and its lines are.
use security_tool.Prelude.{
  ℕ, Bool, true, false, ◌&&◌, [], ◌∷◌, ◌++◌, Text, text_eq, nat_beq, strip, strip_left, strip_right,
  is_space, has_sub, starts_with, drop_blank, ◌≡◌, refl, sym, ap, subst, ◌∙◌, Bool-cases, inl, inr,
  Memᴰ, arith,
}
use security_tool.Auth.Oracle.{is_line_end, lines_from}

-- A text stands somewhere in another.
abbrev pub IsPart : Text → Text → Type 0
IsPart t s = (p : Text) × (q : Text) × (s ≡ p ++ (t ++ q))

append_assoc : (p q r : Text) → (p ++ q) ++ r ≡ p ++ (q ++ r)
append_assoc [] q r = refl
append_assoc (c ∷ p) q r = ap (λ t. c ∷ t) (append_assoc p q r)

append_nil : (p : Text) → p ++ [] ≡ p
append_nil [] = refl
append_nil (c ∷ p) = ap (λ t. c ∷ t) (append_nil p)

starts_with-append : (t q : Text) → starts_with (t ++ q) t ≡ true
unfolding starts_with
starts_with-append [] q = refl
starts_with-append (c ∷ t) q = ground (arith, starts_with-append t q)

has_sub-append : (p t q : Text) → has_sub (p ++ (t ++ q)) t ≡ true
unfolding has_sub
has_sub-append [] [] [] = refl
has_sub-append [] [] (c ∷ q) = refl
has_sub-append [] (c ∷ t) q = ground (arith, starts_with-append (c ∷ t) q)
has_sub-append (c ∷ p) t q = ground (arith, has_sub-append p t q)

pub IsPart-has_sub : (t s : Text) → IsPart t s → has_sub s t ≡ true
IsPart-has_sub t s (p, q, e) = subst (λ x. has_sub x t ≡ true) (sym e) (has_sub-append p t q)

pub IsPart-after : (a t s : Text) → IsPart t s → IsPart t (a ++ s)
IsPart-after a t s (p, q, e) = (a ++ p, q, ap (λ x. a ++ x) e ∙ sym (append_assoc a p (t ++ q)))

pub IsPart-before : (b t s : Text) → IsPart t s → IsPart t (s ++ b)
IsPart-before b t s (p, q, e) = (
  p,
  q ++ b,
  ap (λ x. x ++ b) e ∙ append_assoc p (t ++ q) b ∙ ap (λ x. p ++ x) (append_assoc t q b),
)

IsPart-whole : (s : Text) → IsPart s s
IsPart-whole s = ([], [], sym (append_nil s))

strip_left-IsPart : (p : ℕ → Bool) (s : Text) → IsPart (strip_left p s) s
unfolding strip_left
strip_left-IsPart p [] = ([], [], refl)
strip_left-IsPart p (c ∷ s) = elim (Bool-cases (p c)) [
  | inl e ↦ rw e (IsPart-after (c ∷ []) (strip_left p s) s (strip_left-IsPart p s))
  | inr e ↦ rw e ([], [], ap (λ t. c ∷ t) (sym (append_nil s)))
]

drop_blank_split :
    (p : ℕ → Bool) (c : ℕ) (r b : Text) → (d : Text) × (c ∷ r ++ b ≡ drop_blank p c r ++ d)
drop_blank_split p c [] b = elim (Bool-cases (p c)) [
  | inl e ↦ rw e (c ∷ b, refl)
  | inr e ↦ rw e (b, refl)
]
drop_blank_split p c (d ∷ r) b = (b, refl)

strip_right_split : (p : ℕ → Bool) (s : Text) → (b : Text) × (s ≡ strip_right p s ++ b)
unfolding strip_right
strip_right_split p [] = ([], refl)
strip_right_split p (c ∷ s) =
    let (b, e) = strip_right_split p s in
    let (d, f) = drop_blank_split p c (strip_right p s) b in (d, ap (λ t. c ∷ t) e ∙ f)

pub strip-IsPart : (s : Text) → IsPart (strip s) s
unfolding strip
strip-IsPart s =
    let (p, q, e) = strip_left-IsPart is_space s in
    let (b, f) = strip_right_split is_space (strip_left is_space s) in
    (
      p,
      b ++ q,
      e
          ∙ ap (λ x. p ++ (x ++ q)) f
          ∙ ap (λ x. p ++ x) (append_assoc (strip_right is_space (strip_left is_space s)) b q),
    )

pub lines_from-IsPart :
    (returned : Bool) (cur s line : Text)
    → Memᴰ line (lines_from returned cur s)
    → IsPart line (cur ++ s)
unfolding lines_from
lines_from-IsPart returned [] [] line m = elim m [ ]
lines_from-IsPart returned (d ∷ cur) [] line (Memᴰ.head e) =
    subst (λ x. IsPart line (x ++ [])) e (IsPart-before [] line line (IsPart-whole line))
lines_from-IsPart returned (d ∷ cur) [] line (Memᴰ.tail m) = elim m [ ]
lines_from-IsPart returned cur (c ∷ s) line m = elim (Bool-cases (returned && nat_beq c 10)) [
  | inl e ↦ past (lines_from-IsPart false [] s line (rw e at m))
  | inr e ↦ elim (Bool-cases (is_line_end c)) [
    | inl f ↦ closed (lines_from-IsPart (nat_beq c 13) [] s line) (rw (e, f) at m)
    | inr f ↦
        subst (IsPart line) (append_assoc cur (c ∷ []) s)
          (lines_from-IsPart false (cur ++ c ∷ []) s line (rw (e, f) at m))
  ]
]
  where
    past : IsPart line s → IsPart line (cur ++ c ∷ s)
    past h = IsPart-after cur line (c ∷ s) (IsPart-after (c ∷ []) line s h)

    closed :
        (Memᴰ line (lines_from (nat_beq c 13) [] s) → IsPart line s)
        → Memᴰ line (cur ∷ lines_from (nat_beq c 13) [] s)
        → IsPart line (cur ++ c ∷ s)
    closed ih (Memᴰ.head e) =
        subst (λ x. IsPart line (x ++ c ∷ s)) e
          (IsPart-before (c ∷ s) line line (IsPart-whole line))
    closed ih (Memᴰ.tail n) = past (ih n)
