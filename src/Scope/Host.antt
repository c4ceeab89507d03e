-- ===== src/Scope/Host.antt =====
-- Which hosts a pattern covers.
use security_tool.Prelude.{
  true, false, ◌≡◌, ◌≢◌, ◌↔◌, ◌∷◌, ◌++◌, Text, codes, text_eq, text_beq_iff, arith, starts_with,
  ends_with, ends_with_split, ends_with-append, strip_left, is_dot,
}
use security_tool.Scope.{covers}

-- A pattern that does not begin with "*." covers itself alone.
pub covers_exact : (h p : Text) → starts_with p (codes "*.") ≡ false → (covers h p ≡ true) ↔ (h ≡ p)
unfolding covers
covers_exact h p e = rw e (text_beq_iff h p)

wildcard_there :
    (h d : Text)
    → covers h (codes "*." ++ d) ≡ true
    → (ends_with h (b'.' ∷ d) ≡ true) × (h ≢ strip_left is_dot d)
unfolding covers
wildcard_there h d e =
    let x : ends_with h (b'.' ∷ d) ≡ true = ground arith in
    (x, (λ q. ground (arith, text_beq_iff h (strip_left is_dot d))))

wildcard_back :
    (q h d : Text) → h ≡ q ++ b'.' ∷ d → h ≢ strip_left is_dot d → covers h (codes "*." ++ d) ≡ true
unfolding covers
wildcard_back q h d e n =
    let x : ends_with h (b'.' ∷ d) ≡ true = rw e (ends_with-append q (b'.' ∷ d)) in
    ground (arith, text_beq_iff h (strip_left is_dot d))

-- A pattern "*." and a domain covers exactly the hosts that end in a dot and the domain, but for
-- the domain without its leading dots.
pub covers_wildcard :
    (h d : Text)
    → (covers h (codes "*." ++ d) ≡ true)
      ↔ ((q : Text) × (h ≡ q ++ b'.' ∷ d) × (h ≢ strip_left is_dot d))
covers_wildcard h d = (
  (λ e.
      let (x, n) = wildcard_there h d e in
      let (q, p) = ends_with_split h (b'.' ∷ d) x in (q, p, n)),
  (λ t. wildcard_back t.0 h d t.1 t.2),
)
