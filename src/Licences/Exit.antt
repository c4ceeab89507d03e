-- ===== src/Licences/Exit.antt =====
-- When the build fails.
use security_tool.Prelude.{true, ◌≡◌, ◌↔◌, refl, ap, List, Memᴰ, any_found, any_mem, arith}
use security_tool.Licences.{
  Distribution, Verdict, denied, verdict_on, is_denied, exit_code, first_party, unknown,
  lgpl_reviewed, accepted,
}

is_denied_lem : (v : Verdict) → is_denied v ≡ true → v ≡ denied
is_denied_lem denied h = refl
is_denied_lem first_party h = cc
is_denied_lem unknown h = cc
is_denied_lem lgpl_reviewed h = cc
is_denied_lem accepted h = cc

-- The script fails the build exactly when it denies the licence of some distribution.
pub exit_code_iff :
    (ds : List Distribution)
    → (exit_code ds ≡ 1) ↔ ((d : Distribution) × Memᴰ d ds × (verdict_on d ≡ denied))
unfolding exit_code
exit_code_iff ds = (
  λ h.
      let (d, m, e) = any_found (λ d. is_denied (verdict_on d)) ds (ground arith) in
      (d, m, is_denied_lem (verdict_on d) e),
  λ (d, m, e). rw (any_mem (λ d. is_denied (verdict_on d)) ds m (ap is_denied e)) refl,
)
