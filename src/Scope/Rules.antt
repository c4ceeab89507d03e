-- ===== src/Scope/Rules.antt =====
-- What rules can and cannot do: a rule of kind `host` is never read.
use security_tool.Prelude.{
  Bool, true, false, not, ◌≡◌, refl, ap, List, [], ◌∷◌, Text, text_eq, arith, Bool-cases, inl, inr,
  if◌then◌else◌, filter,
}
use security_tool.Url.{Library}
use security_tool.Scope.{
  RuleKind, ScopeRule, ScopeGuard, is_path_rule, is_method_rule, decide_method, decide_path,
  evaluate_at, evaluate, allowed_methods,
}

abbrev pub is_host_rule : ScopeRule → Bool
is_host_rule r = elim r.kind [ RuleKind.host ↦ true | _ ↦ false ]

abbrev pub without_host_rules : ScopeGuard → ScopeGuard
without_host_rules g = record g { rules = filter (λ r. not (is_host_rule r)) g.rules }

filter_skip :
    (p q : ScopeRule → Bool) (rs : List ScopeRule)
    → ((r : ScopeRule) → p r ≡ true → q r ≡ true)
    → filter p (filter q rs) ≡ filter p rs
unfolding filter
filter_skip p q [] h = refl
filter_skip p q (r ∷ rs) h = elim (Bool-cases (q r)) [
  | inl k ↦ rw k (ap (λ (xs : List ScopeRule). if p r then r ∷ xs else xs) (filter_skip p q rs h))
  | inr k ↦ ground (arith, filter_skip p q rs h, h r)
]

path_rule_kept : (b : Bool) (r : ScopeRule) → is_path_rule b r ≡ true → not (is_host_rule r) ≡ true
path_rule_kept true r h = ground arith
path_rule_kept false r h = ground arith

method_rule_kept :
    (b : Bool) (r : ScopeRule) → is_method_rule b r ≡ true → not (is_host_rule r) ≡ true
method_rule_kept true r h = ground arith
method_rule_kept false r h = ground arith

-- Dropping every rule of kind `host` changes no decision, so such a rule, of either effect, has none.
pub evaluate-without_host_rules :
    (lib : Library) (g : ScopeGuard) (m url : Text)
    → evaluate lib (without_host_rules g) m url ≡ evaluate lib g m url
unfolding evaluate evaluate_at decide_path decide_method allowed_methods
evaluate-without_host_rules lib g m url = simp (
  filter_skip (is_path_rule true) (λ r. not (is_host_rule r)) g.rules (path_rule_kept true),
  filter_skip (is_path_rule false) (λ r. not (is_host_rule r)) g.rules (path_rule_kept false),
  filter_skip (is_method_rule true) (λ r. not (is_host_rule r)) g.rules (method_rule_kept true),
  filter_skip (is_method_rule false) (λ r. not (is_host_rule r)) g.rules (method_rule_kept false),
)
