-- ===== src/Scope/Allowed.antt =====
-- What an allowed request satisfies.
use security_tool.Prelude.{
  Bool, true, false, ◌≡◌, ◌≢◌, refl, List, [], ◌∷◌, Text, codes, text_eq, arith, Bool-cases, inl,
  inr, ◌⊎◌, Option, none, some, Memᴰ, any_found, filter_mem, mem_filter, upper, or_text, filter,
  Outcome, ok, raise, ◌>>=◌, >>=-eq-ok, any,
}
use security_tool.Url.{Library, Fault, SplitResult, urlsplit, hostname}
use security_tool.Scope.{
  ScopeRule, ScopeDecision, ScopeGuard, is_allowed, host_matches, is_path_rule, is_method_rule,
  path_rule_matches, first_match, decide_method, decide_include, decide_exclude, decide_path,
  evaluate_at, evaluate,
}
use security_tool.Scope.Methods.{allowed-method_not_excluded, allowed-method_included, none_kept}

hit-cases :
    (o : Outcome Fault Bool) → (o ≡ ok true) ⊎ (o ≡ ok false) ⊎ ((e : Fault) × (o ≡ raise e))
hit-cases (ok true) = inl refl
hit-cases (ok false) = inr (inl refl)
hit-cases (raise e) = inr (inr (e, refl))

module _ (lib : Library) (path : Text) where
  first_match-step :
      (q : ScopeRule) (rs : List ScopeRule) (o : Option ScopeRule)
      → first_match lib (q ∷ rs) path ≡ ok o
      → ((path_rule_matches lib q path ≡ ok true) × (o ≡ some q))
        ⊎ ((path_rule_matches lib q path ≡ ok false) × (first_match lib rs path ≡ ok o))
  unfolding first_match
  first_match-step q rs o h = elim (hit-cases (path_rule_matches lib q path)) [
    | inl e ↦ inl (e, ground arith)
    | inr (inl e) ↦ inr (e, ground arith)
    | inr (inr (x, e)) ↦ ground arith
  ]

  first_match-none :
      {r : ScopeRule} (rs : List ScopeRule)
      → first_match lib rs path ≡ ok none
      → Memᴰ r rs
      → path_rule_matches lib r path ≡ ok false
  first_match-none [] h m = elim m [ ]
  first_match-none (q ∷ rs) h (Memᴰ.head e) = elim (first_match-step q rs none h) [
    | inl (a, b) ↦ cc
    | inr (a, b) ↦ rw e a
  ]
  first_match-none (q ∷ rs) h (Memᴰ.tail m) = elim (first_match-step q rs none h) [
    | inl (a, b) ↦ cc
    | inr (a, b) ↦ first_match-none rs b m
  ]

  first_match-some :
      (r : ScopeRule) (rs : List ScopeRule)
      → first_match lib rs path ≡ ok (some r)
      → Memᴰ r rs × (path_rule_matches lib r path ≡ ok true)
  unfolding first_match
  first_match-some r [] h = cc
  first_match-some r (q ∷ rs) h = elim (first_match-step q rs (some r) h) [
    | inl (a, b) ↦ let e : r ≡ q = cc in (Memᴰ.head e, rw e a)
    | inr (a, b) ↦ let (m, x) = first_match-some r rs b in (Memᴰ.tail m, x)
  ]

-- The scope that a verified target's rules describe.
pub record IsInScope (lib : Library) (g : ScopeGuard) (m h path : Text) : Type 0 where
  pub verified : g.target_ownership_verified ≡ true
  pub host : (p : Text) × Memᴰ p g.allowed_hosts × (host_matches h p ≡ true)
  pub not_excluded :
      (r : ScopeRule)
      → Memᴰ r g.rules
      → is_path_rule true r ≡ true
      → path_rule_matches lib r path ≡ ok false
  pub included :
      ((r : ScopeRule) → Memᴰ r g.rules → is_path_rule false r ≡ false)
      ⊎ ((r : ScopeRule) × Memᴰ r g.rules
          × (is_path_rule false r ≡ true)
          × (path_rule_matches lib r path ≡ ok true))
  pub method_not_excluded :
      (r : ScopeRule) → Memᴰ r g.rules → is_method_rule true r ≡ true → m ≢ upper r.pattern
  pub method_included :
      (((r : ScopeRule) → Memᴰ r g.rules → is_method_rule false r ≡ false)
        × Memᴰ m g.default_allowed_methods)
      ⊎ ((r : ScopeRule) × Memᴰ r g.rules × (is_method_rule false r ≡ true) × (m ≡ upper r.pattern))

-- An outcome of the path tests, taken apart.
include-allowed :
    (rs : List ScopeRule) (found : Outcome Fault (Option ScopeRule)) (next : ScopeDecision)
    (path : Text) {d : ScopeDecision}
    → decide_include rs found next path ≡ ok d
    → is_allowed d ≡ true
    → (is_allowed next ≡ true) × ((rs ≡ []) ⊎ ((r : ScopeRule) × (found ≡ ok (some r))))
unfolding decide_include
include-allowed [] found next path h a = (ground arith, inl refl)
include-allowed (r ∷ rs) (ok none) next path h a = ground arith
include-allowed (r ∷ rs) (ok (some q)) next path h a = (ground arith, inr (q, refl))
include-allowed (r ∷ rs) (raise e) next path h a = ground arith

exclude-allowed :
    (found : Outcome Fault (Option ScopeRule)) (next : Outcome Fault ScopeDecision) (path : Text)
    {d : ScopeDecision}
    → (found >>= λ x. decide_exclude x next path) ≡ ok d
    → is_allowed d ≡ true
    → (found ≡ ok none) × (next ≡ ok d)
unfolding decide_exclude
exclude-allowed (ok none) next path h a = (refl, h)
exclude-allowed (ok (some q)) next path h a = ground arith
exclude-allowed (raise e) next path h a = ground arith

path-allowed :
    (lib : Library) (g : ScopeGuard) (m path : Text) {d : ScopeDecision}
    → decide_path lib g m path ≡ ok d
    → is_allowed d ≡ true
    → (first_match lib (filter (is_path_rule true) g.rules) path ≡ ok none)
      × (decide_include
            (filter (is_path_rule false) g.rules)
            (first_match lib (filter (is_path_rule false) g.rules) path)
            (decide_method g m)
            path
          ≡ ok d)
unfolding decide_path
path-allowed lib g m path h a = exclude-allowed _ _ path h a

at-allowed :
    (lib : Library) (g : ScopeGuard) (m h path : Text) {d : ScopeDecision}
    → evaluate_at lib g m h path ≡ ok d
    → is_allowed d ≡ true
    → (any (host_matches h) g.allowed_hosts ≡ true) × (decide_path lib g m path ≡ ok d)
unfolding evaluate_at
at-allowed lib g m h path e a = ground arith

-- A request that the guard allows once the URL is split is in scope.
pub evaluate_at-allowed :
    (lib : Library) (g : ScopeGuard) (m h path : Text) (d : ScopeDecision)
    → g.target_ownership_verified ≡ true
    → evaluate_at lib g m h path ≡ ok d
    → is_allowed d ≡ true
    → IsInScope lib g m h path
evaluate_at-allowed lib g m h path d v e a =
    let (hosts, p) = at-allowed lib g m h path e a in
    let (no_exclude, q) = path-allowed lib g m path p a in
    let (methods, inc) = include-allowed _ _ _ path q a in
    record {
      verified = v;
      host = any_found (host_matches h) g.allowed_hosts hosts;
      not_excluded = λ r k x.
          first_match-none lib path _ no_exclude (filter_mem (is_path_rule true) g.rules k x);
      included = elim inc [
        | inl n ↦ inl (none_kept (is_path_rule false) g.rules n)
        | inr (r, f) ↦
            let (k, x) = first_match-some lib path r (filter (is_path_rule false) g.rules) f in
            let (j, y) = mem_filter (is_path_rule false) r g.rules k in inr (r, j, y, x)
      ];
      method_not_excluded = allowed-method_not_excluded g m methods;
      method_included = allowed-method_included g m methods;
    }

evaluate-split :
    (lib : Library) (g : ScopeGuard) (m url : Text) {d : ScopeDecision}
    → evaluate lib g m url ≡ ok d
    → is_allowed d ≡ true
    → (g.target_ownership_verified ≡ true)
      × ((parts : SplitResult) × (urlsplit lib url ≡ ok parts)
          × (evaluate_at lib g (upper m) (hostname parts) (or_text parts.path (codes "/")) ≡ ok d))
unfolding evaluate
evaluate-split lib g m url e a = elim (Bool-cases g.target_ownership_verified) [
  | inl v ↦ (
    v,
    >>=-eq-ok (urlsplit lib url)
        (λ parts. evaluate_at lib g (upper m) (hostname parts) (or_text parts.path (codes "/")))
        (ground arith),
  )
  | inr n ↦ ground arith
]

-- A request that the guard allows is to a verified target, to a host that an allowed pattern
-- covers, matches no path exclude rule, matches a path include rule if there is one, and has a
-- method that no rule excludes and that is among the included ones, or the default ones if no
-- rule includes a method.
pub evaluate-IsInScope :
    (lib : Library) (g : ScopeGuard) (m url : Text) (d : ScopeDecision)
    → evaluate lib g m url ≡ ok d
    → is_allowed d ≡ true
    → (parts : SplitResult) × (urlsplit lib url ≡ ok parts)
      × IsInScope lib g (upper m) (hostname parts) (or_text parts.path (codes "/"))
evaluate-IsInScope lib g m url d e a =
    let (v, (parts, s, x)) = evaluate-split lib g m url e a in
    (
      parts,
      s,
      evaluate_at-allowed lib g (upper m) (hostname parts) (or_text parts.path (codes "/")) d v x a,
    )
