-- ===== src/Scope/Methods.antt =====
-- The method test of the guard: what holds of a method that passes it.
use security_tool.Prelude.{
  Bool, true, false, ◌≡◌, ◌≢◌, ◌∙◌, refl, sym, List, [], ◌∷◌, map, Text, ◌==◌, text_eq,
  text_beq_iff, arith, Bool-cases, inl, inr, ◌⊎◌, Option, none, some, Memᴰ, filter_mem, mem_filter,
  find-none, contains, contains_mem, mem_map, upper, find, filter,
}
use mathlib.Core.Bool.{false≢true}
use security_tool.Scope.{
  ScopeRule, ScopeDecision, ScopeGuard, is_allowed, is_method_rule, decide_method, or_methods,
  decide_named, decide_listed, allowed_methods,
}

not_named :
    {r : ScopeRule} (m : Text) (rs : List ScopeRule)
    → find (λ q. m == upper q.pattern) rs ≡ none
    → Memᴰ r rs
    → m ≢ upper r.pattern
not_named {r} m rs n k q =
    false≢true
      (sym (find-none (λ x. m == upper x.pattern) rs n k) ∙ (text_beq_iff m (upper r.pattern)).1 q)

in_methods :
    (m : Text) (included defaults : List Text)
    → contains (or_methods included defaults) m ≡ true
    → ((included ≡ []) × Memᴰ m defaults) ⊎ Memᴰ m included
in_methods m [] defaults h = inl (refl, contains_mem m defaults h)
in_methods m (x ∷ xs) defaults h = inr (contains_mem m (x ∷ xs) h)

-- The rules that a filter drops, where it drops all.
pub none_kept :
    (p : ScopeRule → Bool) (rs : List ScopeRule)
    → filter p rs ≡ []
    → (r : ScopeRule) → Memᴰ r rs
    → p r ≡ false
none_kept p rs e r m = elim (Bool-cases (p r)) [
  | inl k ↦ absurd (none_in (rw e at (filter_mem p rs m k)))
  | inr k ↦ k
]
  where
    none_in : {r : ScopeRule} → Memᴰ r [] → ⊥
    none_in m = elim m [ ]

map-nil : (f : ScopeRule → Text) (rs : List ScopeRule) → map f rs ≡ [] → rs ≡ []
map-nil f [] h = refl
map-nil f (r ∷ rs) h = cc

named-allowed :
    (o : Option ScopeRule) (m : Text) (next : ScopeDecision)
    → is_allowed (decide_named o m next) ≡ true
    → (o ≡ none) × (is_allowed next ≡ true)
unfolding decide_named
named-allowed none m next h = (refl, h)
named-allowed (some r) m next h = cc

listed-allowed :
    (methods : List Text) (m : Text)
    → is_allowed (decide_listed methods m) ≡ true
    → contains methods m ≡ true
unfolding decide_listed
listed-allowed methods m h = ground arith

module _ (g : ScopeGuard) (m : Text) (e : is_allowed (decide_method g m) ≡ true) where
  split_method :
      (find (λ r. m == upper r.pattern) (filter (is_method_rule true) g.rules) ≡ none)
      × (is_allowed (decide_listed (allowed_methods g) m) ≡ true)
  unfolding decide_method
  split_method =
      named-allowed (find (λ r. m == upper r.pattern) (filter (is_method_rule true) g.rules)) m
        (decide_listed (allowed_methods g) m) e

  pub allowed-method_not_excluded :
      (r : ScopeRule) → Memᴰ r g.rules → is_method_rule true r ≡ true → m ≢ upper r.pattern
  allowed-method_not_excluded r k x =
      not_named m (filter (is_method_rule true) g.rules) split_method.0
        (filter_mem (is_method_rule true) g.rules k x)

  pub allowed-method_included :
      (((r : ScopeRule) → Memᴰ r g.rules → is_method_rule false r ≡ false)
        × Memᴰ m g.default_allowed_methods)
      ⊎ ((r : ScopeRule) × Memᴰ r g.rules × (is_method_rule false r ≡ true) × (m ≡ upper r.pattern))
  unfolding allowed_methods
  allowed-method_included =
      elim (in_methods m (map (λ r. upper r.pattern) (filter (is_method_rule false) g.rules))
        g.default_allowed_methods (listed-allowed (allowed_methods g) m split_method.1)) [
          | inl (n, k) ↦
              inl
                ((none_kept (is_method_rule false) g.rules (map-nil (λ r. upper r.pattern) _ n)), k)
          | inr k ↦
              let (r, i, q) =
                mem_map (λ r. upper r.pattern) m (filter (is_method_rule false) g.rules) k in
              let (j, x) = mem_filter (is_method_rule false) r g.rules i in inr (r, j, x, q)
        ]
