-- ===== src/SurfaceAdapter/Keyed.antt =====
-- Tables in which no key has two rows.
use security_tool.Prelude.{
  suc, ◌≤◌, Bool, true, List, [], ◌∷◌, ◌++◌, map, filter, length, length-append, ◌≡◌, refl, ap,
  subst, sym, Bool-cases, inl, inr, arith,
}

module _ {A : Type 0} where
  pub filter-append :
      (p : A → Bool) (xs ys : List A) → filter p (xs ++ ys) ≡ filter p xs ++ filter p ys
  unfolding filter
  filter-append p [] ys = refl
  filter-append p (x ∷ xs) ys = elim (Bool-cases (p x)) [
    | inl e ↦ rw (e, filter-append p xs ys) refl
    | inr e ↦ rw (e, filter-append p xs ys) refl
  ]

  length-filter-map :
      (p : A → Bool) (f : A → A) (xs : List A)
      → ((x : A) → p (f x) ≡ p x)
      → length (filter p (map f xs)) ≡ length (filter p xs)
  unfolding filter
  length-filter-map p f [] h = refl
  length-filter-map p f (x ∷ xs) h = elim (Bool-cases (p x)) [
    | inl e ↦ rw (h x, e) (ap suc (length-filter-map p f xs h))
    | inr e ↦ rw (h x, e) (length-filter-map p f xs h)
  ]

module _ {A K : Type 0} (same : K → A → Bool) where
  abbrev pub IsKeyed : List A → Type 0
  IsKeyed xs = (k : K) → length (filter (same k) xs) ≤ 1

  pub IsKeyed-snoc :
      (xs : List A) (x : A) (k : K)
      → IsKeyed xs
      → filter (same k) xs ≡ []
      → ((j : K) → same j x ≡ true → j ≡ k)
      → IsKeyed (xs ++ x ∷ [])
  unfolding filter
  IsKeyed-snoc xs x k keyed none_yet only j = elim (Bool-cases (same j x)) [
    | inl e ↦
        let here = subst (λ i. filter (same i) xs ≡ []) (sym (only j e)) none_yet in
        rw (filter-append (same j) xs (x ∷ []), e, here) (omega arith)
    | inr e ↦
        let k = keyed j in
        rw (filter-append (same j) xs (x ∷ []), e, length-append (filter (same j) xs) [])
          (omega (arith, k))
  ]

  pub IsKeyed-map :
      (f : A → A) (xs : List A)
      → ((j : K) (x : A) → same j (f x) ≡ same j x)
      → IsKeyed xs
      → IsKeyed (map f xs)
  IsKeyed-map f xs h keyed j =
      let e = length-filter-map (same j) f xs (h j) in let k = keyed j in omega (arith, e, k)
