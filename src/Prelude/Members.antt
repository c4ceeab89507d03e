-- ===== src/Prelude/Members.antt =====
-- What a Boolean quantifier, a filter and a search say of the members of a list.
use mathlib.Core.Path.{◌≡◌, refl, sym, ap}
use mathlib.Core.Bool.{Bool, true, false}
use mathlib.Core.Logic.{inl, inr}
use mathlib.Core.List.{List, [], ◌∷◌, ◌++◌, map, Memᴰ}
use mathlib.Core.Option.{none, some}
use native.Mathlib.Omega.{arith}
use security_tool.Prelude.Tests.{Equality, is_some, ◌==◌, Bool-cases}
use security_tool.Prelude.Lists.{any, filter, find, contains}

module _ {ℓ} {A : Type ℓ} where
  pub any_found :
      (p : A → Bool) (xs : List A) → any p xs ≡ true → (x : A) × Memᴰ x xs × (p x ≡ true)
  unfolding any
  any_found p [] h = cc
  any_found p (x ∷ xs) h = elim (Bool-cases (p x)) [
    | inl e ↦ (x, Memᴰ.head refl, e)
    | inr n ↦ let (y, m, e) = any_found p xs (ground arith) in (y, Memᴰ.tail m, e)
  ]

  pub any_mem : (p : A → Bool) {x : A} (xs : List A) → Memᴰ x xs → p x ≡ true → any p xs ≡ true
  unfolding any
  any_mem p [] m h = elim m [ ]
  any_mem p (x ∷ xs) (Memᴰ.head e) h = ground (arith, ap p e)
  any_mem p (x ∷ xs) (Memᴰ.tail m) h = ground (arith, any_mem p xs m h)

  pub any_none : (p : A → Bool) {x : A} (xs : List A) → any p xs ≡ false → Memᴰ x xs → p x ≡ false
  unfolding any
  any_none p [] h m = elim m [ ]
  any_none p (x ∷ xs) h (Memᴰ.head e) = ground (arith, ap p e)
  any_none p (x ∷ xs) h (Memᴰ.tail m) = any_none p xs (ground arith) m

  pub filter_mem :
      (p : A → Bool) {x : A} (xs : List A) → Memᴰ x xs → p x ≡ true → Memᴰ x (filter p xs)
  unfolding filter
  filter_mem p [] m h = elim m [ ]
  filter_mem p (y ∷ xs) (Memᴰ.head e) h =
      let k : p y ≡ true = ground (arith, ap p e) in rw k (Memᴰ.head e)
  filter_mem p (y ∷ xs) (Memᴰ.tail m) h = elim (Bool-cases (p y)) [
    | inl k ↦ rw k (Memᴰ.tail (filter_mem p xs m h))
    | inr k ↦ rw k (filter_mem p xs m h)
  ]

  pub mem_filter :
      (p : A → Bool) (x : A) (xs : List A) → Memᴰ x (filter p xs) → Memᴰ x xs × (p x ≡ true)
  unfolding filter
  mem_filter p x [] m = elim m [ ]
  mem_filter p x (y ∷ xs) m = elim (Bool-cases (p y)) [
    | inl k ↦ kept y k (mem_filter p x xs) (rw k at m)
    | inr k ↦ let (n, e) = mem_filter p x xs (rw k at m) in (Memᴰ.tail n, e)
  ]
    where
      kept :
          (y : A)
          → p y ≡ true
          → (Memᴰ x (filter p xs) → Memᴰ x xs × (p x ≡ true))
          → Memᴰ x (y ∷ filter p xs)
          → Memᴰ x (y ∷ xs) × (p x ≡ true)
      kept y k ih (Memᴰ.head e) = (Memᴰ.head e, ground (arith, ap p e))
      kept y k ih (Memᴰ.tail n) = (Memᴰ.tail (ih n).0, (ih n).1)

  pub any-find : (p : A → Bool) (xs : List A) → any p xs ≡ is_some (find p xs)
  unfolding any find
  any-find p [] = refl
  any-find p (x ∷ xs) = ground (arith, any-find p xs)

  pub mem-append : {x : A} (xs ys : List A) → Memᴰ x xs → Memᴰ x (xs ++ ys)
  mem-append [] ys m = elim m [ ]
  mem-append (y ∷ xs) ys (Memᴰ.head e) = Memᴰ.head e
  mem-append (y ∷ xs) ys (Memᴰ.tail m) = Memᴰ.tail (mem-append xs ys m)

  pub find-none : (p : A → Bool) {x : A} (xs : List A) → find p xs ≡ none → Memᴰ x xs → p x ≡ false
  unfolding find
  find-none p [] h m = elim m [ ]
  find-none p (y ∷ xs) h (Memᴰ.head e) = ground (arith, ap p e)
  find-none p (y ∷ xs) h (Memᴰ.tail m) = find-none p xs (ground arith) m

  pub find-some :
      (p : A → Bool) {x : A} (xs : List A) → find p xs ≡ some x → Memᴰ x xs × (p x ≡ true)
  unfolding find
  find-some p [] h = cc
  find-some p {x} (y ∷ xs) h = elim (Bool-cases (p y)) [
    | inl k ↦ let e : y ≡ x = ground arith in (Memᴰ.head (sym e), ground (arith, ap p e))
    | inr k ↦ let (m, e) = find-some p xs (ground arith) in (Memᴰ.tail m, e)
  ]

module _ {ℓ} {A : Type ℓ} ⦃e : Equality A⦄ where
  pub contains_mem : (a : A) (xs : List A) → contains xs a ≡ true → Memᴰ a xs
  unfolding contains
  contains_mem a [] h = cc
  contains_mem a (x ∷ xs) h = elim (Bool-cases (x == a)) [
    | inl k ↦ Memᴰ.head (sym ((e.same_iff x a).0 k))
    | inr k ↦ Memᴰ.tail (contains_mem a xs (ground arith))
  ]

  pub mem_contains : {a : A} (xs : List A) → Memᴰ a xs → contains xs a ≡ true
  unfolding contains
  mem_contains [] m = elim m [ ]
  mem_contains {a} (x ∷ xs) (Memᴰ.head k) = ground (arith, (e.same_iff x a).1 (sym k))
  mem_contains {a} (x ∷ xs) (Memᴰ.tail m) = ground (arith, mem_contains xs m)

module _ {ℓ κ} {A : Type ℓ} {B : Type κ} where
  pub mem-map : (f : A → B) {a : A} (xs : List A) → Memᴰ a xs → Memᴰ (f a) (map f xs)
  mem-map f [] m = elim m [ ]
  mem-map f (x ∷ xs) (Memᴰ.head e) = Memᴰ.head (ap f e)
  mem-map f (x ∷ xs) (Memᴰ.tail m) = Memᴰ.tail (mem-map f xs m)

  pub mem_map :
      (f : A → B) (b : B) (xs : List A) → Memᴰ b (map f xs) → (a : A) × Memᴰ a xs × (b ≡ f a)
  mem_map f b [] m = elim m [ ]
  mem_map f b (x ∷ xs) (Memᴰ.head e) = (x, Memᴰ.head refl, e)
  mem_map f b (x ∷ xs) (Memᴰ.tail m) = let (a, n, e) = mem_map f b xs m in (a, Memᴰ.tail n, e)
