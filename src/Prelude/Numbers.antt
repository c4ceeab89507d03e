-- ===== src/Prelude/Numbers.antt =====
-- Python's floats as the code uses them: literals, four operations and an order. Their laws are
-- those of exact arithmetic.
use Prim.Native.Nat.{ℕ, ◌*◌, ◌≤◌}
use mathlib.Core.Path.{◌≡◌, refl, ap, subst, sym, ◌∙◌}
use mathlib.Core.Logic.{◌⊎◌, inl, inr}
use mathlib.Core.Bool.{Bool, true, false}
use mathlib.Core.Bool.{true≢false}
use security_tool.Prelude.Tests.{if◌then◌else◌}

-- `literal m n` is the number that is written with the digits m, n of them after the point.
pub record Number {ℓ} (W : Type ℓ) : Type ℓ where
  pub literal : ℕ → ℕ → W
  pub at_most : W → W → Bool
  pub add : W → W → W
  pub sub : W → W → W
  pub mul : W → W → W
  pub div : W → W → W

infixl 6 ◌⊞◌
infixl 6 ◌⊟◌
infixl 7 ◌⊠◌
infix 4 ◌≼◌
abbrev pub ◌⊞◌ {ℓ} : {W : Type ℓ} ⦃n : Number W⦄ → W → W → W
◌⊞◌ ⦃n⦄ x y = n.add x y

abbrev pub ◌⊟◌ {ℓ} : {W : Type ℓ} ⦃n : Number W⦄ → W → W → W
◌⊟◌ ⦃n⦄ x y = n.sub x y

abbrev pub ◌⊠◌ {ℓ} : {W : Type ℓ} ⦃n : Number W⦄ → W → W → W
◌⊠◌ ⦃n⦄ x y = n.mul x y

abbrev pub ◌≼◌ {ℓ} : {W : Type ℓ} ⦃n : Number W⦄ → W → W → Type 0
◌≼◌ ⦃n⦄ x y = n.at_most x y ≡ true

abbrev pub nought {ℓ} : {W : Type ℓ} ⦃n : Number W⦄ → W
nought ⦃n⦄ = n.literal 0 0

abbrev pub one {ℓ} : {W : Type ℓ} ⦃n : Number W⦄ → W
one ⦃n⦄ = n.literal 1 0

-- max and min of two numbers
unfoldable pub larger {ℓ} : {W : Type ℓ} ⦃n : Number W⦄ → W → W → W
larger ⦃n⦄ x y = if n.at_most y x then x else y

unfoldable pub smaller {ℓ} : {W : Type ℓ} ⦃n : Number W⦄ → W → W → W
smaller ⦃n⦄ x y = if n.at_most x y then x else y

pub record IsExact {ℓ} (W : Type ℓ) ⦃n : Number W⦄ : Type ℓ where
  pub le_refl : (x : W) → x ≼ x
  pub le_trans : (x y z : W) → x ≼ y → y ≼ z → x ≼ z
  pub le_antisym : (x y : W) → x ≼ y → y ≼ x → x ≡ y
  pub le_total : (x y : W) → (x ≼ y) ⊎ (y ≼ x)
  pub add_assoc : (x y z : W) → x ⊞ y ⊞ z ≡ x ⊞ (y ⊞ z)
  pub add_comm : (x y : W) → x ⊞ y ≡ y ⊞ x
  pub add_nought : (x : W) → x ⊞ nought ≡ x
  pub add_mono : (x y z : W) → x ≼ y → x ⊞ z ≼ y ⊞ z
  pub sub_add : (x y : W) → y ≼ x → (x ⊟ y) ⊞ y ≡ x
  pub le_sub : (x y z : W) → x ⊞ y ≼ z → y ≼ z ⊟ x
  pub sub_split : (x y z : W) → x ≼ y → y ≼ z → (y ⊟ x) ⊞ (z ⊟ y) ≡ z ⊟ x
  pub sub_nonneg : (x y : W) → y ≼ x → nought ≼ x ⊟ y
  pub mul_mono : (x y z : W) → nought ≼ z → x ≼ y → z ⊠ x ≼ z ⊠ y
  pub mul_comm : (x y : W) → x ⊠ y ≡ y ⊠ x
  pub mul_one : (x : W) → x ⊠ one ≡ x
  pub mul_nought : (x : W) → x ⊠ nought ≡ nought
  pub mul_add : (x y z : W) → x ⊠ (y ⊞ z) ≡ x ⊠ y ⊞ x ⊠ z
  pub div_mul : (x y : W) → (y ≼ nought → ⊥) → x ≼ n.div x y ⊠ y
  pub div_nonneg : (x y : W) → nought ≼ x → (y ≼ nought → ⊥) → nought ≼ n.div x y
  pub literal_nonneg : (m k : ℕ) → nought ≼ n.literal m k
  pub tenths : (m k : ℕ) → 10 * m ≤ k → n.literal m 0 ≼ n.literal k 1

-- Lemmas on exact numbers.
module _ {ℓ} {W : Type ℓ} ⦃n : Number W⦄ (exact : IsExact W) where
  pub larger-le : (x y z : W) → x ≼ z → y ≼ z → larger x y ≼ z
  unfolding larger
  larger-le x y z a b = elim (n.at_most y x) as (λ c. (if c then x else y) ≼ z) [
    | true ↦ a
    | false ↦ b
  ]

  pub le-larger : (x y : W) → (x ≼ larger x y) × (y ≼ larger x y)
  unfolding larger
  le-larger x y =
      elim (n.at_most y x)
          as (λ c. (n.at_most y x ≡ c) → (x ≼ (if c then x else y)) × (y ≼ (if c then x else y))) [
            | true ↦ λ e. (exact.le_refl x, e)
            | false ↦ λ e. (
              elim (exact.le_total y x) [ inl h ↦ absurd (true≢false (sym h ∙ e)) | inr h ↦ h ],
              exact.le_refl y,
            )
          ]
        refl

  pub smaller-le : (x y : W) → (smaller x y ≼ x) × (smaller x y ≼ y)
  unfolding smaller
  smaller-le x y =
      elim (n.at_most x y)
          as (λ c. (n.at_most x y ≡ c) → ((if c then x else y) ≼ x) × ((if c then x else y) ≼ y)) [
            | true ↦ λ e. (exact.le_refl x, e)
            | false ↦ λ e. (
              elim (exact.le_total x y) [ inl h ↦ absurd (true≢false (sym h ∙ e)) | inr h ↦ h ],
              exact.le_refl y,
            )
          ]
        refl

  pub smaller-cases : (x y : W) → (smaller x y ≡ x) ⊎ (smaller x y ≡ y)
  unfolding smaller
  smaller-cases x y =
      elim (n.at_most x y) as (λ c. ((if c then x else y) ≡ x) ⊎ ((if c then x else y) ≡ y)) [
        | true ↦ inl refl
        | false ↦ inr refl
      ]

  pub add_mono_right : (x y z : W) → x ≼ y → z ⊞ x ≼ z ⊞ y
  add_mono_right x y z h =
      subst (λ a. a ≼ z ⊞ y) (exact.add_comm x z)
        (subst (λ b. x ⊞ z ≼ b) (exact.add_comm y z) (exact.add_mono x y z h))

  pub add_swap : (x y z : W) → x ⊞ y ⊞ z ≡ x ⊞ z ⊞ y
  add_swap x y z =
      exact.add_assoc x y z ∙ ap (λ a. x ⊞ a) (exact.add_comm y z) ∙ sym (exact.add_assoc x z y)

  pub le_add : (x y : W) → nought ≼ y → x ≼ x ⊞ y
  le_add x y h = subst (λ a. a ≼ x ⊞ y) (exact.add_nought x) (add_mono_right nought y x h)

  pub add_mul : (x y z : W) → (x ⊞ y) ⊠ z ≡ x ⊠ z ⊞ y ⊠ z
  add_mul x y z =
      exact.mul_comm (x ⊞ y) z
      ∙ exact.mul_add z x y
      ∙ ap (λ a. a ⊞ z ⊠ y) (exact.mul_comm z x)
      ∙ ap (λ a. x ⊠ z ⊞ a) (exact.mul_comm z y)

  pub mul_nonneg : (x y : W) → nought ≼ x → nought ≼ y → nought ≼ x ⊠ y
  mul_nonneg x y a b = subst (λ z. z ≼ x ⊠ y) (exact.mul_nought x) (exact.mul_mono nought y x a b)

  pub add_nonneg : (x y : W) → nought ≼ x → nought ≼ y → nought ≼ x ⊞ y
  add_nonneg x y a b = exact.le_trans nought x (x ⊞ y) a (le_add x y b)

  pub elapsed-eq : (x y : W) → x ≼ y → larger nought (y ⊟ x) ≡ y ⊟ x
  unfolding larger
  elapsed-eq x y h =
      elim (n.at_most (y ⊟ x) nought)
          as (λ c. (n.at_most (y ⊟ x) nought ≡ c) → (if c then nought else y ⊟ x) ≡ y ⊟ x) [
            | true ↦ λ e. exact.le_antisym nought (y ⊟ x) (exact.sub_nonneg y x h) e
            | false ↦ λ _. refl
          ]
        refl

  pub le-smaller : (x y z : W) → z ≼ x → z ≼ y → z ≼ smaller x y
  unfolding smaller
  le-smaller x y z a b = elim (n.at_most x y) as (λ c. z ≼ (if c then x else y)) [
    | true ↦ a
    | false ↦ b
  ]

  pub add_sub : (x y : W) → y ≼ x → y ⊞ (x ⊟ y) ≡ x
  add_sub x y h = exact.add_comm y (x ⊟ y) ∙ exact.sub_add x y h

  pub sub_le : (x y : W) → nought ≼ y → y ≼ x → x ⊟ y ≼ x
  sub_le x y p h = subst (λ z. x ⊟ y ≼ z) (exact.sub_add x y h) (le_add (x ⊟ y) y p)

  pub mul_mono_left : (x y z : W) → nought ≼ z → x ≼ y → x ⊠ z ≼ y ⊠ z
  mul_mono_left x y z p h =
      subst (λ a. a ≼ y ⊠ z) (exact.mul_comm z x)
        (subst (λ b. z ⊠ x ≼ b) (exact.mul_comm z y) (exact.mul_mono x y z p h))

  pub smaller_mono : (x y z : W) → y ≼ z → smaller x y ≼ smaller x z
  smaller_mono x y z h =
      let (a, b) = smaller-le x y in
      le-smaller x z (smaller x y) a (exact.le_trans (smaller x y) y z b h)

  pub nonneg_of_pos : (x : W) → (x ≼ nought → ⊥) → nought ≼ x
  nonneg_of_pos x h = elim (exact.le_total nought x) [ inl a ↦ a | inr a ↦ absurd (h a) ]
