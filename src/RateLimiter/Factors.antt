-- ===== src/RateLimiter/Factors.antt =====
-- The backpressure factor and the rate it leaves.
use security_tool.Prelude.{
  ℕ, sym, subst, Bool-cases, inl, inr, Option, none, some, List, [], ◌∷◌, Number, IsExact, nought,
  one, ◌⊠◌, ◌≼◌, larger-le, le-larger, smaller-le, le-smaller, arith,
}
use security_tool.RateLimiter.{
  RateLimiter, Factor, current, chosen, effective_rate, report_backpressure, report_success,
}

-- What the workers report of a target: a factor and its lifetime, or a success. A key also
-- expires.
pub data Report {ℓ} (W : Type ℓ) : Type ℓ where
  backpressure : W → ℕ → Report W
  success : Report W
  expiry : Report W

module _ {ℓ} {W : Type ℓ} ⦃n : Number W⦄ (l : RateLimiter W) where
  unfoldable pub reported : Report W → Option (Factor W) → Option (Factor W)
  reported (backpressure factor ttl_s) key = report_backpressure l factor ttl_s key
  reported success key = report_success key
  reported expiry key = none

  unfoldable pub reports : List (Report W) → Option (Factor W) → Option (Factor W)
  reports [] key = key
  reports (r ∷ rs) key = reports rs (reported r key)

module _ {ℓ} {W : Type ℓ} ⦃n : Number W⦄ (exact : IsExact W) (l : RateLimiter W) where
  abbrev IsFraction : Option (Factor W) → Type 0
  IsFraction key = (l.min_factor ≼ current key) × (current key ≼ one)

  abbrev IsCut : Report W → Type 0
  IsCut (backpressure factor ttl_s) = factor ≼ one
  IsCut r = Unit

  abbrev AllCut : List (Report W) → Type 0
  AllCut [] = Unit
  AllCut (r ∷ rs) = IsCut r × AllCut rs

  backpressure-IsFraction :
      (factor : W) (ttl_s : ℕ) (key : Option (Factor W))
      → nought ≼ l.min_factor
      → l.min_factor ≼ one
      → factor ≼ one
      → IsFraction key
      → IsFraction (report_backpressure l factor ttl_s key)
  unfolding report_backpressure current
  backpressure-IsFraction factor ttl_s key pos small cut (a, b) = (
    (le-larger exact (current key ⊠ factor) l.min_factor).1,
    larger-le exact (current key ⊠ factor) l.min_factor one
        (exact.le_trans (current key ⊠ factor) (current key ⊠ one) one
          (exact.mul_mono factor one (current key)
            (exact.le_trans nought l.min_factor (current key) pos a) cut)
          (subst (λ z. z ≼ one) (sym (exact.mul_one (current key))) b))
        small,
  )

  success-IsFraction :
      (key : Option (Factor W))
      → nought ≼ l.min_factor
      → l.min_factor ≼ one
      → IsFraction key
      → IsFraction (report_success key)
  unfolding report_success current
  success-IsFraction none pos small h = h
  success-IsFraction (some k) pos small (a, b) = elim (Bool-cases (n.at_most one k.value)) [
    | inl e ↦ rw e (small, exact.le_refl one)
    | inr e ↦
        let grown =
          subst (λ z. z ≼ k.value ⊠ n.literal 11 1) (exact.mul_one k.value)
            (exact.mul_mono one (n.literal 11 1) k.value
              (exact.le_trans nought l.min_factor k.value pos a)
              (exact.tenths 1 11 (omega arith))) in
        rw e (
          le-smaller exact one (k.value ⊠ n.literal 11 1) l.min_factor small
              (exact.le_trans l.min_factor k.value (k.value ⊠ n.literal 11 1) a grown),
          (smaller-le exact one (k.value ⊠ n.literal 11 1)).0,
        )
  ]

  reports-IsFraction :
      (rs : List (Report W)) (key : Option (Factor W))
      → nought ≼ l.min_factor
      → l.min_factor ≼ one
      → AllCut rs
      → IsFraction key
      → IsFraction (reports l rs key)
  unfolding reports reported current
  reports-IsFraction [] key pos small cut h = h
  reports-IsFraction (backpressure factor t ∷ rs) key pos small (c, cs) h =
      reports-IsFraction rs (report_backpressure l factor t key) pos small cs
        (backpressure-IsFraction factor t key pos small c h)
  reports-IsFraction (success ∷ rs) key pos small (_, cs) h =
      reports-IsFraction rs (report_success key) pos small cs (success-IsFraction key pos small h)
  reports-IsFraction (expiry ∷ rs) key pos small (_, cs) h =
      reports-IsFraction rs none pos small cs (small, exact.le_refl one)

  -- Whatever the workers report of a target and whenever the key expires, the effective rate
  -- stays between the floor and the rate asked for, where the rate and the floor are not
  -- negative, the floor is at most one, and no report of backpressure has a factor above one.
  pub effective_rate_bounds :
      (base_rate : Option W) (rs : List (Report W))
      → nought ≼ l.min_factor
      → l.min_factor ≼ one
      → nought ≼ chosen l.default_rate base_rate
      → AllCut rs
      → (chosen l.default_rate base_rate ⊠ l.min_factor
          ≼ effective_rate l base_rate (reports l rs none))
        × (effective_rate l base_rate (reports l rs none) ≼ chosen l.default_rate base_rate)
  unfolding effective_rate current
  effective_rate_bounds base_rate rs pos small rate cut =
      let key = reports l rs none in
      let (a, b) = reports-IsFraction rs none pos small cut (small, exact.le_refl one) in
      (
        (le-larger exact (r ⊠ current key) (r ⊠ l.min_factor)).1,
        larger-le exact (r ⊠ current key) (r ⊠ l.min_factor) r (below (current key) b)
            (below l.min_factor small),
      )
    where
      r : W
      r = chosen l.default_rate base_rate

      below : (x : W) → x ≼ one → r ⊠ x ≼ r
      below x h = subst (λ z. r ⊠ x ≼ z) (exact.mul_one r) (exact.mul_mono x one r rate h)
