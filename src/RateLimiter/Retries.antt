-- ===== src/RateLimiter/Retries.antt =====
-- try_acquire's rounds: what is lost to other workers, and what is written.
use security_tool.Prelude.{
  ℕ, zero, suc, ◌<◌, ◌≡◌, refl, true, false, Option, none, some, Number, arith,
}
use security_tool.RateLimiter.{
  RateLimiter, Bucket, Factor, Round, AcquireResult, attempt, contended, retry_loop, try_acquire,
  effective_rate,
}

abbrev pub stores_all {ℓ} :
    {W : Type ℓ} → AcquireResult W × Bucket W → AcquireResult W × Option (Bucket W)
stores_all (r, b) = (r, some b)

module _ {ℓ} {W : Type ℓ} ⦃n : Number W⦄ (l : RateLimiter W) where
  pub retry_loop-first :
      (rate cost : W) (rounds : ℕ → Round W) (left k : ℕ)
      → k < left
      → ((j : ℕ) → j < k → (rounds j).watch_error ≡ true)
      → (rounds k).watch_error ≡ false
      → retry_loop l rate cost rounds left
        ≡ stores_all (attempt l rate cost (rounds k).seen (rounds k).now)
  unfolding retry_loop
  retry_loop-first rate cost rounds zero k few lost won = absurd (omega arith)
  retry_loop-first rate cost rounds (suc left) zero few lost won = rw won refl
  retry_loop-first rate cost rounds (suc left) (suc k) few lost won = rw (lost 0 (omega arith)) (
      retry_loop-first rate cost (λ j. rounds (suc j)) left k (omega arith)
        (λ j h. lost (suc j) (omega arith)) won)

  retry_loop-none :
      (rate cost : W) (rounds : ℕ → Round W) (left : ℕ)
      → ((j : ℕ) → j < left → (rounds j).watch_error ≡ true)
      → retry_loop l rate cost rounds left ≡ (contended rate, none)
  unfolding retry_loop
  retry_loop-none rate cost rounds zero lost = refl
  retry_loop-none rate cost rounds (suc left) lost =
      rw (lost 0 (omega arith))
        (retry_loop-none rate cost (λ j. rounds (suc j)) left λ j h. lost (suc j) (omega arith))

  -- A call of try_acquire does and writes what its first undisturbed round decides, where that
  -- round is one of the first ten, whatever the rounds before it read.
  pub try_acquire-first :
      (cost : W) (base_rate : Option W) (key : Option (Factor W)) (rounds : ℕ → Round W) (k : ℕ)
      → k < 10
      → ((j : ℕ) → j < k → (rounds j).watch_error ≡ true)
      → (rounds k).watch_error ≡ false
      → try_acquire l cost base_rate key rounds
        ≡ stores_all
            (attempt l (effective_rate l base_rate key) cost (rounds k).seen (rounds k).now)
  unfolding try_acquire
  try_acquire-first cost base_rate key rounds k =
      retry_loop-first (effective_rate l base_rate key) cost rounds 10 k

  -- If another worker disturbs all ten rounds, the call is refused and writes nothing.
  pub try_acquire-contended :
      (cost : W) (base_rate : Option W) (key : Option (Factor W)) (rounds : ℕ → Round W)
      → ((j : ℕ) → j < 10 → (rounds j).watch_error ≡ true)
      → try_acquire l cost base_rate key rounds ≡ (contended (effective_rate l base_rate key), none)
  unfolding try_acquire
  try_acquire-contended cost base_rate key rounds =
      retry_loop-none (effective_rate l base_rate key) cost rounds 10
