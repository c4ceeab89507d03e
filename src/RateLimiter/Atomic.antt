-- ===== src/RateLimiter/Atomic.antt =====
-- What the limiter promises: one bucket, which each call reads and writes at once.
use security_tool.Prelude.{Option, none, some, if◌then◌else◌, Number, nought, ◌⊞◌, ◌≼◌}
use security_tool.RateLimiter.{RateLimiter, AcquireResult, Bucket, attempt}

-- The bucket, the time since which it stands, the clock, and the tokens given out so far.
pub record Shared {ℓ} (W : Type ℓ) : Type ℓ where
  pub bucket : Option (Bucket W)
  pub since : W
  pub clock : W
  pub granted : W

module _ {ℓ} {W : Type ℓ} ⦃n : Number W⦄ where
  -- The tokens of a call that ends with this result.
  unfoldable pub given : W → AcquireResult W → W
  given cost r = if r.allowed then cost else nought

  unfoldable pub takes : RateLimiter W → W → W → W → Shared W → Shared W
  takes l rate cost now s =
      let (result, stored) = attempt l rate cost s.bucket now in
      record s { bucket = some stored; since = now; granted = s.granted ⊞ given cost result }

  -- The limiter's promise, for calls whose rate is at most `most`.
  pub data Serves (l : RateLimiter W) (most : W) : Shared W → Shared W → Type ℓ where
    serves_call :
        {s : Shared W} (rate cost now : W)
        → nought ≼ rate
        → rate ≼ most
        → nought ≼ cost
        → s.since ≼ now
        → now ≼ s.clock
        → Serves l most s (takes l rate cost now s)
    serves_expiry :
        {s : Shared W}
        → s.since ⊞ n.literal 3600 0 ≼ s.clock
        → Serves l most s (record s { bucket = none; since = s.clock })
    serves_time :
        {s : Shared W} (later : W) → s.clock ≼ later → Serves l most s (record s { clock = later })
    serves_nothing : {s : Shared W} → Serves l most s s

  unfoldable pub opened : W → Shared W
  opened start = record { bucket = none; since = start; clock = start; granted = nought }
