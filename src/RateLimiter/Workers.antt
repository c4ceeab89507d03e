-- ===== src/RateLimiter/Workers.antt =====
-- Many workers on one bucket: the rounds of their calls, interleaved. The key has a version, which
-- each write and each expiry changes: EXEC is aborted unless it is the one of the WATCH.
use security_tool.Prelude.{
  ℕ, zero, suc, ◌≡◌, ◌≢◌, Option, none, some, if◌then◌else◌, nat_beq, Number, nought, ◌⊞◌, ◌≼◌,
}
use security_tool.RateLimiter.{
  RateLimiter, Bucket, Factor, effective_rate, max_cas_retries, attempt,
}
use security_tool.RateLimiter.Atomic.{Shared, given, opened}

-- A call of try_acquire, with the rounds that it has left.
pub record Call {ℓ} (W : Type ℓ) : Type ℓ where
  pub rate : W
  pub cost : W
  pub left : ℕ

-- Where in a round a worker is.
pub data Phase {ℓ} (W : Type ℓ) : Type ℓ where
  idle : Phase W
  trying : Call W → Phase W
  watching : Call W → ℕ → Phase W
  has_read : Call W → ℕ → Option (Bucket W) → Phase W
  ready : Call W → ℕ → Option (Bucket W) → W → Phase W

pub record System {ℓ} (W : Type ℓ) : Type ℓ where
  pub shared : Shared W
  pub version : ℕ
  pub workers : ℕ → Phase W

module _ {ℓ} {W : Type ℓ} where
  unfoldable pub moved : ℕ → Phase W → (ℕ → Phase W) → ℕ → Phase W
  moved k p workers j = if nat_beq j k then p else workers j

  unfoldable pub moves : ℕ → Phase W → System W → System W
  moves k p s = record s { workers = moved k p s.workers }

module _ {ℓ} {W : Type ℓ} ⦃n : Number W⦄ where
  unfoldable pub commits : RateLimiter W → ℕ → Call W → W → Option (Bucket W) → System W → System W
  commits l k c now seen s =
      let (result, stored) = attempt l c.rate c.cost seen now in
      record {
        shared = record s.shared {
          bucket = some stored;
          since = now;
          granted = s.shared.granted ⊞ given c.cost result;
        };
        version = suc s.version;
        workers = moved k idle s.workers;
      }

  pub data Step (l : RateLimiter W) (most : W) : System W → System W → Type ℓ where
    begins :
        {s : System W} (k : ℕ) (base_rate : Option W) (key : Option (Factor W)) (cost : W)
        → s.workers k ≡ idle
        → nought ≼ effective_rate l base_rate key
        → effective_rate l base_rate key ≼ most
        → nought ≼ cost
        → Step l most s (
            moves k
              (trying record {
                rate = effective_rate l base_rate key;
                cost = cost;
                left = max_cas_retries;
              })
              s)
    watches :
        {s : System W} (k left : ℕ) (rate cost : W)
        → s.workers k ≡ trying record { rate = rate; cost = cost; left = suc left }
        → Step l most s
            (moves k (watching record { rate = rate; cost = cost; left = left } s.version) s)
    reads :
        {s : System W} (k version : ℕ) (c : Call W)
        → s.workers k ≡ watching c version
        → Step l most s (moves k (has_read c version s.shared.bucket) s)
    stamps :
        {s : System W} (k version : ℕ) (c : Call W) (seen : Option (Bucket W))
        → s.workers k ≡ has_read c version seen
        → Step l most s (moves k (ready c version seen s.shared.clock) s)
    executes :
        {s : System W} (k : ℕ) (c : Call W) (seen : Option (Bucket W)) (now : W)
        → s.workers k ≡ ready c s.version seen now
        → Step l most s (commits l k c now seen s)
    loses :
        {s : System W} (k version : ℕ) (c : Call W) (seen : Option (Bucket W)) (now : W)
        → s.workers k ≡ ready c version seen now
        → version ≢ s.version
        → Step l most s (moves k (trying c) s)
    gives_up :
        {s : System W} (k : ℕ) (rate cost : W)
        → s.workers k ≡ trying record { rate = rate; cost = cost; left = zero }
        → Step l most s (moves k idle s)
    expires :
        {s : System W}
        → s.shared.since ⊞ n.literal 3600 0 ≼ s.shared.clock
        → Step l most s (record s {
          shared = record s.shared { bucket = none; since = s.shared.clock };
          version = suc s.version;
        })
    passes :
        {s : System W} (later : W)
        → s.shared.clock ≼ later
        → Step l most s (record s { shared = record s.shared { clock = later } })

  unfoldable pub idle_system : W → System W
  idle_system start = record { shared = opened start; version = 0; workers = λ k. idle }

  pub data Reached (l : RateLimiter W) (most start : W) : System W → Type ℓ where
    at_start : Reached l most start (idle_system start)
    then_step : {s t : System W} → Reached l most start s → Step l most s t → Reached l most start t
