-- ===== src/RateLimiter.antt =====
-- packages/core/src/sentinel_core/rate_limiter/limiter.py
-- A float is a number of Prelude/Numbers. What Redis stores is the value, and not its spelling.
-- One target is modelled, since each target has keys of its own.
mod Tests
pub mod Atomic
pub mod Fair
pub mod Retries
pub mod Waiting
pub mod Factors
pub mod Workers
pub mod Refines
use security_tool.Prelude.{
  ℕ, zero, suc, ◌+◌, ◌≡◌, Bool, true, false, Option, none, some, if◌then◌else◌, arith, Number,
  nought, one, ◌⊞◌, ◌⊟◌, ◌⊠◌, larger, smaller,
}

abbrev pub max_cas_retries : ℕ
max_cas_retries = 10

pub record AcquireResult {ℓ} (W : Type ℓ) : Type ℓ where
  pub allowed : Bool
  pub wait_seconds : W

pub record RateLimiter {ℓ} (W : Type ℓ) : Type ℓ where
  pub default_rate : W
  pub burst : W
  pub min_factor : W

-- What the bucket's key holds.
pub record Bucket {ℓ} (W : Type ℓ) : Type ℓ where
  pub tokens : W
  pub ts : W

-- The factor's key: its value, and the seconds that are left of it where it expires.
pub record Factor {ℓ} (W : Type ℓ) : Type ℓ where
  pub value : W
  pub ttl : Option ℕ

-- What a worker meets in one round of the retry loop: the key's contents, the clock, and whether
-- the transaction was aborted.
pub record Round {ℓ} (W : Type ℓ) : Type ℓ where
  pub seen : Option (Bucket W)
  pub now : W
  pub watch_error : Bool

-- What a call meets and changes: the rounds and the factor that it reads, what becomes of its
-- write, and the sleep.
pub record Surroundings {ℓs ℓ} (S : Type ℓs) (W : Type ℓ) : Type (ℓs ⊔ ℓ) where
  pub rounds : S → ℕ → Round W
  pub factor : S → Option (Factor W)
  pub store : Option (Bucket W) → S → S
  pub sleep : W → S → S

-- The lifetime that a recovering factor is stored with.
unfoldable pub lifetime : Option ℕ → ℕ
lifetime none = 60
lifetime (some zero) = 60
lifetime (some (suc t)) = suc t

module _ {ℓ} {W : Type ℓ} ⦃n : Number W⦄ where
  unfoldable pub current : Option (Factor W) → W
  current none = one
  current (some k) = k.value

  unfoldable pub chosen : W → Option W → W
  chosen default none = default
  chosen default (some rate) = rate

  unfoldable pub effective_rate : RateLimiter W → Option W → Option (Factor W) → W
  effective_rate l base_rate key =
      let rate = chosen l.default_rate base_rate in
      larger (rate ⊠ current key) (rate ⊠ l.min_factor)

  unfoldable pub refilled : RateLimiter W → W → Option (Bucket W) → W → W
  refilled l rate none now = smaller l.burst (l.burst ⊞ larger nought (now ⊟ now) ⊠ rate)
  refilled l rate (some b) now = smaller l.burst (b.tokens ⊞ larger nought (now ⊟ b.ts) ⊠ rate)

  -- The decision on the tokens there are, with what is stored.
  unfoldable pub decide : W → W → W → W → AcquireResult W × Bucket W
  decide rate cost tokens now =
      if n.at_most cost tokens
      then (
        record { allowed = true; wait_seconds = nought },
        record { tokens = tokens ⊟ cost; ts = now },
      )
      else (
        record { allowed = false; wait_seconds = n.div (cost ⊟ tokens) rate },
        record { tokens = tokens; ts = now },
      )

  -- One round's result and what it stores.
  unfoldable pub attempt :
      RateLimiter W → W → W → Option (Bucket W) → W → AcquireResult W × Bucket W
  attempt l rate cost seen now = decide rate cost (refilled l rate seen now) now

  unfoldable pub contended : W → AcquireResult W
  contended rate = record { allowed = false; wait_seconds = n.div one rate }

  -- The retry loop with the rounds left. The second result is what the call stores.
  unfoldable pub retry_loop :
      RateLimiter W → W → W → (ℕ → Round W) → ℕ → AcquireResult W × Option (Bucket W)
  retry_loop l rate cost rounds zero = (contended rate, none)
  retry_loop l rate cost rounds (suc left) =
      let rest = retry_loop l rate cost (λ k. rounds (suc k)) left in
      let r = rounds 0 in
      let (result, stored) = attempt l rate cost r.seen r.now in
      if r.watch_error then rest else (result, some stored)

  unfoldable pub try_acquire :
      RateLimiter W
      → W
      → Option W
      → Option (Factor W)
      → (ℕ → Round W)
      → AcquireResult W × Option (Bucket W)
  try_acquire l cost base_rate key rounds =
      retry_loop l (effective_rate l base_rate key) cost rounds max_cas_retries

  -- The pause of acquire before it asks again.
  unfoldable pub pause : W → W
  pause wait_seconds = smaller wait_seconds (n.literal 5 0) ⊞ n.literal 1 2

  -- Asking again until it is allowed, for as many calls as the first number says.
  unfoldable pub acquire {ℓs} :
      {S : Type ℓs} → RateLimiter W → W → Option W → Surroundings S W → ℕ → S → Option S
  acquire l cost base_rate around zero s = none
  acquire l cost base_rate around (suc fuel) s =
      let (result, stored) = try_acquire l cost base_rate (around.factor s) (around.rounds s) in
      let next = around.store stored s in
      let rest =
        acquire l cost base_rate around fuel (around.sleep (pause result.wait_seconds) next) in
      if result.allowed then some next else rest

  unfoldable pub report_backpressure : RateLimiter W → W → ℕ → Option (Factor W) → Option (Factor W)
  report_backpressure l factor ttl_s key =
      some record { value = larger (current key ⊠ factor) l.min_factor; ttl = some ttl_s }

  -- The GET and the SET of the factor, at once.
  unfoldable pub report_success : Option (Factor W) → Option (Factor W)
  report_success none = none
  report_success (some k) =
      if n.at_most one k.value
      then none
      else some
          record { value = smaller one (k.value ⊠ n.literal 11 1); ttl = some (lifetime k.ttl) }
