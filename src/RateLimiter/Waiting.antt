-- ===== src/RateLimiter/Waiting.antt =====
-- acquire: how long a worker waits.
use mathlib.Core.Bool.{true≢false}
use security_tool.Prelude.{
  ℕ, zero, suc, ◌≡◌, refl, ap, sym, subst, ◌∙◌, Bool, true, false, Bool-cases, inl, inr, Option,
  some, is_some, if◌then◌else◌, Number, IsExact, nought, ◌⊞◌, ◌⊟◌, ◌⊠◌, ◌≼◌, smaller, le-smaller,
  smaller-cases, elapsed-eq, add_mono_right, add_sub, le_add, add_nonneg, mul_nonneg, mul_mono_left,
  smaller_mono, nonneg_of_pos, arith,
}
use security_tool.RateLimiter.{
  RateLimiter, Bucket, Factor, AcquireResult, Surroundings, attempt, decide, refilled,
  effective_rate, acquire, pause,
}
use security_tool.RateLimiter.Retries.{try_acquire-first}

-- A worker that nobody disturbs: the clock and the key.
pub record Alone {ℓ} (W : Type ℓ) : Type ℓ where
  pub clock : W
  pub key : Option (Bucket W)

module _ {ℓ} {W : Type ℓ} ⦃n : Number W⦄ where
  -- `wake` is the time at which a sleep ends, by its start and its length.
  unfoldable pub alone : (W → W → W) → Option (Factor W) → Surroundings (Alone W) W
  alone wake factor = record {
    rounds = λ s k. record { seen = s.key; now = s.clock; watch_error = false };
    factor = λ s. factor;
    store = λ o s. record s { key = o };
    sleep = λ d s. record s { clock = wake s.clock d };
  }

  -- As many times a number.
  unfoldable pub multiple : ℕ → W → W
  multiple zero x = nought
  multiple (suc k) x = x ⊞ multiple k x

module _ {ℓ} {W : Type ℓ} ⦃n : Number W⦄ (exact : IsExact W) (l : RateLimiter W) where
  abbrev five : W
  five = n.literal 5 0

  -- A refusal leaves the refilled tokens, and its wait makes up for the rest of the cost.
  decide-refused :
      (rate cost tokens now : W)
      → (rate ≼ nought → ⊥)
      → (decide rate cost tokens now).0.allowed ≡ false
      → ((decide rate cost tokens now).1 ≡ record { tokens = tokens; ts = now })
        × (nought ≼ (decide rate cost tokens now).0.wait_seconds)
        × (cost ≼ tokens ⊞ (decide rate cost tokens now).0.wait_seconds ⊠ rate)
  unfolding decide
  decide-refused rate cost tokens now pos h = elim (Bool-cases (n.at_most cost tokens)) [
    | inl k ↦ absurd (true≢false (rw k at h))
    | inr k ↦
        let short = elim (exact.le_total tokens cost) as (λ _. tokens ≼ cost) [
          | inl a ↦ a
          | inr a ↦ absurd (true≢false (sym a ∙ k))
        ] in
        rw k (
          refl,
          exact.div_nonneg (cost ⊟ tokens) rate (exact.sub_nonneg cost tokens short) pos,
          subst (λ z. z ≼ tokens ⊞ n.div (cost ⊟ tokens) rate ⊠ rate)
              (add_sub exact cost tokens short)
              (add_mono_right exact (cost ⊟ tokens) (n.div (cost ⊟ tokens) rate ⊠ rate) tokens
                (exact.div_mul (cost ⊟ tokens) rate pos)),
        )
  ]

  -- A bucket that was refilled at a time, at a later one.
  refilled_again :
      (rate tokens now later d : W)
      → nought ≼ rate
      → nought ≼ d
      → now ⊞ d ≼ later
      → smaller l.burst (tokens ⊞ d ⊠ rate)
        ≼ refilled l rate (some record { tokens = tokens; ts = now }) later
  unfolding refilled
  refilled_again rate tokens now later d pos long past =
      let e = later ⊟ now in
      let after = exact.le_trans now (now ⊞ d) later (le_add exact now d long) past in
      subst (λ x. smaller l.burst (tokens ⊞ d ⊠ rate) ≼ smaller l.burst (tokens ⊞ x ⊠ rate))
        (sym (elapsed-eq exact now later after))
        (smaller_mono exact l.burst (tokens ⊞ d ⊠ rate) (tokens ⊞ e ⊠ rate) (
          add_mono_right exact (d ⊠ rate) (e ⊠ rate) tokens
            (mul_mono_left exact d e rate pos (exact.le_sub now d later past))))

  -- After the pause, a refused call has five seconds' tokens more, or enough of them.
  closer :
      (rate cost tokens now later rest w : W)
      → (rate ≼ nought → ⊥)
      → cost ≼ l.burst
      → nought ≼ rest
      → nought ≼ w
      → cost ≼ tokens ⊞ w ⊠ rate
      → cost ≼ tokens ⊞ (five ⊠ rate ⊞ rest)
      → now ⊞ pause w ≼ later
      → cost ≼ refilled l rate (some record { tokens = tokens; ts = now }) later ⊞ rest
  unfolding pause
  closer rate cost tokens now later rest w pos fits more long enough left past =
      elim (smaller-cases exact l.burst (tokens ⊞ d ⊠ rate)) [
        | inl e ↦ at_once (exact.le_trans cost l.burst again fits (subst (λ z. z ≼ again) e grown))
        | inr e ↦ elim (smaller-cases exact w five) [
          | inl f ↦ at_once (
              exact.le_trans cost (tokens ⊞ w ⊠ rate) again enough
                (subst (λ z. tokens ⊞ z ⊠ rate ≼ again) f (subst (λ z. z ≼ again) e grown)))
          | inr f ↦
              exact.le_trans cost (tokens ⊞ five ⊠ rate ⊞ rest) (again ⊞ rest)
                (subst (λ z. cost ≼ z) (sym (exact.add_assoc tokens (five ⊠ rate) rest)) left)
                (exact.add_mono (tokens ⊞ five ⊠ rate) again rest
                  (subst (λ z. tokens ⊞ z ⊠ rate ≼ again) f (subst (λ z. z ≼ again) e grown)))
        ]
      ]
    where
      d : W
      d = smaller w five

      again : W
      again = refilled l rate (some record { tokens = tokens; ts = now }) later

      grown : smaller l.burst (tokens ⊞ d ⊠ rate) ≼ again
      grown =
          refilled_again rate tokens now later d (nonneg_of_pos exact rate pos)
            (le-smaller exact w five nought long (exact.literal_nonneg 5 0))
            (exact.le_trans (now ⊞ d) (now ⊞ (d ⊞ n.literal 1 2)) later
              (add_mono_right exact d (d ⊞ n.literal 1 2) now
                (le_add exact d (n.literal 1 2) (exact.literal_nonneg 1 2)))
              past)

      at_once : cost ≼ again → cost ≼ again ⊞ rest
      at_once h = exact.le_trans cost again (again ⊞ rest) h (le_add exact again rest more)

  multiple_nonneg : (k : ℕ) (x : W) → nought ≼ x → nought ≼ multiple k x
  unfolding multiple
  multiple_nonneg zero x h = exact.le_refl nought
  multiple_nonneg (suc k) x h = add_nonneg exact x (multiple k x) h (multiple_nonneg k x h)

  decide-granted :
      (rate cost tokens now : W) → cost ≼ tokens → (decide rate cost tokens now).0.allowed ≡ true
  unfolding decide
  decide-granted rate cost tokens now h = rw h refl

  unfoldable ends_or : {S : Type ℓ} → Bool → S → Option S → Option S
  ends_or b s rest = if b then some s else rest

  ends_or-is_some :
      {S : Type ℓ} (b : Bool) (s : S) (rest : Option S)
      → (b ≡ false → is_some rest ≡ true)
      → is_some (ends_or b s rest) ≡ true
  unfolding ends_or
  ends_or-is_some true s rest h = refl
  ends_or-is_some false s rest h = h refl

  module _ (cost : W) (base_rate : Option W) (wake : W → W → W) (factor : Option (Factor W)) where
    abbrev rate : W
    rate = effective_rate l base_rate factor

    abbrev decided : Alone W → AcquireResult W × Bucket W
    decided s = decide rate cost (refilled l rate s.key s.clock) s.clock

    abbrev after_pause : Alone W → Alone W
    after_pause s = record {
      clock = wake s.clock (pause (decided s).0.wait_seconds);
      key = some (decided s).1;
    }

    acquire-once :
        (fuel : ℕ) (s : Alone W)
        → acquire l cost base_rate (alone wake factor) (suc fuel) s
          ≡ ends_or
              (decided s).0.allowed
              (record s { key = some (decided s).1 })
              (acquire l cost base_rate (alone wake factor) fuel (after_pause s))
    unfolding acquire alone attempt ends_or
    acquire-once fuel s =
        ap
          (λ (q : AcquireResult W × Option (Bucket W)).
            ends_or q.0.allowed (record s { key = q.1 })
              (acquire l cost base_rate (alone wake factor) fuel
                record { clock = wake s.clock (pause q.0.wait_seconds); key = q.1 }))
          (try_acquire-first l cost base_rate factor
            (λ k. record { seen = s.key; now = s.clock; watch_error = false }) 0 (omega arith)
            (λ j h. absurd (omega arith)) refl)

    abbrev tokens_of : Alone W → W
    tokens_of s = refilled l rate s.key s.clock

    after_pause_lem :
        (j : ℕ) (s : Alone W)
        → cost ≼ l.burst
        → (rate ≼ nought → ⊥)
        → ((now d : W) → now ⊞ d ≼ wake now d)
        → cost ≼ tokens_of s ⊞ multiple (suc j) (five ⊠ rate)
        → (decided s).0.allowed ≡ false
        → cost ≼ tokens_of (after_pause s) ⊞ multiple j (five ⊠ rate)
    unfolding multiple
    after_pause_lem j s fits pos sleeps enough e =
        let (same, long, made_up) = decide-refused rate cost (tokens_of s) s.clock pos e in
        let x = five ⊠ rate in
        subst (λ b. cost ≼ refilled l rate (some b) (after_pause s).clock ⊞ multiple j x) (sym same)
          (closer rate cost (tokens_of s) s.clock (after_pause s).clock (multiple j x)
            (decided s).0.wait_seconds pos fits
            (multiple_nonneg j x (
              mul_nonneg exact five rate (exact.literal_nonneg 5 0) (nonneg_of_pos exact rate pos)))
            long made_up enough (sleeps s.clock (pause (decided s).0.wait_seconds)))

    -- acquire returns, for a worker that nobody disturbs: at the latest in the round after `k`
    -- pauses, where the bucket's tokens and `k` times five seconds' refill make up the cost. The
    -- cost is at most the burst, the effective rate is positive, and no sleep ends early.
    pub acquire_returns :
        (k : ℕ) (s : Alone W)
        → cost ≼ l.burst
        → (rate ≼ nought → ⊥)
        → ((now d : W) → now ⊞ d ≼ wake now d)
        → cost ≼ refilled l rate s.key s.clock ⊞ multiple k (five ⊠ rate)
        → is_some (acquire l cost base_rate (alone wake factor) (suc k) s) ≡ true
    unfolding multiple
    acquire_returns zero s fits pos sleeps enough =
        ap is_some (acquire-once zero s)
        ∙ ap is_some (
            ap
              (λ b.
                ends_or b (record s { key = some (decided s).1 })
                  (acquire l cost base_rate (alone wake factor) zero (after_pause s)))
              (decide-granted rate cost (tokens_of s) s.clock
                (subst (λ z. cost ≼ z) (exact.add_nought (tokens_of s)) enough)))
        ∙ granted
      where
        granted :
            is_some (
              ends_or true
                (record s { key = some (decided s).1 })
                (acquire l cost base_rate (alone wake factor) zero (after_pause s)))
            ≡ true
        granted = ends_or-is_some true _ _ λ e. absurd (true≢false e)
    acquire_returns (suc j) s fits pos sleeps enough =
        ap is_some (acquire-once (suc j) s)
        ∙ ends_or-is_some (decided s).0.allowed (record s { key = some (decided s).1 })
            (acquire l cost base_rate (alone wake factor) (suc j) (after_pause s))
            λ e.
              acquire_returns j (after_pause s) fits pos sleeps
                (after_pause_lem j s fits pos sleeps enough e)
