-- ===== src/RateLimiter/Fair.antt =====
-- The tokens that the limiter's promise lets out, in a window of time.
use security_tool.Prelude.{
  ◌≡◌, refl, ap, sym, subst, ◌∙◌, Bool-cases, inl, inr, Option, none, some, Number, IsExact, nought,
  ◌⊞◌, ◌⊟◌, ◌⊠◌, ◌≼◌, larger, smaller, le-larger, smaller-le, le-smaller, add_mul, mul_nonneg,
  add_nonneg, add_sub, sub_le, elapsed-eq, add_mono_right, le_add,
}
use security_tool.RateLimiter.{RateLimiter, AcquireResult, Bucket, attempt, decide, refilled}
use security_tool.RateLimiter.Atomic.{
  Shared, given, takes, Serves, serves_call, serves_expiry, serves_time, serves_nothing, opened,
}

module _ {ℓ} {W : Type ℓ} ⦃n : Number W⦄ (exact : IsExact W) (l : RateLimiter W)
    (most start : W) where
  -- The tokens that may have been given out by a time.
  abbrev pub allowance : W → W
  allowance now = l.burst ⊞ (now ⊟ start) ⊠ most

  abbrev pub IsBacked : Shared W → Option (Bucket W) → Type 0
  IsBacked s none = s.granted ⊞ l.burst ≼ allowance s.since
  IsBacked s (some b) =
      (b.ts ≼ s.since)
      × (s.since ≼ b.ts)
      × (nought ≼ b.tokens)
      × (b.tokens ≼ l.burst)
      × (s.granted ⊞ b.tokens ≼ allowance s.since)

  abbrev pub IsFair : Shared W → Type 0
  IsFair s = (start ≼ s.since) × (s.since ≼ s.clock) × IsBacked s s.bucket

  allowance_mono : (x y : W) → start ≼ x → x ≼ y → allowance x ⊞ (y ⊟ x) ⊠ most ≡ allowance y
  allowance_mono x y a b =
      exact.add_assoc l.burst ((x ⊟ start) ⊠ most) ((y ⊟ x) ⊠ most)
      ∙ ap (λ z. l.burst ⊞ z)
          (sym (add_mul exact (x ⊟ start) (y ⊟ x) most)
            ∙ ap (λ z. z ⊠ most) (exact.sub_split start x y a b))

  -- A bucket's tokens after the refill, with those that were given out before.
  refilled_bounds :
      (rate now : W) (s : Shared W)
      → nought ≼ l.burst
      → nought ≼ rate
      → rate ≼ most
      → s.since ≼ now
      → IsFair s
      → (nought ≼ refilled l rate s.bucket now)
        × (refilled l rate s.bucket now ≼ l.burst)
        × (s.granted ⊞ refilled l rate s.bucket now ≼ allowance now)
  unfolding refilled
  refilled_bounds rate now s burst pos low later (begun, _, backed) = by_bucket s.bucket backed
    where
      grown : W → W
      grown x = x ⊞ (now ⊟ s.since) ⊠ rate

      later_allowance : (x : W) → x ≼ allowance s.since → grown x ≼ allowance now
      later_allowance x h =
          let e = now ⊟ s.since in
          exact.le_trans (grown x) (grown (allowance s.since)) (allowance now)
            (exact.add_mono x (allowance s.since) (e ⊠ rate) h)
            (subst (λ z. grown (allowance s.since) ≼ z) (allowance_mono s.since now begun later)
              (add_mono_right exact (e ⊠ rate) (e ⊠ most) (allowance s.since)
                (exact.mul_mono rate most e (exact.sub_nonneg now s.since later) low)))

      added : nought ≼ (now ⊟ s.since) ⊠ rate
      added = mul_nonneg exact (now ⊟ s.since) rate (exact.sub_nonneg now s.since later) pos

      -- No more than the burst, and no more than the tokens with the growth of them.
      capped :
          (x : W)
          → nought ≼ x
          → s.granted ⊞ x ≼ allowance now
          → (nought ≼ smaller l.burst x)
            × (smaller l.burst x ≼ l.burst)
            × (s.granted ⊞ smaller l.burst x ≼ allowance now)
      capped x p h =
          let (a, b) = smaller-le exact l.burst x in
          (
            le-smaller exact l.burst x nought burst p,
            a,
            exact.le_trans (s.granted ⊞ smaller l.burst x) (s.granted ⊞ x) (allowance now)
                (add_mono_right exact (smaller l.burst x) x s.granted b) h,
          )

      by_bucket :
          (o : Option (Bucket W))
          → IsBacked s o
          → (nought ≼ refilled l rate o now)
            × (refilled l rate o now ≼ l.burst)
            × (s.granted ⊞ refilled l rate o now ≼ allowance now)
      by_bucket none h =
          let full = larger nought (now ⊟ now) ⊠ rate in
          let (a, b) = smaller-le exact l.burst (l.burst ⊞ full) in
          let more =
            mul_nonneg exact (larger nought (now ⊟ now)) rate (le-larger exact nought (now ⊟ now)).0
              pos in
          (
            le-smaller exact l.burst (l.burst ⊞ full) nought burst
                (add_nonneg exact l.burst full burst more),
            a,
            exact.le_trans (s.granted ⊞ smaller l.burst (l.burst ⊞ full)) (s.granted ⊞ l.burst)
                (allowance now)
                (add_mono_right exact (smaller l.burst (l.burst ⊞ full)) l.burst s.granted a)
                (exact.le_trans (s.granted ⊞ l.burst) (grown (s.granted ⊞ l.burst)) (allowance now)
                  (le_add exact (s.granted ⊞ l.burst) ((now ⊟ s.since) ⊠ rate) added)
                  (later_allowance (s.granted ⊞ l.burst) h)),
          )
      by_bucket (some b) (e, f, p, q, h) =
          let eq =
            ap (λ t. b.tokens ⊞ larger nought (now ⊟ t) ⊠ rate) (exact.le_antisym b.ts s.since e f)
            ∙ ap (λ z. b.tokens ⊞ z ⊠ rate) (elapsed-eq exact s.since now later) in
          subst
            (λ x.
              (nought ≼ smaller l.burst x)
              × (smaller l.burst x ≼ l.burst)
              × (s.granted ⊞ smaller l.burst x ≼ allowance now))
            (sym eq)
            (capped (grown b.tokens) (add_nonneg exact b.tokens ((now ⊟ s.since) ⊠ rate) p added) (
              subst (λ z. z ≼ allowance now)
                (exact.add_assoc s.granted b.tokens ((now ⊟ s.since) ⊠ rate))
                (later_allowance (s.granted ⊞ b.tokens) h)))

  abbrev KeepsBounds : W → W → W → AcquireResult W × Bucket W → Type 0
  KeepsBounds cost now granted (r, b) =
      (nought ≼ b.tokens)
      × (b.tokens ≼ l.burst)
      × (granted ⊞ given cost r ⊞ b.tokens ≼ allowance now)

  decide-KeepsBounds :
      (rate cost tokens now granted : W)
      → nought ≼ cost
      → nought ≼ tokens
      → tokens ≼ l.burst
      → granted ⊞ tokens ≼ allowance now
      → KeepsBounds cost now granted (decide rate cost tokens now)
  unfolding decide given
  decide-KeepsBounds rate cost tokens now granted cheap pos low h =
      elim (Bool-cases (n.at_most cost tokens)) [
        | inl k ↦ rw k (
          exact.sub_nonneg tokens cost k,
          exact.le_trans (tokens ⊟ cost) tokens l.burst (sub_le exact tokens cost cheap k) low,
          subst (λ z. z ≼ allowance now)
              (sym (
                exact.add_assoc granted cost (tokens ⊟ cost)
                ∙ ap (λ z. granted ⊞ z) (add_sub exact tokens cost k)))
              h,
        )
        | inr k ↦
            rw k
              (pos, low, subst (λ z. z ⊞ tokens ≼ allowance now) (sym (exact.add_nought granted)) h)
      ]

  decide-ts : (rate cost tokens now : W) → (decide rate cost tokens now).1.ts ≡ now
  unfolding decide
  decide-ts rate cost tokens now = elim (Bool-cases (n.at_most cost tokens)) [
    | inl k ↦ rw k refl
    | inr k ↦ rw k refl
  ]

  pub takes-IsFair :
      (rate cost now : W) (s : Shared W)
      → nought ≼ l.burst
      → nought ≼ rate
      → rate ≼ most
      → nought ≼ cost
      → s.since ≼ now
      → now ≼ s.clock
      → IsFair s
      → IsFair (takes l rate cost now s)
  unfolding takes attempt
  takes-IsFair rate cost now s burst pos low cheap later past fair =
      let (a, b, c) = refilled_bounds rate now s burst pos low later fair in
      let (d, e, f) =
        decide-KeepsBounds rate cost (refilled l rate s.bucket now) now s.granted cheap a b c in
      (
        exact.le_trans start s.since now fair.0 later,
        past,
        (
          subst (λ t. t ≼ now) (sym (decide-ts rate cost (refilled l rate s.bucket now) now))
              (exact.le_refl now),
          subst (λ t. now ≼ t) (sym (decide-ts rate cost (refilled l rate s.bucket now) now))
              (exact.le_refl now),
          d,
          e,
          f,
        ),
      )

  allowance_grows : (x y : W) → nought ≼ most → start ≼ x → x ≼ y → allowance x ≼ allowance y
  allowance_grows x y pos a b =
      subst (λ z. allowance x ≼ z) (allowance_mono x y a b)
        (le_add exact (allowance x) ((y ⊟ x) ⊠ most)
          (mul_nonneg exact (y ⊟ x) most (exact.sub_nonneg y x b) pos))

  -- A full bucket after an expiry, if one fills up in the 3600 seconds.
  refilled_by_expiry :
      (s : Shared W)
      → nought ≼ most
      → l.burst ≼ n.literal 3600 0 ⊠ most
      → s.since ⊞ n.literal 3600 0 ≼ s.clock
      → IsFair s
      → s.granted ⊞ l.burst ≼ allowance s.clock
  refilled_by_expiry s pos fills old (begun, past, backed) = by_bucket s.bucket backed
    where
      filled : l.burst ≼ (s.clock ⊟ s.since) ⊠ most
      filled = exact.le_trans l.burst (n.literal 3600 0 ⊠ most) ((s.clock ⊟ s.since) ⊠ most) fills (
          subst (λ z. z ≼ (s.clock ⊟ s.since) ⊠ most) (exact.mul_comm most (n.literal 3600 0))
            (subst (λ z. most ⊠ n.literal 3600 0 ≼ z) (exact.mul_comm most (s.clock ⊟ s.since))
              (exact.mul_mono (n.literal 3600 0) (s.clock ⊟ s.since) most pos
                (exact.le_sub s.since (n.literal 3600 0) s.clock old))))

      by_bucket : (o : Option (Bucket W)) → IsBacked s o → s.granted ⊞ l.burst ≼ allowance s.clock
      by_bucket none h =
          exact.le_trans (s.granted ⊞ l.burst) (allowance s.since) (allowance s.clock) h
            (allowance_grows s.since s.clock pos begun past)
      by_bucket (some b) (_, _, p, _, h) =
          exact.le_trans (s.granted ⊞ l.burst) (allowance s.since ⊞ l.burst) (allowance s.clock)
            (exact.add_mono s.granted (allowance s.since) l.burst (
              exact.le_trans s.granted (s.granted ⊞ b.tokens) (allowance s.since)
                (le_add exact s.granted b.tokens p) h))
            (subst (λ z. allowance s.since ⊞ l.burst ≼ z)
              (allowance_mono s.since s.clock begun past)
              (add_mono_right exact l.burst ((s.clock ⊟ s.since) ⊠ most) (allowance s.since)
                filled))

  pub Serves-IsFair :
      {s t : Shared W}
      → nought ≼ l.burst
      → nought ≼ most
      → l.burst ≼ n.literal 3600 0 ⊠ most
      → Serves l most s t
      → IsFair s
      → IsFair t
  Serves-IsFair burst pos fills (serves_call {s} rate cost now a b c d e) fair =
      takes-IsFair rate cost now s burst a b c d e fair
  Serves-IsFair burst pos fills (serves_expiry {s} h) fair = (
    exact.le_trans start s.since s.clock fair.0 fair.1,
    exact.le_refl s.clock,
    refilled_by_expiry s pos fills h fair,
  )
  Serves-IsFair burst pos fills (serves_time {s} later h) (begun, past, backed) =
      (begun, exact.le_trans s.since s.clock later past h, same s.bucket backed)
    where
      same : (o : Option (Bucket W)) → IsBacked s o → IsBacked (record s { clock = later }) o
      same none h = h
      same (some b) h = h
  Serves-IsFair burst pos fills serves_nothing fair = fair

  pub opened-IsFair : nought ≼ most → IsFair (opened start)
  unfolding opened
  opened-IsFair pos = (
    exact.le_refl start,
    exact.le_refl start,
    subst (λ z. z ≼ allowance start)
        (sym (exact.add_nought l.burst) ∙ exact.add_comm l.burst nought)
        (le_add exact l.burst ((start ⊟ start) ⊠ most) (
          mul_nonneg exact (start ⊟ start) most (exact.sub_nonneg start start (exact.le_refl start))
            pos)),
  )

  -- What has been given out is backed by the burst and the time that has passed.
  pub IsFair-granted :
      (s : Shared W) → nought ≼ l.burst → nought ≼ most → IsFair s → s.granted ≼ allowance s.clock
  IsFair-granted s burst pos (begun, past, backed) =
      exact.le_trans s.granted (allowance s.since) (allowance s.clock) (by_bucket s.bucket backed)
        (allowance_grows s.since s.clock pos begun past)
    where
      by_bucket : (o : Option (Bucket W)) → IsBacked s o → s.granted ≼ allowance s.since
      by_bucket none h =
          exact.le_trans s.granted (s.granted ⊞ l.burst) (allowance s.since)
            (le_add exact s.granted l.burst burst) h
      by_bucket (some b) (_, _, p, _, h) =
          exact.le_trans s.granted (s.granted ⊞ b.tokens) (allowance s.since)
            (le_add exact s.granted b.tokens p) h
