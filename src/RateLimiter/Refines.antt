-- ===== src/RateLimiter/Refines.antt =====
-- The interleaved calls do what the atomic bucket does.
use security_tool.Prelude.{
  ℕ, suc, ◌≤◌, ◌≡◌, refl, ap, sym, subst, Bool-cases, inl, inr, Option, none, nat_beq, Number,
  IsExact, nought, ◌⊞◌, ◌⊠◌, ◌⊟◌, ◌≼◌, arith,
}
use security_tool.RateLimiter.{RateLimiter, Bucket}
use security_tool.RateLimiter.Atomic.{
  Shared, takes, Serves, serves_call, serves_expiry, serves_time, serves_nothing, opened,
}
use security_tool.RateLimiter.Fair.{IsFair, Serves-IsFair, opened-IsFair, IsFair-granted}
use security_tool.RateLimiter.Workers.{
  Call, Phase, idle, trying, watching, has_read, ready, System, moved, moves, commits, Step, begins,
  watches, reads, stamps, executes, loses, gives_up, expires, passes, Reached, at_start, then_step,
  idle_system,
}

moved_all :
    {W : Type 0} (P : Phase W → Type 0) (k : ℕ) (p : Phase W) (workers : ℕ → Phase W)
    → ((j : ℕ) → P (workers j))
    → P p
    → (j : ℕ) → P (moved k p workers j)
unfolding moved
moved_all P k p workers all h j = elim (Bool-cases (nat_beq j k)) [
  | inl e ↦ rw e h
  | inr e ↦ rw e (all j)
]

module _ {W : Type 0} ⦃n : Number W⦄ (exact : IsExact W) (l : RateLimiter W) (most : W) where
  abbrev IsCall : W → W → Type 0
  IsCall rate cost = (nought ≼ rate) × (rate ≼ most) × (nought ≼ cost)

  -- What a worker holds is what the key holds, while the version stands.
  abbrev IsSound : Shared W → ℕ → Phase W → Type 0
  IsSound s v idle = Unit
  IsSound s v (trying c) = IsCall c.rate c.cost
  IsSound s v (watching c seen_version) = IsCall c.rate c.cost × (seen_version ≤ v)
  IsSound s v (has_read c seen_version seen) =
      IsCall c.rate c.cost × (seen_version ≤ v) × (seen_version ≡ v → seen ≡ s.bucket)
  IsSound s v (ready c seen_version seen now) =
      IsCall c.rate c.cost
      × (seen_version ≤ v)
      × (seen_version ≡ v → (seen ≡ s.bucket) × (s.since ≼ now) × (now ≼ s.clock))

  abbrev IsConsistent : System W → Type 0
  IsConsistent s =
      (s.shared.since ≼ s.shared.clock) × ((k : ℕ) → IsSound s.shared s.version (s.workers k))

  IsSound-bumped : (s t : Shared W) (v : ℕ) (p : Phase W) → IsSound s v p → IsSound t (suc v) p
  IsSound-bumped s t v idle h = tt
  IsSound-bumped s t v (trying c) h = h
  IsSound-bumped s t v (watching c w) (a, b) = (a, omega arith)
  IsSound-bumped s t v (has_read c w seen) (a, b, d) = (a, omega arith, λ e. absurd (omega arith))
  IsSound-bumped s t v (ready c w seen now) (a, b, d) = (a, omega arith, λ e. absurd (omega arith))

  IsSound-later :
      (s : Shared W) (later : W) (v : ℕ) (p : Phase W)
      → s.clock ≼ later
      → IsSound s v p
      → IsSound (record s { clock = later }) v p
  IsSound-later s later v idle past h = tt
  IsSound-later s later v (trying c) past h = h
  IsSound-later s later v (watching c w) past h = h
  IsSound-later s later v (has_read c w seen) past h = h
  IsSound-later s later v (ready c w seen now) past (a, b, d) =
      (a, b, λ e. let (x, y, z) = d e in (x, y, exact.le_trans now s.clock later z past))

  moves-IsConsistent :
      (k : ℕ) (p : Phase W) (s : System W)
      → IsConsistent s
      → IsSound s.shared s.version p
      → IsConsistent (moves k p s)
  unfolding moves
  moves-IsConsistent k p s (a, b) h = (a, moved_all (IsSound s.shared s.version) k p s.workers b h)

  commits-IsConsistent :
      (k : ℕ) (c : Call W) (seen : Option (Bucket W)) (now : W) (s : System W)
      → now ≼ s.shared.clock
      → IsConsistent s
      → IsConsistent (commits l k c now seen s)
  unfolding commits
  commits-IsConsistent k c seen now s past (a, b) = (
    past,
    λ j.
        moved_all (IsSound (commits l k c now seen s).shared (suc s.version)) k idle s.workers
          (λ i.
            IsSound-bumped s.shared (commits l k c now seen s).shared s.version (s.workers i) (b i))
          tt j,
  )

  Step-IsConsistent : {s t : System W} → Step l most s t → IsConsistent s → IsConsistent t
  Step-IsConsistent (begins {s} k base key cost e a b c) h = moves-IsConsistent k _ s h (a, b, c)
  Step-IsConsistent (watches {s} k left rate cost e) h =
      moves-IsConsistent k _ s h (subst (IsSound s.shared s.version) e (h.1 k), omega arith)
  Step-IsConsistent (reads {s} k w c e) h =
      let (a, b) = subst (IsSound s.shared s.version) e (h.1 k) in
      moves-IsConsistent k (has_read c w s.shared.bucket) s h (a, b, λ _. refl)
  Step-IsConsistent (stamps {s} k w c seen e) h =
      let (a, b, d) = subst (IsSound s.shared s.version) e (h.1 k) in
      moves-IsConsistent k (ready c w seen s.shared.clock) s h
        (a, b, λ i. (d i, h.0, exact.le_refl s.shared.clock))
  Step-IsConsistent (executes {s} k c seen now e) h =
      let (_, _, d) = subst (IsSound s.shared s.version) e (h.1 k) in
      let (_, _, past) = d refl in commits-IsConsistent k c seen now s past h
  Step-IsConsistent (loses {s} k w c seen now e d) h =
      let (a, b, _) = subst (IsSound s.shared s.version) e (h.1 k) in
      moves-IsConsistent k (trying c) s h a
  Step-IsConsistent (gives_up {s} k rate cost e) h = moves-IsConsistent k idle s h tt
  Step-IsConsistent (expires {s} old) h = (
    exact.le_refl s.shared.clock,
    λ k.
        IsSound-bumped s.shared (record s.shared { bucket = none; since = s.shared.clock })
          s.version (s.workers k) (h.1 k),
  )
  Step-IsConsistent (passes {s} later past) h = (
    exact.le_trans s.shared.since s.shared.clock later h.0 past,
    λ k. IsSound-later s.shared later s.version (s.workers k) past (h.1 k),
  )

  -- A step is an atomic step of the bucket, or none of it.
  commits-shared :
      (k : ℕ) (c : Call W) (seen : Option (Bucket W)) (now : W) (s : System W)
      → seen ≡ s.shared.bucket
      → (commits l k c now seen s).shared ≡ takes l c.rate c.cost now s.shared
  unfolding commits takes
  commits-shared k c seen now s e = ap (λ o. (commits l k c now o s).shared) e

  Step-Serves :
      {s t : System W} → Step l most s t → IsConsistent s → Serves l most s.shared t.shared
  unfolding moves
  Step-Serves (begins k base key cost e a b c) h = serves_nothing
  Step-Serves (watches k left rate cost e) h = serves_nothing
  Step-Serves (reads k w c e) h = serves_nothing
  Step-Serves (stamps k w c seen e) h = serves_nothing
  Step-Serves (executes {s} k c seen now e) h =
      let ((pos, low, cheap), _, d) = subst (IsSound s.shared s.version) e (h.1 k) in
      let (same, later, past) = d refl in
      subst (Serves l most s.shared) (sym (commits-shared k c seen now s same))
        (serves_call c.rate c.cost now pos low cheap later past)
  Step-Serves (loses k w c seen now e d) h = serves_nothing
  Step-Serves (gives_up k rate cost e) h = serves_nothing
  Step-Serves (expires old) h = serves_expiry old
  Step-Serves (passes later past) h = serves_time later past

  Reached-IsConsistent : {start : W} {s : System W} → Reached l most start s → IsConsistent s
  unfolding idle_system opened
  Reached-IsConsistent {start} at_start = (exact.le_refl start, λ k. tt)
  Reached-IsConsistent (then_step r h) = Step-IsConsistent h (Reached-IsConsistent r)

  -- Whatever the interleaving of the workers' rounds, each step of the system is, for the bucket,
  -- a whole call of the atomic limiter on the contents at that moment, an expiry, the passing of
  -- time, or nothing.
  pub interleaved_refines :
      {start : W} {s t : System W}
      → Reached l most start s
      → Step l most s t
      → Serves l most s.shared t.shared
  interleaved_refines r h = Step-Serves h (Reached-IsConsistent r)

  Reached-IsFair :
      {start : W} {s : System W}
      → nought ≼ l.burst
      → nought ≼ most
      → l.burst ≼ n.literal 3600 0 ⊠ most
      → Reached l most start s
      → IsFair exact l most start s.shared
  unfolding idle_system
  Reached-IsFair {start} burst pos fills at_start = opened-IsFair exact l most start pos
  Reached-IsFair {start} burst pos fills (then_step r h) =
      Serves-IsFair exact l most start burst pos fills (interleaved_refines r h)
        (Reached-IsFair burst pos fills r)

  -- However many workers share a bucket and in whatever order their rounds interleave, the tokens
  -- given out since the start are at most the burst and the time that has passed at the highest
  -- effective rate. The workers read one clock that does not go back, the burst and the rates are
  -- not negative, and the rate fills a bucket within the 3600 seconds that its key lives.
  pub granted_bounded :
      {start : W} {s : System W}
      → nought ≼ l.burst
      → nought ≼ most
      → l.burst ≼ n.literal 3600 0 ⊠ most
      → Reached l most start s
      → s.shared.granted ≼ l.burst ⊞ (s.shared.clock ⊟ start) ⊠ most
  granted_bounded {start} {s} burst pos fills r =
      IsFair-granted exact l most start s.shared burst pos (Reached-IsFair burst pos fills r)
