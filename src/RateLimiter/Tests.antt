-- ===== src/RateLimiter/Tests.antt =====
-- Whole numbers as an instance of the numbers, and runs of the limiter.
use Prim.Native.Nat.{◌/◌}
use mathlib.Core.Bool.{true≢false}
use security_tool.Prelude.{
  ◌≢◌, sym, ℕ, zero, suc, ◌+◌, ◌-◌, ◌*◌, ◌≤◌, ◌≡◌, refl, leb, leb_iff, true, arith, Number, IsExact,
  ◌≼◌, ◌⊞◌, ◌⊠◌, ◌⊟◌, some, none, List, [], ◌∷◌, is_some, Option, larger, smaller, false,
}
use security_tool.RateLimiter.{
  RateLimiter, Bucket, AcquireResult, attempt, decide, refilled, current, effective_rate, acquire,
  chosen,
}
use security_tool.RateLimiter.Atomic.{Serves}
use security_tool.RateLimiter.Atomic.{opened, given}
use security_tool.RateLimiter.Workers.{
  moves, moved, commits, System, begins, watches, reads, stamps, executes, loses, passes, Reached,
  at_start, then_step, idle_system, Call,
}
use security_tool.RateLimiter.Refines.{interleaved_refines, granted_bounded}
use security_tool.RateLimiter.Factors.{
  Report, backpressure, success, expiry, reports, effective_rate_bounds,
}
use security_tool.RateLimiter.Waiting.{alone, multiple, acquire_returns}

abbrev whole : ℕ → ℕ → ℕ
whole m zero = m
whole m (suc k) = whole (m / 10) k

-- Rounded up.
abbrev shares : ℕ → ℕ → ℕ
shares x y = (x + (y - 1)) / y

instance abbrev whole_numbers : Number ℕ
whole_numbers = record {
  literal = whole;
  at_most = leb;
  add = λ x y. x + y;
  sub = λ x y. x - y;
  mul = λ x y. x * y;
  div = shares;
}

mul_le : (x y z : ℕ) → x ≤ y → z * x ≤ z * y
mul_le x y zero h = omega arith
mul_le x y (suc z) h = let r = mul_le x y z h in omega arith

shares_mul : (x y : ℕ) → (leb y 0 ≡ true → ⊥) → x ≤ shares x y * y
shares_mul x zero h = absurd (h refl)
shares_mul x (suc y) h = omega arith

whole_numbers-IsExact : IsExact ℕ
whole_numbers-IsExact = record {
  le_refl = λ x. ground arith;
  le_trans = λ x y z a b. ground arith;
  le_antisym = λ x y a b. ground arith;
  le_total = λ x y. ground arith;
  add_assoc = λ x y z. omega arith;
  add_comm = λ x y. omega arith;
  add_nought = λ x. omega arith;
  add_mono = λ x y z h. ground arith;
  sub_add = λ x y h. ground arith;
  le_sub = λ x y z h. ground arith;
  sub_split = λ x y z a b. ground arith;
  sub_nonneg = λ x y h. ground arith;
  mul_mono = λ x y z a b. (leb_iff (z * x) (z * y)).1 (mul_le x y z ((leb_iff x y).0 b));
  mul_comm = λ x y. omega arith;
  mul_one = λ x. omega arith;
  mul_nought = λ x. omega arith;
  mul_add = λ x y z. omega arith;
  div_mul = λ x y h. (leb_iff x (shares x y * y)).1 (shares_mul x y h);
  div_nonneg = λ x y a b. ground arith;
  literal_nonneg = λ m k. ground arith;
  tenths = λ m k h. ground arith;
}

abbrev limiter : RateLimiter ℕ
limiter = record { default_rate = 5; burst = 2; min_factor = 0 }

-- Two workers read the bucket, and the first of them writes.
abbrev call : Call ℕ
call = record { rate = 5; cost = 1; left = 9 }

first_version : ◌≢◌ {A = ℕ} 0 1
first_version e = omega arith

unfoldable both_ready : (s : System ℕ) × Reached limiter 5 0 s
unfolding idle_system effective_rate larger chosen current moves moved opened
both_ready = (
  _,
  then_step
      (then_step
        (then_step
          (then_step
            (then_step
              (then_step
                (then_step (then_step at_start (begins 1 none none 1 refl refl refl refl))
                  (begins 2 none none 1 refl refl refl refl))
                (watches 1 9 5 1 refl))
              (watches 2 9 5 1 refl))
            (reads 1 0 call refl))
          (reads 2 0 call refl))
        (stamps 1 0 call none refl))
      (stamps 2 0 call none refl),
)

-- The first worker writes, the second one's round is lost, and three seconds pass.
unfoldable raced : (s : System ℕ) × Reached limiter 5 0 s
unfolding both_ready idle_system moves moved opened commits attempt decide refilled smaller larger
raced = (
  _,
  then_step
      (then_step (then_step both_ready.1 (executes 1 call none 0 refl))
        (loses 2 0 call none 0 refl first_version))
      (passes 3 refl),
)

raced_run : (raced.0.shared.granted ≡ 1) × (raced.0.shared.clock ≡ 3) × (raced.0.version ≡ 1)
unfolding both_ready raced idle_system moves moved opened commits attempt decide refilled smaller
    larger given
raced_run = (refl, refl, refl)

interleaved_refines_example :
    Serves limiter 5 both_ready.0.shared (commits limiter 1 call 0 none both_ready.0).shared
unfolding both_ready idle_system moves moved opened
interleaved_refines_example =
    interleaved_refines whole_numbers-IsExact limiter 5 both_ready.1 (executes 1 call none 0 refl)

granted_bounded_example : raced.0.shared.granted ≼ 2 ⊞ (raced.0.shared.clock ⊟ 0) ⊠ 5
granted_bounded_example =
    granted_bounded whole_numbers-IsExact limiter 5 {start = 0} {s = raced.0} refl refl refl raced.1

abbrev slowed : List (Report ℕ)
slowed = backpressure 0 60 ∷ success ∷ expiry ∷ []

effective_rate_bounds_example :
    (5 ⊠ 0 ≼ effective_rate limiter none (reports limiter slowed none))
    × (effective_rate limiter none (reports limiter slowed none) ≼ 5)
unfolding chosen
effective_rate_bounds_example =
    effective_rate_bounds whole_numbers-IsExact limiter none slowed refl refl refl
      (refl, (tt, (tt, tt)))

rate_positive : leb (effective_rate limiter none none) 0 ≡ true → ⊥
unfolding effective_rate larger chosen current
rate_positive h = true≢false (sym h)

enough :
    2
    ≼ refilled limiter (effective_rate limiter none none) (some record { tokens = 0; ts = 7 }) 7
      ⊞ multiple 1 (5 ⊠ effective_rate limiter none none)
unfolding effective_rate larger chosen current refilled smaller multiple
enough = refl

-- The bucket of two tokens is empty at 7, and a cost of two is there after a pause.
acquire_returns_example :
    is_some (
      acquire limiter 2 none
        (alone (λ now d. now + d + 1) none)
        2
        record { clock = 7; key = some record { tokens = 0; ts = 7 } })
    ≡ true
acquire_returns_example =
    acquire_returns whole_numbers-IsExact limiter 2 none (λ now d. now + d + 1) none 1
      (record { clock = 7; key = some record { tokens = 0; ts = 7 } }) refl rate_positive
      (λ now d. ground arith) enough

-- A worker whose clock is behind refills the bucket, and sets its time back for the next worker.
abbrev behind : ℕ → Option (Bucket ℕ) → ℕ → AcquireResult ℕ × Bucket ℕ
behind cost seen now = attempt limiter 1 cost seen now

skewed_clocks :
    ((behind 2 (some record { tokens = 2; ts = 100 }) 100).0.allowed ≡ true)
    × ((behind 2 (some record { tokens = 0; ts = 100 }) 50).0.allowed ≡ false)
    × ((behind 2 (some record { tokens = 0; ts = 50 }) 100).0.allowed ≡ true)
unfolding attempt decide refilled smaller larger
skewed_clocks = (refl, refl, refl)
