-- ===== src/Prelude/Decimals.antt =====
-- str(n) for a natural number, and that two numbers are not written alike.
use Prim.Native.Nat.{ℕ, zero, suc, ◌+◌, ◌-◌, ◌*◌, ◌/◌, ◌%◌, ◌<◌}
use mathlib.Core.Path.{◌≡◌, refl, ap, sym, ◌∙◌}
use mathlib.Core.List.{[], ◌∷◌, ◌++◌}
use native.Mathlib.Omega.{arith}
use security_tool.Prelude.Tests.{Text, ltb, if◌then◌else◌, Bool-cases}
use mathlib.Core.Logic.{inl, inr}

-- The digits, with more fuel than the number.
unfoldable pub digits : ℕ → ℕ → Text
digits zero n = []
digits (suc fuel) n =
    let front = digits fuel (n / 10) in
    if ltb n 10 then (b'0' + n) ∷ [] else front ++ (b'0' + n % 10) ∷ []

unfoldable pub decimal : ℕ → Text
decimal n = digits (suc n) n

-- The number that digits write.
number_of : ℕ → Text → ℕ
number_of acc [] = acc
number_of acc (c ∷ s) = number_of (acc * 10 + (c - b'0')) s

number_of-append : (acc : ℕ) (s t : Text) → number_of acc (s ++ t) ≡ number_of (number_of acc s) t
unfolding number_of
number_of-append acc [] t = refl
number_of-append acc (c ∷ s) t = number_of-append (acc * 10 + (c - b'0')) s t

number_of-digits : (fuel n : ℕ) → n < fuel → number_of 0 (digits fuel n) ≡ n
unfolding digits number_of
number_of-digits zero n h = omega arith
number_of-digits (suc fuel) n h = elim (Bool-cases (ltb n 10)) [
  | inl e ↦ rw e (omega arith)
  | inr e ↦
      let big : 9 < n = ground arith in
      let front = number_of-digits fuel (n / 10) (omega arith) in
      rw (e, number_of-append 0 (digits fuel (n / 10)) ((b'0' + n % 10) ∷ []), front) (omega arith)
]

pub decimal_inj : (m n : ℕ) → decimal m ≡ decimal n → m ≡ n
unfolding decimal
decimal_inj m n h =
    sym (number_of-digits (suc m) m (omega arith))
    ∙ ap (number_of 0) h
    ∙ number_of-digits (suc n) n (omega arith)
