-- ===== src/Prelude/Decimal.antt =====
-- `Display` of the unsigned integers: a number in decimal digits.
use muscl.Prelude.Tests.{ltb, if◌then◌else◌, Bool-cases}
use mathlib.Core.Path.{◌≡◌, refl}
use mathlib.Core.Logic.{inl, inr}
use native.Mathlib.Omega.{arith}
use muscl.Prelude.Text.{Text}
use Prim.Native.Nat.{ℕ, zero, suc, ◌+◌, ◌<◌, ◌≤◌, ◌/◌, ◌%◌}
use mathlib.Core.List.{[], ◌∷◌, ◌++◌}

-- The fuel bounds the number of digits; a number has no more digits than its successor counts.
decimal_from : ℕ → ℕ → Text
decimal_from zero n = []
decimal_from (suc fuel) n =
    let rest = decimal_from fuel (n / 10) in
    if ltb n 10 then (48 + n) ∷ [] else rest ++ (48 + n % 10) ∷ []

unfoldable pub decimal : ℕ → Text
unfolding decimal_from
decimal n = decimal_from (suc n) n

-- More fuel than the number writes the same digits.
decimal_from_enough : (f g n : ℕ) → n < f → n < g → decimal_from f n ≡ decimal_from g n
unfolding decimal_from
decimal_from_enough zero g n h k = absurd (omega (arith, h))
decimal_from_enough (suc f) zero n h k = absurd (omega (arith, k))
decimal_from_enough (suc f) (suc g) n h k = elim (Bool-cases (ltb n 10)) [
  | inl e ↦ rw (e, decimal_from) refl
  | inr e ↦
      let big : 10 ≤ n = ground arith in
      let rest = decimal_from_enough f g (n / 10) (omega (arith, h, big)) (omega (arith, k, big)) in
      rw (e, rest) refl
]
