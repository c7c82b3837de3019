-- ===== src/Base/Digits.antt =====
-- Operations on binary digits: with enough fuel the amount does not matter, and then one equation
-- splits off the lowest digit.
use Prim.Native.Nat.{ℕ, zero, suc, ◌+◌, ◌*◌, ◌/◌, ◌%◌, ◌≤◌, digits, bitwise}
use mathlib.Core.Path.{◌≡◌, refl}
use native.Mathlib.Omega.{arith}

module _ (rest : ℕ → ℕ) (op : ℕ → ℕ → ℕ) where
  -- `bound` is what the induction is on: the fuels of both sides go down below it.
  enough_fuel : (bound n x y : ℕ) → n ≤ bound → x ≤ n → digits rest op n x y ≡ bitwise rest op x y
  enough_fuel bound zero x y le fits = let none_left : x ≡ 0 = omega arith in rw none_left refl
  enough_fuel zero (suc n) x y le fits = absurd (omega arith)
  enough_fuel (suc bound) (suc n) zero y le fits = refl
  enough_fuel (suc bound) (suc n) (suc x) y le fits =
      let ours = enough_fuel bound n (suc x / 2) (y / 2) (omega arith) (omega arith) in
      let theirs = enough_fuel bound x (suc x / 2) (y / 2) (omega arith) (omega arith) in
      omega (arith, ours, theirs)

  -- The operation goes digit by digit, if what is left of the second number does so too.
  pub lowest_digit :
      ((y : ℕ) → rest y ≡ op 0 (y % 2) + 2 * rest (y / 2))
      → (x y : ℕ) → bitwise rest op x y ≡ op (x % 2) (y % 2) + 2 * bitwise rest op (x / 2) (y / 2)
  lowest_digit starts zero y = starts y
  lowest_digit starts (suc x) y =
      omega (arith, enough_fuel x x (suc x / 2) (y / 2) (omega arith) (omega arith))
