-- ===== src/Base/And.antt =====
-- The bitwise and of native numbers with the masks 1 and 2.
use Prim.Native.Nat.{ℕ, zero, suc, ◌+◌, ◌*◌, ◌/◌, ◌%◌, ◌≤◌, min, bit_and, bit_and-bitwise}
use mathlib.Core.Path.{◌≡◌}
use native.Mathlib.Omega.{arith}
use comm_traffic_center.Base.Digits.{lowest_digit}

pub bit_and_lowest : (x y : ℕ) → bit_and x y ≡ min (x % 2) (y % 2) + 2 * bit_and (x / 2) (y / 2)
bit_and_lowest x y = omega (
  arith,
  bit_and-bitwise x y,
  bit_and-bitwise (x / 2) (y / 2),
  lowest_digit (λ y. 0) min (λ y. omega arith) x y,
)

-- No digit is set that the second number does not have.
bit_and_le : (bound x y : ℕ) → x ≤ bound → bit_and x y ≤ y
bit_and_le zero x y fits =
    let none_left : x ≡ 0 = omega arith in rw none_left (omega (arith, bit_and-bitwise 0 y))
bit_and_le (suc bound) x y fits =
    omega (arith, bit_and_lowest x y, bit_and_le bound (x / 2) (y / 2) (omega arith))

pub bit_and_of_zero : (y : ℕ) → bit_and 0 y ≡ 0
bit_and_of_zero y = bit_and-bitwise 0 y

pub bit_and_mask_one : (x : ℕ) → bit_and x 1 ≡ x % 2
bit_and_mask_one x = omega (arith, bit_and_lowest x 1, bit_and_le (x / 2) (x / 2) 0 (omega arith))

pub bit_and_mask_two : (x : ℕ) → bit_and x 2 ≡ x / 2 % 2 * 2
bit_and_mask_two x = omega (arith, bit_and_lowest x 2, bit_and_mask_one (x / 2))
