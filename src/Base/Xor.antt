-- ===== src/Base/Xor.antt =====
-- The exclusive or of native numbers: it can be undone, and it stays below 256 on bytes.
use Prim.Native.Nat.{
  ℕ, zero, suc, ◌+◌, ◌*◌, ◌/◌, ◌%◌, ◌≤◌, ◌<◌, ◌^◌, differ, bit_xor, bit_xor-bitwise,
}
use mathlib.Core.Path.{◌≡◌, refl}
use native.Mathlib.Omega.{arith}
use native.Mathlib.Nat.{pow-suc}
use comm_traffic_center.Base.Digits.{lowest_digit}

-- The lowest binary digit, and the rest.
bit_xor_lowest : (x y : ℕ) → bit_xor x y ≡ differ (x % 2) (y % 2) + 2 * bit_xor (x / 2) (y / 2)
bit_xor_lowest x y = omega (
  arith,
  bit_xor-bitwise x y,
  bit_xor-bitwise (x / 2) (y / 2),
  lowest_digit (λ y. y) differ (λ y. omega arith) x y,
)

differ_cancel : (x a b : ℕ) → x < 2 → a < 2 → b < 2 → differ x a ≡ differ x b → a ≡ b
differ_cancel zero a b hx ha hb e = e
differ_cancel (suc zero) zero zero hx ha hb e = refl
differ_cancel (suc zero) zero (suc b) hx ha hb e = absurd (ground arith)
differ_cancel (suc zero) (suc a) zero hx ha hb e = absurd (ground arith)
differ_cancel (suc zero) (suc a) (suc b) hx ha hb e = omega arith
differ_cancel (suc (suc x)) a b hx ha hb e = absurd (omega arith)

differ-lt : (x y : ℕ) → x < 2 → y < 2 → differ x y < 2
differ-lt zero y hx hy = hy
differ-lt (suc x) zero hx hy = hx
differ-lt (suc x) (suc y) hx hy = differ-lt x y (omega arith) (omega arith)

bit_xor_cancel_fuel : (n x a b : ℕ) → a ≤ n → b ≤ n → bit_xor x a ≡ bit_xor x b → a ≡ b
bit_xor_cancel_fuel zero x a b p q e = omega arith
bit_xor_cancel_fuel (suc n) x a b p q e =
    let la = differ-lt (x % 2) (a % 2) (omega arith) (omega arith) in
    let lb = differ-lt (x % 2) (b % 2) (omega arith) (omega arith) in
    let low =
      differ_cancel (x % 2) (a % 2) (b % 2) (omega arith) (omega arith) (omega arith)
        (omega (arith, la, lb, bit_xor_lowest x a, bit_xor_lowest x b)) in
    let high =
      bit_xor_cancel_fuel n (x / 2) (a / 2) (b / 2) (omega arith) (omega arith)
        (omega (arith, la, lb, bit_xor_lowest x a, bit_xor_lowest x b)) in
    omega (arith, low, high)

pub bit_xor_cancel : (x a b : ℕ) → bit_xor x a ≡ bit_xor x b → a ≡ b
bit_xor_cancel x a b e = bit_xor_cancel_fuel (a + b) x a b (omega arith) (omega arith) e

differ_comm : (x y : ℕ) → x < 2 → y < 2 → differ x y ≡ differ y x
differ_comm zero zero hx hy = refl
differ_comm zero (suc y) hx hy = refl
differ_comm (suc x) zero hx hy = refl
differ_comm (suc x) (suc y) hx hy = differ_comm x y (omega arith) (omega arith)

bit_xor_comm_fuel : (n a b : ℕ) → a ≤ n → b ≤ n → bit_xor a b ≡ bit_xor b a
bit_xor_comm_fuel zero a b p q = let e : a ≡ b = omega arith in rw e refl
bit_xor_comm_fuel (suc n) a b p q = omega (
  arith,
  bit_xor_lowest a b,
  bit_xor_lowest b a,
  differ_comm (a % 2) (b % 2) (omega arith) (omega arith),
  bit_xor_comm_fuel n (a / 2) (b / 2) (omega arith) (omega arith),
)

pub bit_xor_comm : (a b : ℕ) → bit_xor a b ≡ bit_xor b a
bit_xor_comm a b = bit_xor_comm_fuel (a + b) a b (omega arith) (omega arith)

bit_xor-lt-pow : (k a b : ℕ) → a < 2 ^ k → b < 2 ^ k → bit_xor a b < 2 ^ k
bit_xor-lt-pow zero a b p q =
    let e : a ≡ 0 = omega arith in let f : b ≡ 0 = omega arith in rw (e, f) (omega arith)
bit_xor-lt-pow (suc k) a b p q = omega (
  arith,
  pow-suc 2 k,
  bit_xor_lowest a b,
  differ-lt (a % 2) (b % 2) (omega arith) (omega arith),
  bit_xor-lt-pow k (a / 2) (b / 2) (omega (arith, pow-suc 2 k)) (omega (arith, pow-suc 2 k)),
)

pub bit_xor-lt : (a b : ℕ) → a < 256 → b < 256 → bit_xor a b < 256
bit_xor-lt a b p q = bit_xor-lt-pow 8 a b p q
