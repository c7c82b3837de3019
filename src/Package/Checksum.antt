-- ===== src/Package/Checksum.antt =====
-- The two checksums of app/msg_util.c: `calc_msg_xor` over a package and `check_485fcs` over an
-- old frame. A sum or xor of `char`s cut to eight bits does not depend on the sign of `char`.
use comm_traffic_center.Base.{
  ℕ, zero, suc, ◌+◌, ◌-◌, ◌%◌, ◌≤◌, ◌<◌, bit_xor, ◌≡◌, ◌≢◌, refl, arith, Bool, ◌||◌, Option, none,
  some, Bytes, Agree, ltb, if◌then◌else◌,
}
use native.Mathlib.Nat.{add-zero}
use comm_traffic_center.Package.{total_len, fcs, head_size, overhead, pkg_size}

-- `for (; rounds; i++) xor ^= m[i];` in eight bits.
unfoldable pub xor_loop : ℕ → ℕ → Bytes → ℕ → ℕ
xor_loop zero i m acc = acc
xor_loop (suc rounds) i m acc = xor_loop rounds (i + 1) m (bit_xor acc (m i) % 256)

-- Whether the bound `total_len - 1 - 16`, an unsigned number, stays inside the package.
abbrev pub out_of_range : ℕ → Bool
out_of_range n = ltb n overhead || ltb pkg_size n

unfoldable pub calc_msg_xor : Bytes → Option ℕ
calc_msg_xor m =
    if out_of_range (total_len m)
    then none
    else some (xor_loop (total_len m - overhead) overhead m (xor_loop head_size 0 m 0))

-- `for (; rounds; i++) sum += m[i];` in eight bits.
unfoldable pub sum_loop : ℕ → ℕ → Bytes → ℕ → ℕ
sum_loop zero i m acc = acc
sum_loop (suc rounds) i m acc = sum_loop rounds (i + 1) m ((acc + m i) % 256)

unfoldable pub check_485fcs : Bytes → ℕ → ℕ
check_485fcs data_ len = sum_loop len 0 data_ 0

pub xor_loop-agree :
    (n i : ℕ) (a b : Bytes) (acc : ℕ)
    → ((k : ℕ) → k < n → a (i + k) ≡ b (i + k))
    → xor_loop n i a acc ≡ xor_loop n i b acc
unfolding xor_loop
xor_loop-agree zero i a b acc h = refl
xor_loop-agree (suc n) i a b acc h =
    let e : a i ≡ b i = rw (← add-zero i) (h 0 (omega arith)) in
    rw e (
      xor_loop-agree n (i + 1) a b (bit_xor acc (b i) % 256)
        λ k p. let e : i + 1 + k ≡ i + suc k = omega arith in rw e (h (suc k) (omega arith)))

pub sum_loop-agree :
    (n i j : ℕ) (a b : Bytes) (acc : ℕ)
    → ((k : ℕ) → k < n → a (i + k) ≡ b (j + k))
    → sum_loop n i a acc ≡ sum_loop n j b acc
unfolding sum_loop
sum_loop-agree zero i j a b acc h = refl
sum_loop-agree (suc n) i j a b acc h =
    let e : a i ≡ b j = rw (← add-zero i, ← add-zero j) (h 0 (omega arith)) in
    rw e (
      sum_loop-agree n (i + 1) (j + 1) a b ((acc + b j) % 256) λ k p.
        let e : i + 1 + k ≡ i + suc k = omega arith in
        let f : j + 1 + k ≡ j + suc k = omega arith in rw (e, f) (h (suc k) (omega arith)))

pub xor_loop-lt : (n i : ℕ) (m : Bytes) (acc : ℕ) → acc < 256 → xor_loop n i m acc < 256
unfolding xor_loop
xor_loop-lt zero i m acc h = h
xor_loop-lt (suc n) i m acc h = xor_loop-lt n (i + 1) m (bit_xor acc (m i) % 256) (omega arith)

-- The checksum of a package whose length field is in range.
abbrev pub msg_xor : Bytes → ℕ
msg_xor m = xor_loop (total_len m - overhead) overhead m (xor_loop head_size 0 m 0)

pub msg_xor-lt : (m : Bytes) → msg_xor m < 256
msg_xor-lt m = xor_loop-lt (total_len m - 17) 17 m _ (xor_loop-lt 16 0 m 0 (omega arith))

pub calc_msg_xor_in_range :
    (m : Bytes) → 17 ≤ total_len m → total_len m ≤ 4114 → calc_msg_xor m ≡ some (msg_xor m)
unfolding calc_msg_xor
calc_msg_xor_in_range m h k = ground arith

-- The checksum does not read the byte that holds it.
pub msg_xor-Agree : (a b : Bytes) → ((i : ℕ) → i ≢ 16 → a i ≡ b i) → msg_xor a ≡ msg_xor b
msg_xor-Agree a b h =
    let lens : total_len a ≡ total_len b = omega (arith, h 2 (omega arith), h 3 (omega arith)) in
    let heads : xor_loop 16 0 a 0 ≡ xor_loop 16 0 b 0 =
      xor_loop-agree 16 0 a b 0 (λ k p. h (0 + k) (omega arith)) in
    rw (lens, heads) (xor_loop-agree (total_len b - 17) 17 a b _ (λ k p. h (17 + k) (omega arith)))

sum_loop-lt : (n i : ℕ) (m : Bytes) (acc : ℕ) → acc < 256 → sum_loop n i m acc < 256
unfolding sum_loop
sum_loop-lt zero i m acc h = h
sum_loop-lt (suc n) i m acc h = sum_loop-lt n (i + 1) m ((acc + m i) % 256) (omega arith)

pub check_485fcs-lt : (m : Bytes) (n : ℕ) → check_485fcs m n < 256
unfolding check_485fcs
check_485fcs-lt m n = sum_loop-lt n 0 m 0 (omega arith)

pub check_485fcs-Agree : (a b : Bytes) (n : ℕ) → Agree n a b → check_485fcs a n ≡ check_485fcs b n
unfolding check_485fcs
check_485fcs-Agree a b n h =
    sum_loop-agree n 0 0 a b 0 λ k p. let e : 0 + k ≡ k = omega arith in rw e (h k p)

-- It reads only the bytes that the package counts.
pub msg_xor-Agree_below :
    (a b : Bytes) → 17 ≤ total_len b → Agree (total_len b) a b → msg_xor a ≡ msg_xor b
msg_xor-Agree_below a b h agree =
    let lens : total_len a ≡ total_len b =
      omega (arith, agree 2 (omega arith), agree 3 (omega arith)) in
    let heads : xor_loop 16 0 a 0 ≡ xor_loop 16 0 b 0 =
      xor_loop-agree 16 0 a b 0 (λ k p. agree (0 + k) (omega arith)) in
    rw (lens, heads)
      (xor_loop-agree (total_len b - 17) 17 a b _ (λ k p. agree (17 + k) (omega arith)))

-- A package that agrees with a sound one as far as that one counts is sound.
pub calc_msg_xor-Agree :
    (a b : Bytes)
    → 17 ≤ total_len b
    → total_len b ≤ 4114
    → Agree (total_len b) a b
    → calc_msg_xor b ≡ some (fcs b)
    → calc_msg_xor a ≡ some (fcs a)
calc_msg_xor-Agree a b lo hi agree sum =
    let lens : total_len a ≡ total_len b =
      omega (arith, agree 2 (omega arith), agree 3 (omega arith)) in
    let right = calc_msg_xor_in_range a (omega (arith, lens)) (omega (arith, lens)) in
    let same = msg_xor-Agree_below a b lo agree in
    ground (arith, right, same, sum, calc_msg_xor_in_range b lo hi, agree 16)
