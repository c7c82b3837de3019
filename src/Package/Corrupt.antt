-- ===== src/Package/Corrupt.antt =====
-- A package of the new protocol that is corrupted in one byte.
use native.Mathlib.Nat.{add-zero}
use comm_traffic_center.Base.{
  ℕ, zero, suc, ◌+◌, ◌-◌, ◌%◌, ◌≤◌, ◌<◌, bit_xor, ◌≡◌, ◌≢◌, sym, ◌∙◌, arith, false, some, Bytes,
  BytesBelow, ◌==◌, Bool-cases, inl, inr, success, failed, bit_xor_cancel, bit_xor_comm, bit_xor-lt,
  ltb,
}
use comm_traffic_center.Package.{total_len, protocol_type, fcs}
use comm_traffic_center.Package.Checksum.{
  xor_loop, xor_loop-agree, xor_loop-lt, msg_xor, calc_msg_xor_in_range,
}
use comm_traffic_center.Check.{check_fcs}

-- Sums that differ stay apart over equal bytes.
xor_loop_apart :
    (n i : ℕ) (a b : Bytes) (acc acc' : ℕ)
    → acc < 256
    → acc' < 256
    → acc ≢ acc'
    → ((k : ℕ) → k < n → (a (i + k) ≡ b (i + k)) × (b (i + k) < 256))
    → xor_loop n i a acc ≢ xor_loop n i b acc'
unfolding xor_loop
xor_loop_apart zero i a b acc acc' p q ne same = ne
xor_loop_apart (suc n) i a b acc acc' p q ne same =
    let (here, byte) : (a i ≡ b i) × (b i < 256) = rw (← add-zero i) (same 0 (omega arith)) in
    let l = bit_xor-lt acc (b i) p byte in
    let l' = bit_xor-lt acc' (b i) q byte in
    rw here (
      xor_loop_apart n (i + 1) a b (bit_xor acc (b i) % 256) (bit_xor acc' (b i) % 256)
        (omega arith) (omega arith)
        (λ e. ne (
          bit_xor_cancel (b i) acc acc'
            (omega (arith, e, l, l', bit_xor_comm (b i) acc, bit_xor_comm (b i) acc'))))
        λ k h. let e : i + 1 + k ≡ i + suc k = omega arith in rw e (same (suc k) (omega arith)))

-- One byte that differs makes the sums differ.
xor_loop_differs :
    (n i d : ℕ) (a b : Bytes) (acc : ℕ)
    → acc < 256
    → d < n
    → a (i + d) ≢ b (i + d)
    → ((k : ℕ) → k < n → (a (i + k) < 256) × (b (i + k) < 256))
    → ((k : ℕ) → k < n → k ≢ d → a (i + k) ≡ b (i + k))
    → xor_loop n i a acc ≢ xor_loop n i b acc
unfolding xor_loop
xor_loop_differs zero i d a b acc p h ne bytes same = absurd (omega arith)
xor_loop_differs (suc n) i zero a b acc p h ne bytes same =
    let (la, lb) : (a i < 256) × (b i < 256) = rw (← add-zero i) (bytes 0 (omega arith)) in
    let l = bit_xor-lt acc (a i) p la in
    let l' = bit_xor-lt acc (b i) p lb in
    let here : i + 0 ≡ i = omega arith in
    xor_loop_apart n (i + 1) a b (bit_xor acc (a i) % 256) (bit_xor acc (b i) % 256) (omega arith)
      (omega arith) (λ e. ne (rw here (bit_xor_cancel acc (a i) (b i) (omega (arith, e, l, l')))))
      λ k q.
        let e : i + 1 + k ≡ i + suc k = omega arith in
        rw e (same (suc k) (omega arith) (omega arith), (bytes (suc k) (omega arith)).1)
xor_loop_differs (suc n) i (suc d) a b acc p h ne bytes same =
    let here : a i ≡ b i = rw (← add-zero i) (same 0 (omega arith) (omega arith)) in
    let e : i + 1 + d ≡ i + suc d = omega arith in
    rw here (
      xor_loop_differs n (i + 1) d a b (bit_xor acc (b i) % 256) (omega arith) (omega arith)
        (rw e ne)
        (λ k q. let e : i + 1 + k ≡ i + suc k = omega arith in rw e (bytes (suc k) (omega arith)))
        λ k q r.
          let e : i + 1 + k ≡ i + suc k = omega arith in
          rw e (same (suc k) (omega arith) (omega arith)))

-- `a` is the package `b` but for the byte `d`.
pub record Corrupts (b : Bytes) (d : ℕ) (a : Bytes) : Type 0 where
  pub counted : d < total_len b
  pub not_len : (d ≢ 2) × (d ≢ 3)
  pub changed : a d ≢ b d
  pub others : (k : ℕ) → k < total_len b → k ≢ d → a k ≡ b k
  pub before : BytesBelow (total_len b) b
  pub after : BytesBelow (total_len b) a
  pub still_new : protocol_type a ≢ 1

module _ (b : Bytes) (d : ℕ) (a : Bytes) (c : Corrupts b d a) (long : 17 ≤ total_len b) where
  same_len : total_len a ≡ total_len b
  same_len = omega (arith, c.others 2 (omega arith), c.others 3 (omega arith), c.not_len)

  -- What `Corrupts` says of the bytes from `i` on, below `n` of them.
  bytes_from :
      (i n : ℕ) → i + n ≤ total_len b → (k : ℕ) → k < n → (a (i + k) < 256) × (b (i + k) < 256)
  bytes_from i n fits k h = (c.after (i + k) (omega arith), c.before (i + k) (omega arith))

  heads_differ : d < 16 → xor_loop 16 0 a 0 ≢ xor_loop 16 0 b 0
  heads_differ h =
      let z : 0 + d ≡ d = omega arith in
      xor_loop_differs 16 0 d a b 0 (omega arith) h (rw z c.changed) (bytes_from 0 16 (omega arith))
        λ k p q. c.others (0 + k) (omega arith) (omega arith)

  msg_xor_differs : d ≢ 16 → msg_xor a ≢ msg_xor b
  msg_xor_differs h = rw same_len (elim (Bool-cases (ltb d 16)) [
    | inl head ↦
        xor_loop_apart (total_len b - 17) 17 a b (xor_loop 16 0 a 0) (xor_loop 16 0 b 0)
          (xor_loop-lt 16 0 a 0 (omega arith)) (xor_loop-lt 16 0 b 0 (omega arith))
          (heads_differ (ground arith))
          λ k p. (c.others (17 + k) (omega arith) (ground arith), c.before (17 + k) (omega arith))
    | inr body ↦
        let heads : xor_loop 16 0 a 0 ≡ xor_loop 16 0 b 0 =
          xor_loop-agree 16 0 a b 0 (λ k p. c.others (0 + k) (omega arith) (ground arith)) in
        let at_d : 17 + (d - 17) ≡ d = ground arith in
        rw heads (
          xor_loop_differs (total_len b - 17) 17 (d - 17) a b (xor_loop 16 0 b 0)
            (xor_loop-lt 16 0 b 0 (omega arith)) (ground (arith, c.counted)) (rw at_d c.changed)
            (bytes_from 17 (total_len b - 17) (omega arith))
            λ k p q. c.others (17 + k) (omega arith) (ground arith))
  ])

  -- The sum does not read the byte 16.
  msg_xor_same : d ≡ 16 → msg_xor a ≡ msg_xor b
  msg_xor_same e =
      let heads : xor_loop 16 0 a 0 ≡ xor_loop 16 0 b 0 =
        xor_loop-agree 16 0 a b 0 (λ k p. c.others (0 + k) (omega arith) (omega arith)) in
      rw (same_len, heads)
        (xor_loop-agree (total_len b - 17) 17 a b (xor_loop 16 0 b 0)
          λ k p. c.others (17 + k) (omega arith) (omega arith))

  -- The test of the sum comes out the other way.
  sums_differ : msg_xor b ≡ fcs b → msg_xor a ≢ fcs a
  sums_differ right = elim (Bool-cases (d == 16)) [
    | inl sum ↦
        let e : d ≡ 16 = ground arith in λ q. c.changed (rw e (sym q ∙ msg_xor_same e ∙ right))
    | inr other ↦ λ q.
        msg_xor_differs (ground arith) (q ∙ c.others 16 (omega arith) (ground arith) ∙ sym right)
  ]

-- A package of the new protocol that passes the checksum test is corrupted in one byte that is neither
-- in its length field nor makes it one of the old protocol: the checksum test fails.
pub check_fcs_corrupted :
    (b : Bytes) (d : ℕ) (a : Bytes)
    → Corrupts b d a
    → 17 ≤ total_len b
    → total_len b ≤ 4114
    → protocol_type b ≡ 0
    → check_fcs b ≡ some success
    → check_fcs a ≡ some failed
unfolding check_fcs
check_fcs_corrupted b d a c lo hi new passed =
    let lens = same_len b d a c lo in
    let sum_a = calc_msg_xor_in_range a (omega (arith, lens)) (omega (arith, lens)) in
    let sum_b = calc_msg_xor_in_range b lo hi in
    let right : msg_xor b ≡ fcs b = ground (arith, passed, sum_b, new) in
    let wrong : (msg_xor a == fcs a) ≡ false = ground (arith, sums_differ b d a c lo right) in
    let not_old : (protocol_type a == 1) ≡ false = ground (arith, c.still_new) in
    rw (not_old, sum_a, wrong)
