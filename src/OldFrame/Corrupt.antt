-- ===== src/OldFrame/Corrupt.antt =====
-- An old frame that is corrupted in one byte.
use native.Mathlib.Nat.{add-zero}
use comm_traffic_center.Base.{
  ℕ, zero, suc, ◌+◌, ◌%◌, ◌≤◌, ◌<◌, ◌≡◌, ◌≢◌, refl, ◌∙◌, arith, Bool, false, some, Bytes,
  BytesBelow, offset, ◌==◌, success, failed,
}
use comm_traffic_center.Package.Checksum.{check_485fcs, sum_loop}
use comm_traffic_center.OldFrame.{is_negative, convert_old_to_new}
use comm_traffic_center.OldFrame.Roundtrip.{convert_old_to_new-Reads}
use comm_traffic_center.Check.{check_fcs}

-- Sums that differ stay apart over equal bytes.
sum_loop_apart :
    (n i : ℕ) (a b : Bytes) (acc acc' : ℕ)
    → acc % 256 ≢ acc' % 256
    → ((k : ℕ) → k < n → a (i + k) ≡ b (i + k))
    → sum_loop n i a acc % 256 ≢ sum_loop n i b acc' % 256
unfolding sum_loop
sum_loop_apart zero i a b acc acc' ne same = ne
sum_loop_apart (suc n) i a b acc acc' ne same =
    let here : a i ≡ b i = rw (← add-zero i) (same 0 (omega arith)) in
    sum_loop_apart n (i + 1) a b ((acc + a i) % 256) ((acc' + b i) % 256)
      (λ e. ne (omega (arith, here, e)))
      λ k p. let e : i + 1 + k ≡ i + suc k = omega arith in rw e (same (suc k) (omega arith))

-- One byte that differs makes the sums differ.
sum_loop_differs :
    (n i d : ℕ) (a b : Bytes) (acc : ℕ)
    → d < n
    → a (i + d) % 256 ≢ b (i + d) % 256
    → ((k : ℕ) → k < n → k ≢ d → a (i + k) ≡ b (i + k))
    → sum_loop n i a acc % 256 ≢ sum_loop n i b acc % 256
unfolding sum_loop
sum_loop_differs zero i d a b acc h ne same = absurd (omega arith)
sum_loop_differs (suc n) i zero a b acc h ne same =
    let here : i + 0 ≡ i = omega arith in
    sum_loop_apart n (i + 1) a b ((acc + a i) % 256) ((acc + b i) % 256)
      (λ e. ne (rw here (omega (arith, e))))
      λ k p.
        let e : i + 1 + k ≡ i + suc k = omega arith in
        rw e (same (suc k) (omega arith) (omega arith))
sum_loop_differs (suc n) i (suc d) a b acc h ne same =
    let here : a i ≡ b i = rw (← add-zero i) (same 0 (omega arith) (omega arith)) in
    let e : i + 1 + d ≡ i + suc d = omega arith in
    rw here (
      sum_loop_differs n (i + 1) d a b ((acc + b i) % 256) (omega arith) (rw e ne) λ k p q.
        let e : i + 1 + k ≡ i + suc k = omega arith in
        rw e (same (suc k) (omega arith) (omega arith)))

-- A frame of at most 248 body bytes (below 128 where `char` is signed) with the right sum is corrupted
-- on the line in one byte behind the marks that is neither its length nor its sum: it is still turned
-- into a package, and the checksum test on that package fails.
pub convert_old_to_new_corrupted :
    (char_signed : Bool) (f g : Bytes) (n d : ℕ)
    → BytesBelow (n + 9) f
    → BytesBelow (n + 9) g
    → f 6 ≡ n
    → n ≤ 248
    → is_negative char_signed n ≡ false
    → check_485fcs (offset f 2) (n + 5) ≡ f (7 + n)
    → d < n + 5
    → d ≢ 4
    → g (2 + d) ≢ f (2 + d)
    → ((k : ℕ) → k ≢ 2 + d → g k ≡ f k)
    → (m : Bytes) × (convert_old_to_new char_signed g ≡ some (success, m))
      × (check_fcs m ≡ some failed)
unfolding check_485fcs
convert_old_to_new_corrupted c f g n d fb gb len short plain good h not_len ne same =
    let len_g : g 6 ≡ n = same 6 (omega arith) ∙ len in
    let (m, runs, _, tests) = convert_old_to_new-Reads c g n gb len_g short plain in
    let apart =
      sum_loop_differs (n + 5) 0 d (offset g 2) (offset f 2) 0 h
        (λ e.
          let z : 0 + d ≡ d = omega arith in
          ne (omega (arith, rw z at e, fb (2 + d) (omega arith), gb (2 + d) (omega arith))))
        (λ k p q. let z : 0 + k ≡ k = omega arith in rw z (same (2 + k) (omega arith))) in
    let wrong : (check_485fcs (offset g 2) (n + 5) == g (7 + n)) ≡ false =
      ground (arith, apart, good, same (7 + n) (omega arith)) in
    (m, runs, tests ∙ rw wrong refl)
