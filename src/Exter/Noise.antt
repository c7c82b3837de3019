-- ===== src/Exter/Noise.antt =====
-- A package of the new protocol that the line corrupts in one byte.
use mathlib.Core.Option.{some-injective}
use comm_traffic_center.Base.{
  ℕ, ◌+◌, ◌≤◌, ◌<◌, ◌≡◌, ◌≢◌, refl, sym, ◌∙◌, arith, Bool, some, List, Bytes, IsBytes, zeros,
  success, failed,
}
use comm_traffic_center.Package.{Direction, total_len, protocol_type, fcs}
use comm_traffic_center.Package.Build.{package_new_ptp_msg}
use comm_traffic_center.Package.Fields.{FitsTypes, Carries, package_new_ptp_msg-Carries}
use comm_traffic_center.Package.Checksum.{calc_msg_xor}
use comm_traffic_center.Package.Typed.{package_ptp_msg-PointsToBytes}
use comm_traffic_center.Package.Corrupt.{check_fcs_corrupted}
use comm_traffic_center.Check.{check_fcs}
use comm_traffic_center.Receive.{Receiver, returns, try_recv_full_msg}
use comm_traffic_center.Receive.Stream.{cut, sum, FitReads, Agree-from_zero}
use comm_traffic_center.Receive.FrameRounds.{Framed}
use comm_traffic_center.Receive.Frame.{try_recv_full_msg-Framed}
use comm_traffic_center.Exter.Remote.{Agree-check_fcs}

-- The line delivers `g` for `m`: the byte `d` behind the length field is another one.
pub record Flips (m : Bytes) (d : ℕ) (g : Bytes) : Type 0 where
  pub behind_len : 4 ≤ d
  pub inside : d < total_len m
  pub changed : g d ≢ m d
  pub others : (k : ℕ) → k ≢ d → g k ≡ m k
  pub bytes : IsBytes g
  pub not_old : protocol_type g ≢ 1

-- A message with arguments that fit their types is packaged, and the line changes one byte of the
-- package, behind the length field and not so that it is marked as of the old protocol. Whatever the
-- pieces in which another device reads it, each at most the size of a package, `try_recv_full_msg`
-- there returns SUCCESS, with a package that fails the checksum test.
pub try_recv_full_msg_corrupted :
    (char_signed : Bool) (self_pid event : ℕ) (dst : Direction) (data_ : Bytes) (len ack d : ℕ)
    (m g : Bytes) (ns : List ℕ) (buf : Bytes) (r : Receiver)
    → FitsTypes self_pid event dst len ack
    → IsBytes data_
    → package_new_ptp_msg self_pid zeros event (some dst) (some data_) len ack ≡ some m
    → Flips m d g
    → FitReads ns
    → 17 + len ≤ sum ns
    → (got : Bytes) × (r' : Receiver) × (try_recv_full_msg char_signed (cut g 0 ns) buf r
        ≡ returns success got r')
      × (check_fcs got ≡ some failed)
try_recv_full_msg_corrupted c self_pid event dst data_ len ack d m g ns buf r f body made flip reads
      h =
    let (m', made', carries', new', _, sum') =
      package_new_ptp_msg-Carries self_pid event dst data_ len ack f in
    let same : m' ≡ m = some-injective _ _ (sym made' ∙ made) in
    let carries : Carries self_pid event dst data_ len ack m = rw same at carries' in
    let new : protocol_type m ≡ 0 = rw same at new' in
    let sum_m : calc_msg_xor m ≡ some (fcs m) = rw same at sum' in
    let bytes : IsBytes m =
      rw made at
        (package_ptp_msg-PointsToBytes self_pid zeros event (some dst) (some data_) len ack
          (λ i. omega arith) body 0).0 in
    let len_m = carries.length_field in
    let fits = f.len_fits in
    let passed = Agree-check_fcs m m (omega arith) (omega arith) (λ i p. refl) new sum_m in
    let framed : Framed g 0 (17 + len) = record {
      begins = (
        flip.others 0 (omega (arith, flip.behind_len)) ∙ carries.magic_0,
        flip.others 1 (omega (arith, flip.behind_len)) ∙ carries.magic_1,
      );
      no_new = λ k p. absurd (omega arith);
      no_old = λ k p. absurd (omega arith);
      sized = omega (
        arith,
        len_m,
        flip.others 2 (omega (arith, flip.behind_len)),
        flip.others 3 (omega (arith, flip.behind_len)),
      );
      long = omega arith;
      fits = omega arith;
    } in
    let (got, r', runs, there) =
      try_recv_full_msg-Framed c g 0 (17 + len) ns buf r framed reads (omega arith) in
    let agree = Agree-from_zero g there in
    (
      got,
      r',
      runs,
      check_fcs_corrupted m d got
          (record {
            counted = flip.inside;
            not_len = (omega (arith, flip.behind_len), omega (arith, flip.behind_len));
            changed = λ e. flip.changed (sym (agree d (omega (arith, flip.inside))) ∙ e);
            others = λ k p q. agree k (omega arith) ∙ flip.others k q;
            before = λ i p. bytes i;
            after = λ k p. rw (agree k (omega arith)) (flip.bytes k);
            still_new = λ e. flip.not_old (sym (agree 8 (omega arith)) ∙ e);
          })
          (omega arith) (omega arith) new passed,
    )
