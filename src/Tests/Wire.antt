-- ===== src/Tests/Wire.antt =====
-- The two protocols, the receiver and the line at concrete arguments.
use comm_traffic_center.Base.{
  ◌-◌, ◌≡◌, ◌≢◌, refl, arith, true, false, some, [], ◌∷◌, Bytes, Agree, zeros, filled, set_u8,
  offset, set_u16, success,
}
use comm_traffic_center.Package.{Direction, protocol_type, fcs, get_msg_len_from_pkg}
use comm_traffic_center.Package.Build.{package_new_ptp_msg}
use comm_traffic_center.Package.Checksum.{calc_msg_xor}
use comm_traffic_center.Package.Fields.{FitsTypes, Carries, package_new_ptp_msg-Carries}
use comm_traffic_center.Receive.{recv_start, Receiver, returns, waiting, try_recv_full_msg}
use comm_traffic_center.Receive.Stream.{cut}
use comm_traffic_center.Receive.FrameRounds.{Framed}
use comm_traffic_center.Receive.Frame.{try_recv_full_msg-Framed}
use comm_traffic_center.Receive.Leftover.{Overlaps, try_recv_full_msg_drops}
use comm_traffic_center.Receive.Safety.{Runs, try_recv_full_msg-Runs}
use comm_traffic_center.Exter.{recv_msg_from_exter}
use comm_traffic_center.Exter.Rejects.{recv_msg_from_exter-rejects}

abbrev pub there : Direction
there = record { shelf = 1; card = 2; pid = 100 }

abbrev pub hello : Bytes
hello i = 104 - i

pub there_fits : FitsTypes 9 300 there 3 1
there_fits = record {
  self_fits = omega arith;
  event_fits = omega arith;
  shelf_fits = omega arith;
  card_fits = omega arith;
  pid_fits = omega arith;
  ack_fits = omega arith;
  len_fits = omega arith;
}

package_new_ptp_msg-Carries_example :
    (m : Bytes) × (package_new_ptp_msg 9 zeros 300 (some there) (some hello) 3 1 ≡ some m)
    × Carries 9 300 there hello 3 1 m
    × (protocol_type m ≡ 0)
    × (get_msg_len_from_pkg (some m) ≡ 3)
    × (calc_msg_xor m ≡ some (fcs m))
package_new_ptp_msg-Carries_example = package_new_ptp_msg-Carries 9 300 there hello 3 1 there_fits

-- A receiver with remains of earlier messages.
abbrev pub used : Receiver
used = record {
  next_step = recv_start;
  total_recv_len = 33;
  rx_add_up_len = 50;
  head_pos = some 4;
  msg_buff = filled 7;
  msg_len = 12;
}

-- A stream with a package of 20 bytes behind three bytes of noise.
abbrev stream : Bytes
stream = set_u16 (set_u8 (set_u8 (set_u8 zeros 1 0xAA) 3 0xAA) 4 0x55) 5 20

stream-Framed : Framed stream 3 20
stream-Framed = record {
  begins = (refl, refl);
  no_new = λ k p q. ground (arith, q.0, q.1);
  no_old = λ k p q. ground (arith, q.0);
  sized = refl;
  long = omega arith;
  fits = omega arith;
}

try_recv_full_msg-Framed_example :
    (dst : Bytes) × (s : Receiver) × (try_recv_full_msg true
        (cut stream 0 (1 ∷ 9 ∷ 15 ∷ []))
        zeros
        used
      ≡ returns success dst s)
    × Agree 20 dst (offset stream 3)
try_recv_full_msg-Framed_example =
    try_recv_full_msg-Framed true stream 3 20 (1 ∷ 9 ∷ 15 ∷ []) zeros used stream-Framed
      (omega arith, (omega arith, (omega arith, tt))) (omega arith)

try_recv_full_msg-Runs_example :
    Runs (try_recv_full_msg false (cut stream 0 (3 ∷ 40 ∷ [])) zeros used)
try_recv_full_msg-Runs_example =
    try_recv_full_msg-Runs (cut stream 0 (3 ∷ 40 ∷ [])) zeros used (omega arith)
      (λ i. ground arith, omega arith, (λ i. ground arith, omega arith, tt))

recv_msg_from_exter-rejects_example :
    recv_msg_from_exter true (cut stream 0 (20 ∷ [])) zeros used ≢ returns success stream used
recv_msg_from_exter-rejects_example =
    recv_msg_from_exter-rejects true (cut stream 0 (20 ∷ [])) zeros used stream used

-- A package of 17 bytes and one of 20 bytes behind it; one read ends three bytes into the second.
abbrev double : Bytes
double =
    set_u16 (set_u8 (set_u8 (set_u16 (set_u8 (set_u8 zeros 0 0xAA) 1 0x55) 2 17) 17 0xAA) 18 0x55)
      19 20

double-Overlaps : Overlaps double 0 17 20 [] 20 (9 ∷ 8 ∷ [])
double-Overlaps = record {
  first = record {
    begins = (refl, refl);
    no_new = λ k p. absurd (omega arith);
    no_old = λ k p. absurd (omega arith);
    sized = refl;
    long = omega arith;
    fits = omega arith;
  };
  second = record {
    begins = (refl, refl);
    no_new = λ k p. absurd (omega arith);
    no_old = λ k p. absurd (omega arith);
    sized = refl;
    long = omega arith;
    fits = omega arith;
  };
  reads = (omega arith, tt);
  reads' = (omega arith, (omega arith, tt));
  incomplete = omega arith;
  beyond = omega arith;
  rest = λ k p. (λ e. ground (arith, e.0), λ e. ground (arith, e.0));
  fits = omega arith;
  all_in = omega arith;
}

try_recv_full_msg_drops_example :
    (got : Bytes) × (s1 : Receiver) × (s2 : Receiver) × (got' : Bytes) × (s3 : Receiver)
    × (try_recv_full_msg true (cut double 0 (20 ∷ [])) zeros used ≡ returns success got s1)
    × Agree 17 got (offset double 0)
    × (try_recv_full_msg true (cut (offset double 20) 0 (9 ∷ 8 ∷ [])) zeros s1 ≡ waiting zeros s2)
    × (try_recv_full_msg true (cut (offset double 17) 0 (3 ∷ 9 ∷ 8 ∷ [])) zeros s1
        ≡ returns success got' s3)
    × Agree 20 got' (offset double 17)
try_recv_full_msg_drops_example =
    try_recv_full_msg_drops true double 0 17 20 [] 20 (9 ∷ 8 ∷ []) zeros used double-Overlaps
