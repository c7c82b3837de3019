-- ===== src/Tests/Frames.antt =====
-- The old frames at concrete arguments.
use comm_traffic_center.Base.{
  ◌<◌, ℕ, List, Option, none, Status, copy_at, ◌≡◌, ◌≢◌, refl, arith, true, false, none, some, [],
  ◌∷◌, Bytes, BytesBelow, IsBytes, zeros, filled, set_u8, set_u16, offset, ◌==◌, if◌then◌else◌,
  success, failed,
}
use comm_traffic_center.Package.{fcs, get_msg_len_from_pkg}
use comm_traffic_center.Package.Checksum.{check_485fcs, sum_loop}
use comm_traffic_center.Search.{get_msg_head, search_from}
use comm_traffic_center.Search.First.{IsFirst, get_msg_head-IsFirst}
use comm_traffic_center.OldFrame.{old_head, convert_old_to_new, convert_new_to_old}
use comm_traffic_center.OldFrame.Roundtrip.{Reads, convert_old_to_new_wraps}
use comm_traffic_center.OldFrame.Write.{Restores, convert_roundtrip}
use comm_traffic_center.Search.First.{At}
use comm_traffic_center.Infra.Rs485.{Action, woken}
use comm_traffic_center.Exter.{send_msg_to_remote}
use comm_traffic_center.Exter.Remote.{written}
use comm_traffic_center.Exter.OldRemote.{send_msg_to_remote-received_old}
use comm_traffic_center.OldFrame.Corrupt.{convert_old_to_new_corrupted}
use comm_traffic_center.Check.{check_fcs}
use comm_traffic_center.Receive.{
  magic_word, recv_start, Receiver, old_magic_word, returns, try_recv_full_msg,
}
use comm_traffic_center.Receive.Stream.{cut}
use comm_traffic_center.Receive.Old.{try_recv_full_msg-OldFramed}
use comm_traffic_center.Receive.OldRounds.{OldFramed}
use comm_traffic_center.Receive.Mixed.{Hijacks, try_recv_full_msg_hijacked}

-- An old frame of two body bytes: event 8, command type 1.
abbrev frame : Bytes
frame =
    set_u8
      (set_u8
        (set_u8 (set_u8 (set_u8 (set_u8 (set_u8 (set_u8 zeros 0 b'S') 1 b'M') 2 1) 3 2) 4 1) 5 8) 6
        2)
      9 14

frame-lt : BytesBelow 11 frame
frame-lt i p = ground arith

frame_sum : check_485fcs (offset frame 2) 7 ≡ frame 9
unfolding check_485fcs sum_loop
frame_sum = refl

-- The frame with another first body byte.
abbrev corrupted : Bytes
corrupted = set_u8 frame 7 3

corrupted-lt : BytesBelow 11 corrupted
corrupted-lt i p = ground arith

convert_old_to_new_corrupted_example :
    (m : Bytes) × (convert_old_to_new true corrupted ≡ some (success, m))
    × (check_fcs m ≡ some failed)
convert_old_to_new_corrupted_example =
    convert_old_to_new_corrupted true frame corrupted 2 5 frame-lt corrupted-lt refl (omega arith)
      refl frame_sum (omega arith) (omega arith) (λ e. absurd (omega (arith, e)))
      (λ k p. ground arith)

-- A frame of 250 body bytes.
abbrev long_frame : Bytes
long_frame = set_u8 frame 6 250

long_frame-lt : BytesBelow 259 long_frame
long_frame-lt i p = ground arith

convert_old_to_new_wraps_example :
    (m : Bytes) × (convert_old_to_new false long_frame ≡ some (success, m)) × (fcs m ≡ long_frame 1)
convert_old_to_new_wraps_example =
    convert_old_to_new_wraps long_frame 250 long_frame-lt refl (omega arith)

-- A package of the old protocol with a body of two bytes and the event 8.
abbrev pkg : Bytes
pkg = set_u8 (set_u8 (set_u16 (set_u16 zeros 2 19) 4 8) 7 1) 8 1

pkg-IsBytes : IsBytes pkg
pkg-IsBytes i = ground arith

convert_roundtrip_example :
    (f : Bytes) × (m' : Bytes) × (convert_new_to_old true pkg zeros ≡ some (11, f))
    × (convert_old_to_new true f ≡ some (success, m'))
    × Restores pkg 2 m'
    × (check_fcs m' ≡ some success)
unfolding get_msg_len_from_pkg
convert_roundtrip_example =
    convert_roundtrip true pkg pkg-IsBytes (omega arith) refl (omega arith) refl

get_msg_head-IsFirst_example :
    (search_from 12 frame 11 old_magic_word 2 0 ≢ none)
    × IsFirst frame 11 old_magic_word 0 (get_msg_head frame 11 old_magic_word 2)
get_msg_head-IsFirst_example = get_msg_head-IsFirst frame 11 old_magic_word

abbrev used : Receiver
used = record {
  next_step = recv_start;
  total_recv_len = 33;
  rx_add_up_len = 50;
  head_pos = some 4;
  msg_buff = filled 7;
  msg_len = 12;
}

-- The frame behind two bytes of noise.
abbrev noisy : Bytes
noisy =
    set_u8 (set_u8 (set_u8 (set_u8 (set_u8 (set_u8 (set_u8 zeros 2 b'S') 3 b'M') 4 1) 5 2) 6 1) 7 8)
      8 2

noisy-OldFramed : OldFramed noisy 2 2
noisy-OldFramed = record {
  begins = (refl, refl);
  len_byte = refl;
  no_new = λ k p. ground (arith, p.0);
  no_old = λ k p q. ground (arith, q.0);
  short = omega arith;
  fits = omega arith;
}

noisy-lt : BytesBelow 11 (offset noisy 2)
noisy-lt i p = ground arith

try_recv_full_msg-OldFramed_example :
    (m : Bytes) × (s : Receiver) × (try_recv_full_msg true (cut noisy 0 (3 ∷ 5 ∷ 6 ∷ [])) zeros used
      ≡ returns success m s)
    × Reads true (offset noisy 2) 2 m
    × (check_fcs m
        ≡ some (if check_485fcs (offset (offset noisy 2) 2) 7 == noisy 11 then success else failed))
try_recv_full_msg-OldFramed_example =
    try_recv_full_msg-OldFramed true noisy 2 2 (3 ∷ 5 ∷ 6 ∷ []) zeros used noisy-OldFramed noisy-lt
      (omega arith) refl (omega arith, (omega arith, (omega arith, tt))) (omega arith)

-- A frame of twenty body bytes that holds the new magic word at 8 and a length of 65535 behind it.
abbrev mixed : Bytes
mixed =
    set_u16 (set_u8 (set_u8 (set_u8 (set_u8 (set_u8 zeros 0 b'S') 1 b'M') 6 20) 8 0xAA) 9 0x55) 10
      65535

mixed-Hijacks : Hijacks mixed 20 29 8
mixed-Hijacks = record {
  begins = (refl, refl);
  len_byte = refl;
  complete = omega arith;
  one_read = omega arith;
  magic_at = (refl, refl);
  in_body = (omega arith, omega arith);
  magic_first = λ k h p. ground (arith, p.0);
  head_in = omega arith;
  length_there = omega arith;
}

try_recv_full_msg_hijacked_example :
    (s : Receiver) × (try_recv_full_msg true (record { count = 29; bytes = mixed } ∷ []) zeros used
      ≡ returns failed zeros s)
try_recv_full_msg_hijacked_example =
    try_recv_full_msg_hijacked true mixed 20 29 8 zeros used mixed-Hijacks

-- The frame of `pkg`, whose bytes are all below 0xAA.
abbrev second : Option (ℕ × Bytes) → Bytes
second none = zeros
second (some p) = p.1

abbrev pkg_frame : Bytes
pkg_frame = second (convert_new_to_old true pkg zeros)

pkg_converted : convert_new_to_old true pkg zeros ≡ some (11, pkg_frame)
unfolding convert_new_to_old old_head get_msg_len_from_pkg
pkg_converted = refl

pkg_frame-lt : (k : ℕ) → pkg_frame k < 0xAA
unfolding convert_new_to_old old_head get_msg_len_from_pkg copy_at check_485fcs sum_loop
pkg_frame-lt k = ground arith

no_new : (k : ℕ) → ¬ At pkg_frame magic_word k
no_new k (p, q) = absurd (omega (arith, p, pkg_frame-lt k))

send_msg_to_remote-received_old_example :
    (s : Status) × (acts : List Action) × (m' : Bytes) × (r' : Receiver) × (send_msg_to_remote true
        true woken
        (some pkg)
        19
      ≡ some (s, acts))
    × (written acts ≡ (pkg_frame, 11) ∷ [])
    × (try_recv_full_msg true (cut pkg_frame 0 (4 ∷ 8 ∷ [])) zeros used ≡ returns success m' r')
    × Restores pkg 2 m'
    × (check_fcs m' ≡ some success)
send_msg_to_remote-received_old_example =
    send_msg_to_remote-received_old true woken pkg pkg_frame 19 2 (4 ∷ 8 ∷ []) zeros used
      pkg-IsBytes refl (unfold get_msg_len_from_pkg in refl) (omega arith) refl (omega arith) refl
      pkg_converted no_new (omega arith, (omega arith, tt)) (omega arith)
