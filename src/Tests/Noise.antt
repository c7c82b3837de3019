-- ===== src/Tests/Noise.antt =====
-- A corrupted package, and messages from end to end at concrete arguments.
use comm_traffic_center.Base.{
  ℕ, List, ◌≡◌, refl, arith, true, some, [], ◌∷◌, ◌++◌, Bytes, IsBytes, zeros, set_u8, pos, success,
  failed, ℤ, ◌⊎◌, ◌≢◌,
}
use comm_traffic_center.Package.{fcs, protocol_type}
use comm_traffic_center.Package.Build.{package_new_ptp_msg, is_cross_dev}
use comm_traffic_center.Package.Checksum.{calc_msg_xor}
use comm_traffic_center.Package.Fields.{Carries, package_new_ptp_msg-Carries}
use comm_traffic_center.Package.Typed.{package_ptp_msg-PointsToBytes}
use comm_traffic_center.Check.{check_fcs}
use comm_traffic_center.Receive.{Receiver, returns, try_recv_full_msg}
use comm_traffic_center.Receive.Stream.{cut}
use comm_traffic_center.Exter.Noise.{Flips, try_recv_full_msg_corrupted}
use comm_traffic_center.Mailbox.{get_msg_num}
use comm_traffic_center.Mailbox.Refine.{contents}
use comm_traffic_center.Syncer.{idle}
use comm_traffic_center.Handler.{Process, event_poster_turn}
use comm_traffic_center.Socket.{ref_sel_proc, opened, sent, closed, queued}
use comm_traffic_center.Sender.{ctc_send_msg}
use comm_traffic_center.Package.{Direction}
use comm_traffic_center.Package.Fields.{FitsTypes}
use comm_traffic_center.Journey.Local.{ctc_send_msg_by_pid}
use comm_traffic_center.Journey.Line.{Queues, ctc_send_msg-received}
use comm_traffic_center.Transmitter.{exter_transmitter_turn}
use comm_traffic_center.Infra.Rs485.{Action, timed_out}
use comm_traffic_center.Exter.Remote.{written}
use comm_traffic_center.Journey.{Serves, HasRoom, ctc_send_msg-mailed}
use comm_traffic_center.Tests.Wire.{there, hello, there_fits, used}
use comm_traffic_center.Tests.Sending
use comm_traffic_center.Tests.Sending.{env, here, here_fits, slow}

hello-IsBytes : IsBytes hello
hello-IsBytes i = omega arith

-- The package of "hel", and that package with another second body byte.
abbrev made : Bytes
made = (package_new_ptp_msg-Carries 9 300 there hello 3 1 there_fits).0

made_lem : package_new_ptp_msg 9 zeros 300 (some there) (some hello) 3 1 ≡ some made
made_lem = (package_new_ptp_msg-Carries 9 300 there hello 3 1 there_fits).1

made-Carries : Carries 9 300 there hello 3 1 made
made-Carries = (package_new_ptp_msg-Carries 9 300 there hello 3 1 there_fits).2

made_new : protocol_type made ≡ 0
made_new = (package_new_ptp_msg-Carries 9 300 there hello 3 1 there_fits).3

made-IsBytes : IsBytes made
made-IsBytes =
    rw made_lem at
      (package_ptp_msg-PointsToBytes 9 zeros 300 (some there) (some hello) 3 1 (λ i. omega arith)
        hello-IsBytes 7).0

abbrev flipped : Bytes
flipped = set_u8 made 18 0

made-Flips : Flips made 18 flipped
made-Flips = record {
  behind_len = omega arith;
  inside = omega (arith, made-Carries.length_field);
  changed = λ e. absurd (omega (arith, e, made-Carries.body_field 1 (omega arith)));
  others = λ k p. ground arith;
  bytes = λ i. ground (arith, made-IsBytes i);
  not_old = λ e. absurd (omega (arith, e, made_new));
}

try_recv_full_msg_corrupted_example :
    (got : Bytes) × (r : Receiver) × (try_recv_full_msg true
        (cut flipped 0 (7 ∷ 13 ∷ []))
        zeros
        used
      ≡ returns success got r)
    × (check_fcs got ≡ some failed)
try_recv_full_msg_corrupted_example =
    try_recv_full_msg_corrupted true 9 300 there hello 3 1 18 made flipped (7 ∷ 13 ∷ []) zeros used
      there_fits hello-IsBytes made_lem made-Flips (omega arith, (omega arith, tt)) (omega arith)

-- Ten messages are in the mailbox, and every entry of the table waits for the event 7.
abbrev awaiting : Process
awaiting = record {
  syncers = λ i. record idle { on_event = 7 };
  mailbox = record { msg_queue = λ i. zeros; front = 20; rear = 30 };
}

awaiting-HasRoom : HasRoom awaiting 300
unfolding get_msg_num
awaiting-HasRoom = record {
  valid = record { front_in = omega arith; rear_in = omega arith };
  room = omega arith;
  unwaited = λ k h e. absurd (omega (arith, e));
}

pub slow-Serves : Serves slow 3
slow-Serves = record {
  has_socket = refl;
  in_time = omega arith;
  connects = refl;
  sends = λ m. refl;
}

ctc_send_msg-mailed_example :
    (m : Bytes) × (got : Bytes) × (ctc_send_msg env 300 (some here) (some Sending.hello) 2 1
      ≡ some (success, opened ∷ sent "/tmp/.ref_sel" m 4114 ∷ closed ∷ []))
    × (contents (event_poster_turn awaiting (pos 4114) m).mailbox
        ≡ contents awaiting.mailbox ++ (got ∷ []))
    × Carries 9 300 here Sending.hello 2 1 got
    × (calc_msg_xor got ≡ some (fcs got))
ctc_send_msg-mailed_example =
    ctc_send_msg-mailed env 300 here Sending.hello 2 1 3 awaiting here_fits
      (unfold is_cross_dev in refl) refl slow-Serves awaiting-HasRoom

abbrev held : Bytes → Bytes → ℕ → ℕ → ℤ × Bytes
held m buffer size deadline = (pos 4114, m)

env-Queues : Queues env held 1000
env-Queues = record { takes = λ m. refl; gives = λ m. refl }

ctc_send_msg-received_example :
    (m : Bytes) × (acts : List Action) × (got : Bytes) × (r' : Receiver) × (ctc_send_msg env 300
        (some Sending.there)
        (some Sending.hello)
        2
        1
      ≡ some (success, queued m 4114 ∷ []))
    × (exter_transmitter_turn true true timed_out (held m) 1000 ≡ some acts)
    × (written acts ≡ (m, 19) ∷ [])
    × (try_recv_full_msg true (cut m 0 (10 ∷ 9 ∷ [])) zeros used ≡ returns success got r')
    × Carries 9 300 Sending.there Sending.hello 2 1 got
    × (check_fcs got ≡ some success)
ctc_send_msg-received_example =
    ctc_send_msg-received true env 300 Sending.there Sending.hello 2 1 held 1000 timed_out
      (10 ∷ 9 ∷ []) zeros used (Sending.there_fits 2 (omega arith)) (unfold is_cross_dev in refl)
      (omega arith) env-Queues (omega arith, (omega arith, tt)) (omega arith)

-- GNSS_PROC of this device.
abbrev gnss : Direction
gnss = record Sending.here { pid = 101 }

gnss_fits : FitsTypes 9 300 gnss 2 1
gnss_fits = record {
  self_fits = omega arith;
  event_fits = omega arith;
  shelf_fits = omega arith;
  card_fits = omega arith;
  pid_fits = omega arith;
  ack_fits = omega arith;
  len_fits = omega arith;
}

ctc_send_msg_by_pid_example :
    ((101 ≡ ref_sel_proc)
      × ((m : Bytes) × (ctc_send_msg env 300 (some gnss) (some Sending.hello) 2 1
            ≡ some (success, opened ∷ sent "/tmp/.ref_sel" m 4114 ∷ closed ∷ []))
          × Carries 9 300 gnss Sending.hello 2 1 m
          × (calc_msg_xor m ≡ some (fcs m))))
    ⊎ ((101 ≢ ref_sel_proc)
        × (ctc_send_msg env 300 (some gnss) (some Sending.hello) 2 1 ≡ some (failed, [])))
ctc_send_msg_by_pid_example =
    ctc_send_msg_by_pid env 300 gnss Sending.hello 2 1 3 gnss_fits (unfold is_cross_dev in refl)
      slow-Serves
