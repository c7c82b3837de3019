-- ===== src/Tests/Sending.antt =====
-- The senders, the sockets, the serial line's driver and the deadlines at concrete arguments.
use comm_traffic_center.Base.{
  ℕ, ◌+◌, ◌*◌, ◌≤◌, ◌<◌, ◌≡◌, refl, arith, inr, true, none, some, [], ◌∷◌, Bytes, zeros, set_u8,
  pos, negsuc, is_success, ltb, if◌then◌else◌, success, failed,
}
use comm_traffic_center.Package.{Direction, fcs, protocol_type, cmd_type_old}
use comm_traffic_center.Package.Checksum.{calc_msg_xor}
use comm_traffic_center.Package.Fields.{FitsTypes, Carries}
use comm_traffic_center.Clock.{
  Timespec, nanos, set_time_out_ms, get_time_out_len, set_time_out_ms_lem, get_time_out_len_past,
}
use comm_traffic_center.Socket.{
  System, opened, closed, sent, queued, ref_sel_proc, send_msg_to_local,
}
use comm_traffic_center.Socket.Laws.{
  left_open, delivered, send_msg_to_local-reaches, send_msg_to_local-balanced,
}
use comm_traffic_center.Package.Build.{is_cross_dev}
use comm_traffic_center.Sender.{Env, ctc_send_msg, ctc_send_old_msg}
use comm_traffic_center.Sender.Routes.{
  ctc_send_msg_cross, ctc_send_msg_refused, ctc_send_old_msg_queued,
}
use comm_traffic_center.Receive.{recv_start, Receiver}
use comm_traffic_center.Transmitter.{inter_transmitter}
use comm_traffic_center.Transmitter.Turns.{inter_transmitter-AreSilent, AreSilent}

-- Late in a second.
abbrev late : Timespec
late = record { tv_sec = 10; tv_nsec = 950000000 }

set_time_out_ms_lem_example :
    ((set_time_out_ms 2500 late).tv_nsec < 1000000000)
    × (nanos (set_time_out_ms 2500 late) ≡ nanos late + 2500 * 1000000)
set_time_out_ms_lem_example = set_time_out_ms_lem 2500 late (omega arith)

abbrev early : Timespec
early = record { tv_sec = 10; tv_nsec = 123456789 }

get_time_out_len_past_example : nanos (get_time_out_len early) ≤ nanos early
get_time_out_len_past_example = get_time_out_len_past early (omega arith)

-- A system whose fourth connection succeeds, and one where none does.
abbrev pub slow : System
slow = record {
  socket = pos 5;
  connect = λ i. ltb 2 i;
  send = λ m n. pos n;
  bind = pos 0;
  listen = negsuc 0;
}

send_msg_to_local-reaches_example :
    send_msg_to_local slow ref_sel_proc zeros 4114
    ≡ (success, opened ∷ sent "/tmp/.ref_sel" zeros 4114 ∷ closed ∷ [])
send_msg_to_local-reaches_example =
    send_msg_to_local-reaches slow zeros 4114 3 refl (omega arith) refl refl

send_msg_to_local-balanced_example :
    let (s, es) = send_msg_to_local slow 7 zeros 4114 in
    (left_open 0 es ≡ 0) × (delivered es ≡ (if is_success s then 1 else 0))
send_msg_to_local-balanced_example = send_msg_to_local-balanced slow 7 zeros 4114

abbrev pub env : Env
env = record { self_pid = 9; sys = slow; mq_timedsend = λ m n t. pos 0; now = 1000 }

abbrev pub here : Direction
here = record { shelf = 1; card = 1; pid = 100 }

abbrev pub there : Direction
there = record { shelf = 1; card = 2; pid = 100 }

abbrev pub hello : Bytes
hello = set_u8 (set_u8 zeros 0 104) 1 105

pub here_fits : FitsTypes 9 300 here 2 1
here_fits = record {
  self_fits = omega arith;
  event_fits = omega arith;
  shelf_fits = omega arith;
  card_fits = omega arith;
  pid_fits = omega arith;
  ack_fits = omega arith;
  len_fits = omega arith;
}

pub there_fits : (len : ℕ) → len ≤ 4096 → FitsTypes 9 300 there len 1
there_fits len h = record {
  self_fits = omega arith;
  event_fits = omega arith;
  shelf_fits = omega arith;
  card_fits = omega arith;
  pid_fits = omega arith;
  ack_fits = omega arith;
  len_fits = h;
}

old_fits : FitsTypes 9 30 there 2 1
old_fits = record {
  self_fits = omega arith;
  event_fits = omega arith;
  shelf_fits = omega arith;
  card_fits = omega arith;
  pid_fits = omega arith;
  ack_fits = omega arith;
  len_fits = omega arith;
}

ctc_send_msg_cross_example :
    (m : Bytes) × (ctc_send_msg env 300 (some there) (some hello) 2 1
      ≡ some (success, queued m 4114 ∷ []))
    × Carries 9 300 there hello 2 1 m
    × (calc_msg_xor m ≡ some (fcs m))
ctc_send_msg_cross_example =
    ctc_send_msg_cross env 300 there hello 2 1 (there_fits 2 (omega arith))
      (unfold is_cross_dev in refl) (omega arith)

ctc_send_msg_refused_example :
    ctc_send_msg env 300 (some there) (some hello) 257 1 ≡ some (failed, [])
ctc_send_msg_refused_example =
    ctc_send_msg_refused env 300 there hello 257 1 (there_fits 0 (omega arith))
      (inr (omega arith, unfold is_cross_dev in refl))

ctc_send_old_msg_queued_example :
    (m : Bytes) × (ctc_send_old_msg env 30 (some there) (some hello) 2 7 1
      ≡ some (success, queued m 4114 ∷ []))
    × Carries 9 30 there hello 2 1 m
    × (protocol_type m ≡ 1)
    × (cmd_type_old m ≡ 7)
ctc_send_old_msg_queued_example =
    ctc_send_old_msg_queued env 30 there hello 2 7 1 old_fits (omega arith) (omega arith)

abbrev fresh : Receiver
fresh = record {
  next_step = recv_start;
  total_recv_len = 0;
  rx_add_up_len = 0;
  head_pos = none;
  msg_buff = zeros;
  msg_len = 0;
}

inter_transmitter-AreSilent_example : AreSilent (
    inter_transmitter true slow
      ((record { count = 2; bytes = hello } ∷ [])
        ∷ (record { count = 20; bytes = zeros } ∷ [])
        ∷ [])
      fresh)
inter_transmitter-AreSilent_example =
    inter_transmitter-AreSilent true slow
      ((record { count = 2; bytes = hello } ∷ [])
        ∷ (record { count = 20; bytes = zeros } ∷ [])
        ∷ [])
      fresh
