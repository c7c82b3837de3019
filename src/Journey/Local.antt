-- ===== src/Journey/Local.antt =====
-- What `ctc_send_msg` does for each process number of this device: app/msg_sender.c,
-- app/matrix_register.c and the sockets of app/msg_util.c together.
use comm_traffic_center.Base.{
  ℕ, ◌≡◌, ◌≢◌, ◌∙◌, arith, Bool-cases, false, inl, inr, ◌⊎◌, some, [], ◌∷◌, Bytes, ◌==◌, success,
  failed,
}
use comm_traffic_center.Package.{Direction, fcs}
use comm_traffic_center.Package.Build.{is_cross_dev}
use comm_traffic_center.Package.Checksum.{calc_msg_xor}
use comm_traffic_center.Package.Fields.{FitsTypes, Carries}
use comm_traffic_center.Socket.{opened, closed, sent, send_msg_to_local, ref_sel_proc}
use comm_traffic_center.Socket.Laws.{send_msg_to_local-reaches}
use comm_traffic_center.Sender.{Env, ctc_send_msg}
use comm_traffic_center.Sender.Routes.{ctc_send_msg_local}
use comm_traffic_center.Start.Meeting.{matrix_missing}
use comm_traffic_center.Journey.{Serves}

-- A message to a process of this device, with arguments that fit their types, where the system serves
-- the send: either the process is REF_SEL_PROC, and `ctc_send_msg` succeeds and sends to that process's
-- socket, once, a package that carries the arguments and body and has the right checksum; or it is any
-- other process, and `ctc_send_msg` fails with nothing opened and nothing sent.
pub ctc_send_msg_by_pid :
    (env : Env) (event : ℕ) (dst : Direction) (data_ : Bytes) (len ack attempt : ℕ)
    → FitsTypes env.self_pid event dst len ack
    → is_cross_dev dst.shelf dst.card ≡ false
    → Serves env.sys attempt
    → ((dst.pid ≡ ref_sel_proc)
        × ((m : Bytes) × (ctc_send_msg env event (some dst) (some data_) len ack
              ≡ some (success, opened ∷ sent "/tmp/.ref_sel" m 4114 ∷ closed ∷ []))
            × Carries env.self_pid event dst data_ len ack m
            × (calc_msg_xor m ≡ some (fcs m))))
      ⊎ ((dst.pid ≢ ref_sel_proc)
          × (ctc_send_msg env event (some dst) (some data_) len ack ≡ some (failed, [])))
unfolding send_msg_to_local
ctc_send_msg_by_pid env event dst data_ len ack attempt f here serves =
    let (m, sends, carries, sum) = ctc_send_msg_local env event dst data_ len ack f here in
    elim (Bool-cases (dst.pid == ref_sel_proc)) [
      | inl e ↦
          let q : dst.pid ≡ ref_sel_proc = ground arith in
          let reached =
            send_msg_to_local-reaches env.sys m 4114 attempt serves.has_socket serves.in_time
              serves.connects (serves.sends m) in
          inl (q, (m, sends ∙ rw (q, reached), carries, sum))
      | inr e ↦
          let q : dst.pid ≢ ref_sel_proc = ground arith in
          inr (q, sends ∙ rw (matrix_missing dst.pid q))
    ]
