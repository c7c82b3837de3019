-- ===== src/Sender/Routes.antt =====
-- Where a message goes, and when it goes nowhere.
use comm_traffic_center.Base.{
  ℕ, ◌+◌, ◌≤◌, ◌<◌, ◌≡◌, arith, true, false, ◌⊎◌, inl, inr, Option, none, some, [], ◌∷◌, Bytes,
  zeros, ltb, Bool-cases, success, failed, is_nonzero, if◌then◌else◌,
}
use comm_traffic_center.Package.{Direction, fcs, protocol_type, cmd_type_old}
use comm_traffic_center.Package.Build.{is_cross_dev, package_msg, package_new_ptp_msg}
use comm_traffic_center.Package.Fields.{
  FitsTypes, Carries, package_new_ptp_msg-Carries, package_old_ptp_msg-Carries,
}
use comm_traffic_center.Package.Checksum.{calc_msg_xor}
use comm_traffic_center.Infra.Mq.{send_msg_to_mq}
use comm_traffic_center.Socket.{send_msg_to_local, queued}
use comm_traffic_center.Sender.{Env, transmit_msg, ctc_send_msg, ctc_send_old_msg}

module _ (env : Env) (event : ℕ) (dst : Direction) (data_ : Bytes) (len ack : ℕ) where
  -- A message to a process of this device, with arguments that fit their types, is what
  -- `send_msg_to_local` does with its process number and a package that carries the arguments and has
  -- the right checksum.
  pub ctc_send_msg_local :
      FitsTypes env.self_pid event dst len ack
      → is_cross_dev dst.shelf dst.card ≡ false
      → (m : Bytes) × (ctc_send_msg env event (some dst) (some data_) len ack
          ≡ some (send_msg_to_local env.sys dst.pid m 4114))
        × Carries env.self_pid event dst data_ len ack m
        × (calc_msg_xor m ≡ some (fcs m))
  unfolding ctc_send_msg
  ctc_send_msg_local f here =
      let (m, made, carries, _, _, sum) =
        package_new_ptp_msg-Carries env.self_pid event dst data_ len ack f in
      let short : ltb 4096 len ≡ false = ground (arith, f.len_fits) in
      (m, rw (short, made, here), carries, sum)

  -- The package `m` of a message to another device goes to the queue.
  pub ctc_send_msg_queues :
      (m : Bytes)
      → package_new_ptp_msg env.self_pid zeros event (some dst) (some data_) len ack ≡ some m
      → is_cross_dev dst.shelf dst.card ≡ true
      → len ≤ 256
      → ctc_send_msg env event (some dst) (some data_) len ack
        ≡ some (
            if is_nonzero (env.mq_timedsend m 4114 (env.now + 1))
            then (failed, [])
            else (success, queued m 4114 ∷ []))
  unfolding ctc_send_msg transmit_msg send_msg_to_mq
  ctc_send_msg_queues m made away h =
      let short : ltb 4096 len ≡ false = ground arith in
      let external : ltb 256 len ≡ false = ground arith in
      rw (short, made, away, external) (ground arith)

  -- A message to another device, with arguments that fit their types and a body of at most 256
  -- bytes, goes to the message queue as a package that carries the arguments and has the right
  -- checksum; the send succeeds exactly when the queue takes it.
  pub ctc_send_msg_cross :
      FitsTypes env.self_pid event dst len ack
      → is_cross_dev dst.shelf dst.card ≡ true
      → len ≤ 256
      → (m : Bytes) × (ctc_send_msg env event (some dst) (some data_) len ack
          ≡ some (
              if is_nonzero (env.mq_timedsend m 4114 (env.now + 1))
              then (failed, [])
              else (success, queued m 4114 ∷ [])))
        × Carries env.self_pid event dst data_ len ack m
        × (calc_msg_xor m ≡ some (fcs m))
  ctc_send_msg_cross f away h =
      let (m, made, carries, _, _, sum) =
        package_new_ptp_msg-Carries env.self_pid event dst data_ len ack f in
      (m, ctc_send_msg_queues m made away h, carries, sum)

  -- With arguments that fit their types but for the length, a body of more than 4096 bytes, or of
  -- more than 256 bytes for another device, is refused, and nothing is sent.
  pub ctc_send_msg_refused :
      FitsTypes env.self_pid event dst 0 ack
      → (4096 < len) ⊎ ((256 < len) × (is_cross_dev dst.shelf dst.card ≡ true))
      → ctc_send_msg env event (some dst) (some data_) len ack ≡ some (failed, [])
  unfolding ctc_send_msg
  ctc_send_msg_refused f h = elim (Bool-cases (ltb 4096 len)) [
    | inl long ↦ rw long
    | inr short ↦
        let fits : FitsTypes env.self_pid event dst len ack = ground (arith, f) in
        let (m, made, _, _, _, _) =
          package_new_ptp_msg-Carries env.self_pid event dst data_ len ack fits in
        let big : ltb 256 len ≡ true = ground arith in
        let away : is_cross_dev dst.shelf dst.card ≡ true = ground arith in
        rw (short, made, away, big)
  ]

-- A message of the old protocol, with arguments that fit their types and a body of at most 256 bytes,
-- goes to the message queue as a package of the old protocol that carries the arguments and the
-- command type, wherever its destination is; the send succeeds exactly when the queue takes it.
pub ctc_send_old_msg_queued :
    (env : Env) (event : ℕ) (dst : Direction) (data_ : Bytes) (len cmd ack : ℕ)
    → FitsTypes env.self_pid event dst len ack
    → cmd < 256
    → len ≤ 256
    → (m : Bytes) × (ctc_send_old_msg env event (some dst) (some data_) len cmd ack
        ≡ some (
            if is_nonzero (env.mq_timedsend m 4114 (env.now + 1))
            then (failed, [])
            else (success, queued m 4114 ∷ [])))
      × Carries env.self_pid event dst data_ len ack m
      × (protocol_type m ≡ 1)
      × (cmd_type_old m ≡ cmd)
unfolding ctc_send_old_msg transmit_msg send_msg_to_mq
ctc_send_old_msg_queued env event dst data_ len cmd ack f c h =
    let (m, made, carries, old, kind, _) =
      package_old_ptp_msg-Carries env.self_pid event dst data_ len ack cmd c f in
    let short : ltb 4096 len ≡ false = ground (arith, f.len_fits) in
    let external : ltb 256 len ≡ false = ground arith in
    (m, rw (short, made, external) (ground arith), carries, old, kind)

-- A null destination is not refused: `package_msg` steps over it, and the sender goes through it.
pub ctc_send_msg_null :
    (env : Env) (event : ℕ) (data_ : Option Bytes) (len ack : ℕ)
    → len ≤ 4096
    → ctc_send_msg env event none data_ len ack ≡ none
unfolding ctc_send_msg package_new_ptp_msg package_msg
ctc_send_msg_null env event data_ len ack h =
    let short : ltb 4096 len ≡ false = ground arith in rw short
