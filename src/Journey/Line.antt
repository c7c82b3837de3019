-- ===== src/Journey/Line.antt =====
-- A message from `ctc_send_msg` in a process of one device over the queue and the line to the receiver of
-- another device: app/msg_sender.c, infra/mq_util.c, app/msg_transmitter.c, infra/rs485_util.c and
-- app/msg_util.c together.
use mathlib.Core.Option.{some-injective}
use comm_traffic_center.Base.{
  ℕ, ◌+◌, ◌≤◌, ◌≡◌, refl, sym, ◌∙◌, Bool, true, false, some, List, [], ◌∷◌, Bytes, zeros, ℤ, pos,
  is_nonzero, success, arith,
}
use comm_traffic_center.Package.{Direction, protocol_type}
use comm_traffic_center.Package.Build.{is_cross_dev}
use comm_traffic_center.Package.Fields.{FitsTypes, Carries, package_new_ptp_msg-Carries}
use comm_traffic_center.Check.{check_fcs}
use comm_traffic_center.Infra.Rs485.{Action, WaitEnd}
use comm_traffic_center.Socket.{queued}
use comm_traffic_center.Sender.{Env, ctc_send_msg}
use comm_traffic_center.Sender.Routes.{ctc_send_msg_queues}
use comm_traffic_center.Transmitter.{exter_transmitter_turn}
use comm_traffic_center.Transmitter.Turns.{exter_transmitter_turn-forwards}
use comm_traffic_center.Receive.{Receiver, returns, try_recv_full_msg}
use comm_traffic_center.Receive.Stream.{cut, sum, FitReads}
use comm_traffic_center.Exter.Remote.{written, send_msg_to_remote-received}

-- The message queue takes every message at the time of the send, and gives a message that it holds at
-- the time `now`: `held m` is what `mq_timedreceive` answers while `m` is at the front.
pub record Queues (env : Env) (held : Bytes → Bytes → ℕ → ℕ → ℤ × Bytes) (now : ℕ) : Type 0 where
  pub takes : (m : Bytes) → is_nonzero (env.mq_timedsend m 4114 (env.now + 1)) ≡ false
  pub gives : (m : Bytes) → held m zeros 4114 (now + 1) ≡ (pos 4114, m)

-- A message to another device, with arguments that fit their types and a body of at most 256 bytes,
-- where the message queue takes it: `ctc_send_msg` succeeds and puts one package into the queue; the
-- turn of `exter_transmitter` that gets it from the queue, where the line's lock is free, writes that
-- package to the line, cut to its length field, and nothing else; and whatever the pieces in which the
-- other device reads it, each at most the size of a package, `try_recv_full_msg` there returns SUCCESS
-- with a package that carries the sender's arguments and body and passes the checksum test.
pub ctc_send_msg-received :
    (char_signed : Bool) (env : Env) (event : ℕ) (dst : Direction) (data_ : Bytes) (len ack : ℕ)
    (held : Bytes → Bytes → ℕ → ℕ → ℤ × Bytes) (now : ℕ) (wait : WaitEnd) (ns : List ℕ)
    (buf : Bytes) (r : Receiver)
    → FitsTypes env.self_pid event dst len ack
    → is_cross_dev dst.shelf dst.card ≡ true
    → len ≤ 256
    → Queues env held now
    → FitReads ns
    → 17 + len ≤ sum ns
    → (m : Bytes) × (acts : List Action) × (got : Bytes) × (r' : Receiver) × (ctc_send_msg env event
          (some dst)
          (some data_)
          len
          ack
        ≡ some (success, queued m 4114 ∷ []))
      × (exter_transmitter_turn char_signed true wait (held m) now ≡ some acts)
      × (written acts ≡ (m, 17 + len) ∷ [])
      × (try_recv_full_msg char_signed (cut m 0 ns) buf r ≡ returns success got r')
      × Carries env.self_pid event dst data_ len ack got
      × (check_fcs got ≡ some success)
ctc_send_msg-received c env event dst data_ len ack held now wait ns buf r f away h queue reads
      enough =
    let (m, _, _, got, r', made, _, _, runs, carries, passed) =
      send_msg_to_remote-received c wait env.self_pid event dst data_ len ack ns buf r f reads
        enough in
    let (m', made', carries', new', _, _) =
      package_new_ptp_msg-Carries env.self_pid event dst data_ len ack f in
    let same : m' ≡ m = some-injective _ _ (sym made' ∙ made) in
    let new : protocol_type m ≡ 0 = rw same at new' in
    let counted : Carries env.self_pid event dst data_ len ack m = rw same at carries' in
    let (acts, turn, out) =
      exter_transmitter_turn-forwards c wait (held m) now 4113 m (queue.gives m) new
        (omega (arith, counted.length_field)) in
    (
      m,
      acts,
      got,
      r',
      ctc_send_msg_queues env event dst data_ len ack m made away h ∙ rw (queue.takes m) refl,
      turn,
      out ∙ rw (counted.length_field) refl,
      runs,
      carries,
      passed,
    )
