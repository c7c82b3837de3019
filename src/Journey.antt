-- ===== src/Journey.antt =====
-- A message from `ctc_send_msg` in one process to the mailbox of another on the same device:
-- app/msg_sender.c, the sockets of app/msg_util.c and app/msg_handler.c together.
pub mod Line
pub mod Wait
pub mod Local
use comm_traffic_center.Base.{
  ℕ, ◌<◌, ◌≡◌, ◌≢◌, ◌∙◌, arith, true, false, some, [], ◌∷◌, ◌++◌, Bytes, zeros, length, copy_at,
  copy_at_start, is_minus_one, pos, ◌==◌, success,
}
use comm_traffic_center.Package.{Direction, event, fcs}
use comm_traffic_center.Package.Build.{is_cross_dev}
use comm_traffic_center.Package.Checksum.{calc_msg_xor, calc_msg_xor-Agree}
use comm_traffic_center.Package.Fields.{FitsTypes, Carries, Carries-Agree}
use comm_traffic_center.Mailbox.Queue
use comm_traffic_center.Mailbox.Refine.{IsValid, contents}
use comm_traffic_center.Socket.{System, opened, closed, sent, ref_sel_proc}
use comm_traffic_center.Socket.Laws.{send_msg_to_local-reaches}
use comm_traffic_center.Sender.{Env, ctc_send_msg}
use comm_traffic_center.Sender.Routes.{ctc_send_msg_local}
use comm_traffic_center.Handler.{Process, event_poster_turn}
use comm_traffic_center.Handler.Posting.{post_event_unwaited}

-- The system serves a send: a socket, a connection within the first hundred attempts, and the send.
pub record Serves (sys : System) (attempt : ℕ) : Type 0 where
  pub has_socket : is_minus_one sys.socket ≡ false
  pub in_time : attempt < 100
  pub connects : sys.connect attempt ≡ true
  pub sends : (m : Bytes) → is_minus_one (sys.send m 4114) ≡ false

-- The process has room for a message that no thread waits for.
pub record HasRoom (p : Process) (event_id : ℕ) : Type 0 where
  pub valid : IsValid p.mailbox
  pub room : length (contents p.mailbox) < 63
  pub unwaited : (k : ℕ) → k < 64 → (p.syncers k).on_event ≢ event_id

pushed : (q : Queue.Queue) (m : Bytes) → length q < 63 → (Queue.push q m).1 ≡ q ++ (m ∷ [])
unfolding Queue.push
pushed q m h = let e : (length q == 63) ≡ false = ground arith in rw e

-- What `recv` puts into the cleared buffer is posted.
posted :
    (p : Process) (m : Bytes) (event_id : ℕ)
    → HasRoom p event_id
    → event (copy_at zeros 0 m 4114) ≡ event_id
    → contents (event_poster_turn p (pos 4114) m).mailbox
      ≡ contents p.mailbox ++ (copy_at zeros 0 m 4114 ∷ [])
unfolding event_poster_turn
posted p m event_id r e =
    (post_event_unwaited p (copy_at zeros 0 m 4114) r.valid (λ k l q. r.unwaited k l (q ∙ e))).1
    ∙ pushed (contents p.mailbox) (copy_at zeros 0 m 4114) r.room

-- A send to REF_SEL_PROC of this device puts one package on its socket; what `recv` makes of it there
-- carries the arguments and has the right checksum.
pub ctc_send_msg-sent :
    (env : Env) (event_id : ℕ) (dst : Direction) (data_ : Bytes) (len ack attempt : ℕ)
    → FitsTypes env.self_pid event_id dst len ack
    → is_cross_dev dst.shelf dst.card ≡ false
    → dst.pid ≡ ref_sel_proc
    → Serves env.sys attempt
    → (m : Bytes) × (ctc_send_msg env event_id (some dst) (some data_) len ack
        ≡ some (success, opened ∷ sent "/tmp/.ref_sel" m 4114 ∷ closed ∷ []))
      × Carries env.self_pid event_id dst data_ len ack (copy_at zeros 0 m 4114)
      × (calc_msg_xor (copy_at zeros 0 m 4114) ≡ some (fcs (copy_at zeros 0 m 4114)))
ctc_send_msg-sent env event_id dst data_ len ack attempt f here to serves =
    let (m, sends, carries, sum) = ctc_send_msg_local env event_id dst data_ len ack f here in
    let reached =
      send_msg_to_local-reaches env.sys m 4114 attempt serves.has_socket serves.in_time
        serves.connects (serves.sends m) in
    let agree = copy_at_start zeros m 4114 in
    let short = f.len_fits in
    let counted = carries.length_field in
    (
      m,
      sends ∙ rw (to, reached),
      Carries-Agree env.self_pid event_id dst data_ len ack m (copy_at zeros 0 m 4114)
          (λ i a b c l. agree i (omega arith)) carries,
      calc_msg_xor-Agree (copy_at zeros 0 m 4114) m (omega arith) (omega arith)
          (λ i l. agree i (omega arith)) sum,
    )

-- A message to the process REF_SEL_PROC of this device, with arguments that fit their types, where the
-- system serves the send: `ctc_send_msg` succeeds and sends one package to that process's socket; and
-- a turn of `event_poster` there that receives this package, where the mailbox has room and no thread
-- waits for the event, puts at the end of the mailbox a package that carries the sender's arguments and
-- body and has the right checksum.
pub ctc_send_msg-mailed :
    (env : Env) (event_id : ℕ) (dst : Direction) (data_ : Bytes) (len ack attempt : ℕ) (p : Process)
    → FitsTypes env.self_pid event_id dst len ack
    → is_cross_dev dst.shelf dst.card ≡ false
    → dst.pid ≡ ref_sel_proc
    → Serves env.sys attempt
    → HasRoom p event_id
    → (m : Bytes) × (got : Bytes) × (ctc_send_msg env event_id (some dst) (some data_) len ack
        ≡ some (success, opened ∷ sent "/tmp/.ref_sel" m 4114 ∷ closed ∷ []))
      × (contents (event_poster_turn p (pos 4114) m).mailbox ≡ contents p.mailbox ++ (got ∷ []))
      × Carries env.self_pid event_id dst data_ len ack got
      × (calc_msg_xor got ≡ some (fcs got))
ctc_send_msg-mailed env event_id dst data_ len ack attempt p f here to serves room =
    let (m, sends, carries, sum) =
      ctc_send_msg-sent env event_id dst data_ len ack attempt f here to serves in
    (m, copy_at zeros 0 m 4114, sends, posted p m event_id room carries.event_field, carries, sum)
