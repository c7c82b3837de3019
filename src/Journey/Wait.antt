-- ===== src/Journey/Wait.antt =====
-- A message from `ctc_send_msg` in one process to a thread of another that is in `wait_on`:
-- app/msg_sender.c, the sockets of app/msg_util.c, app/msg_handler.c and app/msg_syncer.c together.
use comm_traffic_center.Base.{
  ℕ, ◌<◌, ◌≡◌, ◌≢◌, refl, ◌∙◌, fun_ext, true, false, some, [], ◌∷◌, Bytes, zeros, copy_at, Agree,
  pos, update, success, is_success, Bool-cases, inl, inr, ◌≤◌,
}
use comm_traffic_center.Package.{Direction, body}
use comm_traffic_center.Package.Build.{is_cross_dev}
use comm_traffic_center.Package.Fields.{FitsTypes}
use comm_traffic_center.Mailbox.{Mailbox}
use comm_traffic_center.Infra.Rs485.{woken}
use comm_traffic_center.Socket.{opened, closed, sent, ref_sel_proc}
use comm_traffic_center.Syncer.{Syncers, idle, alloc_syncer, sync_event, wait_on}
use comm_traffic_center.Syncer.Waits.{wait_on_receives}
use comm_traffic_center.Sender.{Env, ctc_send_msg}
use comm_traffic_center.Handler.{Process, event_poster_turn, post_event}
use comm_traffic_center.Journey.{Serves, ctc_send_msg-sent}

-- What a turn of `event_poster` that receives this package does to the table.
abbrev pub receives : Mailbox → Bytes → Syncers → Syncers
receives mb m t = (event_poster_turn (record { syncers = t; mailbox = mb }) (pos 4114) m).syncers

post_event-syncers :
    (p : Process) (m : Bytes) → (post_event p m).syncers ≡ (sync_event p.syncers m).1
unfolding post_event
post_event-syncers p m = elim (Bool-cases (is_success (sync_event p.syncers m).0)) [
  | inl e ↦ rw e refl
  | inr e ↦ rw e refl
]

receives_lem :
    (mb : Mailbox) (m : Bytes) → receives mb m ≡ λ t. (sync_event t (copy_at zeros 0 m 4114)).1
unfolding event_poster_turn
receives_lem mb m =
    fun_ext λ t. post_event-syncers (record { syncers = t; mailbox = mb }) (copy_at zeros 0 m 4114)

-- A thread of the process REF_SEL_PROC waits for an event in the entry `i` that it got, and no entry
-- before `i` waits for the same event; it asks for at most 4096 bytes. A process of the same device sends a message of this event to
-- it, with arguments that fit their types, where the system serves the send: `ctc_send_msg` succeeds
-- and sends one package to that process's socket; and where the turn of `event_poster` that receives
-- this package wakes the thread, `wait_on` succeeds and copies as many bytes as it was told to, which
-- are those of the sender's body as far as that goes, and frees the entry.
pub ctc_send_msg-awaited :
    (env : Env) (event_id : ℕ) (dst : Direction) (data_ : Bytes) (len ack attempt : ℕ)
    (mb : Mailbox) (t : Syncers) (i : ℕ) (busy : Syncers) (address count : ℕ)
    → FitsTypes env.self_pid event_id dst len ack
    → is_cross_dev dst.shelf dst.card ≡ false
    → dst.pid ≡ ref_sel_proc
    → Serves env.sys attempt
    → alloc_syncer t ≡ (some i, busy)
    → ((k : ℕ) → k < i → (t k).on_event ≢ event_id)
    → count ≤ 4096
    → (m : Bytes) × (bytes : Bytes) × (ctc_send_msg env event_id (some dst) (some data_) len ack
        ≡ some (success, opened ∷ sent "/tmp/.ref_sel" m 4114 ∷ closed ∷ []))
      × (wait_on true woken (receives mb m) event_id (some address) count t
          ≡ some (
            success,
            some (record { address = address; bytes = bytes; count = count }),
            update t i idle,
          ))
      × Agree len bytes data_
ctc_send_msg-awaited env event_id dst data_ len ack attempt mb t i busy address count f here to
      serves taken first inside =
    let (m, sends, carries, _) =
      ctc_send_msg-sent env event_id dst data_ len ack attempt f here to serves in
    let got = copy_at zeros 0 m 4114 in
    let same = carries.event_field in
    (
      m,
      body got,
      sends,
      rw (receives_lem mb m, ← same)
          (wait_on_receives t got i busy taken (λ k h e. first k h (e ∙ same)) address count
            inside),
      carries.body_field,
    )
