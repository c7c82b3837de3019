-- ===== src/Handler.antt =====
-- app/msg_handler.c, the calls of app/msg_mailbox.c that lock the mailbox, and the event switch of
-- api/ctc_def.h: one turn of the thread that posts messages and of the one that handles them. The
-- threads interleaved are in Threads, their start is in Start.
pub mod Posting
pub mod Stuck
pub mod Threads
use comm_traffic_center.Base.{
  ℕ, ◌+◌, ◌-◌, ◌%◌, Bool, true, false, Option, none, some, List, [], ◌∷◌, Bytes, zeros, copy_at, ℤ,
  pos, negsuc, is_not_pos, ◌==◌, if◌then◌else◌, Status, success, failed, is_success,
}
use comm_traffic_center.Package.{event, total_len, body, wrapped_len}
use comm_traffic_center.Mailbox.{
  Mailbox, init_mailbox, push_mailbox, is_empty, traverse_mailbox, Row,
}
use comm_traffic_center.Trace.{Output, ctc_trc_state}
use comm_traffic_center.Syncer.{Syncers, sync_event}

-- The static variables that the two threads share.
pub record Process : Type 0 where
  pub syncers : Syncers
  pub mailbox : Mailbox

unfoldable pub deliver_mail : Process → Bytes → Bool × Process
deliver_mail p msg = let (r, mb) = push_mailbox p.mailbox msg in (r, record p { mailbox = mb })

-- Has no `return`, so its answer `undefined` is whatever the machine holds; it calls
-- `traverse_mailbox`, and `*msg` keeps what it was.
unfoldable pub fetch_mail : Bool → Process → Bytes → Bool × Bytes × Option (List (Output Row))
fetch_mail undefined p msg = (undefined, msg, traverse_mailbox ctc_trc_state p.mailbox)

unfoldable pub is_mailbox_empty : Process → Bool
is_mailbox_empty p = is_empty p.mailbox

unfoldable pub post_event : Process → Bytes → Process
unfolding deliver_mail
post_event p msg =
    let (r, t) = sync_event p.syncers msg in
    let synced = record p { syncers = t } in
    if is_success r then synced else (deliver_mail synced msg).1

-- A turn of `event_poster` behind `accept`: `recv` answers `recv_size` and these bytes.
unfoldable pub event_poster_turn : Process → ℤ → Bytes → Process
event_poster_turn p (negsuc n) bytes = p
event_poster_turn p (pos n) bytes = if n == 0 then p else post_event p (copy_at zeros 0 bytes n)

-- A case of the switch: an event and its handler, which is given the body and the length.
pub record Case : Type 0 where
  pub on : ℕ
  pub run : Bytes → ℕ → ℕ

-- `ret` of the case that fits, which `ack_for_old_set_msg` is given.
unfoldable pub find_case : List Case → ℕ → Bytes → ℕ → Option ℕ
find_case [] event_id data_ len = none
find_case (c ∷ cs) event_id data_ len =
    if c.on == event_id then some (c.run data_ len) else find_case cs event_id data_ len

acked : Option ℕ → Status × Option ℕ
acked none = (failed, none)
acked (some ret) = (success, some ret)

unfoldable pub process_event : List Case → ℕ → Bytes → ℕ → Status × Option ℕ
unfolding acked find_case
process_event cases event_id data_ len = acked (find_case cases event_id data_ len)

-- A turn of `event_handler` behind the wait: what `process_event` is called with, and its answer.
pub record Handled : Type 0 where
  pub event_id : ℕ
  pub len : ℕ
  pub answer : Status × Option ℕ

unfoldable pub event_handler_turn : List Case → Bool → Process → Option Handled × Process
unfolding fetch_mail
event_handler_turn cases undefined p =
    let (fetched, recv_buf, lines) = fetch_mail undefined p zeros in
    let msg_len = wrapped_len (total_len recv_buf) in
    if fetched
    then (
      some (record {
        event_id = event recv_buf;
        len = msg_len;
        answer = process_event cases (event recv_buf) (body recv_buf) msg_len;
      }),
      p,
    )
    else (none, p)
