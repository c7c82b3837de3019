-- ===== src/Handler/Posting.antt =====
-- Where a posted message goes.
use comm_traffic_center.Base.{ℕ, ◌<◌, ◌≡◌, ◌≢◌, Bool, Bytes, update, ap}
use comm_traffic_center.Package.{event}
use comm_traffic_center.Mailbox.Queue
use comm_traffic_center.Mailbox.Refine.{IsValid, contents, push_mailbox_refines}
use comm_traffic_center.Syncer.Notify.{sync_event_at, sync_event_absent}
use comm_traffic_center.Handler.{Process, post_event}

-- A message whose event some entry of the table is registered for goes to the first such entry, and
-- not to the mailbox.
pub post_event_waited :
    (p : Process) (m : Bytes) (i : ℕ)
    → i < 64
    → (p.syncers i).on_event ≡ event m
    → ((k : ℕ) → k < i → (p.syncers k).on_event ≢ event m)
    → post_event p m ≡ record p { syncers = update p.syncers i (record (p.syncers i) { msg = m }) }
unfolding post_event
post_event_waited p m i l e first = rw (sync_event_at p.syncers m i l e first)

-- Where the mailbox's indices are in range, a message that no entry of the table is registered for
-- goes to the end of the mailbox if that holds fewer than 63, and is dropped if not; the table
-- stays as it is.
pub post_event_unwaited :
    (p : Process) (m : Bytes)
    → IsValid p.mailbox
    → ((k : ℕ) → k < 64 → (p.syncers k).on_event ≢ event m)
    → ((post_event p m).syncers ≡ p.syncers)
      × (contents (post_event p m).mailbox ≡ (Queue.push (contents p.mailbox) m).1)
unfolding post_event
post_event_unwaited p m v h =
    let absent = sync_event_absent p.syncers m h in
    let pushed = push_mailbox_refines m v in
    (rw absent, rw absent (ap (λ (r : Bool × Queue.Queue). r.1) pushed))
