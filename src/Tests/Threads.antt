-- ===== src/Tests/Threads.antt =====
-- The threads, the transmitters' loop, the start and the tracing at concrete arguments.
use comm_traffic_center.Base.{
  ◌≡◌, ◌≢◌, refl, arith, false, [], ◌∷◌, Bytes, is_success, zeros, set_u8, set_u16,
}
use comm_traffic_center.Mailbox.{init_mailbox}
use comm_traffic_center.Mailbox.Refine.{contents}
use comm_traffic_center.Syncer.{idle, sync_event, sync_from}
use comm_traffic_center.Handler.{Process, deliver_mail}
use comm_traffic_center.Handler.Threads
use comm_traffic_center.Handler.Threads.{
  World, unready, uninitialized, accepting, asleep, begins, receives, passes, delivers, started,
}
use comm_traffic_center.Handler.Threads.Kept.{IsKept, Reach-started-IsKept}
use comm_traffic_center.Handler.Threads.Races.{wait_post_misses}
use comm_traffic_center.Infra.Ack
use comm_traffic_center.Infra.Ack.{
  Pair, free, by_notifier, outside, locked, written, waiting, away, wanting, holding, locks,
  writes_line, waits, calls, takes, notify_recv_in_time,
}

-- A message of the event 7 with a body of two bytes.
abbrev seven : Bytes
seven = set_u8 (set_u8 (set_u16 (set_u16 zeros 2 19) 4 7) 17 5) 18 6

-- A mailbox in the middle of its array, and a table of which every entry waits for its own number.
abbrev busy : Process
busy = record {
  syncers = λ i. record idle { on_event = i };
  mailbox = record { msg_queue = λ i. zeros; front = 20; rear = 30 };
}

wait_post_misses_example :
    (w : World) × Threads.Reach (started busy) w
    × (w.handler ≡ asleep)
    × (w.poster ≡ accepting)
    × (contents w.process.mailbox ≡ seven ∷ [])
wait_post_misses_example = wait_post_misses busy seven (λ e. absurd (omega (arith, e)))

abbrev eventless : Bytes
eventless = set_u16 zeros 2 19

-- The table behind `init_syncers`.
abbrev idle_process : Process
idle_process = record busy { syncers = λ i. idle }

-- The poster has initialized the mailbox, received the message and put it there.
abbrev posted : World
posted = record {
  process =
      (deliver_mail
        (record idle_process {
          syncers = (sync_event idle_process.syncers seven).1;
          mailbox = init_mailbox busy.mailbox;
        })
        seven).1;
  poster = accepting;
  handler = uninitialized;
  mailed = seven ∷ [];
}

seven_unwaited : is_success (sync_event idle_process.syncers seven).0 ≡ false
unfolding sync_event sync_from
seven_unwaited = refl

posted-Reach : Threads.Reach (started idle_process) posted
posted-Reach =
    Threads.next
      (Threads.next (Threads.next (Threads.next Threads.here (begins refl)) (receives seven refl))
        (passes seven refl seven_unwaited))
      (delivers seven refl)

Reach-started-IsKept_example : IsKept posted.process.mailbox (seven ∷ [])
Reach-started-IsKept_example = Reach-started-IsKept idle_process posted posted-Reach (λ e. cc)

-- The sender waits, and the notifier has the lock.
abbrev met : Pair
met = record { lock = by_notifier; sender = waiting; notifier = holding }

met-Reach : Ack.Reach met
met-Reach =
    Ack.next
      (Ack.next
        (Ack.next (Ack.next (Ack.next Ack.created (locks refl refl)) (writes_line refl))
          (waits refl))
        (calls refl))
      (takes refl refl)

notify_recv_in_time_example :
    (met.sender ≢ locked) × (met.sender ≢ written) × (met.lock ≡ by_notifier)
notify_recv_in_time_example = notify_recv_in_time met met-Reach refl
