-- ===== src/Handler/Threads/Races.antt =====
-- Orders of steps that lose a wake-up or a message.
use comm_traffic_center.Base.{
  ℕ, ◌<◌, ◌≡◌, ◌≢◌, refl, sym, ap, ◌∙◌, arith, true, [], ◌∷◌, Bytes, ltb, failed,
}
use comm_traffic_center.Package.{event}
use comm_traffic_center.Mailbox.{init_mailbox, is_empty}
use comm_traffic_center.Mailbox.Refine.{contents}
use comm_traffic_center.Syncer.{Syncers, idle, init_syncers, sync_event}
use comm_traffic_center.Syncer.Notify.{sync_event_absent}
use comm_traffic_center.Handler.{Process, deliver_mail, is_mailbox_empty}
use comm_traffic_center.Handler.Threads.{
  got, uninitialized, accepting, checking, before_wait, asleep, World, begins, receives, passes,
  delivers, initializes, finds_empty, sleeps, Reach, here, next, started,
}
use comm_traffic_center.Handler.Threads.Kept.{Reach-started-IsKept}

init_syncers-idle : (t : Syncers) (i : ℕ) → i < 64 → init_syncers t i ≡ idle
unfolding init_syncers
init_syncers-idle t i h = let e : ltb i 64 ≡ true = ground arith in rw e

module _ (p : Process) (m : Bytes) where
  -- Both threads have initialized, and the handler has found the mailbox empty.
  abbrev fresh : Process
  fresh = record { syncers = init_syncers p.syncers; mailbox = init_mailbox p.mailbox }

  abbrev before : World
  before = record { process = fresh; poster = accepting; handler = before_wait; mailed = [] }

  fresh_empty : is_mailbox_empty fresh ≡ true
  unfolding is_mailbox_empty is_empty init_mailbox
  fresh_empty = refl

  before-Reach : Reach (started p) before
  before-Reach =
      next (next (next here (begins refl)) (initializes refl)) (finds_empty refl fresh_empty)

  module _ (valid_event : event m ≢ 255) where
    unsynced_lem : sync_event fresh.syncers m ≡ (failed, fresh.syncers)
    unsynced_lem =
        sync_event_absent fresh.syncers m
          (λ k h e. valid_event (sym e ∙ ap (λ s. s.on_event) (init_syncers-idle p.syncers k h)))

    abbrev missed : World
    missed = record {
      process = (deliver_mail (record fresh { syncers = (sync_event fresh.syncers m).1 }) m).1;
      poster = accepting;
      handler = asleep;
      mailed = m ∷ [];
    }

    missed-Reach : Reach (started p) missed
    missed-Reach =
        next
          (next (next (next before-Reach (receives m refl)) (passes m refl (rw unsynced_lem refl)))
            (delivers m refl))
          (sleeps refl)

    -- The handler finds the mailbox empty, a message with an event other than INVALID_EVENT that no
    -- thread waits for is then put into it and signalled, and only then does the handler go to sleep:
    -- from any memory this order of steps ends with the handler asleep, the poster at `accept`, and
    -- exactly this message in the mailbox.
    pub wait_post_misses :
        (w : World) × Reach (started p) w
        × (w.handler ≡ asleep)
        × (w.poster ≡ accepting)
        × (contents w.process.mailbox ≡ m ∷ [])
    wait_post_misses = (
      missed,
      missed-Reach,
      refl,
      refl,
      (Reach-started-IsKept p missed missed-Reach (λ e. cc)).kept,
    )

  module _ (zero_entry : (p.syncers 0).on_event ≡ 0) (zero_event : event m ≡ 0) where
    -- The worlds behind the steps.
    abbrev taking : World
    taking = record {
      process = record { syncers = p.syncers; mailbox = init_mailbox p.mailbox };
      poster = got m;
      handler = uninitialized;
      mailed = [];
    }

    abbrev taken : World
    taken = record taking {
      process = record taking.process { syncers = (sync_event p.syncers m).1 };
      poster = accepting;
    }

    abbrev wiped : World
    wiped = record taken {
      process = record taken.process { syncers = init_syncers (sync_event p.syncers m).1 };
      handler = checking;
    }
