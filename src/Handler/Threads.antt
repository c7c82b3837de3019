-- ===== src/Handler/Threads.antt =====
-- app/msg_handler.c and app/msg_mailbox.c with their threads: `event_poster`, `event_handler` and the
-- threads that call `wait_on` run interleaved. What a thread does under one lock is one step, and so
-- is a test of the mailbox, which takes no lock; between two steps any other thread may step. `accept`
-- with `recv` is the step that receives a message, and the turn of `event_handler` from `fetch_mail` on,
-- with any handlers and any answer of `fetch_mail`, is one step. A poster that returns before its loop takes no step behind `begins`.
use comm_traffic_center.Base.{
  ℕ, ◌≡◌, Bool, true, false, Option, List, [], ◌∷◌, ◌++◌, Bytes, is_success,
}
use comm_traffic_center.Mailbox.{init_mailbox}
use comm_traffic_center.Syncer.{
  Syncers, init_syncers, alloc_syncer, regist_event, free_syncer, sync_event,
}
use comm_traffic_center.Handler.{Process, Case, deliver_mail, is_mailbox_empty, event_handler_turn}
pub mod Kept
pub mod Races

-- Where `event_poster` stands: before `init_msg_mailbox`, at `accept`, before `sync_event`, and before
-- `deliver_mail`.
pub data Poster : Type 0 where
  unready accepting : Poster
  got : Bytes → Poster
  unsynced : Bytes → Poster

-- Where `event_handler` stands: before `init_syncers`, at the test of the mailbox, before `wait_post`,
-- in `pthread_cond_wait`, and before `fetch_mail`.
pub data Worker : Type 0 where
  uninitialized checking before_wait asleep fetching : Worker

-- `mailed` is what has been given to `deliver_mail` so far, oldest first; no code reads it.
pub record World : Type 0 where
  pub process : Process
  pub poster : Poster
  pub handler : Worker
  pub mailed : List Bytes

-- `pthread_cond_signal` on `mailbox_cond`, which nobody else waits on.
abbrev pub signalled : Worker → Worker
signalled asleep = fetching
signalled h = h

-- The calls that `wait_on` and `wait_on_with_act` make on the table, each under its lock.
pub data Client : Type 0 where
  allocs : Client
  registers : Option ℕ → ℕ → Option ℕ → Option ℕ → ℕ → Client
  frees : Option ℕ → Client

unfoldable pub client : Client → Syncers → Syncers
client allocs t = (alloc_syncer t).1
client (registers i event handle data_buff len) t = regist_event t i event handle data_buff len
client (frees i) t = free_syncer t i

abbrev pub with_table : World → Syncers → World
with_table w t = record w { process = record w.process { syncers = t } }

pub data Step (w : World) : World → Type 0 where
  begins :
      w.poster ≡ unready
      → Step w (record w {
        process = record w.process { mailbox = init_mailbox w.process.mailbox };
        poster = accepting;
      })
  receives : (m : Bytes) → w.poster ≡ accepting → Step w (record w { poster = got m })
  syncs :
      (m : Bytes)
      → w.poster ≡ got m
      → is_success (sync_event w.process.syncers m).0 ≡ true
      → Step w (record (with_table w (sync_event w.process.syncers m).1) { poster = accepting })
  passes :
      (m : Bytes)
      → w.poster ≡ got m
      → is_success (sync_event w.process.syncers m).0 ≡ false
      → Step w (record (with_table w (sync_event w.process.syncers m).1) { poster = unsynced m })
  delivers :
      (m : Bytes)
      → w.poster ≡ unsynced m
      → Step w (record {
        process = (deliver_mail w.process m).1;
        poster = accepting;
        handler = signalled w.handler;
        mailed = w.mailed ++ (m ∷ []);
      })
  initializes :
      w.handler ≡ uninitialized
      → Step w (record (with_table w (init_syncers w.process.syncers)) { handler = checking })
  finds_empty :
      w.handler ≡ checking
      → is_mailbox_empty w.process ≡ true
      → Step w (record w { handler = before_wait })
  finds_mail :
      w.handler ≡ checking
      → is_mailbox_empty w.process ≡ false
      → Step w (record w { handler = fetching })
  sleeps : w.handler ≡ before_wait → Step w (record w { handler = asleep })
  wakes_up : w.handler ≡ asleep → Step w (record w { handler = fetching })
  fetches :
      (cases : List Case) (undefined : Bool)
      → w.handler ≡ fetching
      → Step w (record w {
        process = (event_handler_turn cases undefined w.process).1;
        handler = checking;
      })
  calls : (c : Client) → Step w (with_table w (client c w.process.syncers))

pub data Reach (w : World) : World → Type 0 where
  here : Reach w w
  next : {t u : World} → Reach w t → Step t u → Reach w u

-- Both threads are started in a process with this memory.
abbrev pub started : Process → World
started p = record { process = p; poster = unready; handler = uninitialized; mailed = [] }
