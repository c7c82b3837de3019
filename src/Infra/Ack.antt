-- ===== src/Infra/Ack.antt =====
-- `ack_syncer` of infra/rs485_util.c with its two threads: one in `send_to_rs485_sync`, one in
-- `notify_recv`. Each step is what a thread does between two calls of the pthread library; a wait gives
-- up the lock and takes it again before it ends, and may end without a signal. `fails` is where
-- `send_to_rs485` is given a null pointer.
use comm_traffic_center.Base.{
  ◌≡◌, ◌≢◌, refl, ◌∙◌, arith, Bool, true, false, Status, success, failed,
}

pub data Lock : Type 0 where
  free by_sender by_notifier : Lock

-- Where the sender stands: outside the call; with the lock, before and after it has written to the
-- line; in the wait; at the end of the wait, for the lock, signalled or timed out; with the lock and the
-- result.
pub data Sender : Type 0 where
  outside locked written waiting signalled expired : Sender
  leaving : Status → Sender

-- Where the notifier stands: outside the call, before the lock, with it before and after the signal.
pub data Notifier : Type 0 where
  away wanting holding done : Notifier

pub record Pair : Type 0 where
  pub lock : Lock
  pub sender : Sender
  pub notifier : Notifier

-- `pthread_cond_signal`.
abbrev pub signal : Sender → Sender
signal waiting = signalled
signal s = s

pub data Step (w : Pair) : Pair → Type 0 where
  locks :
      w.sender ≡ outside → w.lock ≡ free → Step w (record w { lock = by_sender; sender = locked })
  fails : w.sender ≡ locked → Step w (record w { lock = free; sender = outside })
  writes_line : w.sender ≡ locked → Step w (record w { sender = written })
  waits : w.sender ≡ written → Step w (record w { lock = free; sender = waiting })
  wakes_alone : w.sender ≡ waiting → Step w (record w { sender = signalled })
  expires : w.sender ≡ waiting → Step w (record w { sender = expired })
  answers :
      w.sender ≡ signalled
      → w.lock ≡ free
      → Step w (record w { lock = by_sender; sender = leaving success })
  gives_up :
      w.sender ≡ expired
      → w.lock ≡ free
      → Step w (record w { lock = by_sender; sender = leaving failed })
  unlocks :
      (r : Status) → w.sender ≡ leaving r → Step w (record w { lock = free; sender = outside })
  calls : w.notifier ≡ away → Step w (record w { notifier = wanting })
  takes :
      w.notifier ≡ wanting
      → w.lock ≡ free
      → Step w (record w { lock = by_notifier; notifier = holding })
  signals : w.notifier ≡ holding → Step w (record w { sender = signal w.sender; notifier = done })
  returns : w.notifier ≡ done → Step w (record w { lock = free; notifier = away })

pub data Reach : Pair → Type 0 where
  created : Reach (record { lock = free; sender = outside; notifier = away })
  next : {w u : Pair} → Reach w → Step w u → Reach u

-- Whether a thread has the lock by where it stands, and by the lock.
abbrev sender_holds : Sender → Bool
sender_holds locked = true
sender_holds written = true
sender_holds (leaving r) = true
sender_holds _ = false

abbrev notifier_holds : Notifier → Bool
notifier_holds holding = true
notifier_holds done = true
notifier_holds _ = false

abbrev is_by_sender : Lock → Bool
is_by_sender by_sender = true
is_by_sender _ = false

abbrev is_by_notifier : Lock → Bool
is_by_notifier by_notifier = true
is_by_notifier _ = false

record Agrees (w : Pair) : Type 0 where
  of_sender : sender_holds w.sender ≡ is_by_sender w.lock
  of_notifier : notifier_holds w.notifier ≡ is_by_notifier w.lock

sender_holds-signal : (s : Sender) → sender_holds (signal s) ≡ sender_holds s
sender_holds-signal waiting = refl
sender_holds-signal outside = refl
sender_holds-signal locked = refl
sender_holds-signal written = refl
sender_holds-signal signalled = refl
sender_holds-signal expired = refl
sender_holds-signal (leaving r) = refl

Step-Agrees : {w u : Pair} → Step w u → Agrees w → Agrees u
Step-Agrees {w} (signals e) a = record {
  of_sender = sender_holds-signal w.sender ∙ a.of_sender;
  of_notifier = ground (arith, a.of_notifier);
}
Step-Agrees (locks e f) a = ground (arith, a)
Step-Agrees (fails e) a = ground (arith, a)
Step-Agrees (writes_line e) a = ground (arith, a)
Step-Agrees (waits e) a = ground (arith, a)
Step-Agrees (wakes_alone e) a = ground (arith, a)
Step-Agrees (expires e) a = ground (arith, a)
Step-Agrees (answers e f) a = ground (arith, a)
Step-Agrees (gives_up e f) a = ground (arith, a)
Step-Agrees (unlocks r e) a = ground (arith, a)
Step-Agrees (calls e) a = ground (arith, a)
Step-Agrees (takes e f) a = ground (arith, a)
Step-Agrees (returns e) a = ground (arith, a)

Reach-Agrees : {w : Pair} → Reach w → Agrees w
Reach-Agrees created = record { of_sender = refl; of_notifier = refl }
Reach-Agrees (next r st) = Step-Agrees st (Reach-Agrees r)

-- In every order of steps, where `notify_recv` is about to signal it has the lock, and no thread is in
-- `send_to_rs485_sync` between its lock and its wait: the signal for what comes in after the sender has
-- written is not given before the sender waits.
pub notify_recv_in_time :
    (w : Pair)
    → Reach w
    → w.notifier ≡ holding
    → (w.sender ≢ locked) × (w.sender ≢ written) × (w.lock ≡ by_notifier)
notify_recv_in_time w r e = ground (arith, Reach-Agrees r)
