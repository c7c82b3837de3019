-- ===== src/Handler/Threads/Kept.antt =====
-- The mailbox keeps the first 63 messages for ever.
use comm_traffic_center.Base.{
  ℕ, zero, suc, ◌≡◌, ◌≢◌, refl, sym, ap, ◌∙◌, arith, Bool, true, false, List, [], ◌∷◌, ◌++◌, Bytes,
  length, take, ◌==◌, if◌then◌else◌, Bool-cases, inl, inr, Option,
}
use comm_traffic_center.Mailbox.{Mailbox}
use comm_traffic_center.Mailbox.Queue
use comm_traffic_center.Mailbox.Refine.{
  IsValid, contents, push_mailbox_refines, push_mailbox-IsValid, init_mailbox-IsValid,
}
use comm_traffic_center.Mailbox.Trace.{contents-init_mailbox}
use comm_traffic_center.Handler.{Process, Handled, deliver_mail, event_handler_turn}
use comm_traffic_center.Handler.Stuck.{event_handler_turn_blind}
use comm_traffic_center.Handler.Threads.{
  unready, World, Step, begins, receives, syncs, passes, delivers, initializes, finds_empty,
  finds_mail, sleeps, wakes_up, fetches, calls, Reach, here, next, started,
}

take-nil : (n : ℕ) → ◌≡◌ {A = List Bytes} (take n []) []
take-nil zero = refl
take-nil (suc n) = refl

take-push :
    (n : ℕ) (q : List Bytes) (m : Bytes)
    → take n (q ++ (m ∷ [])) ≡ (if length (take n q) == n then take n q else take n q ++ (m ∷ []))
take-push zero q m = refl
take-push (suc n) [] m = let e : (0 == suc n) ≡ false = ground arith in rw (take-nil n, e) refl
take-push (suc n) (x ∷ q) m = elim (Bool-cases (length (take n q) == n)) [
  | inl e ↦
      let e' : (suc (length (take n q)) == suc n) ≡ true = ground arith in
      rw e' (ap (λ r. x ∷ r) (take-push n q m ∙ rw e refl))
  | inr e ↦
      let e' : (suc (length (take n q)) == suc n) ≡ false = ground arith in
      rw e' (ap (λ r. x ∷ r) (take-push n q m ∙ rw e refl))
]

-- The mailbox is in order, and holds the first 63 of what has been delivered.
pub record IsKept (mb : Mailbox) (mailed : List Bytes) : Type 0 where
  pub valid : IsValid mb
  pub kept : contents mb ≡ take 63 mailed

Queue_push-take :
    (mailed : List Bytes) (m : Bytes)
    → (Queue.push (take 63 mailed) m).1 ≡ take 63 (mailed ++ (m ∷ []))
unfolding Queue.push
Queue_push-take mailed m = elim (Bool-cases (length (take 63 mailed) == 63)) [
  | inl e ↦ rw e (sym (take-push 63 mailed m ∙ rw e refl))
  | inr e ↦ rw e (sym (take-push 63 mailed m ∙ rw e refl))
]

deliver_mail-IsKept :
    (p : Process) (mailed : List Bytes) (m : Bytes)
    → IsKept p.mailbox mailed
    → IsKept (deliver_mail p m).1.mailbox (mailed ++ (m ∷ []))
unfolding deliver_mail
deliver_mail-IsKept p mailed m k = record {
  valid = push_mailbox-IsValid m k.valid;
  kept =
      ap (λ (r : Bool × Queue.Queue). r.1) (push_mailbox_refines m k.valid)
      ∙ rw (k.kept) (Queue_push-take mailed m);
}

-- Before `init_msg_mailbox` nothing has been delivered, and from then on the mailbox keeps.
record Stage (w : World) : Type 0 where
  early : w.poster ≡ unready → w.mailed ≡ []
  ready : w.poster ≢ unready → IsKept w.process.mailbox w.mailed

Step-Stage : {w u : World} → Step w u → Stage w → Stage u
Step-Stage {w} (begins e) h = record {
  early = λ q. cc;
  ready = λ q. record {
    valid = init_mailbox-IsValid w.process.mailbox;
    kept = rw (h.early e) (contents-init_mailbox w.process.mailbox);
  };
}
Step-Stage (receives m e) h = record { early = λ q. cc; ready = λ q. h.ready (λ o. cc) }
Step-Stage (syncs m e o) h = record { early = λ q. cc; ready = λ q. h.ready (λ o. cc) }
Step-Stage (passes m e o) h = record { early = λ q. cc; ready = λ q. h.ready (λ o. cc) }
Step-Stage {w} (delivers m e) h = record {
  early = λ q. cc;
  ready = λ q. deliver_mail-IsKept w.process w.mailed m (h.ready (λ o. cc));
}
Step-Stage (initializes e) h = record { early = h.early; ready = h.ready }
Step-Stage (finds_empty e o) h = record { early = h.early; ready = h.ready }
Step-Stage (finds_mail e o) h = record { early = h.early; ready = h.ready }
Step-Stage (sleeps e) h = record { early = h.early; ready = h.ready }
Step-Stage (wakes_up e) h = record { early = h.early; ready = h.ready }
Step-Stage {w} (fetches cases undefined e) h =
    let same : (event_handler_turn cases undefined w.process).1 ≡ w.process =
      ap (λ (r : Option Handled × Process). r.1)
        (event_handler_turn_blind cases undefined w.process) in
    record { early = h.early; ready = λ q. rw same (h.ready q) }
Step-Stage (calls c) h = record { early = h.early; ready = h.ready }

Reach-Stage : {w u : World} → Stage w → Reach w u → Stage u
Reach-Stage h here = h
Reach-Stage h (next r st) = Step-Stage st (Reach-Stage h r)

-- From the start of the two threads, in any memory and in every order of their steps and of the calls
-- of waiting threads: once `event_poster` has initialized the mailbox, its indices are in range and it
-- holds exactly the first 63 messages that were ever given to `deliver_mail`, in their order.
pub Reach-started-IsKept :
    (p : Process) (w : World)
    → Reach (started p) w
    → w.poster ≢ unready
    → IsKept w.process.mailbox w.mailed
Reach-started-IsKept p w r ready =
    (Reach-Stage (record { early = λ q. refl; ready = λ q. absurd (q refl) }) r).ready ready
