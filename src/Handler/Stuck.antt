-- ===== src/Handler/Stuck.antt =====
-- `fetch_mail` takes nothing out of the mailbox.
use comm_traffic_center.Base.{
  sym, ◌≡◌, refl, ◌∙◌, ap, Bool, true, false, Option, none, some, List, [], ◌∷◌, ◌++◌, Bytes,
  length, inl, inr, zeros, ℤ, pos, negsuc, Bool-cases, ◌==◌, copy_at, is_success, if◌then◌else◌,
}
use mathlib.Core.List.{append-nil, append_assoc}
use mathlib.Core.Path.{subst}
use comm_traffic_center.Mailbox.{Mailbox, push_mailbox}
use comm_traffic_center.Mailbox.Queue
use comm_traffic_center.Mailbox.Refine.{
  IsValid, contents, push_mailbox_refines, push_mailbox-IsValid,
}
use comm_traffic_center.Syncer.{sync_event}
use comm_traffic_center.Handler.{
  Process, Case, Handled, post_event, event_poster_turn, event_handler_turn, process_event,
}

-- A turn of either thread, with what the machine gives it.
pub data Turn : Type 0 where
  posts : ℤ → Bytes → Turn
  handles : Bool → Turn

unfoldable pub run : List Case → Process → List Turn → Process
run cases p [] = p
run cases p (posts n m ∷ ts) = run cases (event_poster_turn p n m) ts
run cases p (handles undefined ∷ ts) = run cases (event_handler_turn cases undefined p).1 ts

-- A call of `process_event`, if a turn of the handler makes one, is for the event 0 and the length
-- 65519, whatever the mailbox holds; and the turn leaves the process as it was.
pub event_handler_turn_blind :
    (cases : List Case) (undefined : Bool) (p : Process)
    → (event_handler_turn cases undefined p ≡ (
      (if undefined
          then some
              (record { event_id = 0; len = 65519; answer = process_event cases 0 zeros 65519 })
          else none),
      p,
    ))
unfolding event_handler_turn
event_handler_turn_blind cases true p = refl
event_handler_turn_blind cases false p = refl

-- The second mailbox has what the first has, and `more` behind it.
pub record Extends (mb mb' : Mailbox) : Type 0 where
  pub valid : IsValid mb'
  pub more : List Bytes
  pub kept : contents mb' ≡ contents mb ++ more

unchanged : {mb : Mailbox} → IsValid mb → Extends mb mb
unchanged v = record { valid = v; more = []; kept = sym (append-nil _) }

Extends-trans : {a b c : Mailbox} → Extends a b → Extends b c → Extends a c
Extends-trans x y = record {
  valid = y.valid;
  more = x.more ++ y.more;
  kept = y.kept ∙ rw x.kept (append_assoc _ x.more y.more);
}

pushed-Extends : {mb : Mailbox} (m : Bytes) → IsValid mb → Extends mb (push_mailbox mb m).1
unfolding Queue.push
pushed-Extends {mb} m v =
    let e = ap (λ (r : Bool × Queue.Queue). r.1) (push_mailbox_refines m v) in
    elim (Bool-cases (length (contents mb) == 63)) [
      | inl t ↦ record {
        valid = push_mailbox-IsValid m v;
        more = [];
        kept = e ∙ rw t (sym (append-nil _));
      }
      | inr f ↦ record { valid = push_mailbox-IsValid m v; more = m ∷ []; kept = e ∙ rw f refl }
    ]

posted-Extends :
    (p : Process) (m : Bytes) → IsValid p.mailbox → Extends p.mailbox (post_event p m).mailbox
unfolding post_event
posted-Extends p m v = elim (Bool-cases (is_success (sync_event p.syncers m).0)) [
  | inl t ↦ rw t (unchanged v)
  | inr f ↦ rw f (pushed-Extends m v)
]

turn-Extends :
    (p : Process) (n : ℤ) (m : Bytes)
    → IsValid p.mailbox
    → Extends p.mailbox (event_poster_turn p n m).mailbox
unfolding event_poster_turn
turn-Extends p (negsuc n) m v = unchanged v
turn-Extends p (pos n) m v = elim (Bool-cases (n == 0)) [
  | inl t ↦ rw t (unchanged v)
  | inr f ↦ rw f (posted-Extends p (copy_at zeros 0 m n) v)
]

-- In every sequence of turns of the two threads that starts with the mailbox's indices in range, the
-- packages in the mailbox stay in it in their order, and new ones are only added behind them.
pub run-Extends :
    (cases : List Case) (ts : List Turn) (p : Process)
    → IsValid p.mailbox
    → Extends p.mailbox (run cases p ts).mailbox
unfolding run
run-Extends cases [] p v = unchanged v
run-Extends cases (posts n m ∷ ts) p v =
    let step = turn-Extends p n m v in Extends-trans step (run-Extends cases ts _ step.valid)
run-Extends cases (handles u ∷ ts) p v =
    let still : (event_handler_turn cases u p).1 ≡ p =
      ap (λ (r : Option Handled × Process). r.1) (event_handler_turn_blind cases u p) in
    subst (λ q. Extends p.mailbox (run cases q ts).mailbox) (sym still) (run-Extends cases ts p v)
