-- ===== src/Mailbox/Trace.antt =====
-- `traverse_mailbox` ends, and a history of calls on the mailbox is a history of the queue.
use comm_traffic_center.Base.{
  ℕ, zero, suc, ◌+◌, ◌-◌, ◌%◌, ◌<◌, ◌≡◌, refl, arith, Bool, Option, none, some, List, [], ◌∷◌, map,
  Bytes, ◌++◌, ap, sym, ◌∙◌, ◌/◌, ◌==◌, Bool-cases, inl, inr, true, false, if◌then◌else◌,
}
use mathlib.Core.List.{append_assoc, append-nil}
use comm_traffic_center.Trace.{Output, prints, info, prt, ctc_trc_state, ctc_trace_info}
use comm_traffic_center.Trace.Silence.{trace_lem}
use comm_traffic_center.Mailbox.{
  Row, top, bottom, entry, Mailbox, line_of, init_mailbox, push_mailbox, pop_mailbox, get_msg_num,
  traverse_from, traverse_mailbox,
}
use comm_traffic_center.Mailbox.Queue
use comm_traffic_center.Mailbox.Queue.{Queue}
use comm_traffic_center.Mailbox.Refine.{
  IsValid, window, contents, push_mailbox_refines, pop_mailbox_refines, push_mailbox-IsValid,
  pop_mailbox-IsValid, init_mailbox-IsValid,
}

-- What a list of rows outputs.
each : ℕ → List Row → List (Output Row)
each state [] = []
each state (r ∷ rs) = ctc_trace_info state prt r ++ each state rs

each-append : (state : ℕ) (a b : List Row) → each state (a ++ b) ≡ each state a ++ each state b
unfolding each
each-append state [] b = refl
each-append state (r ∷ a) b =
    ap (λ x. ctc_trace_info state prt r ++ x) (each-append state a b)
    ∙ sym (append_assoc (ctc_trace_info state prt r) (each state a) (each state b))

traced :
    (state : ℕ) (r : Row)
    → ctc_trace_info state prt r ≡ (if state / 2 % 2 == 1 then prints info r ∷ [] else [])
unfolding ctc_trace_info
traced state r = elim (Bool-cases (state / 2 % 2 == 1)) [
  | inl e ↦ rw (trace_lem info state prt r, e) (ground arith)
  | inr e ↦ rw (trace_lem info state prt r, e) (ground arith)
]

each_lem :
    (state : ℕ) (rs : List Row)
    → each state rs ≡ (if state / 2 % 2 == 1 then map (prints info) rs else [])
unfolding each
each_lem state [] = ground arith
each_lem state (r ∷ rs) = elim (Bool-cases (state / 2 % 2 == 1)) [
  | inl e ↦ rw (traced state r, each_lem state rs, e) refl
  | inr e ↦ rw (traced state r, each_lem state rs, e) refl
]

abbrev rows : List Bytes → List Row
rows ms = map (λ m. entry (line_of m)) ms

traverse_from-window :
    (state fuel : ℕ) (q : ℕ → Bytes) (n rear i : ℕ)
    → n < fuel
    → n < 64
    → i < 64
    → rear < 64
    → rear ≡ (i + n) % 64
    → traverse_from state fuel q rear i ≡ some (each state (rows (window q i n)))
unfolding traverse_from each
traverse_from-window state zero q n rear i h k hi hr e = absurd (omega arith)
traverse_from-window state (suc fuel) q zero rear i h k hi hr e =
    let at_rear : (i == rear) ≡ true = ground arith in rw at_rear refl
traverse_from-window state (suc fuel) q (suc n) rear i h k hi hr e =
    let ih =
      traverse_from-window state fuel q n rear ((i + 1) % 64) (omega arith) (omega arith)
        (omega arith) hr (omega arith) in
    let before : (i == rear) ≡ false = ground arith in rw (before, ih) refl

shows :
    (state : ℕ) {mb : Mailbox}
    → IsValid mb
    → traverse_mailbox state mb
      ≡ some (
          if state / 2 % 2 == 1
          then map (prints info) (top ∷ (rows (contents mb) ++ (bottom ∷ [])))
          else [])
unfolding traverse_mailbox get_msg_num each
shows state {mb} v =
    let all = rows (contents mb) in
    let below = each-append state all (bottom ∷ []) in
    let last : each state (bottom ∷ []) ≡ ctc_trace_info state prt bottom = append-nil _ in
    rw
      (traverse_from-window state 64 mb.msg_queue ((mb.rear + 64 - mb.front) % 64) mb.rear mb.front
        (omega arith) (omega arith) v.front_in v.rear_in (omega arith))
      (ap some (
        ap (λ x. ctc_trace_info state prt top ++ x)
          (ap (λ x. each state all ++ x) (sym last) ∙ sym below)
        ∙ each_lem state (top ∷ (all ++ (bottom ∷ [])))))

-- On a mailbox whose indices are in range the loop of `traverse_mailbox` ends within 64 rounds,
-- whatever the trace state is. Where the second binary digit of the state is set, it prints the rule
-- above, one line for each package in the mailbox, oldest first, and the rule below; where it is not
-- set, nothing. With the state that every file has it prints nothing.
pub traverse_mailbox_total :
    (state : ℕ) {mb : Mailbox}
    → IsValid mb
    → (traverse_mailbox state mb
        ≡ some (
            if state / 2 % 2 == 1
            then map
                (prints info)
                (top ∷ (map (λ m. entry (line_of m)) (contents mb) ++ (bottom ∷ [])))
            else []))
      × (traverse_mailbox ctc_trc_state mb ≡ some [])
traverse_mailbox_total state v = (shows state v, shows ctc_trc_state v)

-- The calls that the threads make on the mailbox, and what each answers.
pub data Call : Type 0 where
  pushes : Bytes → Call
  pops : Call

abbrev pub Reply : Type 0
Reply = Bool × Option Bytes

unfoldable pub run : Mailbox → List Call → List Reply
run mb [] = []
run mb (pushes m ∷ cs) = let (r, mb') = push_mailbox mb m in (r, none) ∷ run mb' cs
run mb (pops ∷ cs) = let (r, out, mb') = pop_mailbox mb in (r, out) ∷ run mb' cs

unfoldable pub run_queue : Queue → List Call → List Reply
run_queue q [] = []
run_queue q (pushes m ∷ cs) = let (r, q') = Queue.push q m in (r, none) ∷ run_queue q' cs
run_queue q (pops ∷ cs) = let (r, out, q') = Queue.pop q in (r, out) ∷ run_queue q' cs

run_refines : (cs : List Call) {mb : Mailbox} → IsValid mb → run mb cs ≡ run_queue (contents mb) cs
unfolding run run_queue
run_refines [] v = refl
run_refines (pushes m ∷ cs) v =
    rw (run_refines cs (push_mailbox-IsValid m v), ← push_mailbox_refines m v)
run_refines (pops ∷ cs) v = rw (run_refines cs (pop_mailbox-IsValid v), ← pop_mailbox_refines v)

pub contents-init_mailbox : (mb : Mailbox) → contents (init_mailbox mb) ≡ []
unfolding init_mailbox get_msg_num
contents-init_mailbox mb = refl

-- After `init_mailbox`, whatever the memory held before, every sequence of pushes and pops is
-- answered as by a queue of at most 63 packages that starts empty.
pub init_mailbox_refines :
    (mb : Mailbox) (cs : List Call) → run (init_mailbox mb) cs ≡ run_queue [] cs
init_mailbox_refines mb cs =
    rw (← contents-init_mailbox mb) (run_refines cs (init_mailbox-IsValid mb))
