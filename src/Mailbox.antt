-- ===== src/Mailbox.antt =====
-- app/msg_mailbox.c and `Mailbox` of api/ctc_def.h: the ring of received packages. `front` and
-- `rear` are array indices; the array is the function from an index to the package there.
pub mod Queue
pub mod Refine
pub mod Trace
use comm_traffic_center.Base.{
  ℕ, zero, suc, ◌+◌, ◌-◌, ◌%◌, Bool, true, false, Option, none, some, List, [], ◌∷◌, Bytes, filled,
  update, ◌==◌, if◌then◌else◌, ◌>>=◌, ◌++◌,
}
use comm_traffic_center.Trace.{Output, ctc_trace_info, prt}
use comm_traffic_center.Package.{max_msg_num, event, total_len, src_dir, Direction}

pub record Mailbox : Type 0 where
  pub msg_queue : ℕ → Bytes
  pub front : ℕ
  pub rear : ℕ

unfoldable pub init_mailbox : Mailbox → Mailbox
init_mailbox mb = record { msg_queue = λ i. filled 255; front = 0; rear = 0 }

unfoldable pub is_full : Mailbox → Bool
is_full mb = if (mb.rear + 1) % max_msg_num == mb.front then true else false

unfoldable pub push_mailbox : Mailbox → Bytes → Bool × Mailbox
unfolding is_full
push_mailbox mb msg = if is_full mb then (false, mb) else (
  true,
  record mb { msg_queue = update mb.msg_queue mb.rear msg; rear = (mb.rear + 1) % max_msg_num },
)

unfoldable pub is_empty : Mailbox → Bool
is_empty mb = if mb.front == mb.rear then true else false

-- The package that is copied to `*msg`, if any, beside the result.
unfoldable pub pop_mailbox : Mailbox → Bool × Option Bytes × Mailbox
unfolding is_empty
pop_mailbox mb =
    if is_empty mb
    then (false, none, mb)
    else (true, some (mb.msg_queue mb.front), record mb { front = (mb.front + 1) % max_msg_num })

unfoldable pub get_msg_num : Mailbox → ℕ
get_msg_num mb = (mb.rear + max_msg_num - mb.front) % max_msg_num

-- What the line of one package shows.
pub record Line : Type 0 where
  pub src_pid : ℕ
  pub event_id : ℕ
  pub len : ℕ

abbrev pub line_of : Bytes → Line
line_of m = record { src_pid = (src_dir m).pid; event_id = event m; len = total_len m }

-- What is traced: the rule above, the line of a package, the rule below.
pub data Row : Type 0 where
  top bottom : Row
  entry : Line → Row

-- The loop from index `i`, by what each `CTC_TRACE_INFO` outputs; `none` when the fuel runs out before
-- `rear` is reached.
unfoldable pub traverse_from : ℕ → ℕ → (ℕ → Bytes) → ℕ → ℕ → Option (List (Output Row))
traverse_from state zero q rear i = none
traverse_from state (suc fuel) q rear i =
    let rest = traverse_from state fuel q rear ((i + 1) % max_msg_num) in
    if i == rear
    then some []
    else (rest >>= λ out. some (ctc_trace_info state prt (entry (line_of (q i))) ++ out))

-- The trace of the mailbox, by `ctc_trc_state`; `Trace` shows that the fuel is enough.
unfoldable pub traverse_mailbox : ℕ → Mailbox → Option (List (Output Row))
traverse_mailbox state mb = do
  out ← traverse_from state max_msg_num mb.msg_queue mb.rear mb.front
  some (ctc_trace_info state prt top ++ (out ++ ctc_trace_info state prt bottom))
