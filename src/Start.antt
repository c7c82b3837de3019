-- ===== src/Start.antt =====
-- The start of the threads: app/ctc_starter.c, server/main.c, `start_event_handler_for` of
-- app/msg_handler.c, `start_msg_transmitter` of app/msg_transmitter.c, the opening and closing calls of
-- app/msg_util.c, and what the threads do before their loops. Whether `pthread_create` succeeds, and
-- the answers of the other system calls, are arguments.
pub mod Meeting
use Prim.Native.String.{String}
use comm_traffic_center.Base.{
  ℕ, zero, suc, ◌%◌, Bool, true, false, Option, none, some, List, [], ◌∷◌, ◌++◌, ℤ, pos, is_neg,
  if◌then◌else◌, Status, success, failed,
}
use comm_traffic_center.Package.{pkg_size}
use comm_traffic_center.Trace.{ctc_trc_state, trc, Output, ctc_trace_info, ctc_trace_erro}
use comm_traffic_center.Mailbox.{Mailbox, init_mailbox}
use comm_traffic_center.Infra.Mq.{Queue, open_msg_queue, close_msg_queue}
use comm_traffic_center.Infra.Rs485.{Line, Closed, open_rs485, close_rs485}
use comm_traffic_center.Infra.Ack.{Sender, signal}
use comm_traffic_center.Socket.{System, Effect, get_comm_info_from_matrix, try_create_socket}

pub data Thread : Type 0 where
  event_poster_thread event_handler_thread : Thread
  inter_transmitter_thread exter_transmitter_thread : Thread

-- What a starting call has done: the threads that run, and what was traced.
pub record Started : Type 0 where
  pub threads : List Thread
  pub traced : List (Output String)

-- `if (pthread_create(..) != 0) CTC_TRACE_ERRO(TRC, ..);`
unfoldable pub create : Bool → Thread → String → Started
create created thread complaint =
    if created
    then record { threads = thread ∷ []; traced = [] }
    else record { threads = []; traced = ctc_trace_erro ctc_trc_state trc complaint }

unfoldable pub both : Started → Started → Started
both a b = record { threads = a.threads ++ b.threads; traced = a.traced ++ b.traced }

-- `self_pid` is a `uint8_t`.
unfoldable pub init_proc_info : ℕ → ℕ
init_proc_info pid = pid % 256

unfoldable pub open_inter_comm : (ℕ → ℕ → ℤ) → Queue → Status × Queue
open_inter_comm mq_open q = open_msg_queue mq_open pkg_size q

unfoldable pub close_inter_comm : Queue → ℤ
close_inter_comm q = close_msg_queue q

unfoldable pub open_exter_comm : ℤ → ℤ → Line → Status × Line × Closed
open_exter_comm gpio tty l = open_rs485 gpio tty l

unfoldable pub close_exter_comm : Line → Line × Closed
close_exter_comm l = close_rs485 l

-- `notify_recv`, for the thread that is in `send_to_rs485_sync`.
unfoldable pub free_exter_comm : Sender → Sender
free_exter_comm s = signal s

-- `self_pid`, and the threads.
unfoldable pub start_event_handler_for : ℕ → Bool → Bool → ℕ × Started
unfolding init_proc_info create both
start_event_handler_for proc_id poster_created handler_created = (
  init_proc_info proc_id,
  both (create poster_created event_poster_thread "create event_poster failed!")
      (create handler_created event_handler_thread "create event_handler failed!"),
)

-- The answer of `open_inter_comm` is not looked at.
unfoldable pub start_event_processor : (ℕ → ℕ → ℤ) → Queue → ℕ → Bool → Bool → Queue × ℕ × Started
unfolding open_inter_comm start_event_handler_for
start_event_processor mq_open q proc_id poster_created handler_created =
    let (status, opened) = open_inter_comm mq_open q in
    let (self_pid, started) = start_event_handler_for proc_id poster_created handler_created in
    (opened, self_pid, started)

unfoldable pub start_msg_transmitter : Bool → Bool → Started
unfolding create both
start_msg_transmitter inter_created exter_created =
    both
      (create inter_created inter_transmitter_thread
        "****** start inter_transmitter FAILED!********")
      (create exter_created exter_transmitter_thread
        "****** start exter_transmitter FAILED!********")

-- `main` up to `n` rounds of its loop.
rounds : ℕ → List (Output String)
rounds zero = []
rounds (suc n) = ctc_trace_info ctc_trc_state trc "do nothing" ++ rounds n

unfoldable pub main : ℕ → Bool → Bool → Started
unfolding rounds
main n inter_created exter_created =
    both
      (both
        (record {
          threads = [];
          traced = ctc_trace_info ctc_trc_state trc "start_msg_transmitter!!!";
        })
        (start_msg_transmitter inter_created exter_created))
      (record { threads = []; traced = rounds n })

-- `event_poster` before its loop: the mailbox, and the socket that it accepts on; `none` where it
-- returns.
listen_on : System → Option String → Option ℤ × List Effect
listen_on sys none = (none, [])
listen_on sys (some dst_name) =
    let (socket_local, es) = try_create_socket sys (some dst_name) in
    if is_neg socket_local then (none, es) else (some socket_local, es)

unfoldable pub event_poster_start : System → ℕ → Mailbox → Mailbox × Option ℤ × List Effect
unfolding listen_on
event_poster_start sys self_pid mb =
    let (socket_local, es) = listen_on sys (get_comm_info_from_matrix self_pid) in
    (init_mailbox mb, socket_local, es)

-- `inter_transmitter` before its loop: the answer is not looked at.
unfoldable pub inter_transmitter_start : ℤ → ℤ → Line → Line
unfolding open_exter_comm
inter_transmitter_start gpio tty l = let (s, l', closed) = open_exter_comm gpio tty l in l'

-- `exter_transmitter` before its loop: it goes on, and traces success, whatever the answer is.
unfoldable pub exter_transmitter_start : (ℕ → ℕ → ℤ) → Queue → Queue × List (Output String)
unfolding open_inter_comm
exter_transmitter_start mq_open q =
    let (s, opened) = open_inter_comm mq_open q in
    (
      opened,
      (elim s [ failed ↦ ctc_trace_erro ctc_trc_state trc "open_inter_comm FAILED!!" | _ ↦ [] ])
          ++ ctc_trace_info ctc_trc_state trc "open_inter_comm SUCCED!!",
    )
