-- ===== src/Start/Meeting.antt =====
-- Where a process listens, and what its threads trace at the start.
use Prim.Native.String.{String}
use mathlib.Core.List.{append-nil}
use comm_traffic_center.Base.{
  ℕ, zero, suc, ◌<◌, ◌≡◌, ◌≢◌, refl, arith, Bool, true, false, none, some, [], ◌∷◌, ◌++◌, Bytes, ℤ,
  is_neg, is_minus_one, ◌==◌, Bool-cases, inl, inr, ◌⊎◌, if◌then◌else◌, success, failed,
}
use comm_traffic_center.Mailbox.{Mailbox, init_mailbox}
use comm_traffic_center.Trace.{trc, info, erro, ctc_trace_info, ctc_trace_erro, ctc_trace}
use comm_traffic_center.Trace.Silence.{trace-silent}
use comm_traffic_center.Socket.{
  System, opened, closed, bound, sent, get_comm_info_from_matrix, send_msg_to_local,
  try_create_socket, ref_sel_proc,
}
use comm_traffic_center.Socket.Laws.{send_msg_to_local-reaches}
use comm_traffic_center.Start.{
  create, both, Thread, inter_transmitter_thread, exter_transmitter_thread, start_msg_transmitter,
  main, rounds, event_poster_start,
}

-- The system lets a process listen.
pub record Listens (sys : System) : Type 0 where
  pub has_socket : is_neg sys.socket ≡ false
  pub binds : is_minus_one sys.bind ≡ false
  pub listens : is_minus_one sys.listen ≡ false

nonneg : (z : ℤ) → is_neg z ≡ false → is_minus_one z ≡ false
nonneg z h = ground arith

matrix_found : get_comm_info_from_matrix ref_sel_proc ≡ some "/tmp/.ref_sel"
unfolding get_comm_info_from_matrix
matrix_found = refl

pub matrix_missing : (pid : ℕ) → pid ≢ ref_sel_proc → get_comm_info_from_matrix pid ≡ none
unfolding get_comm_info_from_matrix
matrix_missing pid h = let e : (ref_sel_proc == pid) ≡ false = ground arith in rw e

listening :
    (mb : Mailbox) (here : System)
    → Listens here
    → event_poster_start here ref_sel_proc mb
      ≡ (init_mailbox mb, some here.socket, opened ∷ bound "/tmp/.ref_sel" ∷ [])
unfolding event_poster_start try_create_socket
listening mb here l =
    rw (matrix_found, nonneg here.socket l.has_socket, l.binds, l.listens, l.has_socket)

-- For every process number: either it is REF_SEL_PROC, `event_poster` listens on a socket under its
-- name, and a send to that number, where the system serves it, goes to that name; or `event_poster`
-- returns before its loop with nothing opened, and every send to that number fails with nothing done.
-- The mailbox is initialized in both cases.
pub event_poster_start_meets :
    (pid : ℕ) (mb : Mailbox) (here there : System) (m : Bytes) (len i : ℕ)
    → Listens here
    → is_minus_one there.socket ≡ false
    → i < 100
    → there.connect i ≡ true
    → is_minus_one (there.send m len) ≡ false
    → ((pid ≡ ref_sel_proc)
        × (event_poster_start here pid mb
            ≡ (init_mailbox mb, some here.socket, opened ∷ bound "/tmp/.ref_sel" ∷ []))
        × (send_msg_to_local there pid m len
            ≡ (success, opened ∷ sent "/tmp/.ref_sel" m len ∷ closed ∷ [])))
      ⊎ ((pid ≢ ref_sel_proc)
          × (event_poster_start here pid mb ≡ (init_mailbox mb, none, []))
          × (send_msg_to_local there pid m len ≡ (failed, [])))
unfolding event_poster_start send_msg_to_local
event_poster_start_meets pid mb here there m len i l sock lt conn sends =
    elim (Bool-cases (pid == ref_sel_proc)) [
      | inl e ↦
          let q : pid ≡ ref_sel_proc = ground arith in
          inl (
            q,
            rw q (listening mb here l),
            rw q (send_msg_to_local-reaches there m len i sock lt conn sends),
          )
      | inr e ↦
          let q : pid ≢ ref_sel_proc = ground arith in
          inr (q, rw (matrix_missing pid q), rw (matrix_missing pid q))
    ]

silent_create :
    (created : Bool) (thread : Thread) (complaint : String)
    → create created thread complaint
      ≡ record { threads = if created then thread ∷ [] else []; traced = [] }
unfolding create ctc_trace_erro
silent_create true thread complaint = refl
silent_create false thread complaint = rw (trace-silent {A = String} erro ctc_trace trc complaint)

silent_rounds : (n : ℕ) → rounds n ≡ []
unfolding rounds ctc_trace_info
silent_rounds zero = refl
silent_rounds (suc n) =
    rw (trace-silent {A = String} info ctc_trace trc "do nothing") (silent_rounds n)

-- `main` starts the two transmitters as far as `pthread_create` succeeds, and however long it runs it
-- neither prints nor logs anything, a thread that could not be created included.
pub main-silent :
    (n : ℕ) (inter_created exter_created : Bool)
    → main n inter_created exter_created ≡ record {
      threads =
          (if inter_created then inter_transmitter_thread ∷ [] else [])
          ++ (if exter_created then exter_transmitter_thread ∷ [] else []);
      traced = [];
    }
unfolding main start_msg_transmitter both ctc_trace_info
main-silent n a b =
    rw
      (
        trace-silent {A = String} info ctc_trace trc "start_msg_transmitter!!!",
        silent_create a inter_transmitter_thread "****** start inter_transmitter FAILED!********",
        silent_create b exter_transmitter_thread "****** start exter_transmitter FAILED!********",
        silent_rounds n,
        append-nil (
            (if a then inter_transmitter_thread ∷ [] else [])
            ++ (if b then exter_transmitter_thread ∷ [] else [])),
      )
      refl
