-- ===== src/Tests/Boot.antt =====
-- The start of the threads, the tracing and the loop of `exter_transmitter` at concrete arguments.
use Prim.Native.String.{String}
use comm_traffic_center.Base.{
  ◌≡◌, ◌≢◌, refl, arith, true, false, none, some, List, [], ◌∷◌, Bytes, zeros, set_u8, pos, negsuc,
  ◌⊎◌, success, failed, set_u16,
}
use comm_traffic_center.Mailbox.{Mailbox, init_mailbox}
use comm_traffic_center.Infra.Rs485.{Action, timed_out, woken}
use comm_traffic_center.Exter.Remote.{written}
use comm_traffic_center.Transmitter.{Tick, exter_transmitter, exter_transmitter_turn}
use comm_traffic_center.Transmitter.Turns.{exter_transmitter_turn_overreads}
use comm_traffic_center.Transmitter.Loop.{Gives, ended, idles, gives, exter_transmitter_in_order}
use comm_traffic_center.Socket.{
  opened, closed, bound, sent, ref_sel_proc, send_msg_to_local, System,
}
use comm_traffic_center.Trace.{trc, erro, prints, logs, trace, ctc_trace}
use comm_traffic_center.Trace.Silence.{trace_lem}
use comm_traffic_center.Start.{main, event_poster_start, inter_transmitter_thread}
use comm_traffic_center.Start.Meeting.{event_poster_start_meets, main-silent}
use comm_traffic_center.Tests.Sending.{slow}

-- With both digits set, a line is printed, and logged behind that.
trace_lem_example :
    trace {A = String} erro 3 ctc_trace trc "lost" ≡ prints erro "lost" ∷ logs erro "lost" ∷ []
trace_lem_example = trace_lem {A = String} erro 3 trc "lost"

abbrev box : Mailbox
box = record { msg_queue = λ i. zeros; front = 20; rear = 30 }

-- A system that lets a process listen.
abbrev serving : System
serving = record slow { listen = pos 0 }

event_poster_start_meets_example :
    ((100 ≡ ref_sel_proc)
      × (event_poster_start serving 100 box
          ≡ (init_mailbox box, some (pos 5), opened ∷ bound "/tmp/.ref_sel" ∷ []))
      × (send_msg_to_local slow 100 zeros 4114
          ≡ (success, opened ∷ sent "/tmp/.ref_sel" zeros 4114 ∷ closed ∷ [])))
    ⊎ ((100 ≢ ref_sel_proc)
        × (event_poster_start serving 100 box ≡ (init_mailbox box, none, []))
        × (send_msg_to_local slow 100 zeros 4114 ≡ (failed, [])))
event_poster_start_meets_example =
    event_poster_start_meets 100 box serving slow zeros 4114 3
      (record { has_socket = refl; binds = refl; listens = refl }) refl (omega arith) refl refl

main-silent_example :
    main 3 true false ≡ record { threads = inter_transmitter_thread ∷ []; traced = [] }
main-silent_example = main-silent 3 true false

-- A package of the new protocol of 19 bytes.
abbrev nineteen : Bytes
nineteen = set_u8 zeros 2 19

abbrev giving : Tick
giving = record {
  locked = true;
  wait = timed_out;
  mq_timedreceive = λ m n t. (pos 4114, nineteen);
  now = 1000;
}

abbrev late : Tick
late = record giving { mq_timedreceive = λ m n t. (negsuc 0, m) }

given : Gives (giving ∷ late ∷ giving ∷ []) (nineteen ∷ nineteen ∷ [])
given =
    gives giving 4113 nineteen refl refl refl (omega arith)
      (idles late refl (gives giving 4113 nineteen refl refl refl (omega arith) ended))

exter_transmitter_in_order_example :
    (acts : List Action) × (exter_transmitter true (giving ∷ late ∷ giving ∷ []) ≡ some acts)
    × (written acts ≡ (nineteen, 19) ∷ (nineteen, 19) ∷ [])
exter_transmitter_in_order_example =
    exter_transmitter_in_order true (giving ∷ late ∷ giving ∷ []) (nineteen ∷ nineteen ∷ []) given

-- A package whose length field is 65535.
abbrev overlong : Bytes
overlong = set_u16 zeros 2 65535

exter_transmitter_turn_overreads_example :
    exter_transmitter_turn false true woken (λ m n t. (pos 4114, overlong)) 1000 ≡ none
exter_transmitter_turn_overreads_example =
    exter_transmitter_turn_overreads false woken (λ m n t. (pos 4114, overlong)) 1000 4113 overlong
      refl refl (omega arith)
