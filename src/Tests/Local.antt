-- ===== src/Tests/Local.antt =====
-- The mailbox, the table of waiting threads and the handler at concrete arguments.
use comm_traffic_center.Base.{
  ◌==◌, if◌then◌else◌, ℕ, ◌<◌, ◌≡◌, ◌≢◌, refl, arith, true, false, none, some, List, [], ◌∷◌, map,
  Bytes, zeros, set_u8, set_u16, update, success, failed, ℤ, pos, negsuc, ◌++◌,
}
use comm_traffic_center.Mailbox.{top, entry, bottom}
use comm_traffic_center.Trace.{info, prints, ctc_trc_state}
use comm_traffic_center.Package.{get_msg_len, event}
use comm_traffic_center.Mailbox.{Mailbox, line_of, init_mailbox, traverse_mailbox}
use comm_traffic_center.Mailbox.Refine.{IsValid, contents}
use comm_traffic_center.Mailbox.Trace.{
  Call, pushes, pops, run, run_queue, traverse_mailbox_total, init_mailbox_refines,
}
use comm_traffic_center.Infra.Rs485.{timed_out, woken}
use comm_traffic_center.Syncer.{
  Syncers, idle, init_syncers, alloc_from, alloc_syncer, sync_event, wait_on, wait_on_with_act,
}
use comm_traffic_center.Syncer.Waits.{
  registered, wait_on_loses, wait_on_overreads, wait_on_with_act_handles,
}
use comm_traffic_center.Syncer.Owners.{
  Shared, Reach, here, next, acquires, start, alloc_syncer-exclusive,
}
use comm_traffic_center.Base.{Agree}
use comm_traffic_center.Package.Build.{is_cross_dev}
use comm_traffic_center.Socket.{opened, sent, closed}
use comm_traffic_center.Sender.{ctc_send_msg}
use comm_traffic_center.Journey.Wait.{receives, ctc_send_msg-awaited}
use comm_traffic_center.Tests.Sending
use comm_traffic_center.Tests.Sending.{env, hello, here_fits}
use comm_traffic_center.Tests.Noise.{slow-Serves}

-- A message of the event 7 with a body of two bytes.
abbrev seven : Bytes
seven = set_u8 (set_u8 (set_u16 (set_u16 zeros 2 19) 4 7) 17 5) 18 6

-- A mailbox with two packages that wraps at the end of the array.
abbrev wrapped : Mailbox
wrapped = record { msg_queue = λ i. set_u8 zeros 9 i; front = 63; rear = 1 }

wrapped-IsValid : IsValid wrapped
wrapped-IsValid = record { front_in = omega arith; rear_in = omega arith }

abbrev full : Mailbox
full = record wrapped { front = 2 }

traverse_mailbox_total_example :
    (traverse_mailbox 2 wrapped
      ≡ some (
          map
            (prints info)
            (top ∷ (map (λ m. entry (line_of m)) (contents wrapped) ++ (bottom ∷ [])))))
    × (traverse_mailbox ctc_trc_state wrapped ≡ some [])
traverse_mailbox_total_example = traverse_mailbox_total 2 wrapped-IsValid

abbrev calls : List Call
calls = pushes seven ∷ pops ∷ pops ∷ []

init_mailbox_refines_example : run (init_mailbox full) calls ≡ run_queue [] calls
init_mailbox_refines_example = init_mailbox_refines full calls

-- The table behind `init_syncers`.
abbrev blank : Syncers
blank i = idle

abbrev blank_busy : Syncers
blank_busy = update blank 0 (record idle { is_valid = false })

blank_taken : alloc_syncer blank ≡ (some 0, blank_busy)
unfolding alloc_syncer alloc_from
blank_taken = refl

nothing_before : (k : ℕ) → k < 0 → (blank k).on_event ≢ event seven
nothing_before k p = absurd (omega arith)

ctc_send_msg-awaited_example :
    (m : Bytes) × (bytes : Bytes) × (ctc_send_msg env 300 (some Sending.here) (some hello) 2 1
      ≡ some (success, opened ∷ sent "/tmp/.ref_sel" m 4114 ∷ closed ∷ []))
    × (wait_on true woken (receives wrapped m) 300 (some 4096) 2 blank
        ≡ some (
          success,
          some (record { address = 4096; bytes = bytes; count = 2 }),
          update blank 0 idle,
        ))
    × Agree 2 bytes hello
ctc_send_msg-awaited_example =
    ctc_send_msg-awaited env 300 Sending.here hello 2 1 3 wrapped blank 0 blank_busy 4096 2
      here_fits (unfold is_cross_dev in refl) refl slow-Serves blank_taken
      (λ k p. absurd (omega arith)) (omega arith)

wait_on_overreads_example :
    wait_on true woken (λ u. (sync_event u seven).1) 7 (some 4096) 65535 blank ≡ none
wait_on_overreads_example =
    wait_on_overreads blank seven 0 blank_busy blank_taken nothing_before 4096 65535 (omega arith)

wait_on_loses_example :
    ((sync_event
        (registered blank seven 0 blank_busy blank_taken nothing_before none (some 4096) 2)
        seven).0
      ≡ success)
    × (wait_on true timed_out (λ u. (sync_event u seven).1) 7 (some 4096) 2 blank
        ≡ some (failed, none, update blank 0 idle))
wait_on_loses_example = wait_on_loses blank seven 0 blank_busy blank_taken nothing_before 4096 2

-- The handler 3 answers -7 on a body of two bytes.
abbrev handlers : ℕ → Bytes → ℕ → ℤ
handlers h m len = if len == 2 then negsuc 6 else pos 255

wait_on_with_act_handles_example :
    wait_on_with_act handlers true woken (λ u. (sync_event u seven).1) 7 (some 3) blank
    ≡ (negsuc 6, update blank 0 idle)
unfolding get_msg_len
wait_on_with_act_handles_example =
    wait_on_with_act_handles blank seven 0 blank_busy blank_taken nothing_before handlers 3

-- Thread 5 takes the first entry, and then some thread takes the second.
abbrev first_held : Shared
first_held = record {
  table = update (init_syncers blank) 0 (record (init_syncers blank 0) { is_valid = false });
  owner = update (λ i. none) 0 (some 5);
}

start_taken : alloc_syncer (init_syncers blank) ≡ (some 0, first_held.table)
unfolding alloc_syncer init_syncers alloc_from
start_taken = refl

first_held-Reach : Reach (start blank) first_held
first_held-Reach = next here (acquires 5 0 first_held.table start_taken refl)

second_held : Syncers
second_held = update first_held.table 1 (record (first_held.table 1) { is_valid = false })

second_taken : alloc_syncer first_held.table ≡ (some 1, second_held)
unfolding alloc_syncer init_syncers alloc_from second_held
second_taken = refl

alloc_syncer-exclusive_example : first_held.owner 1 ≡ none
alloc_syncer-exclusive_example =
    alloc_syncer-exclusive blank first_held 1 second_held first_held-Reach second_taken
