-- ===== src/Syncer/Waits.antt =====
-- What a thread that waits for an event gets, and what it leaves behind.
use comm_traffic_center.Base.{
  ℕ, ◌<◌, ◌≡◌, ◌≢◌, ap, ◌∙◌, fun_ext, arith, true, false, Option, none, some, Bytes, update, ◌==◌,
  Status, success, failed, ℤ, ◌≤◌, ◌>>=◌, refl, ltb,
}
use comm_traffic_center.Package.{event, body, get_msg_len}
use comm_traffic_center.Infra.Rs485.{WaitEnd, timed_out, woken}
use comm_traffic_center.Syncer.{
  EventSyncer, Syncers, idle, alloc_syncer, regist_event, free_syncer, sync_event, sync_data_of,
  or_keep, copy_on, wait_on, act_on, sync_act, wait_on_with_act,
}
use comm_traffic_center.Syncer.Alloc.{Takes, alloc_syncer-Takes}
use comm_traffic_center.Syncer.Notify.{sync_event_at}

module _ (t : Syncers) (m : Bytes) (i : ℕ) (busy : Syncers)
    (taken : alloc_syncer t ≡ (some i, busy))
    (first : (k : ℕ) → k < i → (t k).on_event ≢ event m) where
  took : Takes t 0 (some i, busy)
  took = rw taken at (alloc_syncer-Takes t)

  module _ (handler data_buff : Option ℕ) (len : ℕ) where
    -- The entry that waits for the message's event.
    abbrev waiting : EventSyncer
    waiting = record (t i) {
      is_valid = false;
      on_event = event m;
      handle = or_keep handler (t i).handle;
      sync_data = or_keep data_buff (t i).sync_data;
      len = len;
    }

    abbrev pub registered : Syncers
    registered = regist_event busy (some i) (event m) handler data_buff len

    registered_lem : registered ≡ update t i waiting
    unfolding regist_event
    registered_lem = rw (took.4) (fun_ext λ k. ground arith)

    -- Two writes to one entry are the last.
    rewritten :
        update (update t i waiting) i (record (update t i waiting i) { msg = m })
        ≡ update t i (record waiting { msg = m })
    rewritten = fun_ext λ k. ground arith

    notified : sync_event registered m ≡ (success, update t i (record waiting { msg = m }))
    notified = rw registered_lem (
        sync_event_at (update t i waiting) m i took.1 (ground arith)
          (λ k q. let ne : (k == i) ≡ false = ground arith in rw ne (first k q))
        ∙ ap {B = Status × Syncers} (λ u. (success, u)) rewritten)

    freed : free_syncer (update t i (record waiting { msg = m })) (some i) ≡ update t i idle
    unfolding free_syncer
    freed = fun_ext λ k. ground arith

  waits :
      (wait : WaitEnd) (p len : ℕ)
      → wait_on true wait (λ u. (sync_event u m).1) (event m) (some p) len t ≡ (
          sync_data_of true wait (record (waiting none (some p) len) { msg = m }) >>= λ (ret, out).
          some (ret, out, update t i idle))
  unfolding wait_on
  waits wait p len =
      let self : (i == i) ≡ true = ground arith in
      rw (taken, copy_on, notified none (some p) len, self, freed none (some p) len)

  -- A thread waits for an event in the entry `i` that it got, no entry before `i` waits for the same
  -- event, and a message of that event comes in and wakes it: where it asks for at most 4096 bytes,
  -- `wait_on` succeeds, copies the first `len` bytes of the message's body to the destination, and
  -- frees the entry; the others are as before.
  pub wait_on_receives :
      (p len : ℕ)
      → len ≤ 4096
      → wait_on true woken (λ u. (sync_event u m).1) (event m) (some p) len t
        ≡ some
            (success, some (record { address = p; bytes = body m; count = len }), update t i idle)
  unfolding sync_data_of
  wait_on_receives p len h =
      let inside : ltb 4096 len ≡ false = ground arith in waits woken p len ∙ rw inside refl

  -- A thread waits for an event in the entry `i` that it got, no entry before `i` waits for the same
  -- event, and a message of that event comes in and wakes it: where it asks for more than 4096 bytes,
  -- `wait_on` reads past the end of the message's body.
  pub wait_on_overreads :
      (p len : ℕ)
      → 4096 < len
      → wait_on true woken (λ u. (sync_event u m).1) (event m) (some p) len t ≡ none
  unfolding sync_data_of
  wait_on_overreads p len h =
      let outside : ltb 4096 len ≡ true = ground arith in waits woken p len ∙ rw outside refl

  -- A thread waits for an event in the entry `i` that it got, no entry before `i` waits for the
  -- same event, and a message of that event comes in, but the wait ends by the clock, as it does
  -- where the signal comes before the wait: `sync_event` has answered SUCCESS, so the message does
  -- not go to the mailbox, `wait_on` answers FAILED and copies nothing, and the entry is as
  -- `free_syncer` leaves it.
  pub wait_on_loses :
      (p len : ℕ)
      → ((sync_event (registered none (some p) len) m).0 ≡ success)
        × (wait_on true timed_out (λ u. (sync_event u m).1) (event m) (some p) len t
            ≡ some (failed, none, update t i idle))
  unfolding sync_data_of
  wait_on_loses p len = (rw (notified none (some p) len), waits timed_out p len)

  -- A thread waits with a handler in the entry `i` that it got, no entry before `i` waits for the same
  -- event, and a message of that event comes in and wakes it: `wait_on_with_act` answers what the
  -- handler answers on the message's body and length, and frees the entry; the others are as before.
  pub wait_on_with_act_handles :
      (call : ℕ → Bytes → ℕ → ℤ) (h : ℕ)
      → wait_on_with_act call true woken (λ u. (sync_event u m).1) (event m) (some h) t
        ≡ (call h (body m) (get_msg_len (some m)), update t i idle)
  unfolding wait_on_with_act sync_act
  wait_on_with_act_handles call h =
      let self : (i == i) ≡ true = ground arith in
      rw (taken, act_on, notified (some h) none 0, self, freed (some h) none 0)
