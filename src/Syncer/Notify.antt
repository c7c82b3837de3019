-- ===== src/Syncer/Notify.antt =====
-- Which waiting thread a message goes to.
use comm_traffic_center.Base.{
  ℕ, zero, suc, ◌+◌, ◌≤◌, ◌<◌, ◌≡◌, ◌≢◌, refl, sym, ◌∙◌, arith, Option, none, some, Bytes, update,
  ◌==◌, Bool-cases, inl, inr, Status, success, failed, ltb,
}
use comm_traffic_center.Package.{event}
use comm_traffic_center.Syncer.{Syncers, sync_from, sync_event, found}

-- From entry `i` on: the first entry below 64 that is registered for the message's event gets the
-- message, or there is none.
abbrev pub Notifies : Syncers → Bytes → ℕ → Option ℕ × Syncers → Type 0
Notifies t m i (none, t') = (t' ≡ t) × ((k : ℕ) → i ≤ k → k < 64 → (t k).on_event ≢ event m)
Notifies t m i (some j, t') =
    (i ≤ j)
    × (j < 64)
    × ((t j).on_event ≡ event m)
    × ((k : ℕ) → i ≤ k → k < j → (t k).on_event ≢ event m)
    × (t' ≡ update t j (record (t j) { msg = m }))

Notifies-later :
    (t : Syncers) (m : Bytes) (i : ℕ) (r : Option ℕ × Syncers)
    → (t i).on_event ≢ event m
    → Notifies t m (i + 1) r
    → Notifies t m i r
Notifies-later t m i (none, t') ne (same, others) = (same, λ k p q. earlier k p q)
  where
    earlier : (k : ℕ) → i ≤ k → k < 64 → (t k).on_event ≢ event m
    earlier k p q = elim (Bool-cases (k == i)) [
      | inl f ↦ let f' : k ≡ i = ground arith in rw f' ne
      | inr f ↦ others k (ground arith) q
    ]
Notifies-later t m i (some j, t') ne (le, lt, ok, others, same) =
    (omega arith, lt, ok, earlier, same)
  where
    earlier : (k : ℕ) → i ≤ k → k < j → (t k).on_event ≢ event m
    earlier k p q = elim (Bool-cases (k == i)) [
      | inl f ↦ let f' : k ≡ i = ground arith in rw f' ne
      | inr f ↦ others k (ground arith) q
    ]

pub sync_from-Notifies :
    (rounds : ℕ) (t : Syncers) (m : Bytes) (i : ℕ)
    → i + rounds ≡ 64
    → Notifies t m i (sync_from rounds t m i)
unfolding sync_from
sync_from-Notifies zero t m i e = (refl, λ k p q. absurd (omega arith))
sync_from-Notifies (suc rounds) t m i e = elim (Bool-cases (event m == (t i).on_event)) [
  | inl hit ↦ rw hit (omega arith, omega arith, ground arith, λ k p q. absurd (omega arith), refl)
  | inr miss ↦ rw miss (
      Notifies-later t m i (sync_from rounds t m (i + 1)) (λ f. ground arith)
        (sync_from-Notifies rounds t m (i + 1) (omega arith)))
]

-- The entry that is registered for the event, with none before it that is, gets the message.
pub sync_event_at :
    (t : Syncers) (m : Bytes) (i : ℕ)
    → i < 64
    → (t i).on_event ≡ event m
    → ((k : ℕ) → k < i → (t k).on_event ≢ event m)
    → sync_event t m ≡ (success, update t i (record (t i) { msg = m }))
unfolding sync_event
sync_event_at t m i l e first = at_i (sync_from 64 t m 0) (sync_from-Notifies 64 t m 0 refl)
  where
    at_i :
        (r : Option ℕ × Syncers)
        → Notifies t m 0 r
        → ◌≡◌ {A = Status × Syncers}
            (found r.0, r.1)
            (success, update t i (record (t i) { msg = m }))
    at_i (none, t') (same, others) = absurd (others i (omega arith) l e)
    at_i (some j, t') (le, lt, ok, others, same) = elim (Bool-cases (j == i)) [
      | inl f ↦ let f' : j ≡ i = ground arith in rw (same, f')
      | inr f ↦ elim (Bool-cases (ltb j i)) [
        | inl before ↦ absurd (first j (ground arith) ok)
        | inr behind ↦ absurd (others i (omega arith) (ground arith) e)
      ]
    ]

-- A message that no entry is registered for is left to the mailbox, and the table as it is.
pub sync_event_absent :
    (t : Syncers) (m : Bytes)
    → ((k : ℕ) → k < 64 → (t k).on_event ≢ event m)
    → sync_event t m ≡ (failed, t)
unfolding sync_event
sync_event_absent t m h = nowhere (sync_from 64 t m 0) (sync_from-Notifies 64 t m 0 refl)
  where
    nowhere :
        (r : Option ℕ × Syncers)
        → Notifies t m 0 r
        → ◌≡◌ {A = Status × Syncers} (found r.0, r.1) (failed, t)
    nowhere (none, t') (same, others) = rw same
    nowhere (some j, t') (le, lt, ok, others, same) = absurd (h j lt ok)

-- Where an entry is registered for the event 255, which is INVALID_EVENT, as free entries are,
-- `sync_event` answers SUCCESS to a message with the event 255.
pub sync_event_invalid :
    (t : Syncers) (m : Bytes) (i : ℕ)
    → i < 64
    → (t i).on_event ≡ 255
    → event m ≡ 255
    → (sync_event t m).0 ≡ success
unfolding sync_event
sync_event_invalid t m i l free e = taken (sync_from 64 t m 0) (sync_from-Notifies 64 t m 0 refl)
  where
    taken : (r : Option ℕ × Syncers) → Notifies t m 0 r → found r.0 ≡ success
    taken (none, t') (same, others) = absurd (others i (omega arith) l (free ∙ sym e))
    taken (some j, t') n = refl
