-- ===== src/Syncer/Alloc.antt =====
-- Which entry `alloc_syncer` gives out.
use comm_traffic_center.Base.{
  ℕ, zero, suc, ◌+◌, ◌≤◌, ◌<◌, ◌≡◌, refl, arith, true, false, Option, none, some, update, ◌==◌,
  Bool-cases, inl, inr,
}
use comm_traffic_center.Syncer.{Syncers, alloc_from, alloc_syncer}

-- From entry `i` on: the first free entry below 64 is taken, or all of them are busy.
abbrev pub Takes : Syncers → ℕ → Option ℕ × Syncers → Type 0
Takes t i (none, t') = (t' ≡ t) × ((k : ℕ) → i ≤ k → k < 64 → (t k).is_valid ≡ false)
Takes t i (some j, t') =
    (i ≤ j)
    × (j < 64)
    × ((t j).is_valid ≡ true)
    × ((k : ℕ) → i ≤ k → k < j → (t k).is_valid ≡ false)
    × (t' ≡ update t j (record (t j) { is_valid = false }))

Takes-later :
    (t : Syncers) (i : ℕ) (r : Option ℕ × Syncers)
    → (t i).is_valid ≡ false
    → Takes t (i + 1) r
    → Takes t i r
Takes-later t i (none, t') e (same, busy) = (same, λ k p q. earlier k p q)
  where
    earlier : (k : ℕ) → i ≤ k → k < 64 → (t k).is_valid ≡ false
    earlier k p q = elim (Bool-cases (k == i)) [
      | inl f ↦ let f' : k ≡ i = ground arith in rw f' e
      | inr f ↦ busy k (ground arith) q
    ]
Takes-later t i (some j, t') e (le, lt, ok, busy, same) = (omega arith, lt, ok, earlier, same)
  where
    earlier : (k : ℕ) → i ≤ k → k < j → (t k).is_valid ≡ false
    earlier k p q = elim (Bool-cases (k == i)) [
      | inl f ↦ let f' : k ≡ i = ground arith in rw f' e
      | inr f ↦ busy k (ground arith) q
    ]

alloc_from-Takes :
    (rounds : ℕ) (t : Syncers) (i : ℕ) → i + rounds ≡ 64 → Takes t i (alloc_from rounds t i)
unfolding alloc_from
alloc_from-Takes zero t i e = (refl, λ k p q. absurd (omega arith))
alloc_from-Takes (suc rounds) t i e = elim (Bool-cases (t i).is_valid) [
  | inl ok ↦ rw ok (omega arith, omega arith, ok, λ k p q. absurd (omega arith), refl)
  | inr busy ↦ rw busy (
      Takes-later t i (alloc_from rounds t (i + 1)) busy
        (alloc_from-Takes rounds t (i + 1) (omega arith)))
]

-- `alloc_syncer` takes the first free entry of the 64, marks it busy and changes no other; it answers
-- NULL, with the table as it was, exactly when all of them are busy.
pub alloc_syncer-Takes : (t : Syncers) → Takes t 0 (alloc_syncer t)
unfolding alloc_syncer
alloc_syncer-Takes t = alloc_from-Takes 64 t 0 refl
