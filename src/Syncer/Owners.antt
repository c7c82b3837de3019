-- ===== src/Syncer/Owners.antt =====
-- Threads that share the table: any order of allocations, registrations, messages and releases, each
-- under the table's lock.
use comm_traffic_center.Base.{
  ℕ, ◌<◌, ◌≡◌, refl, arith, true, false, Option, none, some, Bytes, update, ◌==◌, Bool-cases, inl,
  inr, ltb,
}
use comm_traffic_center.Syncer.{
  EventSyncer, Syncers, idle, init_syncers, alloc_syncer, regist_event, free_syncer, sync_from,
  sync_event,
}
use comm_traffic_center.Syncer.Alloc.{Takes, alloc_syncer-Takes}
use comm_traffic_center.Syncer.Notify.{Notifies, sync_from-Notifies}

-- The table, and which thread holds which entry.
pub record Shared : Type 0 where
  pub table : Syncers
  pub owner : ℕ → Option ℕ

pub data Step (s s' : Shared) : Type 0 where
  acquires :
      (thread i : ℕ) (t : Syncers)
      → alloc_syncer s.table ≡ (some i, t)
      → s' ≡ record { table = t; owner = update s.owner i (some thread) }
      → Step s s'
  registers :
      (thread i event_id len : ℕ) (handle data_buff : Option ℕ)
      → s.owner i ≡ some thread
      → s' ≡ record s { table = regist_event s.table (some i) event_id handle data_buff len }
      → Step s s'
  posts : (m : Bytes) → s' ≡ record s { table = (sync_event s.table m).1 } → Step s s'
  releases :
      (thread i : ℕ)
      → s.owner i ≡ some thread
      → s' ≡ record { table = free_syncer s.table (some i); owner = update s.owner i none }
      → Step s s'

pub data Reach (s : Shared) : Shared → Type 0 where
  here : Reach s s
  next : {t u : Shared} → Reach s t → Step t u → Reach s u

-- An entry that nobody holds is as `free_syncer` leaves it, but for the message it may have been
-- given; an entry that is marked free is held by nobody.
pub record Entry (e : EventSyncer) (owner : Option ℕ) : Type 0 where
  pub free_unheld : e.is_valid ≡ true → owner ≡ none
  pub unheld_free : owner ≡ none → e.is_valid ≡ true
  pub unheld_event : owner ≡ none → e.on_event ≡ 255
  pub unheld_handle : owner ≡ none → e.handle ≡ none
  pub unheld_data : owner ≡ none → e.sync_data ≡ none

abbrev pub IsOwned : Shared → Type 0
IsOwned s = (i : ℕ) → i < 64 → Entry (s.table i) (s.owner i)

-- One entry changes, with its holder.
IsOwned-update :
    (t : Syncers) (owner : ℕ → Option ℕ) (j : ℕ) (e : EventSyncer) (o : Option ℕ)
    → IsOwned (record { table = t; owner = owner })
    → Entry e o
    → IsOwned (record { table = update t j e; owner = update owner j o })
IsOwned-update t owner j e o v x i l = elim (Bool-cases (i == j)) [
  | inl same ↦ rw same x
  | inr other ↦ rw other (v i l)
]

held : (e : EventSyncer) (w : ℕ) → e.is_valid ≡ false → Entry e (some w)
held e w b = record {
  free_unheld = λ a. ground arith;
  unheld_free = λ a. cc;
  unheld_event = λ a. cc;
  unheld_handle = λ a. cc;
  unheld_data = λ a. cc;
}

unheld : Entry idle none
unheld = record {
  free_unheld = λ a. refl;
  unheld_free = λ a. refl;
  unheld_event = λ a. refl;
  unheld_handle = λ a. refl;
  unheld_data = λ a. refl;
}

-- One entry changes under its holder.
IsOwned-set :
    (t : Syncers) (owner : ℕ → Option ℕ) (j : ℕ) (e : EventSyncer)
    → IsOwned (record { table = t; owner = owner })
    → (j < 64 → Entry e (owner j))
    → IsOwned (record { table = update t j e; owner = owner })
IsOwned-set t owner j e v x i l = elim (Bool-cases (i == j)) [
  | inl same ↦ let f : i ≡ j = ground arith in rw (same, f) (x (ground arith))
  | inr other ↦ rw other (v i l)
]

held_busy : (e : EventSyncer) (w : ℕ) → Entry e (some w) → e.is_valid ≡ false
held_busy e w x = elim (Bool-cases e.is_valid) [
  | inl free ↦ let no_one = x.free_unheld free in cc
  | inr busy ↦ busy
]

registers-IsOwned :
    (s : Shared) (w i event_id len : ℕ) (handle data_buff : Option ℕ)
    → s.owner i ≡ some w
    → IsOwned s
    → IsOwned (record s { table = regist_event s.table (some i) event_id handle data_buff len })
unfolding regist_event
registers-IsOwned s w i event_id len handle data_buff e v =
    IsOwned-set s.table s.owner i _ v
      λ l. rw e (held _ w (held_busy (s.table i) w (rw e at (v i l))))

posts-IsOwned :
    (s : Shared) (m : Bytes) → IsOwned s → IsOwned (record s { table = (sync_event s.table m).1 })
unfolding sync_event
posts-IsOwned s m v = by_case (sync_from 64 s.table m 0) (sync_from-Notifies 64 s.table m 0 refl)
  where
    by_case : (r : Option ℕ × Syncers) → Notifies s.table m 0 r → IsOwned (record s { table = r.1 })
    by_case (none, t') (same, others) = rw same v
    by_case (some j, t') (le, lt, ok, others, same) = rw same (
        IsOwned-set s.table s.owner j _ v λ l. record {
          free_unheld = (v j l).free_unheld;
          unheld_free = (v j l).unheld_free;
          unheld_event = (v j l).unheld_event;
          unheld_handle = (v j l).unheld_handle;
          unheld_data = (v j l).unheld_data;
        })

Step-IsOwned : {s s' : Shared} → Step s s' → IsOwned s → IsOwned s'
unfolding free_syncer
Step-IsOwned {s} (acquires w i t taken e) v =
    let took : Takes s.table 0 (some i, t) = rw taken at (alloc_syncer-Takes s.table) in
    rw (e, took.4) (IsOwned-update s.table s.owner i _ (some w) v (held _ w refl))
Step-IsOwned {s} (registers w i event_id len handle data_buff o e) v =
    rw e (registers-IsOwned s w i event_id len handle data_buff o v)
Step-IsOwned {s} (posts m e) v = rw e (posts-IsOwned s m v)
Step-IsOwned {s} (releases w i o e) v = rw e (IsOwned-update s.table s.owner i idle none v unheld)

Reach-IsOwned : {s s' : Shared} → IsOwned s → Reach s s' → IsOwned s'
Reach-IsOwned v here = v
Reach-IsOwned v (next r st) = Step-IsOwned st (Reach-IsOwned v r)

-- The table behind `init_syncers`, held by nobody.
abbrev pub start : Syncers → Shared
start t = record { table = init_syncers t; owner = λ i. none }

start-IsOwned : (t : Syncers) → IsOwned (start t)
unfolding init_syncers
start-IsOwned t i l = let below : ltb i 64 ≡ true = ground arith in rw below unheld

-- After `init_syncers`, in every order of steps of the threads, an entry that nobody holds is
-- marked free, registered for no event but INVALID_EVENT and without a handler or a destination,
-- and one that is marked free is held by nobody.
pub Reach-start-IsOwned : (t : Syncers) (s : Shared) → Reach (start t) s → IsOwned s
Reach-start-IsOwned t s r = Reach-IsOwned (start-IsOwned t) r

-- After `init_syncers`, in every order of steps of the threads, `alloc_syncer` never gives out an
-- entry that a thread holds.
pub alloc_syncer-exclusive :
    (t : Syncers) (s : Shared) (i : ℕ) (t' : Syncers)
    → Reach (start t) s
    → alloc_syncer s.table ≡ (some i, t')
    → s.owner i ≡ none
alloc_syncer-exclusive t s i t' r taken =
    let took : Takes s.table 0 (some i, t') = rw taken at (alloc_syncer-Takes s.table) in
    (Reach-start-IsOwned t s r i took.1).free_unheld took.2
