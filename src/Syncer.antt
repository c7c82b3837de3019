-- ===== src/Syncer.antt =====
-- app/msg_syncer.c: the table of threads that wait for the next message of an event. A handler is a
-- number that the function `call` gives its meaning, a destination buffer is its address. The end of
-- a wait, and what the other threads do to the table meanwhile, are arguments of `wait_on` and
-- `wait_on_with_act`.
pub mod Alloc
pub mod Notify
pub mod Waits
pub mod Owners
use comm_traffic_center.Base.{
  ℕ, zero, suc, ◌+◌, Bool, true, false, Option, none, some, Bytes, zeros, update, ltb, ◌==◌,
  if◌then◌else◌, Status, success, failed, ℤ, pos, ◌>>=◌,
}
use comm_traffic_center.Package.{event, body, invalid_event, max_msg_num, max_body_len, get_msg_len}
use comm_traffic_center.Infra.Rs485.{WaitEnd, timed_out, woken}

pub record EventSyncer : Type 0 where
  pub is_valid : Bool
  pub on_event : ℕ
  pub msg : Bytes
  pub handle : Option ℕ
  pub sync_data : Option ℕ
  pub len : ℕ

-- `event_syncers`, with 64 entries.
abbrev pub Syncers : Type 0
Syncers = ℕ → EventSyncer

abbrev pub idle : EventSyncer
idle = record {
  is_valid = true;
  on_event = invalid_event;
  msg = zeros;
  handle = none;
  sync_data = none;
  len = 0;
}

unfoldable pub init_syncers : Syncers → Syncers
init_syncers t i = if ltb i max_msg_num then idle else t i

-- The loop at index `i`, with `rounds` entries left.
unfoldable pub alloc_from : ℕ → Syncers → ℕ → Option ℕ × Syncers
alloc_from zero t i = (none, t)
alloc_from (suc rounds) t i =
    let rest = alloc_from rounds t (i + 1) in
    if (t i).is_valid then (some i, update t i (record (t i) { is_valid = false })) else rest

unfoldable pub alloc_syncer : Syncers → Option ℕ × Syncers
alloc_syncer t = alloc_from 64 t 0

abbrev pub or_keep : Option ℕ → Option ℕ → Option ℕ
or_keep none old = old
or_keep (some a) old = some a

unfoldable pub regist_event : Syncers → Option ℕ → ℕ → Option ℕ → Option ℕ → ℕ → Syncers
regist_event t none event_id handle data_buff len = t
regist_event t (some i) event_id handle data_buff len = update t i (record (t i) {
  on_event = event_id;
  handle = or_keep handle (t i).handle;
  sync_data = or_keep data_buff (t i).sync_data;
  len = len;
})

unfoldable pub free_syncer : Syncers → Option ℕ → Syncers
free_syncer t none = t
free_syncer t (some i) = update t i idle

-- Behind the wait: the handler's answer, on the message's body and length.
call_handle : (ℕ → Bytes → ℕ → ℤ) → EventSyncer → Option ℕ → ℤ
call_handle call s none = pos 255
call_handle call s (some h) = call h (body s.msg) (get_msg_len (some s.msg))

-- An `int`, which is what the handler answers; FAILED is 255.
unfoldable pub sync_act : (ℕ → Bytes → ℕ → ℤ) → Bool → WaitEnd → EventSyncer → ℤ
unfolding call_handle
sync_act call locked timed_out s = pos 255
sync_act call locked woken s = if locked then call_handle call s s.handle else pos 255

-- What `memcpy` puts to the destination: the address, the bytes and their number.
pub record Copied : Type 0 where
  pub address : ℕ
  pub bytes : Bytes
  pub count : ℕ

-- What `sync_data` answers and copies; `none` is a fault, where it reads past `_msg.data`.
abbrev pub Synced : Type 0
Synced = Option (Status × Option Copied)

copy_out : EventSyncer → Option ℕ → Synced
copy_out s none = some (failed, none)
copy_out s (some p) =
    if ltb max_body_len s.len
    then none
    else some (success, some (record { address = p; bytes = body s.msg; count = s.len }))

unfoldable pub sync_data_of : Bool → WaitEnd → EventSyncer → Synced
unfolding copy_out
sync_data_of locked timed_out s = some (failed, none)
sync_data_of locked woken s = if locked then copy_out s s.sync_data else some (failed, none)

unfoldable pub notify_handle : Syncers → ℕ → Bytes → Syncers
notify_handle t i sync_msg = update t i (record (t i) { msg = sync_msg })

-- The loop of `sync_event`; the entry that is notified, if any.
unfoldable pub sync_from : ℕ → Syncers → Bytes → ℕ → Option ℕ × Syncers
unfolding notify_handle
sync_from zero t msg i = (none, t)
sync_from (suc rounds) t msg i =
    let rest = sync_from rounds t msg (i + 1) in
    if event msg == (t i).on_event then (some i, notify_handle t i msg) else rest

abbrev pub found : Option ℕ → Status
found none = failed
found (some i) = success

unfoldable pub sync_event : Syncers → Bytes → Status × Syncers
sync_event t msg = let (o, t') = sync_from max_msg_num t msg 0 in (found o, t')

act_on :
    (ℕ → Bytes → ℕ → ℤ)
    → Bool
    → WaitEnd
    → (Syncers → Syncers)
    → ℕ
    → Option ℕ
    → Option ℕ × Syncers
    → ℤ × Syncers
act_on call locked wait others event func (none, t) = (pos 255, t)
act_on call locked wait others event func (some i, t) =
    let t' = others (regist_event t (some i) event func none 0) in
    (sync_act call locked wait (t' i), free_syncer t' (some i))

unfoldable pub wait_on_with_act :
    (ℕ → Bytes → ℕ → ℤ)
    → Bool
    → WaitEnd
    → (Syncers → Syncers)
    → ℕ
    → Option ℕ
    → Syncers
    → ℤ × Syncers
unfolding act_on
wait_on_with_act call locked wait others event func t =
    act_on call locked wait others event func (alloc_syncer t)

copy_on :
    Bool
    → WaitEnd
    → (Syncers → Syncers)
    → ℕ
    → ℕ
    → ℕ
    → Option ℕ × Syncers
    → Option (Status × Option Copied × Syncers)
copy_on locked wait others event p len (none, t) = some (failed, none, t)
copy_on locked wait others event p len (some i, t) =
    let t' = others (regist_event t (some i) event none (some p) len) in
    (sync_data_of locked wait (t' i) >>= λ (ret, out). some (ret, out, free_syncer t' (some i)))

unfoldable pub wait_on :
    Bool
    → WaitEnd
    → (Syncers → Syncers)
    → ℕ
    → Option ℕ
    → ℕ
    → Syncers
    → Option (Status × Option Copied × Syncers)
unfolding copy_on
wait_on locked wait others event none len t = some (failed, none, t)
wait_on locked wait others event (some p) len t =
    copy_on locked wait others event p len (alloc_syncer t)
