-- ===== src/Mailbox/Refine.antt =====
-- A mailbox whose indices are in range behaves as the queue of the packages in it.
use mathlib.Core.Path.{ap₂}
use comm_traffic_center.Base.{
  ℕ, zero, suc, ◌+◌, ◌-◌, ◌%◌, ◌<◌, ◌≡◌, ◌≢◌, refl, ap, arith, [], ◌∷◌, ◌++◌, Bytes, length, update,
}
use comm_traffic_center.Mailbox.{Mailbox, init_mailbox, push_mailbox, pop_mailbox, get_msg_num}
use comm_traffic_center.Mailbox.Queue
use comm_traffic_center.Mailbox.Queue.{Queue}

pub record IsValid (mb : Mailbox) : Type 0 where
  pub front_in : mb.front < 64
  pub rear_in : mb.rear < 64

-- The `n` packages from index `i` on, going round at 64.
abbrev pub window : (ℕ → Bytes) → ℕ → ℕ → Queue
window q i zero = []
window q i (suc n) = q i ∷ window q ((i + 1) % 64) n

abbrev pub contents : Mailbox → Queue
contents mb = window mb.msg_queue mb.front (get_msg_num mb)

length-window : (q : ℕ → Bytes) (i n : ℕ) → length (window q i n) ≡ n
length-window q i zero = refl
length-window q i (suc n) = ap suc (length-window q ((i + 1) % 64) n)

window_of_ne_zero :
    (q : ℕ → Bytes) (i n : ℕ) → n ≢ 0 → window q i n ≡ q i ∷ window q ((i + 1) % 64) (n - 1)
window_of_ne_zero q i zero h = absurd (h refl)
window_of_ne_zero q i (suc n) h = ap (λ k. window q i (suc k)) (omega arith)

-- Writing the slot behind a window extends the window by that package.
window-update :
    (q : ℕ → Bytes) (m : Bytes) (n i j : ℕ)
    → i < 64
    → n < 64
    → j ≡ (i + n) % 64
    → window (update q j m) i (suc n) ≡ window q i n ++ (m ∷ [])
window-update q m zero i j hi hn e = ground arith
window-update q m (suc n) i j hi hn e =
    ap₂ ◌∷◌ (ground arith)
      (window-update q m n ((i + 1) % 64) j (omega arith) (omega arith) (omega arith))

-- `get_msg_num` is the number of packages in the mailbox, at most 63.
pub get_msg_num-length : (mb : Mailbox) → get_msg_num mb ≡ length (contents mb)
get_msg_num-length mb = omega (arith, length-window mb.msg_queue mb.front (get_msg_num mb))

pub init_mailbox-IsValid : (mb : Mailbox) → IsValid (init_mailbox mb)
unfolding init_mailbox
init_mailbox-IsValid mb = omega arith

pub push_mailbox-IsValid : {mb : Mailbox} (m : Bytes) → IsValid mb → IsValid (push_mailbox mb m).1
unfolding push_mailbox
push_mailbox-IsValid m v = ground arith

pub pop_mailbox-IsValid : {mb : Mailbox} → IsValid mb → IsValid (pop_mailbox mb).2
unfolding pop_mailbox
pop_mailbox-IsValid v = ground arith

-- A push that succeeds adds the package at the end, and a pop leaves the rest.
grown :
    {mb : Mailbox} (m : Bytes)
    → IsValid mb
    → (mb.rear + 1) % 64 ≢ mb.front
    → window (update mb.msg_queue mb.rear m) mb.front (((mb.rear + 1) % 64 + 64 - mb.front) % 64)
      ≡ window mb.msg_queue mb.front ((mb.rear + 64 - mb.front) % 64) ++ (m ∷ [])
grown {mb} m v ne =
    let k = (mb.rear + 64 - mb.front) % 64 in
    let e : ((mb.rear + 1) % 64 + 64 - mb.front) % 64 ≡ suc k = omega arith in
    rw e (window-update mb.msg_queue m k mb.front mb.rear v.front_in (omega arith) (omega arith))

shrunk :
    {mb : Mailbox}
    → IsValid mb
    → mb.front ≢ mb.rear
    → (mb.rear + 64 - (mb.front + 1) % 64) % 64 ≡ (mb.rear + 64 - mb.front) % 64 - 1
shrunk v ne = omega arith

-- On a mailbox whose indices are in range `push_mailbox` answers, and changes what the mailbox
-- holds, as `push` of a first-in first-out queue of at most 63 packages does.
pub push_mailbox_refines :
    {mb : Mailbox} (m : Bytes)
    → IsValid mb
    → let (r, mb') = push_mailbox mb m in (r, contents mb') ≡ Queue.push (contents mb) m
unfolding push_mailbox Queue.push get_msg_num
push_mailbox_refines {mb} m v =
    ground (arith, length-window mb.msg_queue mb.front ((mb.rear + 64 - mb.front) % 64), grown m v)

-- `pop_mailbox` answers, yields a package and changes the mailbox as the queue's `pop` does.
pub pop_mailbox_refines :
    {mb : Mailbox}
    → IsValid mb
    → let (r, out, mb') = pop_mailbox mb in (r, out, contents mb') ≡ Queue.pop (contents mb)
unfolding pop_mailbox Queue.pop get_msg_num
pop_mailbox_refines {mb} v =
    ground
      (arith, window_of_ne_zero mb.msg_queue mb.front ((mb.rear + 64 - mb.front) % 64), shrunk v)
