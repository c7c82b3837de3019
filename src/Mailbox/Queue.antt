-- ===== src/Mailbox/Queue.antt =====
-- The abstract mailbox: a first-in first-out queue of at most 63 packages, oldest first.
use comm_traffic_center.Base.{
  ℕ, Bool, true, false, Option, none, some, List, [], ◌∷◌, ◌++◌, Bytes, length, ◌==◌, if◌then◌else◌,
}

abbrev pub Queue : Type 0
Queue = List Bytes

abbrev pub capacity : ℕ
capacity = 63

unfoldable pub push : Queue → Bytes → Bool × Queue
push q m = if length q == capacity then (false, q) else (true, q ++ (m ∷ []))

unfoldable pub pop : Queue → Bool × Option Bytes × Queue
pop [] = (false, none, [])
pop (m ∷ q) = (true, some m, q)
