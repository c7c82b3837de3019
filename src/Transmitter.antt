-- ===== src/Transmitter.antt =====
-- app/msg_transmitter.c and `recv_msg_from_inter` of app/msg_util.c: one turn of each of the two loops,
-- and both loops. What comes before the loops is in Start; the calls behind them are not reached.
pub mod Turns
pub mod Loop
use comm_traffic_center.Base.{
  ℕ, Bool, true, false, Option, none, some, List, [], ◌∷◌, ◌++◌, Bytes, zeros, ℤ, Status, success,
  failed, continue, ◌>>=◌,
}
use comm_traffic_center.Package.{dst_dir, total_len, pkg_size}
use comm_traffic_center.Receive.{Receiver, Chunk, Outcome, fault, waiting, returns}
use comm_traffic_center.Exter.{recv_msg_from_exter, send_msg_to_remote}
use comm_traffic_center.Infra.Rs485.{Action, WaitEnd}
use comm_traffic_center.Infra.Mq.{recv_msg_from_mq}
use comm_traffic_center.Socket.{System, Effect, send_msg_to_local}

-- How a turn of `inter_transmitter` ends: in the wait for a read, or with what it did to the local
-- sockets and whether it called `free_exter_comm`, which signals the waiting sender.
pub data InterTurn : Type 0 where
  faulted : InterTurn
  reads : Receiver → InterTurn
  done : List Effect → Bool → Receiver → InterTurn

pass_on : System → Outcome → InterTurn
pass_on sys fault = faulted
pass_on sys (waiting msg s) = reads s
pass_on sys (returns success msg s) =
    let (r, es) = send_msg_to_local sys (dst_dir msg).pid msg pkg_size in done es true s
pass_on sys (returns _ msg s) = done [] false s

unfoldable pub inter_transmitter_turn : Bool → System → List Chunk → Receiver → InterTurn
unfolding pass_on
inter_transmitter_turn char_signed sys cs s =
    pass_on sys (recv_msg_from_exter char_signed cs zeros s)

-- A turn that returns to the loop goes on with the receiver that it leaves.
then_turns : InterTurn → (Receiver → List InterTurn) → List InterTurn
then_turns (done es notified s) k = done es notified s ∷ k s
then_turns t k = t ∷ []

-- The loop of `inter_transmitter`, one turn for each list of reads.
unfoldable pub inter_transmitter : Bool → System → List (List Chunk) → Receiver → List InterTurn
unfolding then_turns inter_transmitter_turn
inter_transmitter char_signed sys [] s = []
inter_transmitter char_signed sys (cs ∷ rest) s =
    then_turns (inter_transmitter_turn char_signed sys cs s)
      λ r. inter_transmitter char_signed sys rest r

unfoldable pub recv_msg_from_inter :
    (Bytes → ℕ → ℕ → ℤ × Bytes) → ℕ → Option Bytes → ℕ → Status × Option Bytes
unfolding recv_msg_from_mq
recv_msg_from_inter mq_timedreceive now data_ len = recv_msg_from_mq mq_timedreceive now data_ len

-- A turn of `exter_transmitter`: what it does to the line; `none` is a fault.
forward : Bool → Bool → WaitEnd → Status × Option Bytes → Option (List Action)
forward char_signed locked wait (success, some msg) =
    elim (send_msg_to_remote char_signed locked wait (some msg) (total_len msg)) [
      | none ↦ none
      | some (r, acts) ↦ some acts
    ]
forward char_signed locked wait (_, _) = some []

unfoldable pub exter_transmitter_turn :
    Bool → Bool → WaitEnd → (Bytes → ℕ → ℕ → ℤ × Bytes) → ℕ → Option (List Action)
unfolding forward recv_msg_from_inter
exter_transmitter_turn char_signed locked wait mq_timedreceive now =
    forward char_signed locked wait (recv_msg_from_inter mq_timedreceive now (some zeros) pkg_size)

-- What the system does in one turn: the lock, the end of the wait, the queue and the time.
pub record Tick : Type 0 where
  pub locked : Bool
  pub wait : WaitEnd
  pub mq_timedreceive : Bytes → ℕ → ℕ → ℤ × Bytes
  pub now : ℕ

-- The loop of `exter_transmitter`, as many turns as the system gives.
unfoldable pub exter_transmitter : Bool → List Tick → Option (List Action)
unfolding exter_transmitter_turn
exter_transmitter char_signed [] = some []
exter_transmitter char_signed (t ∷ ts) = do
  acts ← exter_transmitter_turn char_signed t.locked t.wait t.mq_timedreceive t.now
  rest ← exter_transmitter char_signed ts
  some (acts ++ rest)
