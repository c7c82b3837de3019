-- ===== src/Transmitter/Turns.antt =====
-- What the turns of the two transmitters do.
use comm_traffic_center.Base.{
  ℕ, suc, ◌+◌, ◌≡◌, ◌≢◌, refl, arith, Bool, true, false, some, List, [], ◌∷◌, Bytes, zeros, ℤ, pos,
  success, failed, continue, is_not_pos, ◌≤◌, ◌<◌, none,
}
use comm_traffic_center.Package.{total_len, protocol_type}
use comm_traffic_center.Receive.{Receiver, Chunk, Outcome, fault, waiting, returns}
use comm_traffic_center.Exter.{recv_msg_from_exter}
use comm_traffic_center.Exter.Rejects.{recv_msg_from_exter-rejects}
use comm_traffic_center.Exter.Remote.{written, send_new-written, send_new_overreads}
use comm_traffic_center.Infra.Rs485.{Action, WaitEnd}
use comm_traffic_center.Infra.Mq.{recv_msg_from_mq}
use comm_traffic_center.Socket.{System}
use comm_traffic_center.Transmitter.{
  InterTurn, faulted, reads, done, pass_on, inter_transmitter_turn, then_turns, inter_transmitter,
  forward, exter_transmitter_turn,
}

-- A turn that touches no socket and signals nobody.
abbrev pub IsSilent : InterTurn → Type 0
IsSilent faulted = Unit {0}
IsSilent (reads s) = Unit {0}
IsSilent (done es notified s) = (es ≡ []) × (notified ≡ false)

pass_on-IsSilent :
    (sys : System) (o : Outcome)
    → ((got : Bytes) (s : Receiver) → o ≢ returns success got s)
    → IsSilent (pass_on sys o)
unfolding pass_on
pass_on-IsSilent sys fault h = tt
pass_on-IsSilent sys (waiting m s) h = tt
pass_on-IsSilent sys (returns success m s) h = absurd (h m s refl)
pass_on-IsSilent sys (returns failed m s) h = (refl, refl)
pass_on-IsSilent sys (returns continue m s) h = (refl, refl)

-- A turn of `inter_transmitter` is silent, whatever arrives on the line.
pub inter_transmitter_turn-IsSilent :
    (char_signed : Bool) (sys : System) (cs : List Chunk) (s : Receiver)
    → IsSilent (inter_transmitter_turn char_signed sys cs s)
unfolding inter_transmitter_turn
inter_transmitter_turn-IsSilent c sys cs s =
    pass_on-IsSilent sys (recv_msg_from_exter c cs zeros s)
      (λ got s'. recv_msg_from_exter-rejects c cs zeros s got s')

abbrev pub AreSilent : List InterTurn → Type 0
AreSilent [] = Unit {0}
AreSilent (t ∷ ts) = IsSilent t × AreSilent ts

then_turns-AreSilent :
    (t : InterTurn) (k : Receiver → List InterTurn)
    → IsSilent t
    → ((s : Receiver) → AreSilent (k s))
    → AreSilent (then_turns t k)
unfolding then_turns
then_turns-AreSilent faulted k h go = (h, tt)
then_turns-AreSilent (reads s) k h go = (h, tt)
then_turns-AreSilent (done es notified s) k h go = (h, go s)

-- The loop of `inter_transmitter`, over any number of turns and whatever arrives on the line, never
-- hands a message to a local process and never signals the sender that waits for an acknowledgement.
pub inter_transmitter-AreSilent :
    (char_signed : Bool) (sys : System) (turns : List (List Chunk)) (s : Receiver)
    → AreSilent (inter_transmitter char_signed sys turns s)
unfolding inter_transmitter
inter_transmitter-AreSilent c sys [] s = tt
inter_transmitter-AreSilent c sys (cs ∷ rest) s =
    then_turns-AreSilent (inter_transmitter_turn c sys cs s) _
      (inter_transmitter_turn-IsSilent c sys cs s) (inter_transmitter-AreSilent c sys rest)

-- A turn of `exter_transmitter` that takes a package of the new protocol from the queue, whose length
-- field is at most the size of a package, where
-- `pthread_mutex_lock` succeeds, writes that package to the line, cut to its length field, and
-- nothing else.
pub exter_transmitter_turn-forwards :
    (char_signed : Bool) (wait : WaitEnd) (mq_timedreceive : Bytes → ℕ → ℕ → ℤ × Bytes) (now n : ℕ)
    (m : Bytes)
    → mq_timedreceive zeros 4114 (now + 1) ≡ (pos (suc n), m)
    → protocol_type m ≡ 0
    → total_len m ≤ 4114
    → (acts : List Action) × (exter_transmitter_turn char_signed true wait mq_timedreceive now
        ≡ some acts)
      × (written acts ≡ (m, total_len m) ∷ [])
unfolding exter_transmitter_turn recv_msg_from_mq
exter_transmitter_turn-forwards c wait receive now n m got new h =
    let (s, acts, sends, out) = send_new-written c wait m (total_len m) new h in
    let some_bytes : is_not_pos (pos (suc n)) ≡ false = ground arith in
    (acts, rw (got, some_bytes, forward, sends), out)

-- A turn of `exter_transmitter` that takes a package of the new protocol from the queue whose length
-- field is above the size of a package, where `pthread_mutex_lock` succeeds, reads past the end of a
-- buffer.
pub exter_transmitter_turn_overreads :
    (char_signed : Bool) (wait : WaitEnd) (mq_timedreceive : Bytes → ℕ → ℕ → ℤ × Bytes) (now n : ℕ)
    (m : Bytes)
    → mq_timedreceive zeros 4114 (now + 1) ≡ (pos (suc n), m)
    → protocol_type m ≡ 0
    → 4114 < total_len m
    → exter_transmitter_turn char_signed true wait mq_timedreceive now ≡ none
unfolding exter_transmitter_turn recv_msg_from_mq
exter_transmitter_turn_overreads c wait receive now n m got new h =
    let some_bytes : is_not_pos (pos (suc n)) ≡ false = ground arith in
    rw (got, some_bytes, forward, send_new_overreads c wait m (total_len m) new h) refl
