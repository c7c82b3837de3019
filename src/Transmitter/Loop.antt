-- ===== src/Transmitter/Loop.antt =====
-- What the loop of `exter_transmitter` puts on the line.
use comm_traffic_center.Base.{
  ℕ, suc, ◌+◌, ◌≡◌, refl, ap, ◌∙◌, Bool, true, some, List, [], ◌∷◌, ◌++◌, map, Bytes, zeros, pos,
  is_not_pos, ◌≤◌,
}
use comm_traffic_center.Package.{total_len, protocol_type}
use comm_traffic_center.Exter.Remote.{written}
use comm_traffic_center.Infra.Rs485.{Action, sleeps, tx_en, writes}
use comm_traffic_center.Infra.Mq.{recv_msg_from_mq}
use comm_traffic_center.Transmitter.{Tick, forward, exter_transmitter_turn, exter_transmitter}
use comm_traffic_center.Transmitter.Turns.{exter_transmitter_turn-forwards}

written-append : (a b : List Action) → written (a ++ b) ≡ written a ++ written b
written-append [] b = refl
written-append (sleeps n ∷ a) b = written-append a b
written-append (tx_en e ∷ a) b = written-append a b
written-append (writes m n ∷ a) b = ap (λ r. (m, n) ∷ r) (written-append a b)

-- In these turns the queue gives these packages, each of the new protocol with a length field of at most
-- the size of a package, and in the other turns
-- nothing in time.
pub data Gives : List Tick → List Bytes → Type 0 where
  ended : Gives [] []
  idles :
      {ts : List Tick} {ms : List Bytes} (t : Tick)
      → is_not_pos (t.mq_timedreceive zeros 4114 (t.now + 1)).0 ≡ true
      → Gives ts ms
      → Gives (t ∷ ts) ms
  gives :
      {ts : List Tick} {ms : List Bytes} (t : Tick) (n : ℕ) (m : Bytes)
      → t.locked ≡ true
      → t.mq_timedreceive zeros 4114 (t.now + 1) ≡ (pos (suc n), m)
      → protocol_type m ≡ 0
      → total_len m ≤ 4114
      → Gives ts ms
      → Gives (t ∷ ts) (m ∷ ms)

-- A turn without a package leaves the line alone.
exter_transmitter_turn-idles :
    (char_signed : Bool) (t : Tick)
    → is_not_pos (t.mq_timedreceive zeros 4114 (t.now + 1)).0 ≡ true
    → exter_transmitter_turn char_signed t.locked t.wait t.mq_timedreceive t.now ≡ some []
unfolding exter_transmitter_turn recv_msg_from_mq
exter_transmitter_turn-idles c t none_in_time = rw (none_in_time, forward) refl

-- The loop of `exter_transmitter`, over any number of turns in which the queue gives packages of the
-- new protocol, whose length fields are at most the size of a package, or nothing in time, and
-- `pthread_mutex_lock` succeeds where it gives one: the loop does not fault, and what it writes to the
-- line is exactly these packages, each cut to its length field, in the order of the queue.
pub exter_transmitter_in_order :
    (char_signed : Bool) (ts : List Tick) (ms : List Bytes)
    → Gives ts ms
    → (acts : List Action) × (exter_transmitter char_signed ts ≡ some acts)
      × (written acts ≡ map (λ m. (m, total_len m)) ms)
unfolding exter_transmitter
exter_transmitter_in_order c [] [] ended = ([], refl, refl)
exter_transmitter_in_order c [] (m ∷ ms) g = elim g [ ]
exter_transmitter_in_order c (t ∷ ts) ms (idles _ late g) =
    let (rest, runs, out) = exter_transmitter_in_order c ts ms g in
    (rest, rw (exter_transmitter_turn-idles c t late, runs) refl, out)
exter_transmitter_in_order c (t ∷ ts) (m ∷ ms) (gives _ n _ locked got new h g) =
    let (acts, turn, here) =
      exter_transmitter_turn-forwards c t.wait t.mq_timedreceive t.now n m got new h in
    let (rest, runs, out) = exter_transmitter_in_order c ts ms g in
    (acts ++ rest, rw (locked, turn, runs) refl, written-append acts rest ∙ rw (here, out) refl)
