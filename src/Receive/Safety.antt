-- ===== src/Receive/Safety.antt =====
-- The reception of arbitrary bytes: what holds between any two reads.
use comm_traffic_center.Base.{
  ◌≡◌, true, leb, ℕ, ◌+◌, ◌≤◌, ◌<◌, arith, false, Option, none, some, List, [], ◌∷◌, Bytes, IsBytes,
  copy_at-IsBytes, ltb, Bool-cases, inl, inr, Status, success, failed, continue,
}
use comm_traffic_center.Receive.{
  RecvStep, recv_start, recv_head, recv_full, old_check_len, old_check_full, recv_end, Receiver,
  Chunk, Result, after_round, after_read, recv_raw_data, round, Outcome, fault, waiting, returns,
  recv_loop, restart, try_recv_full_msg,
}
use comm_traffic_center.Receive.SafeRounds.{Phase, IsSafe, Sound, round-Sound}

Phase-mono : (st : RecvStep) (h : Option ℕ) (n m : ℕ) → n ≤ m → Phase st h n → Phase st h m
Phase-mono recv_start h n m le a = tt
Phase-mono recv_head (some p) n m le a = omega arith
Phase-mono old_check_len (some p) n m le a = omega arith
Phase-mono old_check_full (some p) n m le a = omega arith
Phase-mono recv_head none n m le a = absurd a
Phase-mono old_check_len none n m le a = absurd a
Phase-mono old_check_full none n m le a = absurd a
Phase-mono recv_full h n m le a = absurd a
Phase-mono recv_end h n m le a = absurd a

-- The read did not fault, and leaves a safe state.
abbrev ReadSound : Option (Status × Receiver) → Type 0
ReadSound none = ⊥
ReadSound (some (r, s)) = IsSafe s

-- A read of at most a package of bytes keeps the state safe, or is refused since it would run past the
-- buffer.
read-Sound :
    (s : Receiver) (c : Chunk)
    → IsSafe s
    → IsBytes c.bytes
    → c.count ≤ 4114
    → ReadSound (recv_raw_data s c)
unfolding recv_raw_data
read-Sound s c v b short = elim (Bool-cases (ltb 0 c.count)) [
  | inr e ↦ rw e v
  | inl e ↦ rw e (elim (Bool-cases (ltb 8228 (s.rx_add_up_len + c.count))) [
    | inl f ↦ rw f v
    | inr f ↦
        let one : ltb 4114 c.count ≡ false = ground arith in
        let appended : leb (s.rx_add_up_len + c.count) 8228 ≡ true = ground arith in
        rw (f, one, appended)
          (record {
            in_buffer = ground arith;
            bytes = copy_at-IsBytes s.msg_buff c.bytes s.rx_add_up_len c.count v.bytes b;
            len_byte = v.len_byte;
            at_head =
                Phase-mono s.next_step s.head_pos s.rx_add_up_len (s.rx_add_up_len + c.count)
                  (omega arith) v.at_head;
          })
  ])
]

-- What a `read` delivers are bytes, and at most as many as it is asked for, the size of a package.
abbrev pub Delivers : List Chunk → Type 0
Delivers [] = Unit {0}
Delivers (c ∷ cs) = IsBytes c.bytes × (c.count ≤ 4114) × Delivers cs

-- The loop is in no fault, and if it has not returned SUCCESS or FAILED, it waits in a safe state.
abbrev pub Runs : Outcome → Type 0
Runs fault = ⊥
Runs (waiting dst s) = IsSafe s
Runs (returns success dst s) = Unit {0}
Runs (returns failed dst s) = Unit {0}
Runs (returns continue dst s) = ⊥

after_round-Runs :
    (r : Result) (k : Bytes → Receiver → Outcome)
    → Sound r
    → ((d : Bytes) (s : Receiver) → IsSafe s → Runs (k d s))
    → Runs (after_round r k)
unfolding after_round
after_round-Runs none k h go = absurd h
after_round-Runs (some (continue, d, s)) k h go = go d s h
after_round-Runs (some (success, d, s)) k h go = tt
after_round-Runs (some (failed, d, s)) k h go = tt

after_read-Runs :
    (r : Option (Status × Receiver)) (d : Bytes) (k : Bytes → Receiver → Outcome)
    → ReadSound r
    → ((s : Receiver) → IsSafe s → Runs (k d s))
    → Runs (after_read r d k)
unfolding after_read
after_read-Runs none d k h go = absurd h
after_read-Runs (some (success, s)) d k h go = go s h
after_read-Runs (some (failed, s)) d k h go = tt
after_read-Runs (some (continue, s)) d k h go = tt

recv_loop-Runs :
    (cs : List Chunk) (dst : Bytes) (s : Receiver)
    → IsSafe s
    → Delivers cs
    → Runs (recv_loop false cs dst s)
unfolding recv_loop
recv_loop-Runs [] dst s v d =
    after_round-Runs (round false dst s) waiting (round-Sound dst s v) (λ d' r h. h)
recv_loop-Runs (c ∷ cs) dst s v d =
    after_round-Runs (round false dst s) _ (round-Sound dst s v) λ d' r h.
      after_read-Runs (recv_raw_data r c) d' _ (read-Sound r c h d.0 d.1)
        λ r' h'. recv_loop-Runs cs d' r' h' d.2

-- Whatever bytes the line delivers and however the reads cut them, each at most the size of a package,
-- with `char` unsigned and the static length of the old flow a byte: `try_recv_full_msg` does not go
-- through a null pointer, and none of the copies from and to `msg_buff`, the reads at `head_pos` and the
-- searches goes outside `msg_buff`, `raw_data` or the destination; when it returns it answers SUCCESS or FAILED, and while
-- it waits it is in a safe state, where the step STEP_RECV_FULL never occurs.
pub try_recv_full_msg-Runs :
    (cs : List Chunk) (dst : Bytes) (s : Receiver)
    → s.msg_len < 256
    → Delivers cs
    → Runs (try_recv_full_msg false cs dst s)
unfolding try_recv_full_msg restart
try_recv_full_msg-Runs cs dst s b d =
    recv_loop-Runs cs dst (restart s)
      (record { in_buffer = omega arith; bytes = λ i. omega arith; len_byte = b; at_head = tt }) d
