-- ===== src/Receive/FrameRounds.antt =====
-- The rounds of the receive loop while a package of the new protocol comes in.
use comm_traffic_center.Base.{
  ℕ, ◌+◌, ◌≤◌, ◌<◌, ◌≡◌, refl, sym, ◌∙◌, arith, Bool, none, some, Bytes, get_u16, copy_at, offset,
  Agree, leb, Bool-cases, inl, inr, ◌⊎◌, success, continue,
}
use comm_traffic_center.Search.{get_msg_head}
use comm_traffic_center.Search.First.{At, get_msg_head-At, get_msg_head_absent}
use comm_traffic_center.Receive.Stream.{recv_raw_data-Holds}
use comm_traffic_center.Receive.{
  recv_start, recv_head, recv_end, Receiver, magic_word, old_magic_word, recv_raw_data,
  try_recv_head, start_recv, round, restart,
}

-- A package of the new protocol stands in the stream behind `q` bytes in which no magic word begins.
pub record Framed (stream : Bytes) (q len : ℕ) : Type 0 where
  pub begins : At stream magic_word q
  pub no_new : (k : ℕ) → k < q → ¬ At stream magic_word k
  pub no_old : (k : ℕ) → k < q → ¬ At stream old_magic_word k
  pub sized : get_u16 stream (q + 2) ≡ len
  pub long : 17 ≤ len
  pub fits : q + len ≤ 4114

-- The receiver has taken `k` bytes of the stream and looks for their head or waits for the rest.
pub record Taken (stream : Bytes) (q k : ℕ) (s : Receiver) : Type 0 where
  pub counted : s.rx_add_up_len ≡ k
  pub in_buffer : k ≤ 8228
  pub stored : Agree k s.msg_buff stream
  pub phase : (s.next_step ≡ recv_start) ⊎ ((s.next_step ≡ recv_head) × (s.head_pos ≡ some q))

module _ (stream : Bytes) (q len : ℕ) (f : Framed stream q len) where
  head_waits :
      (k : ℕ) (dst : Bytes) (s : Receiver)
      → s.rx_add_up_len ≡ k
      → Agree k s.msg_buff stream
      → s.head_pos ≡ some q
      → k < q + len
      → (s' : Receiver) × (try_recv_head dst s ≡ some (continue, dst, s')) × Taken stream q k s'
  unfolding try_recv_head
  head_waits k dst s e a p h = elim (Bool-cases (leb (q + 16) k)) [
    | inr short ↦ (
      record s { next_step = recv_head },
      ground arith,
      record { counted = e; in_buffer = omega (arith, f.fits); stored = a; phase = inr (refl, p) },
    )
    | inl more ↦ (
      record s { next_step = recv_head; total_recv_len = get_u16 s.msg_buff (q + 2) },
      ground (arith, a (q + 2), a (q + 3), f.sized, f.fits),
      record { counted = e; in_buffer = omega (arith, f.fits); stored = a; phase = inr (refl, p) },
    )
  ]

  head_done :
      (k : ℕ) (dst : Bytes) (s : Receiver)
      → s.rx_add_up_len ≡ k
      → Agree k s.msg_buff stream
      → s.head_pos ≡ some q
      → q + len ≤ k
      → (s' : Receiver) × (try_recv_head dst s
          ≡ some (success, copy_at dst 0 (offset s.msg_buff q) len, s'))
  unfolding try_recv_head
  head_done k dst s e a p h = (
    record s { next_step = recv_end; total_recv_len = get_u16 s.msg_buff (q + 2) },
    ground (arith, a (q + 2), a (q + 3), f.sized, f.fits, f.long),
  )

  -- A word in the bytes that have come in is a word of the stream.
  At-stream :
      {k : ℕ} (s : Receiver) (patn : Bytes) (j : ℕ)
      → Agree k s.msg_buff stream
      → j + 2 ≤ k
      → At s.msg_buff patn j
      → At stream patn j
  At-stream s patn j a h (m0, m1) =
      (sym (a j (omega arith)) ∙ m0, sym (a (j + 1) (omega arith)) ∙ m1)

  found :
      (k : ℕ) (s : Receiver)
      → Agree k s.msg_buff stream
      → q + 2 ≤ k
      → get_msg_head s.msg_buff k magic_word 2 ≡ some q
  found k s a h =
      get_msg_head-At s.msg_buff k magic_word q
        (a q (omega arith) ∙ f.begins.0, a (q + 1) (omega arith) ∙ f.begins.1) h
        λ j p m. f.no_new j p (At-stream s magic_word j a (omega arith) m)

  start_waits :
      (k : ℕ) (dst : Bytes) (s : Receiver)
      → s.rx_add_up_len ≡ k
      → Agree k s.msg_buff stream
      → (char_signed : Bool) → k < q + len
      → (s' : Receiver) × (start_recv char_signed dst s ≡ some (continue, dst, s'))
        × Taken stream q k s'
  unfolding start_recv
  start_waits k dst s e a c h = elim (Bool-cases (leb (q + 2) k)) [
    | inl more ↦
        let (s', r, t) = head_waits k dst (record s { head_pos = some q }) e a refl h in
        (s', ground (arith, found k s a, r, f.fits), t)
    | inr less ↦
        let no_new =
          get_msg_head_absent s.msg_buff s.rx_add_up_len magic_word
            λ j p m. f.no_new j (ground arith) (At-stream s magic_word j a (omega (arith, e)) m) in
        let no_old = get_msg_head_absent s.msg_buff s.rx_add_up_len old_magic_word λ j p m.
          f.no_old j (ground arith) (At-stream s old_magic_word j a (omega (arith, e)) m) in
        (
          record s { head_pos = none; next_step = recv_start },
          ground (arith, no_new, no_old, f.fits),
          record { counted = e; in_buffer = omega (arith, f.fits); stored = a; phase = inl refl },
        )
  ]

  start_done :
      (k : ℕ) (dst : Bytes) (s : Receiver)
      → s.rx_add_up_len ≡ k
      → Agree k s.msg_buff stream
      → k ≤ 8228
      → (char_signed : Bool) → q + len ≤ k
      → (s' : Receiver) × (start_recv char_signed dst s
          ≡ some (success, copy_at dst 0 (offset s.msg_buff q) len, s'))
  unfolding start_recv
  start_done k dst s e a room c h =
      let (s', r) = head_done k dst (record s { head_pos = some q }) e a refl h in
      (s', ground (arith, found k s a, r, f.long))

  module _ (char_signed : Bool) (k : ℕ) (dst : Bytes) (s : Receiver) (t : Taken stream q k s) where
    pub round_waits :
        k < q + len
        → (s' : Receiver) × (round char_signed dst s ≡ some (continue, dst, s'))
          × Taken stream q k s'
    unfolding round
    round_waits h = elim t.phase [
      | inl e ↦ rw e (start_waits k dst s t.counted t.stored char_signed h)
      | inr (e, p) ↦ rw e (head_waits k dst s t.counted t.stored p h)
    ]

    pub round_done :
        q + len ≤ k
        → (s' : Receiver) × (round char_signed dst s
            ≡ some (success, copy_at dst 0 (offset s.msg_buff q) len, s'))
    unfolding round
    round_done h = elim t.phase [
      | inl e ↦ rw e (start_done k dst s t.counted t.stored t.in_buffer char_signed h)
      | inr (e, p) ↦ rw e (head_done k dst s t.counted t.stored p h)
    ]

  -- One read adds the next piece of the stream.
  pub read_Taken :
      (k n : ℕ) (s : Receiver)
      → Taken stream q k s
      → k + n ≤ 8228
      → n ≤ 4114
      → (s' : Receiver) × (recv_raw_data s (record { count = n; bytes = offset stream k })
          ≡ some (success, s'))
        × Taken stream q (k + n) s'
  read_Taken k n s t h short =
      let (s', r, holds, same) =
        recv_raw_data-Holds stream k n s (record { counted = t.counted; stored = t.stored }) h
          short in
      (
        s',
        r,
        record {
          counted = holds.counted;
          in_buffer = h;
          stored = holds.stored;
          phase = rw (same.same_step, same.same_head) t.phase;
        },
      )

pub restart-Taken : (stream : Bytes) (q : ℕ) (s : Receiver) → Taken stream q 0 (restart s)
unfolding restart
restart-Taken stream q s = record {
  counted = refl;
  in_buffer = omega arith;
  stored = λ i p. absurd (omega arith);
  phase = inl refl;
}
