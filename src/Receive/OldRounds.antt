-- ===== src/Receive/OldRounds.antt =====
-- The rounds of the receive loop while an old frame comes in.
use mathlib.Core.Path.{subst}
use comm_traffic_center.Base.{
  ℕ, ◌+◌, ◌-◌, ◌≤◌, ◌<◌, ◌≡◌, refl, sym, ◌∙◌, arith, Bool, true, false, none, some, Bytes, zeros,
  copy_at, offset, Agree, ltb, leb, Bool-cases, inl, inr, ◌⊎◌, success, continue, ◌>>=◌,
}
use comm_traffic_center.Search.{get_msg_head}
use comm_traffic_center.Search.First.{At, get_msg_head-At, get_msg_head_absent}
use comm_traffic_center.OldFrame.{convert_old_to_new}
use comm_traffic_center.Receive.{
  RecvStep, recv_start, old_check_len, old_check_full, recv_end, Receiver, Result, magic_word,
  old_magic_word, recv_raw_data, recv_msg_old_flow, convert_when_done, start_recv, dispatch, round,
  restart,
}
use comm_traffic_center.Receive.Stream.{recv_raw_data-Holds}

-- An old frame with `n` body bytes stands in the stream behind `q` bytes in which the old magic word
-- does not begin, and the stream has the magic word of the new protocol nowhere.
pub record OldFramed (stream : Bytes) (q n : ℕ) : Type 0 where
  pub begins : At stream old_magic_word q
  pub len_byte : stream (q + 6) ≡ n
  pub no_new : (k : ℕ) → ¬ At stream magic_word k
  pub no_old : (k : ℕ) → k < q → ¬ At stream old_magic_word k
  pub short : n < 256
  pub fits : q + n + 9 ≤ 4114

-- The receiver has taken `k` bytes of the stream, and stands where it looks for more of the frame.
pub record Taken (stream : Bytes) (q n k : ℕ) (s : Receiver) : Type 0 where
  pub counted : s.rx_add_up_len ≡ k
  pub in_buffer : k ≤ 8228
  pub stored : Agree k s.msg_buff stream
  pub phase :
      (s.next_step ≡ recv_start)
      ⊎ (((s.next_step ≡ old_check_len) × (s.head_pos ≡ some q))
          ⊎ ((s.next_step ≡ old_check_full) × (s.head_pos ≡ some q) × (s.msg_len ≡ n)))

-- What is left to do when the frame is complete: the conversion of the destination.
abbrev pub converted : Bool → Bytes → Receiver → Result
converted char_signed dst s = do (r, dst') ← convert_old_to_new char_signed dst; some (r, dst', s)

module _ (stream : Bytes) (q n : ℕ) (f : OldFramed stream q n) (char_signed : Bool) where
  abbrev pub taken_from : Bytes → Receiver → Bytes
  taken_from dst s = copy_at dst 0 (offset s.msg_buff q) (n + 9)

  -- A round on `k` bytes: it goes on, or it converts the frame.
  abbrev pub Goes : ℕ → Bytes → Receiver → Result → Type 0
  Goes k dst s r =
      ((s' : Receiver) × (k < q + n + 9) × (r ≡ some (continue, dst, s')) × Taken stream q n k s')
      ⊎ ((s' : Receiver) × (q + n + 9 ≤ k) × (r ≡ converted char_signed (taken_from dst s) s'))

  -- The variables when the frame has been taken out of the buffer.
  abbrev after_frame : Receiver → Receiver
  after_frame s = record s {
    next_step = recv_end;
    rx_add_up_len = s.rx_add_up_len - (q + n + 9);
    msg_buff = copy_at zeros 0 (offset s.msg_buff (q + n + 9)) (s.rx_add_up_len - (q + n + 9));
  }

  -- The accesses that the steps make are inside the buffers.
  in_destination : ltb 4114 (n + 9) ≡ false
  in_destination = ground (arith, f.short)

  moved_in :
      (s : Receiver)
      → s.rx_add_up_len ≤ 8228
      → leb (q + n + 9) s.rx_add_up_len ≡ true
      → leb (q + n + 9 + (s.rx_add_up_len - (q + n + 9))) 8228 ≡ true
  moved_in s room done = ground arith

  len_byte_in : leb (q + 7) 8228 ≡ true
  len_byte_in = ground (arith, f.fits)

  full-Goes :
      (k : ℕ) (dst : Bytes) (s : Receiver)
      → s.rx_add_up_len ≡ k
      → k ≤ 8228
      → Agree k s.msg_buff stream
      → s.next_step ≡ old_check_full
      → s.head_pos ≡ some q
      → s.msg_len ≡ n
      → Goes k dst s (convert_when_done char_signed (recv_msg_old_flow dst s))
  unfolding recv_msg_old_flow convert_when_done
  full-Goes k dst s e room a st p l = elim (Bool-cases (leb (q + n + 9) s.rx_add_up_len)) [
    | inl done ↦ inr (
      after_frame s,
      ground (arith, e),
      rw (st, p, l, done, in_destination, moved_in s (omega (arith, e, room)) done),
    )
    | inr more ↦ inl (
      s,
      ground (arith, e),
      rw (st, p, l, more),
      record { counted = e; in_buffer = room; stored = a; phase = inr (inr (st, p, l)) },
    )
  ]

  len-Goes :
      (k : ℕ) (dst : Bytes) (s : Receiver)
      → s.rx_add_up_len ≡ k
      → k ≤ 8228
      → Agree k s.msg_buff stream
      → s.next_step ≡ old_check_len
      → s.head_pos ≡ some q
      → Goes k dst s (convert_when_done char_signed (recv_msg_old_flow dst s))
  unfolding recv_msg_old_flow convert_when_done
  len-Goes k dst s e room a st p = elim (Bool-cases (ltb s.rx_add_up_len (q + 7))) [
    | inl less ↦ inl (
      s,
      ground (arith, e),
      rw (st, p, less),
      record { counted = e; in_buffer = room; stored = a; phase = inr (inl (st, p)) },
    )
    | inr seven ↦
        let l : s.msg_buff (q + 6) ≡ n = a (q + 6) (ground (arith, e)) ∙ f.len_byte in
        elim (Bool-cases (leb (q + n + 9) s.rx_add_up_len)) [
          | inl done ↦ inr (
            record (after_frame s) { msg_len = n },
            ground (arith, e),
            rw (
              st,
              p,
              seven,
              len_byte_in,
              l,
              done,
              in_destination,
              moved_in s (omega (arith, e, room)) done,
            ),
          )
          | inr more ↦ inl (
            record s { next_step = old_check_full; msg_len = n },
            ground (arith, e),
            rw (st, p, seven, len_byte_in, l, more),
            record { counted = e; in_buffer = room; stored = a; phase = inr (inr (refl, p, refl)) },
          )
        ]
  ]

  start-Goes :
      (k : ℕ) (dst : Bytes) (s : Receiver)
      → s.rx_add_up_len ≡ k
      → k ≤ 8228
      → Agree k s.msg_buff stream
      → Goes k dst s (start_recv char_signed dst s)
  unfolding start_recv
  start-Goes k dst s e room a = elim (Bool-cases (leb (q + 2) s.rx_add_up_len)) [
    | inl more ↦ rw (all_in, no_new_head, old_found more) (len-Goes k dst _ e room a refl refl)
    | inr less ↦ inl (
      record s { head_pos = none; next_step = recv_start },
      ground (arith, e),
      rw (all_in, no_new_head, no_old_head less),
      record { counted = e; in_buffer = room; stored = a; phase = inl refl },
    )
  ]
    where
      all_in : leb s.rx_add_up_len 8228 ≡ true
      all_in = ground (arith, e, room)

      no_new_head : get_msg_head s.msg_buff s.rx_add_up_len magic_word 2 ≡ none
      no_new_head = get_msg_head_absent s.msg_buff s.rx_add_up_len magic_word λ j p (h0, h1).
          f.no_new j (sym (a j (omega (arith, e))) ∙ h0, sym (a (j + 1) (omega (arith, e))) ∙ h1)

      old_found :
          leb (q + 2) s.rx_add_up_len ≡ true
          → get_msg_head s.msg_buff s.rx_add_up_len old_magic_word 2 ≡ some q
      old_found h =
          get_msg_head-At s.msg_buff s.rx_add_up_len old_magic_word q
            (a q (ground (arith, e)) ∙ f.begins.0, a (q + 1) (ground (arith, e)) ∙ f.begins.1)
            (ground arith)
            λ j p (h0, h1).
              f.no_old j p
                (sym (a j (ground (arith, e))) ∙ h0, sym (a (j + 1) (ground (arith, e))) ∙ h1)

      no_old_head :
          leb (q + 2) s.rx_add_up_len ≡ false
          → get_msg_head s.msg_buff s.rx_add_up_len old_magic_word 2 ≡ none
      no_old_head h = get_msg_head_absent s.msg_buff s.rx_add_up_len old_magic_word λ j p (h0, h1).
          f.no_old j (ground arith)
            (sym (a j (omega (arith, e))) ∙ h0, sym (a (j + 1) (omega (arith, e))) ∙ h1)

  pub round-Goes :
      (k : ℕ) (dst : Bytes) (s : Receiver)
      → Taken stream q n k s
      → Goes k dst s (round char_signed dst s)
  unfolding round
  round-Goes k dst s t =
      let at_step = λ (st : RecvStep). Goes k dst s (dispatch st char_signed dst s) in
      elim t.phase [
        | inl e ↦ subst at_step (sym e) (start-Goes k dst s t.counted t.in_buffer t.stored)
        | inr (inl (e, p)) ↦
            subst at_step (sym e) (len-Goes k dst s t.counted t.in_buffer t.stored e p)
        | inr (inr (e, p, l)) ↦
            subst at_step (sym e) (full-Goes k dst s t.counted t.in_buffer t.stored e p l)
      ]

  pub read_Taken :
      (k m : ℕ) (s : Receiver)
      → Taken stream q n k s
      → k + m ≤ 8228
      → m ≤ 4114
      → (s' : Receiver) × (recv_raw_data s (record { count = m; bytes = offset stream k })
          ≡ some (success, s'))
        × Taken stream q n (k + m) s'
  read_Taken k m s t h short =
      let (s', r, holds, same) =
        recv_raw_data-Holds stream k m s (record { counted = t.counted; stored = t.stored }) h
          short in
      (
        s',
        r,
        record {
          counted = holds.counted;
          in_buffer = h;
          stored = holds.stored;
          phase = rw (same.same_step, same.same_head, same.same_len) t.phase;
        },
      )

pub restart-Taken : (stream : Bytes) (q n : ℕ) (s : Receiver) → Taken stream q n 0 (restart s)
unfolding restart
restart-Taken stream q n s = record {
  counted = refl;
  in_buffer = omega arith;
  stored = λ i p. absurd (omega arith);
  phase = inl refl;
}
