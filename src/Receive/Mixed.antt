-- ===== src/Receive/Mixed.antt =====
-- A line that carries both protocols.
use comm_traffic_center.Base.{
  ℕ, ◌+◌, ◌≤◌, ◌<◌, ◌≡◌, refl, sym, ◌∙◌, arith, Bool, true, false, some, [], ◌∷◌, Bytes, zeros,
  get_u16, copy_at, Agree, copy_at_start, ltb, leb, failed, continue,
}
use comm_traffic_center.Search.First.{At, get_msg_head-At, get_msg_head_absent}
use comm_traffic_center.Receive.{
  recv_start, Receiver, magic_word, old_magic_word, recv_raw_data, try_recv_head, start_recv, round,
  returns, restart, try_recv_full_msg,
}

-- A complete old frame with `n` body bytes stands at the start of what one read delivers, and its
-- body holds the magic word of the new protocol, first at `q`, before two bytes that read as a
-- length above 4114.
pub record Hijacks (stream : Bytes) (n count q : ℕ) : Type 0 where
  pub begins : At stream old_magic_word 0
  pub len_byte : stream 6 ≡ n
  pub complete : n + 9 ≤ count
  pub one_read : count ≤ 4114
  pub magic_at : At stream magic_word q
  pub in_body : (7 ≤ q) × (q + 2 ≤ n + 7)
  pub magic_first : (k : ℕ) → k < q → ¬ At stream magic_word k
  pub head_in : q + 16 ≤ count
  pub length_there : 4114 < get_u16 stream (q + 2)

first_round :
    (char_signed : Bool) (dst : Bytes) (s : Receiver)
    → round char_signed dst (restart s) ≡ some (continue, dst, restart s)
unfolding round restart start_recv
first_round c dst s =
    let no_new = get_msg_head_absent zeros 0 magic_word λ j p. absurd (omega arith) in
    let no_old = get_msg_head_absent zeros 0 old_magic_word λ j p. absurd (omega arith) in
    rw (no_new, no_old)

second_round :
    (char_signed : Bool) (stream : Bytes) (n count q : ℕ) (dst : Bytes) (s : Receiver)
    → Hijacks stream n count q
    → s.next_step ≡ recv_start
    → s.rx_add_up_len ≡ count
    → Agree count s.msg_buff stream
    → (s' : Receiver) × (round char_signed dst s ≡ some (failed, dst, s'))
unfolding round start_recv try_recv_head
second_round c stream n count q dst s h st e a =
    let found =
      get_msg_head-At s.msg_buff s.rx_add_up_len magic_word q
        (
          a q (omega (arith, h.head_in)) ∙ h.magic_at.0,
          a (q + 1) (omega (arith, h.head_in)) ∙ h.magic_at.1,
        )
        (omega (arith, h.head_in, e))
        (λ k p (m0, m1). h.magic_first k p (
          sym (a k (omega (arith, h.head_in))) ∙ m0,
          sym (a (k + 1) (omega (arith, h.head_in))) ∙ m1,
        )) in
    let all_in : leb s.rx_add_up_len 8228 ≡ true = ground (arith, e, h.one_read) in
    let head_read : leb (q + 16) 8228 ≡ true = ground (arith, h.head_in, h.one_read) in
    let whole : leb (q + 16) s.rx_add_up_len ≡ true = ground (arith, h.head_in, e) in
    let long : ltb 4114 (get_u16 s.msg_buff (q + 2)) ≡ true =
      ground (arith, a (q + 2), a (q + 2 + 1), h.length_there, h.head_in) in
    (
      record s {
        head_pos = some q;
        total_recv_len = get_u16 s.msg_buff (q + 2);
        next_step = recv_start;
      },
      rw (st, all_in, found, whole, head_read, long),
    )

-- One read delivers a complete old frame whose body holds the magic word of the new protocol, with
-- two bytes behind it that read as a length above 4114: the frame is not delivered, and
-- `try_recv_full_msg` returns FAILED.
pub try_recv_full_msg_hijacked :
    (char_signed : Bool) (stream : Bytes) (n count q : ℕ) (dst : Bytes) (s : Receiver)
    → Hijacks stream n count q
    → (s' : Receiver) × (try_recv_full_msg char_signed
          (record { count = count; bytes = stream } ∷ [])
          dst
          s
        ≡ returns failed dst s')
unfolding try_recv_full_msg recv_raw_data restart
try_recv_full_msg_hijacked c stream n count q dst s h =
    let read : Receiver = record (restart s) {
      msg_buff = copy_at zeros 0 stream count;
      rx_add_up_len = 0 + count;
    } in
    let (s', r) =
      second_round c stream n count q dst read h refl (omega arith)
        (copy_at_start zeros stream count) in
    let fits : ltb 8228 (0 + count) ≡ false = ground (arith, h.one_read) in
    let one : ltb 4114 count ≡ false = ground (arith, h.one_read) in
    let appended : leb (0 + count) 8228 ≡ true = ground (arith, h.one_read) in
    let some_in : ltb 0 count ≡ true = ground (arith, h.complete) in
    (s', rw (first_round c dst s, some_in, fits, one, appended, r))
