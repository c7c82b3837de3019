-- ===== src/Receive/SafeRounds.antt =====
-- One round of the receive loop on arbitrary bytes.
use comm_traffic_center.Base.{
  ℕ, ◌+◌, ◌-◌, ◌≤◌, ◌<◌, ◌≡◌, refl, arith, true, false, Option, none, some, Bytes, IsBytes, get_u16,
  ltb, leb, Bool-cases, inl, inr, success, failed, continue,
}
use comm_traffic_center.Search.{get_msg_head}
use comm_traffic_center.Search.First.{IsFirst, get_msg_head-IsFirst}
use comm_traffic_center.OldFrame.{convert_old_to_new}
use comm_traffic_center.Receive.{
  RecvStep, recv_start, recv_head, recv_full, old_check_len, old_check_full, recv_end, Receiver,
  Result, magic_word, old_magic_word, try_recv_head, start_old, start_new, start_recv,
  recv_msg_old_flow, convert_when_done, dispatch, round,
}

-- Between two reads the machine looks for a head, or stands at one that is in the buffer.
abbrev pub Phase : RecvStep → Option ℕ → ℕ → Type 0
Phase recv_start h n = Unit {0}
Phase recv_head (some p) n = p + 2 ≤ n
Phase old_check_len (some p) n = p + 2 ≤ n
Phase old_check_full (some p) n = p + 7 ≤ n
Phase _ _ n = ⊥

pub record IsSafe (s : Receiver) : Type 0 where
  pub in_buffer : s.rx_add_up_len ≤ 8228
  pub bytes : IsBytes s.msg_buff
  pub len_byte : s.msg_len < 256
  pub at_head : Phase s.next_step s.head_pos s.rx_add_up_len

-- A step did not fault, and where it goes on it leaves a safe state.
abbrev pub Sound : Result → Type 0
Sound none = ⊥
Sound (some (continue, d, s)) = IsSafe s
Sound (some (success, d, s)) = Unit {0}
Sound (some (failed, d, s)) = Unit {0}

-- The part of the invariant that does not speak of the step.
record IsKept (s : Receiver) : Type 0 where
  kept_in : s.rx_add_up_len ≤ 8228
  kept_bytes : IsBytes s.msg_buff
  kept_len : s.msg_len < 256

-- What ends within the bytes that have come in is inside the buffer.
in_buff_lem : (s : Receiver) (n : ℕ) → IsKept s → n ≤ s.rx_add_up_len → leb n 8228 ≡ true
in_buff_lem s n k h = ground (arith, k.kept_in)

at_recv_head :
    (s : Receiver) (p n : ℕ)
    → IsKept s
    → p + 2 ≤ s.rx_add_up_len
    → IsSafe (record s { next_step = recv_head; total_recv_len = n; head_pos = some p })
at_recv_head s p n k h = record {
  in_buffer = k.kept_in;
  bytes = k.kept_bytes;
  len_byte = k.kept_len;
  at_head = h;
}

head-Sound :
    (dst : Bytes) (s : Receiver) (p : ℕ)
    → IsKept s
    → s.head_pos ≡ some p
    → p + 2 ≤ s.rx_add_up_len
    → Sound (try_recv_head dst s)
unfolding try_recv_head
head-Sound dst s p k e h = rw e (elim (Bool-cases (leb (p + 16) s.rx_add_up_len)) [
  | inr f ↦ rw f (at_recv_head s p s.total_recv_len k h)
  | inl f ↦
      rw (f, in_buff_lem s (p + 16) k (ground arith))
        (elim (Bool-cases (ltb 4114 (get_u16 s.msg_buff (p + 2)))) [
          | inl g ↦ rw g tt
          | inr g ↦ rw g (elim (Bool-cases (leb (p + get_u16 s.msg_buff (p + 2)) s.rx_add_up_len)) [
            | inl i ↦ rw (i, in_buff_lem s (p + get_u16 s.msg_buff (p + 2)) k (ground arith)) tt
            | inr i ↦ rw i (at_recv_head s p (get_u16 s.msg_buff (p + 2)) k h)
          ])
        ])
])

in_destination : (n : ℕ) → n < 256 → ltb 4114 (n + 9) ≡ false
in_destination n h = ground arith

moved_in :
    (s : Receiver) (n : ℕ)
    → IsKept s
    → leb n s.rx_add_up_len ≡ true
    → leb (n + (s.rx_add_up_len - n)) 8228 ≡ true
moved_in s n k h = ground (arith, k.kept_in)

at_old_check :
    (s : Receiver) (p n : ℕ)
    → IsKept s
    → n < 256
    → p + 7 ≤ s.rx_add_up_len
    → IsSafe (record s { next_step = old_check_full; msg_len = n; head_pos = some p })
at_old_check s p n k b h = record {
  in_buffer = k.kept_in;
  bytes = k.kept_bytes;
  len_byte = b;
  at_head = h;
}

-- Where `char` is unsigned the conversion of a frame does not fault.
convert-Sound :
    (dst : Bytes) (s : Receiver) → Sound (convert_when_done false (some (success, dst, s)))
unfolding convert_when_done convert_old_to_new
convert-Sound dst s = elim (Bool-cases (ltb 256 (dst 6))) [ inl e ↦ rw e tt | inr e ↦ rw e tt ]

len-Sound :
    (dst : Bytes) (s : Receiver) (p : ℕ)
    → IsKept s
    → s.head_pos ≡ some p
    → s.next_step ≡ old_check_len
    → p + 2 ≤ s.rx_add_up_len
    → Sound (convert_when_done false (recv_msg_old_flow dst s))
unfolding recv_msg_old_flow convert_when_done
len-Sound dst s p k e st h =
    rw (st, e)
      (elim (Bool-cases (ltb s.rx_add_up_len (p + 7))) [
        | inl f ↦ rw f (record {
          in_buffer = k.kept_in;
          bytes = k.kept_bytes;
          len_byte = k.kept_len;
          at_head = h;
        })
        | inr f ↦
            rw (f, in_buff_lem s (p + 7) k (ground arith))
              (elim (Bool-cases (leb (p + s.msg_buff (p + 6) + 9) s.rx_add_up_len)) [
                | inl g ↦
                    rw
                      (
                        g,
                        in_destination (s.msg_buff (p + 6)) (k.kept_bytes (p + 6)),
                        moved_in s (p + s.msg_buff (p + 6) + 9) k g,
                      )
                      (convert-Sound _ _)
                | inr g ↦
                    rw g (
                      at_old_check s p (s.msg_buff (p + 6)) k (k.kept_bytes (p + 6)) (ground arith))
              ])
      ])

full-Sound :
    (dst : Bytes) (s : Receiver) (p : ℕ)
    → IsKept s
    → s.head_pos ≡ some p
    → s.next_step ≡ old_check_full
    → p + 7 ≤ s.rx_add_up_len
    → Sound (convert_when_done false (recv_msg_old_flow dst s))
unfolding recv_msg_old_flow convert_when_done
full-Sound dst s p k e st h =
    rw (st, e)
      (elim (Bool-cases (leb (p + s.msg_len + 9) s.rx_add_up_len)) [
        | inl g ↦
            rw (g, in_destination s.msg_len k.kept_len, moved_in s (p + s.msg_len + 9) k g)
              (convert-Sound _ _)
        | inr g ↦ rw g (at_old_check s p s.msg_len k k.kept_len h)
      ])

start-Sound : (dst : Bytes) (s : Receiver) → IsKept s → Sound (start_recv false dst s)
unfolding start_recv
start-Sound dst s k = rw (in_buff_lem s s.rx_add_up_len k (omega arith)) (
    new (get_msg_head s.msg_buff s.rx_add_up_len magic_word 2)
      (get_msg_head-IsFirst s.msg_buff s.rx_add_up_len magic_word).1)
  where
    kept : (st : RecvStep) (h : Option ℕ) → IsKept (record s { next_step = st; head_pos = h })
    kept st h = record { kept_in = k.kept_in; kept_bytes = k.kept_bytes; kept_len = k.kept_len }

    old :
        (r : Option ℕ)
        → IsFirst s.msg_buff s.rx_add_up_len old_magic_word 0 r
        → Sound (start_old false dst s r)
    old none f = record {
      in_buffer = k.kept_in;
      bytes = k.kept_bytes;
      len_byte = k.kept_len;
      at_head = tt;
    }
    old (some p) f =
        len-Sound dst (record s { next_step = old_check_len; head_pos = some p }) p
          (kept old_check_len (some p)) refl refl f.1

    new :
        (r : Option ℕ)
        → IsFirst s.msg_buff s.rx_add_up_len magic_word 0 r
        → Sound (start_new false dst s r)
    new none f =
        old (get_msg_head s.msg_buff s.rx_add_up_len old_magic_word 2)
          (get_msg_head-IsFirst s.msg_buff s.rx_add_up_len old_magic_word).1
    new (some p) f =
        head-Sound dst (record s { head_pos = some p }) p (kept s.next_step (some p)) refl f.1

IsSafe-IsKept : {s : Receiver} → IsSafe s → IsKept s
IsSafe-IsKept v = record { kept_in = v.in_buffer; kept_bytes = v.bytes; kept_len = v.len_byte }

-- Every round from a safe state is free of faults and leaves a safe state.
pub round-Sound : (dst : Bytes) (s : Receiver) → IsSafe s → Sound (round false dst s)
unfolding round
round-Sound dst s v = by_step s.next_step s.head_pos refl refl v.at_head
  where
    by_step :
        (st : RecvStep) (h : Option ℕ)
        → s.next_step ≡ st
        → s.head_pos ≡ h
        → Phase st h s.rx_add_up_len
        → Sound (dispatch st false dst s)
    by_step recv_start h e p a = start-Sound dst s (IsSafe-IsKept v)
    by_step recv_head (some q) e p a = head-Sound dst s q (IsSafe-IsKept v) p a
    by_step recv_head none e p a = absurd a
    by_step recv_full h e p a = absurd a
    by_step old_check_len (some q) e p a = len-Sound dst s q (IsSafe-IsKept v) p e a
    by_step old_check_len none e p a = absurd a
    by_step old_check_full (some q) e p a = full-Sound dst s q (IsSafe-IsKept v) p e a
    by_step old_check_full none e p a = absurd a
    by_step recv_end h e p a = absurd a
