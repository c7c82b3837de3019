-- ===== src/Exter/OldRemote.antt =====
-- A package of the old protocol that leaves one device over the line and is received by another.
use comm_traffic_center.Base.{
  ltb, ℕ, ◌+◌, ◌≤◌, ◌<◌, ◌≡◌, refl, sym, ap, ◌∙◌, arith, Bool, true, false, inl, inr, Option, none,
  some, List, [], ◌∷◌, Bytes, IsBytes, zeros, ◌==◌, Bool-cases, Status, success, offset, fun_ext,
}
use comm_traffic_center.Package.{event, protocol_type, ack_flag, get_msg_len_from_pkg}
use comm_traffic_center.OldFrame.{is_negative, convert_new_to_old}
use comm_traffic_center.OldFrame.Write.{Writes, Restores, Reads-Restores, convert_new_to_old_short}
use comm_traffic_center.Check.{check_fcs}
use comm_traffic_center.Search.First.{At}
use comm_traffic_center.Receive.{Receiver, magic_word, returns, try_recv_full_msg}
use comm_traffic_center.Receive.Stream.{cut, sum, FitReads}
use comm_traffic_center.Receive.OldRounds.{OldFramed}
use comm_traffic_center.Receive.Old.{try_recv_full_msg-OldFramed}
use comm_traffic_center.Infra.Rs485.{Action, WaitEnd, send_to_rs485, send_to_rs485_sync}
use comm_traffic_center.Exter.{send_msg_to_remote}
use comm_traffic_center.Exter.Remote.{written}

-- A package of the old protocol goes out as the frame that it is converted to.
send_old-written :
    (char_signed : Bool) (wait : WaitEnd) (m : Bytes) (len n : ℕ) (f : Bytes)
    → protocol_type m ≡ 1
    → convert_new_to_old char_signed m zeros ≡ some (n, f)
    → n ≤ 4114
    → (s : Status) × (acts : List Action) × (send_msg_to_remote char_signed true wait (some m) len
        ≡ some (s, acts))
      × (written acts ≡ (f, n) ∷ [])
unfolding send_msg_to_remote send_to_rs485 send_to_rs485_sync
send_old-written c wait m len n f p e h =
    let fits : ltb 4114 n ≡ false = ground arith in
    elim (Bool-cases (0 == ack_flag m)) [
      | inl quiet ↦
          let (s, acts) = send_to_rs485 (some f) n in (s, acts, rw (p, e, quiet, fits), refl)
      | inr asks ↦
          let (s, acts) = send_to_rs485_sync true wait (some f) n in
          (s, acts, rw (p, e, asks, fits), refl)
    ]

-- The frame that a package is converted to is the one that carries it.
framed-Writes :
    (char_signed : Bool) (m f : Bytes) (n : ℕ)
    → IsBytes m
    → get_msg_len_from_pkg (some m) ≡ n
    → n < 256
    → is_negative char_signed n ≡ false
    → convert_new_to_old char_signed m zeros ≡ some (n + 9, f)
    → Writes m n f
framed-Writes c m f n bytes e short plain conv =
    let (f', conv', w) = convert_new_to_old_short c m bytes (omega (arith, e)) (rw e plain) in
    let same : f' ≡ f =
      ap (λ (o : Option (ℕ × Bytes)). elim o [ none ↦ f | some p ↦ p.1 ]) (sym conv' ∙ conv) in
    rw (e, same) at w

-- A package of the old protocol with a body of at most 248 bytes and an event below 256 (both below
-- 128 where `char` is signed) is converted to an old frame of its body length plus 9 bytes that
-- does not hold the magic word of the new protocol. Then `send_msg_to_remote`, where the line's
-- lock is free, writes that frame to the line, and whatever the pieces in which another device
-- reads it, each at most the size of a package, `try_recv_full_msg` there returns SUCCESS with a
-- package that has the event, command type, shelf, card, length and body of the first and passes
-- the checksum test.
pub send_msg_to_remote-received_old :
    (char_signed : Bool) (wait : WaitEnd) (m f : Bytes) (len n : ℕ) (ns : List ℕ) (buf : Bytes)
    (r : Receiver)
    → IsBytes m
    → protocol_type m ≡ 1
    → get_msg_len_from_pkg (some m) ≡ n
    → n ≤ 248
    → is_negative char_signed n ≡ false
    → event m < 256
    → is_negative char_signed (event m) ≡ false
    → convert_new_to_old char_signed m zeros ≡ some (n + 9, f)
    → ((k : ℕ) → ¬ At f magic_word k)
    → FitReads ns
    → n + 9 ≤ sum ns
    → (s : Status) × (acts : List Action) × (m' : Bytes) × (r' : Receiver) × (send_msg_to_remote
          char_signed true wait
          (some m)
          len
        ≡ some (s, acts))
      × (written acts ≡ (f, n + 9) ∷ [])
      × (try_recv_full_msg char_signed (cut f 0 ns) buf r ≡ returns success m' r')
      × Restores m n m'
      × (check_fcs m' ≡ some success)
send_msg_to_remote-received_old c wait m f len n ns buf r bytes old e short plain ev ev_plain conv
      no_new reads h =
    let w = framed-Writes c m f n bytes e (omega arith) plain conv in
    let (s, acts, sends, out) = send_old-written c wait m len (n + 9) f old conv (omega arith) in
    let framed : OldFramed f 0 n = record {
      begins = (w.mark_0, w.mark_1);
      len_byte = w.len_written;
      no_new = no_new;
      no_old = λ k p. absurd (omega arith);
      short = omega arith;
      fits = omega arith;
    } in
    let (m', r', runs, reads_it, accepted) =
      try_recv_full_msg-OldFramed c f 0 n ns buf r framed (λ i p. w.all_bytes (0 + i)) short plain
        reads (omega arith) in
    let same : offset f 0 ≡ f = fun_ext λ i. ap f (omega arith) in
    let at_sum : 0 + (7 + n) ≡ 7 + n = omega arith in
    (
      s,
      acts,
      m',
      r',
      sends,
      out,
      runs,
      Reads-Restores c m n short plain ev ev_plain f w m' (rw same at reads_it),
      accepted ∙ rw (same, at_sum, w.sum_written) (ground arith),
    )
