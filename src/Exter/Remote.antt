-- ===== src/Exter/Remote.antt =====
-- A message that leaves one device over the line and is received by another.
use comm_traffic_center.Base.{
  ltb, ℕ, ◌+◌, ◌≤◌, ◌≡◌, refl, ◌∙◌, arith, Bool, true, inl, inr, some, List, [], ◌∷◌, Bytes, Agree,
  zeros, ◌==◌, Bool-cases, Status, success, false, ◌<◌, none,
}
use comm_traffic_center.Package.{Direction, total_len, ack_flag, protocol_type, fcs}
use comm_traffic_center.Package.Build.{package_new_ptp_msg}
use comm_traffic_center.Package.Fields.{
  FitsTypes, Carries, Carries-Agree, package_new_ptp_msg-Carries,
}
use comm_traffic_center.Package.Checksum.{calc_msg_xor, calc_msg_xor-Agree}
use comm_traffic_center.Check.{check_fcs}
use comm_traffic_center.Receive.{Receiver, returns, try_recv_full_msg}
use comm_traffic_center.Receive.Stream.{Agree-from_zero, FitReads, cut, sum}
use comm_traffic_center.Receive.FrameRounds.{Framed}
use comm_traffic_center.Receive.Frame.{try_recv_full_msg-Framed}
use comm_traffic_center.Infra.Rs485.{
  Action, sleeps, tx_en, writes, WaitEnd, send_to_rs485, send_to_rs485_sync,
}
use comm_traffic_center.Exter.{send_msg_to_remote}

-- What a list of actions writes to the line.
abbrev pub written : List Action → List (Bytes × ℕ)
written [] = []
written (sleeps n ∷ rest) = written rest
written (tx_en b ∷ rest) = written rest
written (writes m n ∷ rest) = (m, n) ∷ written rest

-- A package of the new protocol goes out as its own bytes, as many as the caller counts, at most the
-- size of a package.
pub send_new-written :
    (char_signed : Bool) (wait : WaitEnd) (m : Bytes) (len : ℕ)
    → protocol_type m ≡ 0
    → len ≤ 4114
    → (s : Status) × (acts : List Action) × (send_msg_to_remote char_signed true wait (some m) len
        ≡ some (s, acts))
      × (written acts ≡ (m, len) ∷ [])
unfolding send_msg_to_remote send_to_rs485 send_to_rs485_sync
send_new-written c wait m len p h =
    let fits : ltb 4114 len ≡ false = ground arith in
    elim (Bool-cases (0 == ack_flag m)) [
      | inl quiet ↦
          let (s, acts) = send_to_rs485 (some m) len in (s, acts, rw (p, quiet, fits), refl)
      | inr asks ↦
          let (s, acts) = send_to_rs485_sync true wait (some m) len in
          (s, acts, rw (p, asks, fits), refl)
    ]

-- Where the caller counts more than a package, the write reads past the end of the buffer.
pub send_new_overreads :
    (char_signed : Bool) (wait : WaitEnd) (m : Bytes) (len : ℕ)
    → protocol_type m ≡ 0
    → 4114 < len
    → send_msg_to_remote char_signed true wait (some m) len ≡ none
unfolding send_msg_to_remote
send_new_overreads c wait m len p h =
    let outside : ltb 4114 len ≡ true = ground arith in
    elim (Bool-cases (0 == ack_flag m)) [
      | inl quiet ↦ rw (p, quiet, outside) refl
      | inr asks ↦ rw (p, asks, outside) refl
    ]

-- The checksum test on a package that agrees with a sound one as far as that one counts.
pub Agree-check_fcs :
    (a b : Bytes)
    → 17 ≤ total_len b
    → total_len b ≤ 4114
    → Agree (total_len b) a b
    → protocol_type b ≡ 0
    → calc_msg_xor b ≡ some (fcs b)
    → check_fcs a ≡ some success
unfolding check_fcs
Agree-check_fcs a b lo hi agree p sum =
    ground (arith, calc_msg_xor-Agree a b lo hi agree sum, agree 8)

-- A message for another device, with arguments that fit their types, is packaged; what
-- `send_msg_to_remote` then writes to the line, where the line's lock is free, is that package, cut
-- to its length field; and whatever the pieces in which another device reads those bytes, each at
-- most the size of a package, `try_recv_full_msg` there returns SUCCESS with a package that carries
-- the sender's arguments and body and passes the checksum test.
pub send_msg_to_remote-received :
    (char_signed : Bool) (wait : WaitEnd) (self_pid event : ℕ) (dst : Direction) (data_ : Bytes)
    (len ack : ℕ) (ns : List ℕ) (buf : Bytes) (r : Receiver)
    → FitsTypes self_pid event dst len ack
    → FitReads ns
    → 17 + len ≤ sum ns
    → (m : Bytes) × (s : Status) × (acts : List Action) × (got : Bytes) × (r' : Receiver)
      × (package_new_ptp_msg self_pid zeros event (some dst) (some data_) len ack ≡ some m)
      × (send_msg_to_remote char_signed true wait (some m) (total_len m) ≡ some (s, acts))
      × (written acts ≡ (m, 17 + len) ∷ [])
      × (try_recv_full_msg char_signed (cut m 0 ns) buf r ≡ returns success got r')
      × Carries self_pid event dst data_ len ack got
      × (check_fcs got ≡ some success)
send_msg_to_remote-received c wait self_pid event dst data_ len ack ns buf r f reads h =
    let (m, made, carries, new, _, sum) =
      package_new_ptp_msg-Carries self_pid event dst data_ len ack f in
    let counted = carries.length_field in
    let (s, acts, sends, out) =
      send_new-written c wait m (total_len m) new (omega (arith, counted, f.len_fits)) in
    let framed : Framed m 0 (17 + len) = record {
      begins = (carries.magic_0, carries.magic_1);
      no_new = λ k p. absurd (omega arith);
      no_old = λ k p. absurd (omega arith);
      sized = counted;
      long = omega arith;
      fits = omega (arith, f.len_fits);
    } in
    let (got, r', runs, there) =
      try_recv_full_msg-Framed c m 0 (17 + len) ns buf r framed reads (omega arith) in
    let agree = Agree-from_zero m there in
    (
      m,
      s,
      acts,
      got,
      r',
      made,
      sends,
      out ∙ rw counted,
      runs,
      Carries-Agree self_pid event dst data_ len ack m got (λ i o p q l. agree i l) carries,
      Agree-check_fcs got m (omega (arith, counted)) (omega (arith, counted, f.len_fits))
          (rw counted agree) new sum,
    )
