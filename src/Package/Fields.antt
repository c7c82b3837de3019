-- ===== src/Package/Fields.antt =====
-- What a packaged message holds, field by field, and that its checksum is that of its bytes.
use comm_traffic_center.Base.{
  ℕ, ◌+◌, ◌≤◌, ◌<◌, ◌≡◌, ◌≢◌, refl, arith, some, Bytes, zeros, set_u8, set_u16, copy_at, Agree,
  copy_at-inside, copy_at-outside,
}
use comm_traffic_center.Package.{
  Direction, total_len, event, ack_flag, cmd_type_old, protocol_type, src_dir, dst_dir, fcs, body,
  get_msg_len_from_pkg,
}
use comm_traffic_center.Package.Build.{
  write_head, package_msg, package_new_ptp_msg, package_old_ptp_msg,
}
use comm_traffic_center.Package.Checksum.{
  calc_msg_xor, msg_xor, msg_xor-lt, msg_xor-Agree, calc_msg_xor_in_range,
}

-- The arguments of a send fit the C types that carry them, and the body fits the package.
pub record FitsTypes (self_pid event_id : ℕ) (dst : Direction) (len ack : ℕ) : Type 0 where
  pub self_fits : self_pid < 256
  pub event_fits : event_id < 65536
  pub shelf_fits : dst.shelf < 256
  pub card_fits : dst.card < 256
  pub pid_fits : dst.pid < 256
  pub ack_fits : ack < 256
  pub len_fits : len ≤ 4096

-- A package carries the arguments that it was made from.
pub record Carries (self_pid event_id : ℕ) (dst : Direction) (data_ : Bytes) (len ack : ℕ)
    (m : Bytes) : Type 0 where
  pub magic_0 : m 0 ≡ 0xAA
  pub magic_1 : m 1 ≡ 0x55
  pub length_field : total_len m ≡ 17 + len
  pub event_field : event m ≡ event_id
  pub ack_field : ack_flag m ≡ ack
  pub dst_field : dst_dir m ≡ dst
  pub src_field : src_dir m ≡ record { shelf = 1; card = 1; pid = self_pid }
  pub body_field : Agree len (body m) data_

module _ (self_pid event_id : ℕ) (dst : Direction) (data_ : Bytes) (len ack : ℕ) where
  abbrev headed : Bytes
  headed = write_head self_pid zeros event_id dst ack

  abbrev pub sized : Bytes
  sized = set_u16 (copy_at headed 17 data_ len) 2 (17 + len)

  sized_head : (i : ℕ) → i < 17 → i ≢ 2 → i ≢ 3 → sized i ≡ headed i
  sized_head i h p q = ground (arith, copy_at-outside headed data_ 17 len i)

  sized_len : len ≤ 4096 → total_len sized ≡ 17 + len
  sized_len h = ground arith

  sized-body : Agree len (body sized) data_
  sized-body i h = ground (arith, copy_at-inside headed data_ 17 len i)

  headed-Carries :
      FitsTypes self_pid event_id dst len ack → Carries self_pid event_id dst data_ len ack sized
  unfolding write_head
  headed-Carries f = record {
    magic_0 = ground (arith, sized_head 0);
    magic_1 = ground (arith, sized_head 1);
    length_field = sized_len f.len_fits;
    event_field = ground (arith, sized_head 4, sized_head 5);
    ack_field = ground (arith, sized_head 6);
    dst_field = ground (arith, sized_head 12, sized_head 13, sized_head 14);
    src_field = ground (arith, sized_head 9, sized_head 10, sized_head 11);
    body_field = sized-body;
  }

  sealed : Bytes
  sealed = set_u8 sized 16 (msg_xor sized)

  package_msg-sealed :
      len ≤ 4096 → package_msg self_pid zeros event_id (some dst) (some data_) len ack ≡ some sealed
  unfolding package_msg sealed
  package_msg-sealed h =
      let e =
        calc_msg_xor_in_range sized (omega (arith, sized_len h)) (omega (arith, sized_len h)) in
      ground (arith, e)

  sent : Bytes
  unfolding sealed
  sent = set_u8 sealed 8 0

  sent-sized : (i : ℕ) → i ≢ 16 → sent i ≡ sized i
  unfolding sent write_head
  sent-sized i h = ground (arith, sized_head 8)

  pub Carries-Agree :
      (a b : Bytes)
      → ((i : ℕ) → i ≢ 7 → i ≢ 8 → i ≢ 16 → i < 17 + len → b i ≡ a i)
      → Carries self_pid event_id dst data_ len ack a
      → Carries self_pid event_id dst data_ len ack b
  Carries-Agree a b h c = record {
    magic_0 = ground (arith, c, h 0);
    magic_1 = ground (arith, c, h 1);
    length_field = ground (arith, c, h 2, h 3);
    event_field = ground (arith, c, h 4, h 5);
    ack_field = ground (arith, c, h 6);
    dst_field = ground (arith, c, h 12, h 13, h 14);
    src_field = ground (arith, c, h 9, h 10, h 11);
    body_field = λ i p. ground (arith, c.body_field i p, h (17 + i));
  }

  sent-Carries :
      FitsTypes self_pid event_id dst len ack → Carries self_pid event_id dst data_ len ack sent
  sent-Carries f = Carries-Agree sized sent (λ i o p q l. sent-sized i q) (headed-Carries f)

  fcs-sent : fcs sent ≡ msg_xor sent
  fcs-sent = rw (msg_xor-Agree sent sized sent-sized) held
    where
      held : fcs sent ≡ msg_xor sized
      held = unfold sent in omega (arith, msg_xor-lt sized)

  -- `package_new_ptp_msg` on a zeroed package with a body that fits yields a package that carries
  -- the arguments, marks the new protocol, is as long as its body says, and whose `fcs` is the
  -- checksum that `calc_msg_xor` computes over the finished package.
  pub package_new_ptp_msg-Carries :
      FitsTypes self_pid event_id dst len ack
      → (m : Bytes) × (package_new_ptp_msg self_pid zeros event_id (some dst) (some data_) len ack
          ≡ some m)
        × Carries self_pid event_id dst data_ len ack m
        × (protocol_type m ≡ 0)
        × (get_msg_len_from_pkg (some m) ≡ len)
        × (calc_msg_xor m ≡ some (fcs m))
  unfolding package_new_ptp_msg get_msg_len_from_pkg
  package_new_ptp_msg-Carries f = (
    sent,
    unfold sent in rw (package_msg-sealed f.len_fits) refl,
    sent-Carries f,
    unfold sent in refl,
    omega (arith, (sent-Carries f).length_field, f.len_fits),
    rw fcs-sent (
        calc_msg_xor_in_range sent (omega (arith, (sent-Carries f).length_field))
          (omega (arith, (sent-Carries f).length_field, f.len_fits))),
  )

  sent_old : ℕ → Bytes
  unfolding sealed
  sent_old cmd = set_u8 (set_u8 sealed 8 1) 7 cmd

  sent_old-Carries :
      (cmd : ℕ)
      → FitsTypes self_pid event_id dst len ack
      → Carries self_pid event_id dst data_ len ack (sent_old cmd)
  unfolding sent_old
  sent_old-Carries cmd f =
      Carries-Agree sized (sent_old cmd) (λ i o p q l. ground arith) (headed-Carries f)

  -- `package_old_ptp_msg` on a zeroed package with a body that fits yields a package that carries the
  -- arguments and the command type, marks the old protocol, and is as long as its body says.
  pub package_old_ptp_msg-Carries :
      (cmd : ℕ)
      → cmd < 256
      → FitsTypes self_pid event_id dst len ack
      → (m : Bytes) × (package_old_ptp_msg self_pid zeros event_id
            (some dst)
            (some data_)
            len
            cmd
            ack
          ≡ some m)
        × Carries self_pid event_id dst data_ len ack m
        × (protocol_type m ≡ 1)
        × (cmd_type_old m ≡ cmd)
        × (get_msg_len_from_pkg (some m) ≡ len)
  unfolding package_old_ptp_msg get_msg_len_from_pkg
  package_old_ptp_msg-Carries cmd h f = (
    sent_old cmd,
    unfold sent_old in rw (package_msg-sealed f.len_fits) refl,
    sent_old-Carries cmd f,
    unfold sent_old in refl,
    unfold sent_old in omega arith,
    omega (arith, (sent_old-Carries cmd f).length_field, f.len_fits),
  )
