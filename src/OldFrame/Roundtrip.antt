-- ===== src/OldFrame/Roundtrip.antt =====
-- An old frame read into a package, and a package written as an old frame.
use comm_traffic_center.Base.{
  ℕ, suc, ◌+◌, ◌-◌, ◌%◌, ◌≤◌, ◌<◌, ◌≡◌, refl, ◌∙◌, arith, Bool, false, some, Bytes, BytesBelow,
  zeros, copy_at, offset, Agree, copy_at-inside, copy_at-outside, ◌==◌, if◌then◌else◌, success,
  failed, inl,
}
use comm_traffic_center.Package.{
  event, total_len, cmd_type_old, protocol_type, dst_dir, fcs, body, wrapped_len,
}
use comm_traffic_center.Package.Checksum.{check_485fcs, sum_loop, sum_loop-agree}
use comm_traffic_center.OldFrame.{
  is_negative, char_to_u16, format_head, format_msg, convert_old_to_new,
}
use comm_traffic_center.Check.{calc_old_sum, check_fcs}

-- The package `m` says what the old frame `f` with `n` body bytes says.
pub record Reads (char_signed : Bool) (f : Bytes) (n : ℕ) (m : Bytes) : Type 0 where
  pub event_read : event m ≡ char_to_u16 char_signed (f 5)
  pub cmd_read : cmd_type_old m ≡ f 4
  pub dst_read : dst_dir m ≡ record { shelf = f 2; card = f 3; pid = 1 }
  pub len_read : total_len m ≡ 17 + n
  pub protocol_read : protocol_type m ≡ 1
  pub body_read : Agree n (body m) (offset f 7)
  pub fcs_read : fcs m ≡ f ((7 + n) % 256)

module _ (char_signed : Bool) (f : Bytes) (n : ℕ) (bytes : BytesBelow (n + 9) f) (len : f 6 ≡ n)
    (plain : is_negative char_signed n ≡ false) where
  abbrev formatted : Bytes
  formatted = format_msg char_signed f n

  abbrev converted : Bytes
  converted = copy_at zeros 0 formatted (n + 17)

  n-lt : n < 256
  n-lt = rw (← len) (bytes 6 (omega arith))

  converted-formatted : (i : ℕ) → i < n + 17 → converted i ≡ formatted i
  converted-formatted i h =
      let e : 0 + i ≡ i = omega arith in rw e at (copy_at-inside zeros formatted 0 (n + 17) i h)

  convert_old_to_new-converted : convert_old_to_new char_signed f ≡ some (success, converted)
  unfolding convert_old_to_new
  convert_old_to_new-converted = rw (len, plain) (ground (arith, n-lt))

  converted_head : (i : ℕ) → i < 17 → converted i ≡ format_head char_signed f n i
  unfolding format_msg
  converted_head i h =
      converted-formatted i (omega arith)
      ∙ copy_at-outside (format_head char_signed f n) (offset f 7) 17 n i (inl h)

  converted-body : Agree n (body converted) (offset f 7)
  unfolding format_msg
  converted-body i h =
      converted-formatted (17 + i) (omega arith)
      ∙ copy_at-inside (format_head char_signed f n) (offset f 7) 17 n i h

  converted-Reads : Reads char_signed f n converted
  unfolding format_head
  converted-Reads = record {
    event_read = ground (arith, converted_head 4, converted_head 5, bytes 5 (omega arith));
    cmd_read = ground (arith, converted_head 7, bytes 4 (omega arith));
    dst_read = ground (
      arith,
      converted_head 12,
      converted_head 13,
      converted_head 14,
      bytes 2 (omega arith),
      bytes 3 (omega arith),
    );
    len_read = ground (arith, converted_head 2, converted_head 3, n-lt);
    protocol_read = ground (arith, converted_head 8);
    body_read = converted-body;
    fcs_read = ground (arith, converted_head 16, bytes ((7 + n) % 256) (omega (arith, n-lt)));
  }

five_rounds :
    (g : Bytes) (n : ℕ)
    → sum_loop (n + 5) 0 g 0
      ≡ sum_loop n 5 g ((((((0 + g 0) % 256 + g 1) % 256 + g 2) % 256 + g 3) % 256 + g 4) % 256)
unfolding sum_loop
five_rounds g n = let e : n + 5 ≡ suc (suc (suc (suc (suc n)))) = omega arith in rw e

module _ (char_signed : Bool) (f : Bytes) (n : ℕ) (small : n < 256) (len : f 6 ≡ n) (m : Bytes)
    (r : Reads char_signed f n m) where
  -- The sum that `msg_check` computes is that of the frame.
  calc_old_sum-frame : calc_old_sum m ≡ check_485fcs (offset f 2) (n + 5)
  unfolding calc_old_sum check_485fcs
  calc_old_sum-frame =
      let lens : wrapped_len (total_len m) % 256 ≡ n = rw (r.len_read) (omega (arith, small)) in
      rw (five_rounds (offset f 2) n, lens)
        (rw accs (
          sum_loop-agree n 17 5 m (offset f 2) _
            λ k p. let e : 2 + (5 + k) ≡ 7 + k = omega arith in rw e (r.body_read k p)))
    where
      accs :
          (((((((0 + m 12) % 256 + m 13) % 256) + m 7) % 256 + event m) % 256) + n) % 256
          ≡ (((((0 + f 2) % 256 + f 3) % 256 + f 4) % 256 + f 5) % 256 + f 6) % 256
      accs = ground (arith, r.dst_read, r.cmd_read, r.event_read, len)

-- An old frame of at most 248 body bytes (below 128 where `char` is signed) is turned into a package
-- with its event, command type, shelf, card, length and body, and the checksum test on that package
-- succeeds exactly when the byte behind the body is the sum of the frame.
pub convert_old_to_new-Reads :
    (char_signed : Bool) (f : Bytes) (n : ℕ)
    → BytesBelow (n + 9) f
    → f 6 ≡ n
    → n ≤ 248
    → is_negative char_signed n ≡ false
    → (m : Bytes) × (convert_old_to_new char_signed f ≡ some (success, m))
      × Reads char_signed f n m
      × (check_fcs m
          ≡ some (if check_485fcs (offset f 2) (n + 5) == f (7 + n) then success else failed))
unfolding check_fcs
convert_old_to_new-Reads char_signed f n bytes len small plain =
    let r = converted-Reads char_signed f n bytes len plain in
    let s =
      calc_old_sum-frame char_signed f n (omega arith) len
        (converted char_signed f n bytes len plain) r in
    let e : (7 + n) % 256 ≡ 7 + n = omega arith in
    (
      converted char_signed f n bytes len plain,
      convert_old_to_new-converted char_signed f n bytes len plain,
      r,
      rw (r.protocol_read, s, r.fcs_read, e),
    )

-- With 249 to 255 body bytes (and a plain `char` that is unsigned) the place of the sum wraps: the
-- package gets a byte of the frame's head for its checksum, whatever the byte behind the body is.
pub convert_old_to_new_wraps :
    (f : Bytes) (n : ℕ)
    → BytesBelow (n + 9) f
    → f 6 ≡ n
    → 249 ≤ n
    → (m : Bytes) × (convert_old_to_new false f ≡ some (success, m)) × (fcs m ≡ f (n - 249))
convert_old_to_new_wraps f n bytes len big =
    let small : n < 256 = rw (← len) (bytes 6 (omega arith)) in
    let e : (7 + n) % 256 ≡ n - 249 = omega arith in
    (
      converted false f n bytes len refl,
      convert_old_to_new-converted false f n bytes len refl,
      rw e at ((converted-Reads false f n bytes len refl).fcs_read),
    )
