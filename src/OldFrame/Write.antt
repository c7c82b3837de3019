-- ===== src/OldFrame/Write.antt =====
-- The old frame that a package is written as, and the way back.
use comm_traffic_center.Base.{
  ℕ, ◌+◌, ◌-◌, ◌%◌, ◌≤◌, ◌<◌, ◌≡◌, refl, ◌∙◌, arith, Bool, false, some, Bytes, IsBytes, zeros,
  set_u8, copy_at, offset, Agree, copy_at-inside, copy_at-outside, success,
}
use comm_traffic_center.Package.{
  event, total_len, cmd_type_old, dst_dir, body, wrapped_len, protocol_type, get_msg_len_from_pkg,
}
use comm_traffic_center.Package.Checksum.{check_485fcs, check_485fcs-lt, check_485fcs-Agree}
use comm_traffic_center.OldFrame.{is_negative, old_head, convert_old_to_new, convert_new_to_old}
use comm_traffic_center.OldFrame.Roundtrip.{Reads, convert_old_to_new-Reads}
use comm_traffic_center.Check.{check_fcs}

-- The frame `f` carries the package `m` and `n` bytes of its body.
pub record Writes (m : Bytes) (n : ℕ) (f : Bytes) : Type 0 where
  pub mark_0 : f 0 ≡ b'S'
  pub mark_1 : f 1 ≡ b'M'
  pub shelf_written : f 2 ≡ m 12
  pub card_written : f 3 ≡ m 13
  pub cmd_written : f 4 ≡ m 7
  pub event_written : f 5 ≡ event m % 256
  pub len_written : f 6 ≡ n
  pub body_written : Agree n (offset f 7) (body m)
  pub sum_written : f (7 + n) ≡ check_485fcs (offset f 2) (n + 5)
  pub end_mark : f (8 + n) ≡ b'@'
  pub all_bytes : IsBytes f

module _ (m : Bytes) (bytes : IsBytes m) where
  abbrev written : ℕ
  written = wrapped_len (total_len m) % 256

  abbrev headed : Bytes
  headed = old_head m zeros

  abbrev copied : Bytes
  copied = copy_at headed 7 (body m) written

  abbrev summed : Bytes
  summed = set_u8 copied (7 + written) (check_485fcs (offset copied 2) (written + 3 + 2))

  abbrev framed : Bytes
  framed = set_u8 summed (7 + written + 1) b'@'

  headed_len : headed 6 ≡ written
  unfolding old_head get_msg_len_from_pkg
  headed_len = refl

  convert_new_to_old-framed :
      (char_signed : Bool)
      → is_negative char_signed written ≡ false
      → convert_new_to_old char_signed m zeros ≡ some (written + 9, framed)
  unfolding convert_new_to_old
  convert_new_to_old-framed char_signed plain = rw (headed_len, plain) (ground arith)

  framed_head : (i : ℕ) → i < 7 → framed i ≡ headed i
  framed_head i h = ground (arith, copy_at-outside headed (body m) 7 written i)

  framed-copied : (i : ℕ) → i < 7 + written → framed i ≡ copied i
  framed-copied i h = ground arith

  copied-IsBytes : IsBytes copied
  unfolding copy_at old_head
  copied-IsBytes i = ground (arith, bytes (17 + (i - 7)))

  framed-IsBytes : IsBytes framed
  framed-IsBytes i = ground (arith, copied-IsBytes i)

  framed_sum : framed (7 + written) ≡ check_485fcs (offset framed 2) (written + 5)
  framed_sum =
      let e : written + 3 + 2 ≡ written + 5 = omega arith in
      let same =
        check_485fcs-Agree (offset framed 2) (offset copied 2) (written + 5)
          λ k p. framed-copied (2 + k) (omega arith) in
      rw (same, e) (ground (arith, check_485fcs-lt (offset copied 2) (written + 5)))

  framed-Writes : Writes m written framed
  unfolding old_head get_msg_len_from_pkg
  framed-Writes = record {
    mark_0 = ground (arith, framed_head 0);
    mark_1 = ground (arith, framed_head 1);
    shelf_written = ground (arith, framed_head 2, bytes 12);
    card_written = ground (arith, framed_head 3, bytes 13);
    cmd_written = ground (arith, framed_head 4, bytes 7);
    event_written = ground (arith, framed_head 5);
    len_written = ground (arith, framed_head 6);
    body_written =
        λ i h. framed-copied (7 + i) (omega arith) ∙ copy_at-inside headed (body m) 7 written i h;
    sum_written = framed_sum;
    end_mark = ground arith;
    all_bytes = framed-IsBytes;
  }

-- A package, with a body length whose low byte is below 128 where `char` is signed, is written as
-- an old frame: the marks, its shelf, card and command type, the low byte of its event, a length,
-- that many bytes of its body, the sum and the end mark. The length is the body length modulo 256,
-- and the frame has nine bytes more.
pub convert_new_to_old-Writes :
    (char_signed : Bool) (m : Bytes)
    → IsBytes m
    → is_negative char_signed (get_msg_len_from_pkg (some m) % 256) ≡ false
    → (f : Bytes) × (convert_new_to_old char_signed m zeros
        ≡ some (get_msg_len_from_pkg (some m) % 256 + 9, f))
      × Writes m (get_msg_len_from_pkg (some m) % 256) f
unfolding get_msg_len_from_pkg
convert_new_to_old-Writes char_signed m bytes plain =
    (framed m bytes, convert_new_to_old-framed m bytes char_signed plain, framed-Writes m bytes)

pub convert_new_to_old_short :
    (char_signed : Bool) (m : Bytes)
    → IsBytes m
    → get_msg_len_from_pkg (some m) < 256
    → is_negative char_signed (get_msg_len_from_pkg (some m)) ≡ false
    → (f : Bytes) × (convert_new_to_old char_signed m zeros
        ≡ some (get_msg_len_from_pkg (some m) + 9, f))
      × Writes m (get_msg_len_from_pkg (some m)) f
convert_new_to_old_short char_signed m bytes short plain =
    let e : get_msg_len_from_pkg (some m) % 256 ≡ get_msg_len_from_pkg (some m) =
      omega (arith, short) in
    rw e at (convert_new_to_old-Writes char_signed m bytes (rw e plain))

-- A package with a body of exactly 256 bytes is written as an old frame of nine bytes whose length
-- is zero.
pub convert_new_to_old_empties :
    (char_signed : Bool) (m : Bytes)
    → IsBytes m
    → get_msg_len_from_pkg (some m) ≡ 256
    → (f : Bytes) × (convert_new_to_old char_signed m zeros ≡ some (9, f)) × (f 6 ≡ 0)
convert_new_to_old_empties char_signed m bytes e =
    let zero_len : get_msg_len_from_pkg (some m) % 256 ≡ 0 = omega (arith, e) in
    let (f, runs, w) = convert_new_to_old-Writes char_signed m bytes (rw zero_len (ground arith)) in
    (f, ground (arith, runs, zero_len), w.len_written ∙ zero_len)

-- `m'` is the old-protocol package with what the frame keeps of `m`.
pub record Restores (m : Bytes) (n : ℕ) (m' : Bytes) : Type 0 where
  pub same_event : event m' ≡ event m
  pub same_cmd : cmd_type_old m' ≡ cmd_type_old m
  pub same_shelf : (dst_dir m').shelf ≡ (dst_dir m).shelf
  pub same_card : (dst_dir m').card ≡ (dst_dir m).card
  pub same_len : total_len m' ≡ 17 + n
  pub marked_old : protocol_type m' ≡ 1
  pub same_body : Agree n (body m') (body m)

-- The way back of a frame that carries `m`.
module _ (char_signed : Bool) (m : Bytes) (n : ℕ) (short : n ≤ 248)
    (plain : is_negative char_signed n ≡ false) (ev : event m < 256)
    (ev_plain : is_negative char_signed (event m) ≡ false) (f : Bytes) (w : Writes m n f) where
  -- A package that is read from the frame restores what the frame keeps.
  pub Reads-Restores : (m' : Bytes) → Reads char_signed f n m' → Restores m n m'
  Reads-Restores m' r =
      let low : f 5 ≡ event m = omega (arith, w.event_written) in
      record {
        same_event = r.event_read ∙ rw (low, ev_plain);
        same_cmd = r.cmd_read ∙ w.cmd_written;
        same_shelf = ground (arith, r.dst_read, w.shelf_written);
        same_card = ground (arith, r.dst_read, w.card_written);
        same_len = r.len_read;
        marked_old = r.protocol_read;
        same_body = λ i h. r.body_read i h ∙ w.body_written i h;
      }

  came_back :
      (m' : Bytes) × (convert_old_to_new char_signed f ≡ some (success, m'))
      × Restores m n m'
      × (check_fcs m' ≡ some success)
  came_back =
      let (m', runs, r, accepted) =
        convert_old_to_new-Reads char_signed f n (λ i p. w.all_bytes i) w.len_written short plain in
      (m', runs, Reads-Restores m' r, accepted ∙ rw w.sum_written (ground arith))

-- A package with a body of at most 248 bytes and an event below 256 (both below 128 where `char` is
-- signed) comes back from its old frame with its event, command type, shelf, card, length and body,
-- marked as of the old protocol, and its checksum test succeeds.
pub convert_roundtrip :
    (char_signed : Bool) (m : Bytes)
    → IsBytes m
    → get_msg_len_from_pkg (some m) ≤ 248
    → is_negative char_signed (get_msg_len_from_pkg (some m)) ≡ false
    → event m < 256
    → is_negative char_signed (event m) ≡ false
    → (f : Bytes) × (m' : Bytes) × (convert_new_to_old char_signed m zeros
        ≡ some (get_msg_len_from_pkg (some m) + 9, f))
      × (convert_old_to_new char_signed f ≡ some (success, m'))
      × Restores m (get_msg_len_from_pkg (some m)) m'
      × (check_fcs m' ≡ some success)
convert_roundtrip char_signed m bytes short plain ev ev_plain =
    let n = get_msg_len_from_pkg (some m) in
    let (f, writes, w) =
      convert_new_to_old_short char_signed m bytes (omega (arith, short)) plain in
    let (m', reads, same, accepted) = came_back char_signed m n short plain ev ev_plain f w in
    (f, m', writes, reads, same, accepted)
