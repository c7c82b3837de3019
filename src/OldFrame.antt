-- ===== src/OldFrame.antt =====
-- `convert_old_to_new` and `convert_new_to_old` of app/msg_util.c. An old frame is 'S' 'M', shelf,
-- card, command type, command, length, that many bytes, their sum and '@'. Whether a plain `char` is
-- signed is the platform's: `char_signed` is an argument. A `memcpy` of a negative length is a fault.
pub mod Roundtrip
pub mod Write
pub mod Corrupt
use comm_traffic_center.Base.{
  ℕ, ◌+◌, ◌%◌, Bool, ◌&&◌, Option, none, some, Bytes, zeros, set_u8, set_u16, copy_at, offset, ltb,
  leb, if◌then◌else◌, Status, success, failed,
}
use comm_traffic_center.Package.{
  event, cmd_type_old, dst_dir, body, overhead, max_ext_msg_len, old_ptp, get_pid_by_event,
  get_msg_len_from_pkg,
}
use comm_traffic_center.Package.Checksum.{check_485fcs}

-- Whether a `char` with these bits is negative.
abbrev pub is_negative : Bool → ℕ → Bool
is_negative char_signed c = char_signed && leb 128 c

-- A `char` converted to `uint16_t`.
abbrev pub char_to_u16 : Bool → ℕ → ℕ
char_to_u16 char_signed c = if is_negative char_signed c then c + 65280 else c

-- The head and the `fcs` that are made from an old frame with `len` body bytes.
unfoldable pub format_head : Bool → Bytes → ℕ → Bytes
unfolding get_pid_by_event
format_head char_signed raw len =
    let magic = set_u8 (set_u8 zeros 0 0xAA) 1 0x55 in
    let kind = set_u8 (set_u16 magic 4 (char_to_u16 char_signed (raw 5))) 7 (raw 4) in
    let to = set_u8 (set_u8 kind 12 (raw 2)) 13 (raw 3) in
    let whom = set_u8 to 14 (get_pid_by_event (event to)) in
    let sized = set_u8 (set_u16 whom 2 (len + overhead)) 8 old_ptp in
    let check_sum_offset = (7 + len) % 256 in set_u8 sized 16 (raw check_sum_offset)

-- The package that the frame is turned into.
unfoldable pub format_msg : Bool → Bytes → ℕ → Bytes
format_msg char_signed raw len =
    copy_at (format_head char_signed raw len) overhead (offset raw 7) len

-- Works in place on `raw_msg`.
unfoldable pub convert_old_to_new : Bool → Bytes → Option (Status × Bytes)
unfolding format_msg
convert_old_to_new char_signed raw_msg =
    let len = raw_msg 6 in
    if is_negative char_signed len
    then none
    else if ltb max_ext_msg_len len
    then some (failed, raw_msg)
    else some (success, copy_at zeros 0 (format_msg char_signed raw_msg len) (len + overhead))

-- The head and the body of the old frame, before its sum and its end mark.
unfoldable pub old_head : Bytes → Bytes → Bytes
unfolding get_msg_len_from_pkg
old_head new_msg old_msg =
    let magic = set_u8 (set_u8 old_msg 0 b'S') 1 b'M' in
    let to = set_u8 (set_u8 magic 2 (dst_dir new_msg).shelf) 3 (dst_dir new_msg).card in
    let kind = set_u8 (set_u8 to 4 (cmd_type_old new_msg)) 5 (event new_msg) in
    set_u8 kind 6 (get_msg_len_from_pkg (some new_msg))

-- The frame and its length.
unfoldable pub convert_new_to_old : Bool → Bytes → Bytes → Option (ℕ × Bytes)
unfolding old_head
convert_new_to_old char_signed new_msg old_msg =
    let headed = old_head new_msg old_msg in
    let len = headed 6 in
    let filled = copy_at headed 7 (body new_msg) len in
    let summed = set_u8 filled (7 + len) (check_485fcs (offset filled 2) (len + 3 + 2)) in
    if is_negative char_signed len
    then none
    else some (len + 7 + 2, set_u8 summed (7 + len + 1) b'@')
