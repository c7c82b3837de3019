-- ===== src/Package.antt =====
-- api/ctc_def.h, utils/hw_info.c and the field readers of app/msg_util.c: the message package as it
-- lies in memory. A package is its bytes. The compiler puts `magic` at 0, `total_len` at 2, `event`
-- at 4, `ack_flag` at 6, `cmd_type_old` at 7, `protocol_type` at 8, `src_dir` at 9, `dst_dir` at 12,
-- a byte of padding at 15, `fcs` at 16 and `data` at 17; `uint16_t` lies low byte first.
pub mod Build
pub mod Fields
pub mod Corrupt
pub mod Typed
pub mod Checksum
use comm_traffic_center.Base.{
  ℕ, ◌+◌, ◌-◌, ◌*◌, ◌%◌, Option, none, some, Bytes, zeros, filled, get_u16, offset,
}

abbrev pub need_ack : ℕ
need_ack = 1

abbrev pub no_ack : ℕ
no_ack = 0

abbrev pub invalid : ℕ
invalid = 255

-- `INVALID_UINT16` is `(uint8_t)0xFFFF`, so INVALID_EVENT is 255.
abbrev pub invalid_event : ℕ
invalid_event = 255

abbrev pub max_body_len : ℕ
max_body_len = 4096

abbrev pub max_ext_msg_len : ℕ
max_ext_msg_len = 256

abbrev pub old_ptp : ℕ
old_ptp = 1

abbrev pub new_ptp : ℕ
new_ptp = 0

-- `sizeof(Msg_head)`, `sizeof(Msg_head) + sizeof(fcs)` and `sizeof(Msg_pkg)`.
abbrev pub head_size : ℕ
head_size = 16

abbrev pub overhead : ℕ
overhead = 17

abbrev pub pkg_size : ℕ
pkg_size = 4114

-- `MAX_MSG_NUM`
abbrev pub max_msg_num : ℕ
max_msg_num = 64

pub record Direction : Type 0 where
  pub shelf : ℕ
  pub card : ℕ
  pub pid : ℕ

-- The fields of a package.
abbrev pub total_len : Bytes → ℕ
total_len m = get_u16 m 2

abbrev pub event : Bytes → ℕ
event m = get_u16 m 4

abbrev pub ack_flag : Bytes → ℕ
ack_flag m = m 6

abbrev pub cmd_type_old : Bytes → ℕ
cmd_type_old m = m 7

abbrev pub protocol_type : Bytes → ℕ
protocol_type m = m 8

abbrev pub src_dir : Bytes → Direction
src_dir m = record { shelf = m 9; card = m 10; pid = m 11 }

abbrev pub dst_dir : Bytes → Direction
dst_dir m = record { shelf = m 12; card = m 13; pid = m 14 }

abbrev pub fcs : Bytes → ℕ
fcs m = m 16

abbrev pub body : Bytes → Bytes
body m = offset m 17

abbrev pub get_self_card_id : ℕ
get_self_card_id = 1

abbrev pub get_self_shelf_id : ℕ
get_self_shelf_id = 1

unfoldable pub get_pid_by_event : ℕ → ℕ
get_pid_by_event event_id = 1

-- The readers take the pointer to `data` of a package, or a null pointer; `container_of` finds the
-- package, and the model names it directly.
abbrev pub no_direction : Direction
no_direction = record { shelf = invalid; card = invalid; pid = invalid }

unfoldable pub get_src_info : Option Bytes → Direction
get_src_info none = no_direction
get_src_info (some m) = src_dir m

unfoldable pub get_dst_info : Option Bytes → Direction
get_dst_info none = no_direction
get_dst_info (some m) = dst_dir m

unfoldable pub get_event_id : Option Bytes → ℕ
get_event_id none = invalid_event
get_event_id (some m) = event m

-- The null case returns INVALID_EVENT cast to `uint8_t`.
unfoldable pub get_old_cmd_type : Option Bytes → ℕ
get_old_cmd_type none = invalid_event % 256
get_old_cmd_type (some m) = cmd_type_old m

unfoldable pub get_event_head : Option Bytes → Bytes
get_event_head none = filled 255
get_event_head (some m) = m

-- `uint16_t data_len = total_len - 16 - 1`, which wraps.
abbrev pub wrapped_len : ℕ → ℕ
wrapped_len n = (n + 65536 - overhead) % 65536

unfoldable pub get_msg_len_from_pkg : Option Bytes → ℕ
get_msg_len_from_pkg none = 0
get_msg_len_from_pkg (some m) = wrapped_len (total_len m)

unfoldable pub get_msg_len : Option Bytes → ℕ
get_msg_len none = 0
get_msg_len (some m) = wrapped_len (total_len m)
