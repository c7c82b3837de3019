-- ===== src/Package/Build.antt =====
-- `package_msg`, `package_new_ptp_msg`, `package_old_ptp_msg` and `is_cross_dev` of app/msg_util.c.
-- The callers pass the address of a local package, so that argument is never null.
use comm_traffic_center.Base.{
  ℕ, ◌+◌, Bool, true, false, ◌&&◌, Option, none, some, ◌>>=◌, Bytes, set_u8, set_u16, copy_at, ltb,
  ◌==◌, if◌then◌else◌,
}
use comm_traffic_center.Package.{
  Direction, overhead, pkg_size, old_ptp, new_ptp, get_self_shelf_id, get_self_card_id,
}
use comm_traffic_center.Package.Checksum.{calc_msg_xor}

unfoldable pub is_cross_dev : ℕ → ℕ → Bool
is_cross_dev dst_shelf_no dst_card_no =
    if dst_shelf_no == get_self_shelf_id && dst_card_no == get_self_card_id then false else true

-- The assignments up to the body: magic word, event, acknowledgement, destination, source.
unfoldable pub write_head : ℕ → Bytes → ℕ → Direction → ℕ → Bytes
write_head self_pid msg_buff event_id dst ack =
    let magic = set_u8 (set_u8 msg_buff 0 0xAA) 1 0x55 in
    let kind = set_u8 (set_u16 magic 4 event_id) 6 ack in
    let to = set_u8 (set_u8 (set_u8 kind 12 dst.shelf) 13 dst.card) 14 dst.pid in
    set_u8 (set_u8 (set_u8 to 9 get_self_shelf_id) 10 get_self_card_id) 11 self_pid

-- The body; a copy that runs past the package is a fault.
unfoldable pub write_body : Bytes → Option Bytes → ℕ → Option Bytes
write_body msg_buff none data_len = some msg_buff
write_body msg_buff (some data_tmp) data_len =
    if ltb pkg_size (overhead + data_len)
    then none
    else some (copy_at msg_buff overhead data_tmp data_len)

unfoldable pub package_msg : ℕ → Bytes → ℕ → Option Direction → Option Bytes → ℕ → ℕ → Option Bytes
unfolding write_head write_body
package_msg self_pid msg_buff event_id none data_tmp data_len is_ack = some msg_buff
package_msg self_pid msg_buff event_id (some dst_dir) data_tmp data_len is_ack = do
  filled ← write_body (write_head self_pid msg_buff event_id dst_dir is_ack) data_tmp data_len
  let sized = set_u16 filled 2 (overhead + data_len)
  sum ← calc_msg_xor sized
  some (set_u8 sized 16 sum)

unfoldable pub package_new_ptp_msg :
    ℕ → Bytes → ℕ → Option Direction → Option Bytes → ℕ → ℕ → Option Bytes
package_new_ptp_msg self_pid msg_buff event_id dst_dir data_tmp data_len is_ack = do
  m ← package_msg self_pid msg_buff event_id dst_dir data_tmp data_len is_ack
  some (set_u8 m 8 new_ptp)

unfoldable pub package_old_ptp_msg :
    ℕ → Bytes → ℕ → Option Direction → Option Bytes → ℕ → ℕ → ℕ → Option Bytes
package_old_ptp_msg self_pid msg_buff event_id dst_dir data_tmp data_len cmd_type is_ack = do
  m ← package_msg self_pid msg_buff event_id dst_dir data_tmp data_len is_ack
  some (set_u8 (set_u8 m 8 old_ptp) 7 cmd_type)
