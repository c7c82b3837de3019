-- ===== src/Check.antt =====
-- `msg_check` of app/msg_util.c.
use comm_traffic_center.Base.{
  ℕ, ◌+◌, ◌%◌, Option, some, ◌>>=◌, Bytes, zeros, ◌==◌, if◌then◌else◌, Status, success, failed,
}
use comm_traffic_center.Package.{
  event, total_len, cmd_type_old, protocol_type, dst_dir, fcs, wrapped_len, old_ptp,
  get_self_card_id,
}
use comm_traffic_center.Package.Checksum.{calc_msg_xor, sum_loop}

-- The sum over an old message: shelf, card, command type, event, length, body, in eight bits.
unfoldable pub calc_old_sum : Bytes → ℕ
calc_old_sum msg =
    let data_len = wrapped_len (total_len msg) % 256 in
    let sum1 = (0 + (dst_dir msg).shelf) % 256 in
    let sum2 = (sum1 + (dst_dir msg).card) % 256 in
    let sum3 = (sum2 + cmd_type_old msg) % 256 in
    let sum4 = (sum3 + event msg) % 256 in sum_loop data_len 17 msg ((sum4 + data_len) % 256)

-- The checksum tests by protocol.
unfoldable pub check_fcs : Bytes → Option Status
unfolding calc_old_sum
check_fcs msg =
    if protocol_type msg == old_ptp
    then some (if calc_old_sum msg == fcs msg then success else failed)
    else do fcs_result ← calc_msg_xor msg; some (if fcs_result == fcs msg then success else failed)

-- The tests on the local variable `msg`.
unfoldable pub check_pkg : Bytes → Option Status
unfolding check_fcs
check_pkg msg = if get_self_card_id == (dst_dir msg).card + 2 then check_fcs msg else some failed

-- `msg` is `{0}` and the argument is not copied into it.
unfoldable pub msg_check : Bytes → Option Status
unfolding check_pkg
msg_check raw = let msg : Bytes = zeros in check_pkg msg
