-- ===== src/Exter.antt =====
-- `recv_msg_from_exter` and `send_msg_to_remote` of app/msg_util.c: messages from and to the other
-- devices. The reads of the line, the lock and the end of the wait are arguments.
pub mod Remote
pub mod OldRemote
pub mod Noise
pub mod Rejects
use comm_traffic_center.Base.{
  ◌&&◌, ◌||◌, ltb, ℕ, Bool, Option, none, some, ◌>>=◌, List, [], Bytes, zeros, ◌==◌, if◌then◌else◌,
  Status, success, failed, continue,
}
use comm_traffic_center.Package.{pkg_size, protocol_type, ack_flag, old_ptp, no_ack}
use comm_traffic_center.OldFrame.{convert_new_to_old}
use comm_traffic_center.Check.{msg_check}
use comm_traffic_center.Receive.{
  Receiver, Chunk, Outcome, fault, waiting, returns, try_recv_full_msg,
}
use comm_traffic_center.Infra.Rs485.{Action, WaitEnd, send_to_rs485, send_to_rs485_sync}

checked : Bytes → Receiver → Bytes → Option Status → Outcome
checked msg s rcv_buf none = fault
checked msg s rcv_buf (some success) = returns success rcv_buf s
checked msg s rcv_buf (some _) = returns failed msg s

received : Bytes → Outcome → Outcome
unfolding checked
received msg fault = fault
received msg (waiting rcv_buf s) = waiting msg s
received msg (returns success rcv_buf s) = checked msg s rcv_buf (msg_check rcv_buf)
received msg (returns _ rcv_buf s) = returns failed msg s

-- `*msg` is written on success only.
unfoldable pub recv_msg_from_exter : Bool → List Chunk → Bytes → Receiver → Outcome
unfolding received
recv_msg_from_exter char_signed cs msg s = received msg (try_recv_full_msg char_signed cs zeros s)

-- `write` reads `send_len` bytes of `send_msg`, which is as large as a package; it is not reached where
-- the lock of `send_to_rs485_sync` fails.
transmit : Bool → Bool → WaitEnd → Bytes → ℕ → Option (Status × List Action)
transmit needs_no_ack locked wait send_msg send_len =
    if (needs_no_ack || locked) && ltb pkg_size send_len
    then none
    else some (
        if needs_no_ack
        then send_to_rs485 (some send_msg) send_len
        else send_to_rs485_sync locked wait (some send_msg) send_len)

unfoldable pub send_msg_to_remote :
    Bool → Bool → WaitEnd → Option Bytes → ℕ → Option (Status × List Action)
unfolding transmit
send_msg_to_remote char_signed locked wait none len = some (failed, [])
send_msg_to_remote char_signed locked wait (some msg) len =
    if protocol_type msg == old_ptp
    then (convert_new_to_old char_signed msg zeros >>= λ (send_len, send_msg).
        transmit (no_ack == ack_flag msg) locked wait send_msg send_len)
    else transmit (no_ack == ack_flag msg) locked wait msg len
