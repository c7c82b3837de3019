-- ===== src/Infra/Mq.antt =====
-- infra/mq_util.c. What `mq_open`, `mq_timedsend` and `mq_timedreceive` answer is an argument: a
-- function of what the code passes, and the message that was received.
use comm_traffic_center.Base.{
  ℕ, ◌+◌, Option, none, some, Bytes, ℤ, is_minus_one, is_nonzero, is_not_pos, if◌then◌else◌, Status,
  success, failed,
}

-- `mq_maxmsg` and `mq_msgsize`, and the queue's descriptor.
pub record Queue : Type 0 where
  pub mq_maxmsg : ℕ
  pub mq_msgsize : ℕ
  pub mqdes_int : ℤ

-- `mq_open` answers `mqd` on the attributes that it is given.
unfoldable pub open_msg_queue : (ℕ → ℕ → ℤ) → ℕ → Queue → Status × Queue
open_msg_queue mq_open msg_size q =
    let opened : Queue = record {
      mq_maxmsg = 64;
      mq_msgsize = msg_size;
      mqdes_int = mq_open 64 msg_size;
    } in
    if is_minus_one opened.mqdes_int then (failed, opened) else (success, opened)

-- The descriptor that is closed.
unfoldable pub close_msg_queue : Queue → ℤ
close_msg_queue q = q.mqdes_int

-- `mq_timedsend` answers by the message, its length and the second at which it gives up.
unfoldable pub send_msg_to_mq : (Bytes → ℕ → ℕ → ℤ) → ℕ → Option Bytes → ℕ → Status
send_msg_to_mq mq_timedsend now none len = failed
send_msg_to_mq mq_timedsend now (some m) len =
    if is_nonzero (mq_timedsend m len (now + 1)) then failed else success

-- `mq_timedreceive` answers the number of bytes, and the buffer that it has filled.
unfoldable pub recv_msg_from_mq :
    (Bytes → ℕ → ℕ → ℤ × Bytes) → ℕ → Option Bytes → ℕ → Status × Option Bytes
recv_msg_from_mq mq_timedreceive now none len = (failed, none)
recv_msg_from_mq mq_timedreceive now (some m) len =
    let (rcvd, m') = mq_timedreceive m len (now + 1) in
    if is_not_pos rcvd then (failed, some m') else (success, some m')
