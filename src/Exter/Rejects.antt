-- ===== src/Exter/Rejects.antt =====
-- `msg_check` looks at a message of zeros, so it lets nothing through.
use comm_traffic_center.Base.{◌≢◌, Bool, List, Bytes, zeros, success, failed, continue}
use comm_traffic_center.Check.{msg_check}
use comm_traffic_center.Receive.{
  Receiver, Chunk, Outcome, fault, waiting, returns, try_recv_full_msg,
}
use comm_traffic_center.Exter.{received, recv_msg_from_exter}

received-rejects :
    (msg : Bytes) (o : Outcome) (got : Bytes) (s : Receiver)
    → received msg o ≢ returns success got s
unfolding received msg_check
received-rejects msg fault got s e = cc
received-rejects msg (waiting b r) got s e = cc
received-rejects msg (returns success b r) got s e = cc
received-rejects msg (returns failed b r) got s e = cc
received-rejects msg (returns continue b r) got s e = cc

-- `recv_msg_from_exter` never returns SUCCESS, whatever arrives on the line: a complete and sound
-- message is refused like any other.
pub recv_msg_from_exter-rejects :
    (char_signed : Bool) (cs : List Chunk) (msg : Bytes) (s : Receiver) (got : Bytes)
    (s' : Receiver)
    → recv_msg_from_exter char_signed cs msg s ≢ returns success got s'
unfolding recv_msg_from_exter
recv_msg_from_exter-rejects c cs msg s got s' =
    received-rejects msg (try_recv_full_msg c cs zeros s) got s'
