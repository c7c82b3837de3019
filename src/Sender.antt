-- ===== src/Sender.antt =====
-- app/msg_sender.c and `transmit_msg` of app/msg_util.c. A send answers a status and its effects; the
-- option is `none` where it goes through a null destination.
pub mod Routes
use comm_traffic_center.Base.{
  ℕ, Option, none, some, ◌>>=◌, List, [], ◌∷◌, Bytes, zeros, ℤ, ltb, if◌then◌else◌, Status, success,
  failed, is_success,
}
use comm_traffic_center.Package.{
  Direction, max_body_len, max_ext_msg_len, pkg_size, need_ack, no_ack, get_self_shelf_id,
  get_self_card_id,
}
use comm_traffic_center.Package.Build.{is_cross_dev, package_new_ptp_msg, package_old_ptp_msg}
use comm_traffic_center.Infra.Mq.{send_msg_to_mq}
use comm_traffic_center.Socket.{System, Effect, queued, send_msg_to_local}

-- The sending process: its number, the system's answers, and the time.
pub record Env : Type 0 where
  pub self_pid : ℕ
  pub sys : System
  pub mq_timedsend : Bytes → ℕ → ℕ → ℤ
  pub now : ℕ

abbrev pub Sends : Type 0
Sends = Option (Status × List Effect)

unfoldable pub transmit_msg : Env → Bytes → ℕ → Status × List Effect
transmit_msg env m len =
    let s = send_msg_to_mq env.mq_timedsend env.now (some m) len in
    (s, if is_success s then queued m len ∷ [] else [])

unfoldable pub ctc_send_msg : Env → ℕ → Option Direction → Option Bytes → ℕ → ℕ → Sends
ctc_send_msg env event dst_dir data_ len is_need_ack =
    if ltb max_body_len len then some (failed, []) else do
      msg ← package_new_ptp_msg env.self_pid zeros event dst_dir data_ len is_need_ack
      dst ← dst_dir
      if is_cross_dev dst.shelf dst.card
          then (if ltb max_ext_msg_len len
              then some (failed, [])
              else some (transmit_msg env msg pkg_size))
          else some (send_msg_to_local env.sys dst.pid msg pkg_size)

unfoldable pub ctc_send_old_msg : Env → ℕ → Option Direction → Option Bytes → ℕ → ℕ → ℕ → Sends
ctc_send_old_msg env event dst_dir data_ len cmd_type is_need_ack =
    if ltb max_body_len len then some (failed, []) else do
      msg ← package_old_ptp_msg env.self_pid zeros event dst_dir data_ len cmd_type is_need_ack
      if ltb max_ext_msg_len len then some (failed, []) else some (transmit_msg env msg pkg_size)

unfoldable pub ctc_send_sync_msg : Env → ℕ → Option Direction → Option Bytes → ℕ → Sends
unfolding ctc_send_msg
ctc_send_sync_msg env event dst_dir data_ len = ctc_send_msg env event dst_dir data_ len need_ack

unfoldable pub ctc_send_asyn_msg : Env → ℕ → Option Direction → Option Bytes → ℕ → Sends
unfolding ctc_send_msg
ctc_send_asyn_msg env event dst_dir data_ len = ctc_send_msg env event dst_dir data_ len no_ack

abbrev pub self_dir : ℕ → Direction
self_dir pid = record { shelf = get_self_shelf_id; card = get_self_card_id; pid = pid }

unfoldable pub ctc_send_inter_msg : Env → ℕ → ℕ → Option Bytes → ℕ → ℕ → Sends
unfolding ctc_send_msg
ctc_send_inter_msg env event pid data_ len ack_flag =
    ctc_send_msg env event (some (self_dir pid)) data_ len ack_flag
