-- ===== src/Infra/Rs485.antt =====
-- infra/rs485_util.c: opening the line, sending on it, and waiting for an acknowledgement. The bodies
-- of `set_serial_opt` and of the `ioctl` calls are commented out in the source.
use mathlib.Core.Logic.{◌↔◌}
use comm_traffic_center.Base.{
  ℕ, ◌+◌, ◌*◌, ◌≡◌, ◌≢◌, refl, arith, Bool, true, false, ◌&&◌, Option, none, some, List, [], ◌∷◌,
  Bytes, ℤ, pos, negsuc, is_neg, is_minus_one, if◌then◌else◌, Status, success, failed,
}

-- `ctc_gpio_fd`, `frs485_fd`, and whether the condition of `ack_syncer` is initialised.
pub record Line : Type 0 where
  pub ctc_gpio_fd : ℤ
  pub frs485_fd : ℤ
  pub ack_ready : Bool

-- Descriptors that a call closes.
abbrev pub Closed : Type 0
Closed = List ℤ

-- `open("/dev/ttyS8", ..)` answers `fd`; FAILED is 255.
unfoldable pub iomon_get_frs485_fd : ℤ → ℤ
iomon_get_frs485_fd fd = if is_neg fd then pos 255 else fd

unfoldable pub create_ack_ayncer : Line → Line
create_ack_ayncer l = record l { ack_ready = true }

unfoldable pub destroy_ack_ayncer : Line → Line
destroy_ack_ayncer l = record l { ack_ready = false }

-- `open("/dev/gpio_485_RE", ..)` answers `fd`.
unfoldable pub init_gpio : ℤ → Line → Status × Line
init_gpio fd l =
    if is_neg fd
    then (failed, record l { ctc_gpio_fd = fd })
    else (success, record l { ctc_gpio_fd = fd })

open_line : Status → ℤ → Line → Status × Line × Closed
unfolding iomon_get_frs485_fd create_ack_ayncer destroy_ack_ayncer
open_line success tty l =
    let opened = record (create_ack_ayncer l) { frs485_fd = iomon_get_frs485_fd tty } in
    if is_minus_one opened.frs485_fd
    then (failed, destroy_ack_ayncer opened, opened.ctc_gpio_fd ∷ [])
    else (success, opened, [])
open_line _ tty l = (failed, l, [])

unfoldable pub open_rs485 : ℤ → ℤ → Line → Status × Line × Closed
unfolding open_line init_gpio
open_rs485 gpio tty l = let (s, l') = init_gpio gpio l in open_line s tty l'

unfoldable pub close_rs485 : Line → Line × Closed
unfolding destroy_ack_ayncer
close_rs485 l = (destroy_ack_ayncer l, l.ctc_gpio_fd ∷ l.frs485_fd ∷ [])

-- `read` answers `rc`, or FAILED on a null buffer.
unfoldable pub recv_from_rs485 : Option Bytes → ℤ → ℤ
recv_from_rs485 none rc = pos 255
recv_from_rs485 (some m) rc = rc

-- What a send does to the line, in order.
pub data Action : Type 0 where
  sleeps : ℕ → Action
  tx_en : Bool → Action
  writes : Bytes → ℕ → Action

-- `RS485_SEND_DATA_WAITTIME`, microseconds for a byte.
abbrev pub send_data_waittime : ℕ
send_data_waittime = 69

unfoldable pub send_to_rs485 : Option Bytes → ℕ → Status × List Action
send_to_rs485 none len = (failed, [])
send_to_rs485 (some m) len = (
  success,
  sleeps 10000
      ∷ tx_en true
      ∷ sleeps 100
      ∷ writes m len
      ∷ sleeps (len * send_data_waittime + 5000)
      ∷ tx_en false
      ∷ [],
)

-- How a timed wait on a condition ends; a wake-up need not come from a signal.
pub data WaitEnd : Type 0 where
  timed_out woken : WaitEnd

after_send : Status → WaitEnd → Status
after_send success timed_out = failed
after_send success woken = success
after_send _ w = failed

-- `locked` is whether `pthread_mutex_lock` answered 0.
unfoldable pub send_to_rs485_sync : Bool → WaitEnd → Option Bytes → ℕ → Status × List Action
unfolding send_to_rs485 after_send
send_to_rs485_sync locked wait m len =
    let (s, acts) = send_to_rs485 m len in
    if locked then (after_send s wait, acts) else (failed, [])

-- Where the `/dev/ttyS8` cannot be opened but the GPIO can, `open_rs485` answers SUCCESS all the same,
-- takes 255 for the line's descriptor and closes nothing.
pub open_rs485_undetected :
    (gpio n : ℕ) (l : Line)
    → open_rs485 (pos gpio) (negsuc n) l
      ≡ (success, record { ctc_gpio_fd = pos gpio; frs485_fd = pos 255; ack_ready = true }, [])
unfolding open_rs485
open_rs485_undetected gpio n l = refl

-- The line's transmitter while the actions run: whether it is on at the end, and whether every write
-- happened while it was on.
abbrev pub tx_after : Bool → List Action → Bool
tx_after on [] = on
tx_after on (sleeps n ∷ rest) = tx_after on rest
tx_after on (tx_en b ∷ rest) = tx_after b rest
tx_after on (writes m n ∷ rest) = tx_after on rest

abbrev pub writes_enabled : Bool → List Action → Bool
writes_enabled on [] = true
writes_enabled on (sleeps n ∷ rest) = writes_enabled on rest
writes_enabled on (tx_en b ∷ rest) = writes_enabled b rest
writes_enabled on (writes m n ∷ rest) = on && writes_enabled on rest

-- Whatever the lock, the buffer, the length and the end of the wait are, a synchronous send writes
-- only while the transmitter is on, leaves a transmitter that was off switched off, and succeeds
-- exactly with the lock, a buffer and a wake-up. The first holds from either state of the transmitter.
pub send_to_rs485_sync_lem :
    (on locked : Bool) (wait : WaitEnd) (m : Option Bytes) (len : ℕ)
    → let (s, acts) = send_to_rs485_sync locked wait m len in
      (writes_enabled on acts ≡ true)
      × (tx_after false acts ≡ false)
      × ((s ≡ success) ↔ ((locked ≡ true) × (wait ≡ woken) × (m ≢ none)))
unfolding send_to_rs485_sync
send_to_rs485_sync_lem on locked wait m len = ground arith
