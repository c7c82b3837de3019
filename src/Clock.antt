-- ===== src/Clock.antt =====
-- The deadlines of the timed waits: `set_time_out_ms` of app/msg_syncer.c and `get_time_out_len` of
-- infra/rs485_util.c. The time that `clock_gettime` answers is an argument.
use comm_traffic_center.Base.{ℕ, ◌+◌, ◌*◌, ◌/◌, ◌%◌, ◌^◌, ◌≤◌, ◌<◌, ◌≡◌, arith}

pub record Timespec : Type 0 where
  pub tv_sec : ℕ
  pub tv_nsec : ℕ

unfoldable pub set_time_out_ms : ℕ → Timespec → Timespec
set_time_out_ms time_ms tp =
    let nsec = (tp.tv_nsec + time_ms % 1000 * 1000000) % 2 ^ 32 in
    record { tv_sec = tp.tv_sec + nsec / 1000000000 + time_ms / 1000; tv_nsec = nsec % 1000000000 }

-- `timeout_ms` is 300; the second reduces by 100000000.
unfoldable pub get_time_out_len : Timespec → Timespec
get_time_out_len tp =
    let nsec = (tp.tv_nsec + 300 % 1000 * 1000000) % 2 ^ 32 in
    record { tv_sec = tp.tv_sec + nsec / 1000000000 + 300 / 1000; tv_nsec = nsec % 100000000 }

-- A time as nanoseconds.
abbrev pub nanos : Timespec → ℕ
nanos t = t.tv_sec * 1000000000 + t.tv_nsec

-- From a valid time `set_time_out_ms` makes a valid time that lies exactly the given number of
-- milliseconds later.
pub set_time_out_ms_lem :
    (time_ms : ℕ) (tp : Timespec)
    → tp.tv_nsec < 1000000000
    → ((set_time_out_ms time_ms tp).tv_nsec < 1000000000)
      × (nanos (set_time_out_ms time_ms tp) ≡ nanos tp + time_ms * 1000000)
unfolding set_time_out_ms
set_time_out_ms_lem time_ms tp h = omega arith

-- In the first 700 milliseconds of every second the deadline of `get_time_out_len`, meant to lie
-- 300 milliseconds ahead, is not later than the present.
pub get_time_out_len_past :
    (tp : Timespec) → tp.tv_nsec < 700000000 → nanos (get_time_out_len tp) ≤ nanos tp
unfolding get_time_out_len
get_time_out_len_past tp h = omega arith

-- The deadline of `get_time_out_len` lies 300 milliseconds ahead, less the whole multiples of 100
-- milliseconds among the nanoseconds of the exact deadline.
pub get_time_out_len_bound :
    (tp : Timespec)
    → tp.tv_nsec < 1000000000
    → nanos (get_time_out_len tp) + (tp.tv_nsec + 300000000) % 1000000000 / 100000000 * 100000000
      ≡ nanos tp + 300000000
unfolding get_time_out_len
get_time_out_len_bound tp h = omega arith
