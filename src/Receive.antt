-- ===== src/Receive.antt =====
-- The reception of one message from the serial line, in app/msg_util.c: `recv_raw_data`,
-- `try_recv_body`, `try_recv_head`, `start_recv`, `try_recv_old_msg_body`, `recv_msg_old_flow` and
-- `try_recv_full_msg`. The static variables are a record; `head_pos` is the distance from `msg_buff`,
-- `none` for NULL. Every pointer difference that the code takes is between positions inside
-- `msg_buff`. A step answers a status, the destination buffer and the new variables; the outer option
-- is `none` for a fault: a null pointer, or an access outside `msg_buff`, `raw_data` or the destination.
-- Each `read` of the line is an argument: the bytes that it delivers, none of them where it fails.
pub mod SafeRounds
pub mod Safety
pub mod Stream
pub mod FrameRounds
pub mod Frame
pub mod OldRounds
pub mod Old
pub mod Mixed
pub mod Leftover
use comm_traffic_center.Base.{
  ℕ, zero, ◌+◌, ◌-◌, Bool, true, false, Option, none, some, ◌>>=◌, List, [], ◌∷◌, Bytes, zeros,
  filled, get_u16, copy_at, offset, ltb, leb, if◌then◌else◌, Status, success, failed, continue,
}
use comm_traffic_center.Package.{pkg_size, head_size}
use comm_traffic_center.Search.{get_msg_head}
use comm_traffic_center.OldFrame.{convert_old_to_new}

pub data RecvStep : Type 0 where
  recv_start recv_head recv_full old_check_len old_check_full recv_end : RecvStep

-- `RX_BUFF_LEN`, twice the size of a package.
abbrev pub rx_buff_len : ℕ
rx_buff_len = 8228

-- `MAGIC_WORD` and `OLD_MAGIC_WORD`.
abbrev pub magic_word : Bytes
magic_word i = elim i [ zero ↦ 0xAA | _ ↦ 0x55 ]

abbrev pub old_magic_word : Bytes
old_magic_word i = elim i [ zero ↦ b'S' | _ ↦ b'M' ]

pub record Receiver : Type 0 where
  pub next_step : RecvStep
  pub total_recv_len : ℕ
  pub rx_add_up_len : ℕ
  pub head_pos : Option ℕ
  pub msg_buff : Bytes
  pub msg_len : ℕ

-- What one `read` delivers.
pub record Chunk : Type 0 where
  pub count : ℕ
  pub bytes : Bytes

abbrev pub Result : Type 0
Result = Option (Status × Bytes × Receiver)

-- What an access of `msg_buff` that ends in front of the byte `end` leads to: a fault where that is
-- outside the buffer.
abbrev pub in_buff {ℓ} : {A : Type ℓ} → ℕ → Option A → Option A
in_buff end r = if leb end rx_buff_len then r else none

-- `memcpy` from `raw_data`, which is as large as a package, to `msg_buff`.
abbrev pub append_raw : Receiver → Chunk → Option (Status × Receiver)
append_raw s c =
    if ltb pkg_size c.count
    then none
    else in_buff (s.rx_add_up_len + c.count) (
        some (
          success,
          record s {
            msg_buff = copy_at s.msg_buff s.rx_add_up_len c.bytes c.count;
            rx_add_up_len = s.rx_add_up_len + c.count;
          },
        ))

unfoldable pub recv_raw_data : Receiver → Chunk → Option (Status × Receiver)
recv_raw_data s c =
    if ltb 0 c.count
    then (if ltb rx_buff_len (s.rx_add_up_len + c.count) then some (failed, s) else append_raw s c)
    else some (success, s)

-- `p` is `head_pos`, which the caller has found not to be NULL.
body_at : Bytes → Receiver → ℕ → Result
body_at dst s p =
    if leb (p + s.total_recv_len) s.rx_add_up_len
    then (if ltb pkg_size s.total_recv_len
        then none
        else in_buff (p + s.total_recv_len) (
            some (
              success,
              copy_at dst 0 (offset s.msg_buff p) s.total_recv_len,
              record s { next_step = recv_end },
            )))
    else some (continue, dst, record s { next_step = recv_full })

unfoldable pub try_recv_body : Bytes → Receiver → Result
unfolding body_at
try_recv_body dst s = do p ← s.head_pos; body_at dst s p

-- ASSERT_CONTINUE: any other status is returned at once.
abbrev pub or_continue : Result → (Bytes → Receiver → Result) → Result
or_continue none k = none
or_continue (some (continue, dst, s)) k = k dst s
or_continue (some (success, dst, s)) k = some (success, dst, s)
or_continue (some (failed, dst, s)) k = some (failed, dst, s)

head_at : Bytes → Receiver → ℕ → Result
unfolding try_recv_body
head_at dst s p =
    let wait =
      λ (d : Bytes) (r : Receiver). some (continue, d, record r { next_step = recv_head }) in
    let sized = record s { total_recv_len = get_u16 s.msg_buff (p + 2) } in
    if leb (p + head_size) s.rx_add_up_len
    then in_buff (p + head_size) (
        if ltb pkg_size sized.total_recv_len
        then some (failed, dst, record sized { next_step = recv_start })
        else or_continue (try_recv_body dst sized) wait)
    else wait dst s

unfoldable pub try_recv_head : Bytes → Receiver → Result
unfolding head_at
try_recv_head dst s = do p ← s.head_pos; head_at dst s p

-- The bytes behind the frame move to the front of `msg_buff`, and the rest of it is cleared.
old_body_at : Bytes → Receiver → ℕ → ℕ → Result
old_body_at dst s len p =
    let after = p + len + 9 in
    let cp_cnt = s.rx_add_up_len - after in
    if leb after s.rx_add_up_len
    then (if ltb pkg_size (len + 9)
        then none
        else in_buff (after + cp_cnt) (
            some (
              success,
              copy_at dst 0 (offset s.msg_buff p) (len + 9),
              record s {
                msg_buff = copy_at zeros 0 (offset s.msg_buff after) cp_cnt;
                rx_add_up_len = cp_cnt;
                next_step = recv_end;
              },
            )))
    else some (continue, dst, s)

unfoldable pub try_recv_old_msg_body : Bytes → Receiver → ℕ → Result
unfolding old_body_at
try_recv_old_msg_body dst s len = do p ← s.head_pos; old_body_at dst s len p

old_len_at : Bytes → Receiver → ℕ → Result
unfolding try_recv_old_msg_body
old_len_at dst s p =
    let lengthed = record s { msg_len = s.msg_buff (p + 6) } in
    if ltb s.rx_add_up_len (p + 7)
    then some (continue, dst, s)
    else in_buff (p + 7) (
        or_continue (try_recv_old_msg_body dst lengthed lengthed.msg_len)
          λ d r. some (continue, d, record r { next_step = old_check_full }))

old_flow : RecvStep → Bytes → Receiver → Result
unfolding old_len_at try_recv_old_msg_body
old_flow old_check_len dst s = do p ← s.head_pos; old_len_at dst s p
old_flow old_check_full dst s =
    or_continue (try_recv_old_msg_body dst s s.msg_len) λ d r. some (continue, d, r)
old_flow _ dst s = some (continue, dst, s)

unfoldable pub recv_msg_old_flow : Bytes → Receiver → Result
unfolding old_flow
recv_msg_old_flow dst s = old_flow s.next_step dst s

-- `if (SUCCESS == recv_msg_old_flow(..)) return convert_old_to_new(..);`, and CONTINUE otherwise.
convert_when_done : Bool → Result → Result
convert_when_done char_signed none = none
convert_when_done char_signed (some (success, dst, s)) = do
  (r, dst') ← convert_old_to_new char_signed dst
  some (r, dst', s)
convert_when_done char_signed (some (_, dst, s)) = some (continue, dst, s)

start_old : Bool → Bytes → Receiver → Option ℕ → Result
unfolding convert_when_done recv_msg_old_flow
start_old char_signed dst s none =
    some (continue, dst, record s { head_pos = none; next_step = recv_start })
start_old char_signed dst s (some p) =
    convert_when_done char_signed
      (recv_msg_old_flow dst (record s { head_pos = some p; next_step = old_check_len }))

start_new : Bool → Bytes → Receiver → Option ℕ → Result
unfolding start_old try_recv_head
start_new char_signed dst s (some p) = try_recv_head dst (record s { head_pos = some p })
start_new char_signed dst s none =
    start_old char_signed dst s (get_msg_head s.msg_buff s.rx_add_up_len old_magic_word 2)

-- The search is over the first `rx_add_up_len` bytes, which the second search goes over again;
-- `Search.First` shows that no others matter.
unfoldable pub start_recv : Bool → Bytes → Receiver → Result
unfolding start_new
start_recv char_signed dst s =
    in_buff s.rx_add_up_len
      (start_new char_signed dst s (get_msg_head s.msg_buff s.rx_add_up_len magic_word 2))

-- The `switch` of the loop, up to the read.
dispatch : RecvStep → Bool → Bytes → Receiver → Result
unfolding start_recv try_recv_head try_recv_body recv_msg_old_flow convert_when_done
dispatch recv_start char_signed dst s = start_recv char_signed dst s
dispatch recv_head char_signed dst s = try_recv_head dst s
dispatch recv_full char_signed dst s = try_recv_body dst s
dispatch old_check_len char_signed dst s = convert_when_done char_signed (recv_msg_old_flow dst s)
dispatch old_check_full char_signed dst s = convert_when_done char_signed (recv_msg_old_flow dst s)
dispatch recv_end char_signed dst s = some (continue, dst, s)

unfoldable pub round : Bool → Bytes → Receiver → Result
unfolding dispatch
round char_signed dst s = dispatch s.next_step char_signed dst s

-- How the loop stands when the reads are used up: it has returned, or it waits for the next read.
pub data Outcome : Type 0 where
  fault : Outcome
  waiting : Bytes → Receiver → Outcome
  returns : Status → Bytes → Receiver → Outcome

after_round : Result → (Bytes → Receiver → Outcome) → Outcome
after_round none k = fault
after_round (some (continue, dst, s)) k = k dst s
after_round (some (success, dst, s)) k = returns success dst s
after_round (some (failed, dst, s)) k = returns failed dst s

after_read : Option (Status × Receiver) → Bytes → (Bytes → Receiver → Outcome) → Outcome
after_read none dst k = fault
after_read (some (success, s)) dst k = k dst s
after_read (some (_, s)) dst k = returns failed dst s

-- `while (1)`: each round ends in a read.
unfoldable pub recv_loop : Bool → List Chunk → Bytes → Receiver → Outcome
unfolding after_round after_read round recv_raw_data
recv_loop char_signed [] dst s = after_round (round char_signed dst s) waiting
recv_loop char_signed (c ∷ cs) dst s =
    after_round (round char_signed dst s)
      λ d r. after_read (recv_raw_data r c) d (λ d' r'. recv_loop char_signed cs d' r')

-- What `try_recv_full_msg` sets before the loop; `msg_len` keeps its value.
unfoldable pub restart : Receiver → Receiver
restart s = record {
  next_step = recv_start;
  total_recv_len = 0;
  rx_add_up_len = 0;
  head_pos = none;
  msg_buff = zeros;
  msg_len = s.msg_len;
}

unfoldable pub try_recv_full_msg : Bool → List Chunk → Bytes → Receiver → Outcome
unfolding recv_loop restart
try_recv_full_msg char_signed cs raw_msg s = recv_loop char_signed cs raw_msg (restart s)
