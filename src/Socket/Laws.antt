-- ===== src/Socket/Laws.antt =====
-- What a local send does to the system.
use Prim.Native.String.{String}
use comm_traffic_center.Base.{
  ℕ, zero, suc, ◌+◌, ◌-◌, ◌≤◌, ◌<◌, ◌≡◌, refl, arith, Bool, true, false, some, List, [], ◌∷◌, Bytes,
  negsuc, is_minus_one, ◌==◌, leb, if◌then◌else◌, success, failed, is_success, ◌⊎◌, Bool-cases, inl,
  inr,
}
use comm_traffic_center.Socket.{
  get_comm_info_from_matrix, System, Effect, opened, closed, bound, sent, queued, connect_loop,
  connect_socket, send_msg_to_local, try_create_socket, ref_sel_proc,
}

-- How many of the sockets that were opened are still open.
abbrev pub left_open : ℕ → List Effect → ℕ
left_open n [] = n
left_open n (opened ∷ es) = left_open (n + 1) es
left_open n (closed ∷ es) = left_open (n - 1) es
left_open n (bound s ∷ es) = left_open n es
left_open n (sent s m k ∷ es) = left_open n es
left_open n (queued m k ∷ es) = left_open n es

-- The number of messages that went to a socket or to the message queue.
abbrev pub delivered : List Effect → ℕ
delivered [] = 0
delivered (opened ∷ es) = delivered es
delivered (closed ∷ es) = delivered es
delivered (bound s ∷ es) = delivered es
delivered (sent s m k ∷ es) = suc (delivered es)
delivered (queued m k ∷ es) = suc (delivered es)

-- From attempt `c` on, with an attempt `i` that succeeds and none before it that does.
connect_loop_hit :
    (fuel : ℕ) (connect : ℕ → Bool) (c i : ℕ)
    → c + fuel ≡ 100
    → c ≤ i
    → i < 100
    → connect i ≡ true
    → connect_loop fuel connect c < 100
unfolding connect_loop
connect_loop_hit zero connect c i e h l ok = absurd (omega arith)
connect_loop_hit (suc fuel) connect c i e h l ok = elim (Bool-cases (connect c)) [
  | inl now ↦ rw now (omega arith)
  | inr later ↦ elim (Bool-cases (c == i)) [
    | inl same ↦ absurd (ground arith)
    | inr other ↦ elim (Bool-cases (leb 100 (c + 1))) [
      | inl last ↦ absurd (ground arith)
      | inr more ↦
          rw (later, more)
            (connect_loop_hit fuel connect (c + 1) i (omega arith) (ground arith) l ok)
    ]
  ]
]

connect_loop_miss :
    (fuel : ℕ) (connect : ℕ → Bool) (c : ℕ)
    → suc c ≤ 100
    → c + suc fuel ≡ 100
    → ((i : ℕ) → i < 100 → connect i ≡ false)
    → connect_loop (suc fuel) connect c ≡ 100
unfolding connect_loop
connect_loop_miss zero connect c h e no_one = ground (arith, no_one c)
connect_loop_miss (suc fuel) connect c h e no_one =
    ground (arith, no_one c, connect_loop_miss fuel connect (c + 1))

-- A send to the process of the matrix, where `socket` succeeds, one of the first hundred attempts
-- to connect does, and `send` does: it answers SUCCESS, opens one socket, sends the message to the
-- process's name and closes the socket.
pub send_msg_to_local-reaches :
    (sys : System) (m : Bytes) (len i : ℕ)
    → is_minus_one sys.socket ≡ false
    → i < 100
    → sys.connect i ≡ true
    → is_minus_one (sys.send m len) ≡ false
    → send_msg_to_local sys ref_sel_proc m len
      ≡ (success, opened ∷ sent "/tmp/.ref_sel" m len ∷ closed ∷ [])
unfolding send_msg_to_local connect_socket get_comm_info_from_matrix
send_msg_to_local-reaches sys m len i ok l hit sends =
    let found = connect_loop_hit 100 sys.connect 0 i refl (omega arith) l hit in
    let few : leb 100 (connect_loop 100 sys.connect 0) ≡ false = ground (arith, found) in
    rw (ok, few, ok, sends)

-- Where each of the hundred attempts fails, the send gives up, closes its socket and fails.
pub send_msg_to_local-unreached :
    (sys : System) (m : Bytes) (len : ℕ)
    → is_minus_one sys.socket ≡ false
    → ((i : ℕ) → i < 100 → sys.connect i ≡ false)
    → send_msg_to_local sys ref_sel_proc m len ≡ (failed, opened ∷ closed ∷ [])
unfolding send_msg_to_local connect_socket get_comm_info_from_matrix
send_msg_to_local-unreached sys m len ok no_one =
    let lost = connect_loop_miss 99 sys.connect 0 (omega arith) refl no_one in
    let many : leb 100 (connect_loop 100 sys.connect 0) ≡ true = ground (arith, lost) in
    rw (ok, many)

-- Whatever the system answers, `send_msg_to_local` closes every socket that it opens, delivers one
-- message if it answers SUCCESS and none if it does not.
pub send_msg_to_local-balanced :
    (sys : System) (pid : ℕ) (m : Bytes) (len : ℕ)
    → let (s, es) = send_msg_to_local sys pid m len in
      (left_open 0 es ≡ 0) × (delivered es ≡ (if is_success s then 1 else 0))
unfolding send_msg_to_local connect_socket
send_msg_to_local-balanced sys pid m len = ground arith

-- Where `socket` succeeds and `bind` or `listen` fails, `try_create_socket` answers -1 and leaves
-- the new socket open.
pub try_create_socket_leaks :
    (sys : System) (name : String)
    → is_minus_one sys.socket ≡ false
    → (is_minus_one sys.bind ≡ true) ⊎ (is_minus_one sys.listen ≡ true)
    → let (fd, es) = try_create_socket sys (some name) in (fd ≡ negsuc 0) × (left_open 0 es ≡ 1)
unfolding try_create_socket
try_create_socket_leaks sys name ok bad = ground arith
