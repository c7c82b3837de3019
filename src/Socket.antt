-- ===== src/Socket.antt =====
-- The local sockets: app/matrix_register.c, and `connect_socket`, `send_msg_to_local` and
-- `try_create_socket` of app/msg_util.c. The system calls' answers are a record; what the code does
-- to the system is a list of effects.
pub mod Laws
use Prim.Native.String.{String}
use comm_traffic_center.Base.{
  ℕ, zero, suc, ◌+◌, Bool, true, false, Option, none, some, List, [], ◌∷◌, ◌++◌, Bytes, ℤ, pos,
  negsuc, is_neg, is_minus_one, ◌==◌, leb, if◌then◌else◌, Status, success, failed,
}

-- An entry of `comm_matrix`.
pub record SocketMap : Type 0 where
  pub pid : ℕ
  pub socket_name : String

-- `REF_SEL_PROC`; GNSS_PROC, 101, has no entry.
abbrev pub ref_sel_proc : ℕ
ref_sel_proc = 100

abbrev pub gnss_proc : ℕ
gnss_proc = 101

abbrev pub comm_matrix : List SocketMap
comm_matrix = record { pid = ref_sel_proc; socket_name = "/tmp/.ref_sel" } ∷ []

unfoldable pub lookup_matrix : List SocketMap → ℕ → Option String
lookup_matrix [] proc_id = none
lookup_matrix (e ∷ es) proc_id =
    if e.pid == proc_id then some e.socket_name else lookup_matrix es proc_id

unfoldable pub get_comm_info_from_matrix : ℕ → Option String
unfolding lookup_matrix
get_comm_info_from_matrix proc_id = lookup_matrix comm_matrix proc_id

-- What the system answers: `socket`, the n-th `connect`, `send`, `bind` and `listen`.
pub record System : Type 0 where
  pub socket : ℤ
  pub connect : ℕ → Bool
  pub send : Bytes → ℕ → ℤ
  pub bind : ℤ
  pub listen : ℤ

pub data Effect : Type 0 where
  opened closed : Effect
  bound : String → Effect
  sent : String → Bytes → ℕ → Effect
  queued : Bytes → ℕ → Effect

-- `while (connect(..) == -1) { if (++conn_count >= 100) break; .. }`: `conn_count` behind the loop.
unfoldable pub connect_loop : ℕ → (ℕ → Bool) → ℕ → ℕ
connect_loop zero connect conn_count = conn_count
connect_loop (suc fuel) connect conn_count =
    let rest = connect_loop fuel connect (conn_count + 1) in
    if connect conn_count
    then conn_count
    else if leb 100 (conn_count + 1)
    then conn_count + 1
    else rest

-- The handle, or -1, and whether a socket has been opened and closed.
unfoldable pub connect_socket : System → ℤ × List Effect
connect_socket sys =
    let conn_count = connect_loop 100 sys.connect 0 in
    if is_minus_one sys.socket
    then (negsuc 0, [])
    else if leb 100 conn_count
    then (negsuc 0, opened ∷ closed ∷ [])
    else (sys.socket, opened ∷ [])

send_by_name : System → Option String → Bytes → ℕ → Status × List Effect
unfolding connect_socket
send_by_name sys none m len = (failed, [])
send_by_name sys (some dst_name) m len =
    let (dst_socket, opens) = connect_socket sys in
    if is_minus_one dst_socket
    then (failed, opens)
    else if is_minus_one (sys.send m len)
    then (failed, opens ++ (closed ∷ []))
    else (success, opens ++ (sent dst_name m len ∷ closed ∷ []))

unfoldable pub send_msg_to_local : System → ℕ → Bytes → ℕ → Status × List Effect
unfolding send_by_name
send_msg_to_local sys pid m len = send_by_name sys (get_comm_info_from_matrix pid) m len

-- A null name answers FAILED, which is 255; the failures of the system calls answer -1.
unfoldable pub try_create_socket : System → Option String → ℤ × List Effect
try_create_socket sys none = (pos 255, [])
try_create_socket sys (some sockname) =
    if is_minus_one sys.socket
    then (negsuc 0, [])
    else if is_minus_one sys.bind
    then (negsuc 0, opened ∷ [])
    else if is_minus_one sys.listen
    then (negsuc 0, opened ∷ bound sockname ∷ [])
    else (sys.socket, opened ∷ bound sockname ∷ [])
