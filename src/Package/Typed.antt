-- ===== src/Package/Typed.antt =====
-- Packages are made of bytes, whatever the arguments are.
use comm_traffic_center.Base.{
  ℕ, ◌+◌, arith, Option, none, some, Option-cases, inl, inr, Bytes, IsBytes, set_u8, set_u16,
  copy_at-IsBytes, ltb, Bool-cases, ◌>>=◌,
}
use comm_traffic_center.Package.{Direction}
use comm_traffic_center.Package.Build.{
  write_head, write_body, package_msg, package_new_ptp_msg, package_old_ptp_msg,
}

-- A pointer to bytes, or a null pointer.
abbrev pub PointsToBytes : Option Bytes → Type 0
PointsToBytes none = Unit {0}
PointsToBytes (some m) = IsBytes m

set_u8-IsBytes : (m : Bytes) (k v : ℕ) → IsBytes m → IsBytes (set_u8 m k v)
set_u8-IsBytes m k v h i = ground (arith, h i)

set_u16-IsBytes : (m : Bytes) (k v : ℕ) → IsBytes m → IsBytes (set_u16 m k v)
set_u16-IsBytes m k v h i = ground (arith, h i)

write_head-IsBytes :
    (self_pid : ℕ) (m : Bytes) (event : ℕ) (dst : Direction) (ack : ℕ)
    → IsBytes m
    → IsBytes (write_head self_pid m event dst ack)
unfolding write_head
write_head-IsBytes self_pid m event dst ack h i = ground (arith, h i)

write_body-PointsToBytes :
    (m : Bytes) (data_ : Option Bytes) (len : ℕ)
    → IsBytes m
    → PointsToBytes data_
    → PointsToBytes (write_body m data_ len)
unfolding write_body
write_body-PointsToBytes m none len h d = h
write_body-PointsToBytes m (some data_) len h d = elim (Bool-cases (ltb 4114 (17 + len))) [
  | inl e ↦ rw e tt
  | inr e ↦ rw e (copy_at-IsBytes m data_ 17 len h d)
]

bind-PointsToBytes :
    (o : Option Bytes) (f : Bytes → Option Bytes)
    → PointsToBytes o
    → ((m : Bytes) → IsBytes m → PointsToBytes (f m))
    → PointsToBytes (o >>= f)
bind-PointsToBytes none f h go = tt
bind-PointsToBytes (some m) f h go = go m h

sealed-PointsToBytes :
    (o : Option ℕ) (m : Bytes) → IsBytes m → PointsToBytes (o >>= λ sum. some (set_u8 m 16 sum))
sealed-PointsToBytes none m h = tt
sealed-PointsToBytes (some sum) m h = set_u8-IsBytes m 16 sum h

module _ (self_pid : ℕ) (buf : Bytes) (event : ℕ) (dst : Option Direction) (data_ : Option Bytes)
    (len ack : ℕ) (bytes : IsBytes buf) (body : PointsToBytes data_) where
  package_msg-PointsToBytes : PointsToBytes (package_msg self_pid buf event dst data_ len ack)
  unfolding package_msg
  package_msg-PointsToBytes = elim (Option-cases dst) [
    | inl e ↦ rw e bytes
    | inr (d, e) ↦ rw e (
        bind-PointsToBytes (write_body (write_head self_pid buf event d ack) data_ len) _
          (write_body-PointsToBytes _ data_ len (write_head-IsBytes self_pid buf event d ack bytes)
            body)
          λ m h. sealed-PointsToBytes _ (set_u16 m 2 (17 + len)) (set_u16-IsBytes m 2 (17 + len) h))
  ]

  -- From a buffer and a body of bytes, null pointers included, `package_new_ptp_msg` and
  -- `package_old_ptp_msg` make packages of bytes, whatever the numbers are that they are given.
  pub package_ptp_msg-PointsToBytes :
      (cmd : ℕ)
      → PointsToBytes (package_new_ptp_msg self_pid buf event dst data_ len ack)
        × PointsToBytes (package_old_ptp_msg self_pid buf event dst data_ len cmd ack)
  unfolding package_new_ptp_msg package_old_ptp_msg
  package_ptp_msg-PointsToBytes cmd = (
    bind-PointsToBytes _ _ package_msg-PointsToBytes (λ m h. set_u8-IsBytes m 8 0 h),
    bind-PointsToBytes _ _ package_msg-PointsToBytes
        (λ m h. set_u8-IsBytes (set_u8 m 8 1) 7 cmd (set_u8-IsBytes m 8 1 h)),
  )
