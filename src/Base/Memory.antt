-- ===== src/Base/Memory.antt =====
-- Memory as C sees it: an object is the function from an offset to the byte there.
use Prim.Native.Nat.{ℕ, ◌+◌, ◌-◌, ◌*◌, ◌/◌, ◌%◌, ◌≤◌, ◌<◌}
use mathlib.Core.Path.{◌≡◌}
use mathlib.Core.Bool.{◌&&◌}
use mathlib.Core.Logic.{◌⊎◌, inl, inr}
use native.Mathlib.Omega.{arith}
use comm_traffic_center.Base.Tests.{ltb, leb, ◌==◌, if◌then◌else◌, Bool-cases, leb→le}

abbrev pub Bytes : Type 0
Bytes = ℕ → ℕ

-- `memset(p, v, n)` of a whole object.
abbrev pub filled : ℕ → Bytes
filled v i = v

abbrev pub zeros : Bytes
zeros = filled 0

-- `p[k] = v` for a byte `p[k]`.
abbrev pub set_u8 : Bytes → ℕ → ℕ → Bytes
set_u8 m k v i = if i == k then v % 256 else m i

-- A `uint16_t` at offset `k`, low byte first.
abbrev pub get_u16 : Bytes → ℕ → ℕ
get_u16 m k = m k + 256 * m (k + 1)

abbrev pub set_u16 : Bytes → ℕ → ℕ → Bytes
set_u16 m k v = set_u8 (set_u8 m k v) (k + 1) (v / 256)

-- `memcpy(dst + k, src, n)`.
unfoldable pub copy_at : Bytes → ℕ → Bytes → ℕ → Bytes
copy_at dst k src n i = if leb k i && ltb i (k + n) then src (i - k) else dst i

-- `p + k`, and the object seen through that pointer.
abbrev pub offset : Bytes → ℕ → Bytes
offset m k i = m (k + i)

abbrev pub IsBytes : Bytes → Type 0
IsBytes m = (i : ℕ) → m i < 256

-- The first `n` bytes of an object are bytes.
abbrev pub BytesBelow : ℕ → Bytes → Type 0
BytesBelow n m = (i : ℕ) → i < n → m i < 256

-- The first `n` bytes of two objects are the same.
abbrev pub Agree : ℕ → Bytes → Bytes → Type 0
Agree n a b = (i : ℕ) → i < n → a i ≡ b i

pub copy_at-inside : (dst src : Bytes) (k n i : ℕ) → i < n → copy_at dst k src n (k + i) ≡ src i
unfolding copy_at
copy_at-inside dst src k n i h = let e : k + i - k ≡ i = omega arith in ground (arith, e)

pub copy_at-outside :
    (dst src : Bytes) (k n i : ℕ) → (i < k) ⊎ (k + n ≤ i) → copy_at dst k src n i ≡ dst i
unfolding copy_at
copy_at-outside dst src k n i h = ground arith

-- A buffer that holds the first `k` bytes of a stream, extended by the next `n` of them.
pub copy_at-next :
    (m stream : Bytes) (k n : ℕ)
    → Agree k m stream
    → Agree (k + n) (copy_at m k (offset stream k) n) stream
unfolding copy_at
copy_at-next m stream k n a i h = elim (Bool-cases (leb k i)) [
  | inr e ↦ rw e (a i (ground arith))
  | inl e ↦
      let p : k ≤ i = leb→le k i e in
      let at_i : k + (i - k) ≡ i = omega arith in rw (e, at_i) (ground arith)
]

-- What a copy to the start of a buffer holds.
pub copy_at_start : (dst src : Bytes) (n : ℕ) → Agree n (copy_at dst 0 src n) src
unfolding copy_at
copy_at_start dst src n i h = ground arith

pub copy_at-IsBytes :
    (dst src : Bytes) (k n : ℕ) → IsBytes dst → IsBytes src → IsBytes (copy_at dst k src n)
unfolding copy_at
copy_at-IsBytes dst src k n a b i = ground (arith, a i, b (i - k))
