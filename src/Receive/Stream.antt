-- ===== src/Receive/Stream.antt =====
-- A stream of bytes that the line delivers in pieces, and the part of it that the receiver has taken.
use comm_traffic_center.Base.{
  ℕ, zero, suc, ◌+◌, ◌≤◌, ◌≡◌, refl, ◌∙◌, arith, List, [], ◌∷◌, Bytes, copy_at, offset, Agree, some,
  copy_at-next, copy_at_start, success,
}
use comm_traffic_center.Receive.{Receiver, Chunk, recv_raw_data}

-- The reads that deliver a stream in pieces of the given sizes, from its byte `k` on.
abbrev pub cut : Bytes → ℕ → List ℕ → List Chunk
cut stream k [] = []
cut stream k (n ∷ ns) = record { count = n; bytes = offset stream k } ∷ cut stream (k + n) ns

abbrev pub sum : List ℕ → ℕ
sum [] = 0
sum (n ∷ ns) = n + sum ns

-- A `read` delivers at most as much as was asked for, the size of a package.
abbrev pub FitReads : List ℕ → Type 0
FitReads [] = Unit {0}
FitReads (n ∷ ns) = (n ≤ 4114) × FitReads ns

-- The buffer holds the first `k` bytes of the stream.
pub record Holds (stream : Bytes) (k : ℕ) (s : Receiver) : Type 0 where
  pub counted : s.rx_add_up_len ≡ k
  pub stored : Agree k s.msg_buff stream

-- The second state is where the first is in its work.
pub record SamePlace (s s' : Receiver) : Type 0 where
  pub same_step : s'.next_step ≡ s.next_step
  pub same_head : s'.head_pos ≡ s.head_pos
  pub same_len : s'.msg_len ≡ s.msg_len

-- A read that fits into the buffer adds the next piece of the stream.
pub recv_raw_data-Holds :
    (stream : Bytes) (k n : ℕ) (s : Receiver)
    → Holds stream k s
    → k + n ≤ 8228
    → n ≤ 4114
    → (s' : Receiver) × (recv_raw_data s (record { count = n; bytes = offset stream k })
        ≡ some (success, s'))
      × Holds stream (k + n) s'
      × SamePlace s s'
unfolding recv_raw_data
recv_raw_data-Holds stream k zero s h fits short = (
  s,
  refl,
  record { counted = omega (arith, h.counted); stored = λ i p. h.stored i (omega arith) },
  record { same_step = refl; same_head = refl; same_len = refl },
)
recv_raw_data-Holds stream k (suc n) s h fits short = (
  record s {
    msg_buff = copy_at s.msg_buff s.rx_add_up_len (offset stream k) (suc n);
    rx_add_up_len = s.rx_add_up_len + suc n;
  },
  ground (arith, h.counted),
  record {
    counted = omega (arith, h.counted);
    stored = rw (h.counted) (copy_at-next s.msg_buff stream k (suc n) h.stored);
  },
  record { same_step = refl; same_head = refl; same_len = refl },
)

-- What is copied from the place `q` of the buffer is what the stream has there.
pub copied-Agree :
    {stream : Bytes} {k : ℕ} (q n : ℕ) (dst : Bytes) (s : Receiver)
    → Agree k s.msg_buff stream
    → q + n ≤ k
    → Agree n (copy_at dst 0 (offset s.msg_buff q) n) (offset stream q)
copied-Agree q n dst s a h i p =
    copy_at_start dst (offset s.msg_buff q) n i p ∙ a (q + i) (omega arith)

pub Agree-from_zero : {a : Bytes} (b : Bytes) {n : ℕ} → Agree n a (offset b 0) → Agree n a b
Agree-from_zero b h i p = let e : 0 + i ≡ i = omega arith in rw e at (h i p)
