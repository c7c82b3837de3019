-- ===== src/Receive/Frame.antt =====
-- A package of the new protocol that comes in over the line in any pieces.
use comm_traffic_center.Base.{
  ℕ, ◌+◌, ◌≤◌, ◌<◌, ◌≡◌, arith, Bool, List, [], ◌∷◌, Bytes, offset, Agree, leb, Bool-cases, inl,
  inr, success,
}
use comm_traffic_center.Receive.Stream.{cut, sum, FitReads, copied-Agree}
use comm_traffic_center.Receive.{Receiver, waiting, returns, recv_loop, restart, try_recv_full_msg}
use comm_traffic_center.Receive.FrameRounds.{
  Framed, Taken, round_waits, round_done, read_Taken, restart-Taken,
}

module _ (stream : Bytes) (q len : ℕ) (f : Framed stream q len) where
  module _ (char_signed : Bool) where
    -- Enough bytes have come in, now or by the reads that follow.
    loop_returns :
        (ns : List ℕ) (k : ℕ) (dst : Bytes) (s : Receiver)
        → Taken stream q k s
        → FitReads ns
        → q + len ≤ k + sum ns
        → (dst' : Bytes) × (s' : Receiver) × (recv_loop char_signed (cut stream k ns) dst s
            ≡ returns success dst' s')
          × Agree len dst' (offset stream q)
    unfolding recv_loop
    loop_returns [] k dst s t reads h =
        let (s', r) = round_done stream q len f char_signed k dst s t (omega arith) in
        (_, s', rw r, copied-Agree q len dst s t.stored (omega arith))
    loop_returns (n ∷ ns) k dst s t reads h = elim (Bool-cases (leb (q + len) k)) [
      | inl enough ↦
          let (s', r) = round_done stream q len f char_signed k dst s t (ground arith) in
          (_, s', rw r, copied-Agree q len dst s t.stored (ground arith))
      | inr more ↦
          let (s1, r, t1) = round_waits stream q len f char_signed k dst s t (ground arith) in
          let (s2, r2, t2) = read_Taken stream q len f k n s1 t1 (ground (arith, f.fits)) reads.0 in
          let (dst', s3, r3, d) = loop_returns ns (k + n) dst s2 t2 reads.1 (omega arith) in
          (dst', s3, rw (r, r2) r3, d)
    ]

    loop_waits :
        (ns : List ℕ) (k : ℕ) (dst : Bytes) (s : Receiver)
        → Taken stream q k s
        → FitReads ns
        → k + sum ns < q + len
        → (s' : Receiver) × (recv_loop char_signed (cut stream k ns) dst s ≡ waiting dst s')
    unfolding recv_loop
    loop_waits [] k dst s t reads h =
        let (s', r, _) = round_waits stream q len f char_signed k dst s t (omega arith) in
        (s', rw r)
    loop_waits (n ∷ ns) k dst s t reads h =
        let (s1, r, t1) = round_waits stream q len f char_signed k dst s t (omega arith) in
        let (s2, r2, t2) = read_Taken stream q len f k n s1 t1 (omega (arith, f.fits)) reads.0 in
        let (s3, r3) = loop_waits ns (k + n) dst s2 t2 reads.1 (omega arith) in (s3, rw (r, r2) r3)

-- A package of the new protocol of at least 17 bytes stands in what the line delivers, behind bytes in
-- which neither magic word begins, and ends within the first 4114 bytes; it comes in in pieces of any
-- sizes up to the size of a package, and all of it has come in: `try_recv_full_msg` returns SUCCESS
-- with exactly the bytes of the package.
pub try_recv_full_msg-Framed :
    (char_signed : Bool) (stream : Bytes) (q len : ℕ) (ns : List ℕ) (dst : Bytes) (s : Receiver)
    → Framed stream q len
    → FitReads ns
    → q + len ≤ sum ns
    → (dst' : Bytes) × (s' : Receiver) × (try_recv_full_msg char_signed (cut stream 0 ns) dst s
        ≡ returns success dst' s')
      × Agree len dst' (offset stream q)
unfolding try_recv_full_msg
try_recv_full_msg-Framed char_signed stream q len ns dst s f reads h =
    loop_returns stream q len f char_signed ns 0 dst (restart s) (restart-Taken stream q s) reads
      (omega arith)

-- A package of the new protocol of at least 17 bytes comes in behind bytes in which neither magic
-- word begins, to end within the first 4114 bytes, in pieces of any sizes up to the size of a
-- package: while some of its bytes are missing, `try_recv_full_msg` waits for the next read and
-- leaves its destination as it was.
pub try_recv_full_msg_waits :
    (char_signed : Bool) (stream : Bytes) (q len : ℕ) (ns : List ℕ) (dst : Bytes) (s : Receiver)
    → Framed stream q len
    → FitReads ns
    → sum ns < q + len
    → (s' : Receiver) × (try_recv_full_msg char_signed (cut stream 0 ns) dst s ≡ waiting dst s')
unfolding try_recv_full_msg
try_recv_full_msg_waits char_signed stream q len ns dst s f reads h =
    loop_waits stream q len f char_signed ns 0 dst (restart s) (restart-Taken stream q s) reads
      (omega arith)
