-- ===== src/Receive/Old.antt =====
-- An old frame that comes in over the line in any pieces.
use comm_traffic_center.Base.{
  ℕ, ◌+◌, ◌%◌, ◌≤◌, ◌≡◌, ◌∙◌, arith, Bool, false, some, List, [], ◌∷◌, Bytes, BytesBelow, ◌==◌,
  if◌then◌else◌, offset, Agree, inl, inr, success, failed,
}
use comm_traffic_center.OldFrame.{convert_old_to_new, is_negative}
use comm_traffic_center.OldFrame.Roundtrip.{Reads, convert_old_to_new-Reads}
use comm_traffic_center.Package.Checksum.{check_485fcs, check_485fcs-Agree}
use comm_traffic_center.Check.{check_fcs}
use comm_traffic_center.Receive.{Receiver, returns, recv_loop, restart, try_recv_full_msg}
use comm_traffic_center.Receive.Stream.{cut, sum, FitReads, copied-Agree}
use comm_traffic_center.Receive.OldRounds.{
  OldFramed, Taken, taken_from, round-Goes, read_Taken, restart-Taken,
}

module _ (stream : Bytes) (q n : ℕ) (f : OldFramed stream q n) (char_signed : Bool) where
  -- The loop ends with the conversion of a copy of the frame.
  loop_converts :
      (ns : List ℕ) (k : ℕ) (dst : Bytes) (s : Receiver)
      → Taken stream q n k s
      → FitReads ns
      → q + n + 9 ≤ k + sum ns
      → (raw : Bytes) × (s' : Receiver) × Agree (n + 9) raw (offset stream q)
        × ((dst' : Bytes)
            → convert_old_to_new char_signed raw ≡ some (success, dst')
            → recv_loop char_signed (cut stream k ns) dst s ≡ returns success dst' s')
  unfolding recv_loop
  loop_converts [] k dst s t reads h = elim (round-Goes stream q n f char_signed k dst s t) [
    | inl (s', less, _, _) ↦ absurd (omega arith)
    | inr (s', more, r) ↦ (
      taken_from stream q n f char_signed dst s,
      s',
      copied-Agree q (n + 9) dst s t.stored (omega arith),
      λ dst' e. rw (r, e),
    )
  ]
  loop_converts (m ∷ ns) k dst s t reads h = elim (round-Goes stream q n f char_signed k dst s t) [
    | inl (s1, less, r, t1) ↦
        let (s2, r2, t2) =
          read_Taken stream q n f char_signed k m s1 t1 (omega (arith, f.fits, reads.0)) reads.0 in
        let (raw, s3, a, go) = loop_converts ns (k + m) dst s2 t2 reads.1 (omega arith) in
        (raw, s3, a, λ dst' e. rw (r, r2) (go dst' e))
    | inr (s', more, r) ↦ (
      taken_from stream q n f char_signed dst s,
      s',
      copied-Agree q (n + 9) dst s t.stored (omega arith),
      λ dst' e. rw (r, e),
    )
  ]

-- What a package says of one frame it says of any that has the same bytes.
Reads-Agree :
    (char_signed : Bool) (raw stream : Bytes) (n : ℕ) (m : Bytes)
    → n ≤ 248
    → Agree (n + 9) raw stream
    → Reads char_signed raw n m
    → Reads char_signed stream n m
Reads-Agree c raw stream n m short a r = record {
  event_read = r.event_read ∙ rw (a 5 (omega arith));
  cmd_read = r.cmd_read ∙ a 4 (omega arith);
  dst_read = ground (arith, r.dst_read, a 2, a 3);
  len_read = r.len_read;
  protocol_read = r.protocol_read;
  body_read = λ i p. r.body_read i p ∙ a (7 + i) (omega arith);
  fcs_read = r.fcs_read ∙ a ((7 + n) % 256) (omega arith);
}

-- An old frame of at most 248 body bytes (below 128 where `char` is signed) stands in what the line
-- delivers, behind bytes in which its magic word does not begin, and ends within the first 4114 bytes; it
-- has all come in, in pieces of any sizes up to the size of a package, on a line that does not carry the
-- magic word of the new protocol: `try_recv_full_msg` returns SUCCESS with a package that carries the
-- frame's fields and body, and whose checksum test succeeds exactly when the frame's sum is right.
pub try_recv_full_msg-OldFramed :
    (char_signed : Bool) (stream : Bytes) (q n : ℕ) (ns : List ℕ) (dst : Bytes) (s : Receiver)
    → OldFramed stream q n
    → BytesBelow (n + 9) (offset stream q)
    → n ≤ 248
    → is_negative char_signed n ≡ false
    → FitReads ns
    → q + n + 9 ≤ sum ns
    → (m : Bytes) × (s' : Receiver) × (try_recv_full_msg char_signed (cut stream 0 ns) dst s
        ≡ returns success m s')
      × Reads char_signed (offset stream q) n m
      × (check_fcs m
          ≡ some (
              if check_485fcs (offset (offset stream q) 2) (n + 5) == stream (q + (7 + n))
              then success
              else failed))
unfolding try_recv_full_msg
try_recv_full_msg-OldFramed c stream q n ns dst s f bytes short plain reads h =
    let frame = offset stream q in
    let (raw, s', a, go) =
      loop_converts stream q n f c ns 0 dst (restart s) (restart-Taken stream q n s) reads
        (omega arith) in
    let raw_bytes : BytesBelow (n + 9) raw = λ i p. rw (a i p) (bytes i p) in
    let (m, runs, r, accepted) =
      convert_old_to_new-Reads c raw n raw_bytes (a 6 (omega arith) ∙ f.len_byte) short plain in
    let sums =
      check_485fcs-Agree (offset raw 2) (offset frame 2) (n + 5) λ i p. a (2 + i) (omega arith) in
    (
      m,
      s',
      go m runs,
      Reads-Agree c raw frame n m short a r,
      accepted ∙ rw (sums, a (7 + n) (omega arith)),
    )
