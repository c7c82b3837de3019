-- ===== src/Receive/Leftover.antt =====
-- Bytes without a magic word, and what one read takes beyond the end of a package.
use comm_traffic_center.Base.{
  ℕ, leb, true, ◌+◌, ◌≤◌, ◌<◌, ◌≡◌, refl, sym, ◌∙◌, arith, Bool, none, some, List, [], ◌∷◌, ◌++◌,
  ◌-◌, Bytes, offset, Agree, success, continue,
}
use comm_traffic_center.Search.First.{At, get_msg_head_absent}
use comm_traffic_center.Receive.Stream.{
  cut, sum, FitReads, Agree-from_zero, Holds, recv_raw_data-Holds,
}
use comm_traffic_center.Receive.{
  recv_start, Receiver, magic_word, old_magic_word, start_recv, round, waiting, returns, recv_loop,
  restart, try_recv_full_msg,
}
use comm_traffic_center.Receive.FrameRounds.{Framed}
use comm_traffic_center.Receive.Frame.{try_recv_full_msg-Framed}

-- No magic word begins in the first `n` bytes, as far as it would end there.
abbrev pub IsNoise : Bytes → ℕ → Type 0
IsNoise stream n = (k : ℕ) → k + 2 ≤ n → (¬ At stream magic_word k) × (¬ At stream old_magic_word k)

module _ (stream : Bytes) (char_signed : Bool) where
  -- The receiver looks for a head in these bytes.
  record Looks (k : ℕ) (s : Receiver) : Type 0 where
    holds : Holds stream k s
    step : s.next_step ≡ recv_start

  no_word :
      {k : ℕ} {s : Receiver} (patn : Bytes)
      → Holds stream k s
      → ((j : ℕ) → j + 2 ≤ k → ¬ At stream patn j)
      → (j : ℕ) → j + 2 ≤ s.rx_add_up_len
      → ¬ At s.msg_buff patn j
  no_word patn h none_there j p (m0, m1) =
      let c = h.counted in
      none_there j (omega (arith, c))
        (sym (h.stored j (omega (arith, c))) ∙ m0, sym (h.stored (j + 1) (omega (arith, c))) ∙ m1)

  round-Looks :
      (k : ℕ) (dst : Bytes) (s : Receiver)
      → Looks k s
      → IsNoise stream k
      → k ≤ 8228
      → (s' : Receiver) × (round char_signed dst s ≡ some (continue, dst, s')) × Looks k s'
  unfolding round start_recv
  round-Looks k dst s l noise room =
      let all_in : leb s.rx_add_up_len 8228 ≡ true = ground (arith, l.holds.counted) in
      let no_new =
        get_msg_head_absent s.msg_buff s.rx_add_up_len magic_word
          (no_word magic_word l.holds λ j p. (noise j p).0) in
      let no_old =
        get_msg_head_absent s.msg_buff s.rx_add_up_len old_magic_word
          (no_word old_magic_word l.holds λ j p. (noise j p).1) in
      (
        record s { head_pos = none; next_step = recv_start },
        rw (l.step, all_in, no_new, no_old) refl,
        record {
          holds = record { counted = l.holds.counted; stored = l.holds.stored };
          step = refl;
        },
      )

  loop-Looks :
      (ns : List ℕ) (k : ℕ) (dst : Bytes) (s : Receiver)
      → Looks k s
      → IsNoise stream (k + sum ns)
      → k + sum ns ≤ 8228
      → FitReads ns
      → (s' : Receiver) × (recv_loop char_signed (cut stream k ns) dst s ≡ waiting dst s')
  unfolding recv_loop
  loop-Looks [] k dst s l noise fits reads =
      let (s', r, _) = round-Looks k dst s l (λ j p. noise j (omega arith)) (omega arith) in
      (s', rw r refl)
  loop-Looks (n ∷ ns) k dst s l noise fits reads =
      let (s1, r, l1) = round-Looks k dst s l (λ j p. noise j (omega arith)) (omega arith) in
      let (s2, r2, h2, same) = recv_raw_data-Holds stream k n s1 l1.holds (omega arith) reads.0 in
      let (s3, r3) =
        loop-Looks ns (k + n) dst s2 (record { holds = h2; step = same.same_step ∙ l1.step })
          (λ j p. noise j (omega arith)) (omega arith) reads.1 in
      (s3, rw (r, r2) r3)

-- While what comes in, in pieces of any sizes up to the size of a package, fits into the buffer and holds no magic word,
-- `try_recv_full_msg` waits.
pub try_recv_full_msg-IsNoise :
    (char_signed : Bool) (stream : Bytes) (ns : List ℕ) (dst : Bytes) (s : Receiver)
    → IsNoise stream (sum ns)
    → sum ns ≤ 8228
    → FitReads ns
    → (s' : Receiver) × (try_recv_full_msg char_signed (cut stream 0 ns) dst s ≡ waiting dst s')
unfolding try_recv_full_msg restart
try_recv_full_msg-IsNoise c stream ns dst s noise fits reads =
    loop-Looks stream c ns 0 dst (restart s)
      (record {
        holds = record { counted = refl; stored = λ i p. absurd (omega arith) };
        step = refl;
      })
      (λ j p. noise j (omega arith)) (omega arith) reads

-- What the line delivers: a package of the new protocol of `len` bytes behind `q` bytes in which no
-- magic word begins, and right behind it another of `len'` bytes. The reads `ns` do not complete the
-- first one; the next, of `n` bytes, does, and takes bytes of the second one too. In what the reads
-- `ns'` behind it deliver no magic word begins.
pub record Overlaps (stream : Bytes) (q len len' : ℕ) (ns : List ℕ) (n : ℕ) (ns' : List ℕ)
    : Type 0 where
  pub first : Framed stream q len
  pub second : Framed (offset stream (q + len)) 0 len'
  pub reads : FitReads (ns ++ (n ∷ []))
  pub reads' : FitReads ns'
  pub incomplete : sum ns < q + len
  pub beyond : q + len < sum ns + n
  pub rest : IsNoise (offset stream (sum ns + n)) (sum ns')
  pub fits : sum ns' ≤ 8228
  pub all_in : q + len + len' ≤ sum ns + n + sum ns'

sum-snoc : (ns : List ℕ) (n : ℕ) → sum (ns ++ (n ∷ [])) ≡ sum ns + n
sum-snoc [] n = omega arith
sum-snoc (m ∷ ns) n = omega (arith, sum-snoc ns n)

last_fits : (ns : List ℕ) (n : ℕ) → FitReads (ns ++ (n ∷ [])) → n ≤ 4114
last_fits [] n h = h.0
last_fits (m ∷ ns) n h = last_fits ns n h.1

-- Two packages of the new protocol come in right behind each other, and the read that completes the
-- first one takes bytes of the second one too; what follows holds no magic word. The first call of
-- `try_recv_full_msg` returns SUCCESS with the first package. The next call, with all that is left of
-- the second package, waits for more. Had the second package come in reads of its own, that call would
-- return SUCCESS with it.
pub try_recv_full_msg_drops :
    (char_signed : Bool) (stream : Bytes) (q len len' : ℕ) (ns : List ℕ) (n : ℕ) (ns' : List ℕ)
    (buf : Bytes) (s : Receiver)
    → Overlaps stream q len len' ns n ns'
    → (got : Bytes) × (s1 : Receiver) × (s2 : Receiver) × (got' : Bytes) × (s3 : Receiver)
      × (try_recv_full_msg char_signed (cut stream 0 (ns ++ (n ∷ []))) buf s
          ≡ returns success got s1)
      × Agree len got (offset stream q)
      × (try_recv_full_msg char_signed (cut (offset stream (sum ns + n)) 0 ns') buf s1
          ≡ waiting buf s2)
      × (try_recv_full_msg char_signed
            (cut (offset stream (q + len)) 0 ((sum ns + n - (q + len)) ∷ ns'))
            buf
            s1
          ≡ returns success got' s3)
      × Agree len' got' (offset stream (q + len))
try_recv_full_msg_drops c stream q len len' ns n ns' buf s o =
    let (got, s1, runs, there) =
      try_recv_full_msg-Framed c stream q len (ns ++ (n ∷ [])) buf s o.first o.reads
        (omega (arith, sum-snoc ns n, o.beyond)) in
    let (s2, waits) =
      try_recv_full_msg-IsNoise c (offset stream (sum ns + n)) ns' buf s1 o.rest o.fits o.reads' in
    let (got', s3, runs', there') =
      try_recv_full_msg-Framed c (offset stream (q + len)) 0 len' ((sum ns + n - (q + len)) ∷ ns')
        buf s1 o.second (omega (arith, last_fits ns n o.reads, o.incomplete), o.reads')
        (omega (arith, o.all_in, o.beyond)) in
    (
      got,
      s1,
      s2,
      got',
      s3,
      runs,
      there,
      waits,
      runs',
      Agree-from_zero (offset stream (q + len)) there',
    )
