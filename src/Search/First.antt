-- ===== src/Search/First.antt =====
-- `get_msg_head` finds the first place of a two-byte word.
use comm_traffic_center.Base.{
  ◌∙◌, sym, Agree, ℕ, zero, suc, ◌+◌, ◌≤◌, ◌<◌, ◌≡◌, ◌≢◌, refl, arith, true, false, Option, none,
  some, Bytes, ltb, leb, ◌==◌, Bool-cases, inl, inr, ◌⊎◌,
}
use comm_traffic_center.Search.{skip, match_rest, search_from, get_msg_head}

-- The word `patn` stands at index `k`.
abbrev pub At : Bytes → Bytes → ℕ → Type 0
At text patn k = (text k ≡ patn 0) × (text (k + 1) ≡ patn 1)

-- `r` is the first place from `i` on where the word fits below `len`, or there is none.
abbrev pub IsFirst : Bytes → ℕ → Bytes → ℕ → Option ℕ → Type 0
IsFirst text len patn i none = (k : ℕ) → i ≤ k → k + 2 ≤ len → ¬ At text patn k
IsFirst text len patn i (some j) =
    (i ≤ j) × (j + 2 ≤ len) × At text patn j × ((k : ℕ) → i ≤ k → k < j → ¬ At text patn k)

-- Where the inner loop stops.
record Skipped (text : Bytes) (len : ℕ) (patn : Bytes) (i j : ℕ) : Type 0 where
  ahead : i ≤ j
  skipped : (k : ℕ) → i ≤ k → k < j → text k ≢ patn 0
  stopped : (len < j + 2) ⊎ (text j ≡ patn 0)

skip-Skipped :
    (fuel : ℕ) (text : Bytes) (len : ℕ) (patn : Bytes) (i : ℕ)
    → len < i + fuel
    → Skipped text len patn i (skip fuel text len patn 2 i)
unfolding skip
skip-Skipped zero text len patn i h = record {
  ahead = omega arith;
  skipped = λ k p q. absurd (omega arith);
  stopped = inl (omega arith);
}
skip-Skipped (suc fuel) text len patn i h =
    let ih = skip-Skipped fuel text len patn (i + 1) (omega arith) in
    elim (Bool-cases (leb (i + 2) len)) [
      | inr e ↦ rw e (record {
        ahead = omega arith;
        skipped = λ k p q. absurd (omega arith);
        stopped = inl (ground arith);
      })
      | inl e ↦ elim (Bool-cases (text i == patn 0)) [
        | inl f ↦
            rw (e, f)
              (record {
                ahead = omega arith;
                skipped = λ k p q. absurd (omega arith);
                stopped = inr (ground arith);
              })
        | inr f ↦
            rw (e, f)
              (record {
                ahead = omega (arith, ih.ahead);
                skipped = λ k p q. ground (arith, ih.skipped k);
                stopped = ih.stopped;
              })
      ]
    ]

-- One round of the outer loop from where the inner loop stopped; `later` is the rest of the search.
search_round :
    (fuel : ℕ) (text : Bytes) (len : ℕ) (patn : Bytes) (i j : ℕ)
    → i < len
    → skip (suc len) text len patn 2 i ≡ j
    → Skipped text len patn i j
    → (j + 2 ≤ len
        → (r : Option ℕ) × (search_from fuel text len patn 2 (j + 1) ≡ some r)
          × IsFirst text len patn (j + 1) r)
    → (r : Option ℕ) × (search_from (suc fuel) text len patn 2 i ≡ some r)
      × IsFirst text len patn i r
unfolding search_from match_rest
search_round fuel text len patn i j h e s later = elim (Bool-cases (ltb len (j + 2))) [
  | inl past ↦ (none, rw e (ground arith), λ k p q. λ a. s.skipped k p (ground arith) a.0)
  | inr fits ↦ elim (Bool-cases (text (j + 1) == patn 1)) [
    | inl hit ↦ (
      some j,
      rw e (ground arith),
      (
        s.ahead,
        ground arith,
        (ground (arith, s.stopped), ground arith),
        λ k p q a. s.skipped k p q a.0,
      ),
    )
    | inr miss ↦
        let (r, f, g) = later (ground arith) in (r, rw (e, inside, fits, miss) f, widen miss r g)
  ]
]
  where
    inside : ltb i len ≡ true
    inside = ground arith

    -- The word stands nowhere before `j + 1`.
    absent : (text (j + 1) == patn 1) ≡ false → (k : ℕ) → i ≤ k → k < j + 1 → ¬ At text patn k
    absent miss k p q a = elim (Bool-cases (k == j)) [
      | inl f ↦ let f' : k ≡ j = ground arith in ground (arith, rw f' at (a.1))
      | inr f ↦ s.skipped k p (ground arith) a.0
    ]

    widen :
        (text (j + 1) == patn 1) ≡ false
        → (r : Option ℕ) → IsFirst text len patn (j + 1) r
        → IsFirst text len patn i r
    widen miss none g = λ k p q a. elim (Bool-cases (leb k j)) [
      | inl f ↦ absent miss k p (ground arith) a
      | inr f ↦ g k (ground arith) q a
    ]
    widen miss (some m) g = (
      omega (arith, g.0, s.ahead),
      g.1,
      g.2,
      λ k p q a. elim (Bool-cases (leb k j)) [
        | inl f ↦ absent miss k p (ground arith) a
        | inr f ↦ g.3 k (ground arith) q a
      ],
    )

search_from-IsFirst :
    (fuel : ℕ) (text : Bytes) (len : ℕ) (patn : Bytes) (i : ℕ)
    → i ≤ len
    → len < i + fuel
    → (r : Option ℕ) × (search_from fuel text len patn 2 i ≡ some r) × IsFirst text len patn i r
unfolding search_from
search_from-IsFirst zero text len patn i b h = absurd (omega arith)
search_from-IsFirst (suc fuel) text len patn i b h = elim (Bool-cases (ltb i len)) [
  | inr e ↦ (none, rw e, λ k p q. absurd (ground arith))
  | inl e ↦
      let s = skip-Skipped (suc len) text len patn i (omega arith) in
      search_round fuel text len patn i _ (ground arith) refl s
        λ q. search_from-IsFirst fuel text len patn (_ + 1) (omega arith) (omega (arith, s.ahead))
]

-- `get_msg_head` with a two-byte word returns the first place where the word stands in the first
-- `len` bytes, and NULL exactly when it stands nowhere there; its loops end.
pub get_msg_head-IsFirst :
    (text : Bytes) (len : ℕ) (patn : Bytes)
    → (search_from (suc len) text len patn 2 0 ≢ none)
      × IsFirst text len patn 0 (get_msg_head text len patn 2)
unfolding get_msg_head
get_msg_head-IsFirst text len patn =
    let (r, e, f) = search_from-IsFirst (suc len) text len patn 0 (omega arith) (omega arith) in
    (rw e (λ p. cc), rw (e, get_msg_head, IsFirst) f)

-- The word is found at the place before which it does not stand.
pub get_msg_head-At :
    (text : Bytes) (len : ℕ) (patn : Bytes) (q : ℕ)
    → At text patn q
    → q + 2 ≤ len
    → ((k : ℕ) → k < q → ¬ At text patn k)
    → get_msg_head text len patn 2 ≡ some q
get_msg_head-At text len patn q a h first =
    at_q (get_msg_head text len patn 2) (get_msg_head-IsFirst text len patn).1
  where
    at_q : (r : Option ℕ) → IsFirst text len patn 0 r → r ≡ some q
    at_q none f = absurd (f q (omega arith) h a)
    at_q (some j) f = elim (Bool-cases (j == q)) [
      | inl e ↦ ground arith
      | inr ne ↦ elim (Bool-cases (ltb j q)) [
        | inl lt ↦ absurd (first j (ground arith) f.2)
        | inr ge ↦ absurd (f.3 q (omega arith) (ground arith) a)
      ]
    ]

-- Where the word stands nowhere below `len`, the search answers NULL.
pub get_msg_head_absent :
    (text : Bytes) (len : ℕ) (patn : Bytes)
    → ((k : ℕ) → k + 2 ≤ len → ¬ At text patn k)
    → get_msg_head text len patn 2 ≡ none
get_msg_head_absent text len patn h =
    nowhere (get_msg_head text len patn 2) (get_msg_head-IsFirst text len patn).1
  where
    nowhere : (r : Option ℕ) → IsFirst text len patn 0 r → r ≡ none
    nowhere none f = refl
    nowhere (some j) f = absurd (h j f.1 f.2)

At-Agree :
    {n : ℕ} (a b : Bytes) (patn : Bytes) (k : ℕ)
    → Agree n a b
    → k + 2 ≤ n
    → At b patn k
    → At a patn k
At-Agree a b patn k same h (m0, m1) = (same k (omega arith) ∙ m0, same (k + 1) (omega arith) ∙ m1)

-- The search depends on the first `len` bytes only.
pub get_msg_head-Agree :
    (a b : Bytes) (len : ℕ) (patn : Bytes)
    → Agree len a b
    → get_msg_head a len patn 2 ≡ get_msg_head b len patn 2
get_msg_head-Agree a b len patn same =
    found (get_msg_head b len patn 2) (get_msg_head-IsFirst b len patn).1
  where
    back : Agree len b a
    back i p = sym (same i p)

    found : (r : Option ℕ) → IsFirst b len patn 0 r → get_msg_head a len patn 2 ≡ r
    found none f =
        get_msg_head_absent a len patn λ k p m. f k (omega arith) p (At-Agree b a patn k back p m)
    found (some q) f =
        get_msg_head-At a len patn q (At-Agree a b patn q same f.1 f.2) f.1
          λ k p m. f.3 k (omega arith) p (At-Agree b a patn k back (omega (arith, f.1)) m)
