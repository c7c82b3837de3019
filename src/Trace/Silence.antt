-- ===== src/Trace/Silence.antt =====
-- What is printed and logged, and that nothing is.
use Prim.Native.String.{String}
use comm_traffic_center.Base.{
  ℕ, ◌/◌, ◌%◌, bit_and, ◌≡◌, refl, arith, Bool, true, false, [], ◌∷◌, ◌++◌, ◌==◌, if◌then◌else◌,
  ◌&&◌, bit_and_lowest, bit_and_mask_one, bit_and_mask_two, bit_and_of_zero, Option, none, some,
}
use comm_traffic_center.Trace.{
  trace, get_trace_state, is_prt, is_log, ctc_trc_state, Level, prints, logs, Asserted,
  assert_succ_with, assert_true, assert_false, assert_not_null, assert_succ, assert_continue,
  fails_with, ctc_trace, erro, get_self_trace_no,
}

is_prt_lem : (a b : ℕ) → is_prt (bit_and a b) ≡ ((a / 2 % 2 == 1) && (b / 2 % 2 == 1))
unfolding is_prt
is_prt_lem a b =
    ground
      (arith, bit_and_mask_two (bit_and a b), bit_and_lowest a b, bit_and_lowest (a / 2) (b / 2))

is_log_lem : (a b : ℕ) → is_log (bit_and a b) ≡ ((a % 2 == 1) && (b % 2 == 1))
unfolding is_log
is_log_lem a b = ground (arith, bit_and_mask_one (bit_and a b), bit_and_lowest a b)

-- The macros TRACE_INFO and TRACE_ERRO for CTC_TRACE print the line exactly if the second binary digit
-- of both the state and the mode is set, log it exactly if the first of both is, and print it first.
pub trace_lem {ℓ} :
    {A : Type ℓ} (level : Level) (state mode : ℕ) (text : A)
    → trace level state ctc_trace mode text
      ≡ (if (state / 2 % 2 == 1) && (mode / 2 % 2 == 1) then prints level text ∷ [] else [])
        ++ (if (state % 2 == 1) && (mode % 2 == 1) then logs level text ∷ [] else [])
unfolding trace get_trace_state
trace_lem level state mode text = rw (is_prt_lem state mode, is_log_lem state mode)

-- With the state that every file has, nothing is ever printed or logged, whatever the trace and mode.
pub trace-silent {ℓ} :
    {A : Type ℓ} (level : Level) (trace_no mode : ℕ) (text : A)
    → trace level ctc_trc_state trace_no mode text ≡ []
unfolding trace get_trace_state is_prt is_log
trace-silent level trace_no mode text = ground (arith, bit_and_of_zero mode)

silent_fails {ℓ} :
    {A : Type ℓ} (ret : A) (mode : ℕ) (text : String)
    → fails_with ctc_trc_state mode text ret ≡ ([], some ret)
unfolding fails_with
silent_fails ret mode text = rw (trace-silent erro get_self_trace_no mode text) refl

-- A choice between two silent assertions.
silent_if {ℓ} :
    {A : Type ℓ} (b : Bool) (x y : Option A)
    → ◌≡◌ {A = Asserted A} (if b then ([], x) else ([], y)) ([], if b then x else y)
silent_if true x y = refl
silent_if false x y = refl

module _ {ℓ} {A : Type ℓ} (ret : A) (mode : ℕ) (text : String) where
  assert_not_null_lem :
      (p : Option ℕ)
      → assert_not_null ctc_trc_state p ret mode text
        ≡ ([], elim p [ none ↦ some ret | some q ↦ none ])
  unfolding assert_not_null
  assert_not_null_lem none = silent_fails ret mode text
  assert_not_null_lem (some q) = refl

  -- With the state that every file has, each assertion macro returns what it is told to exactly where
  -- its condition fails, and prints nothing: ASSERT_SUCC_WITH on an answer other than 0, ASSERT_TRUE and
  -- ASSERT_FALSE by their condition, ASSERT_NOT_NULL on a null pointer; ASSERT_SUCC and
  -- ASSERT_CONTINUE return the answer itself where it is not 0 and not 1.
  pub asserts-silent :
      (cond : ℕ) (b : Bool) (p : Option ℕ)
      → (assert_succ_with ctc_trc_state cond ret mode text
          ≡ ([], if cond == 0 then none else some ret))
        × (assert_true ctc_trc_state b ret mode text ≡ ([], if b then none else some ret))
        × (assert_false ctc_trc_state b ret mode text ≡ ([], if b then some ret else none))
        × (assert_not_null ctc_trc_state p ret mode text
            ≡ ([], elim p [ none ↦ some ret | some q ↦ none ]))
        × (assert_succ ctc_trc_state cond mode text ≡ ([], if cond == 0 then none else some cond))
        × (assert_continue ctc_trc_state cond mode text
            ≡ ([], if cond == 1 then none else some cond))
  unfolding assert_succ_with assert_true assert_false assert_not_null assert_succ assert_continue
  asserts-silent cond b p = (
    rw (silent_fails ret mode text) (silent_if (cond == 0) none (some ret)),
    rw (silent_fails ret mode text) (silent_if b none (some ret)),
    rw (silent_fails ret mode text) (silent_if b (some ret) none),
    assert_not_null_lem p,
    rw (silent_fails cond mode text) (silent_if (cond == 0) none (some cond)),
    rw (silent_fails cond mode text) (silent_if (cond == 1) none (some cond)),
  )
