-- ===== src/Trace.antt =====
-- utils/trace_com.h, utils/ctc_trace.h, utils/ctc_trace.c and utils/assert.h: what the trace and
-- assertion macros print, log and return. The text of a message is an argument; `ctc_trc_state` is
-- passed as `state`, though the macros read a static variable of the file that they stand in.
pub mod Silence
use Prim.Native.String.{String}
use comm_traffic_center.Base.{
  ℕ, bit_and, Bool, true, false, Option, none, some, List, [], ◌∷◌, ◌++◌, ◌==◌, if◌then◌else◌,
}

-- `LOG`, `PRT`, `TRC` and `NO_TRC`; `TRC` is `LOG | PRT`.
abbrev pub log : ℕ
log = 1

abbrev pub prt : ℕ
prt = 2

abbrev pub trc : ℕ
trc = 3

abbrev pub no_trc : ℕ
no_trc = 0

-- The `ctc_trc_state` of every file: nothing assigns it.
abbrev pub ctc_trc_state : ℕ
ctc_trc_state = no_trc

-- `CTC_TRACE`
abbrev pub ctc_trace : ℕ
ctc_trace = 1

unfoldable pub is_log : ℕ → Bool
is_log flag = if bit_and flag log == 0 then false else true

unfoldable pub is_prt : ℕ → Bool
is_prt flag = if bit_and flag prt == 0 then false else true

unfoldable pub get_trace_state : ℕ → ℕ → ℕ
get_trace_state state trc_no = if trc_no == ctc_trace then state else 0

abbrev pub get_self_trace_no : ℕ
get_self_trace_no = ctc_trace

pub data Level : Type 0 where
  info erro : Level

-- A line of `printf` or of `syslog`; what is written on it is an `A`.
pub data Output {ℓ} (A : Type ℓ) : Type ℓ where
  prints logs : Level → A → Output A

-- `TRACE_INFO` and `TRACE_ERRO`.
unfoldable pub trace {ℓ} : {A : Type ℓ} → Level → ℕ → ℕ → ℕ → A → List (Output A)
unfolding get_trace_state is_prt is_log
trace level state trace_no mode text =
    let tmp_state = get_trace_state state trace_no in
    (if is_prt (bit_and tmp_state mode) then prints level text ∷ [] else [])
    ++ (if is_log (bit_and tmp_state mode) then logs level text ∷ [] else [])

unfoldable pub ctc_trace_info {ℓ} : {A : Type ℓ} → ℕ → ℕ → A → List (Output A)
unfolding trace
ctc_trace_info state mode text = trace info state ctc_trace mode text

unfoldable pub ctc_trace_erro {ℓ} : {A : Type ℓ} → ℕ → ℕ → A → List (Output A)
unfolding trace
ctc_trace_erro state mode text = trace erro state ctc_trace mode text

-- What an assertion macro does: what it prints, and what it returns, or runs, if it does not let the
-- function go on.
abbrev pub Asserted {ℓ} : Type ℓ → Type ℓ
Asserted A = List (Output String) × Option A

unfoldable pub fails_with {ℓ} : {A : Type ℓ} → ℕ → ℕ → String → A → Asserted A
unfolding trace
fails_with state mode text ret = (trace erro state get_self_trace_no mode text, some ret)

goes_on {ℓ} : {A : Type ℓ} → Asserted A
goes_on = ([], none)

module _ {ℓ} {A : Type ℓ} (state : ℕ) where
  -- `ASSERT_SUCC_WITH` and `ASSERT_SUCC_WITH_ACT`: a call's answer other than 0, which is SUCCESS.
  unfoldable pub assert_succ_with : ℕ → A → ℕ → String → Asserted A
  unfolding fails_with goes_on
  assert_succ_with cond ret mode text =
      if cond == 0 then goes_on else fails_with state mode text ret

  -- `ASSERT_TRUE` and `ASSERT_TRUE_WITH_ACT`.
  unfoldable pub assert_true : Bool → A → ℕ → String → Asserted A
  unfolding fails_with goes_on
  assert_true cond ret mode text = if cond then goes_on else fails_with state mode text ret

  -- `ASSERT_FALSE` and `ASSERT_FALSE_WITH_ACT`.
  unfoldable pub assert_false : Bool → A → ℕ → String → Asserted A
  unfolding fails_with goes_on
  assert_false cond ret mode text = if cond then fails_with state mode text ret else goes_on

  -- `ASSERT_NOT_NULL` and `ASSERT_NOT_NULL_WITH_ACT`; the pointer is to a `P`.
  unfoldable pub assert_not_null {κ} : {P : Type κ} → Option P → A → ℕ → String → Asserted A
  unfolding fails_with goes_on
  assert_not_null none ret mode text = fails_with state mode text ret
  assert_not_null (some p) ret mode text = goes_on

-- `ASSERT_SUCC` and `ASSERT_CONTINUE` return the answer that they test; CONTINUE is 1.
unfoldable pub assert_succ : ℕ → ℕ → ℕ → String → Asserted ℕ
unfolding fails_with goes_on
assert_succ state cond mode text = if cond == 0 then goes_on else fails_with state mode text cond

unfoldable pub assert_continue : ℕ → ℕ → ℕ → String → Asserted ℕ
unfolding fails_with goes_on
assert_continue state cond mode text =
    if cond == 1 then goes_on else fails_with state mode text cond
