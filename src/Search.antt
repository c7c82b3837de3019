-- ===== src/Search.antt =====
-- `get_msg_head` of app/msg_util.c: the search for a magic word in the receive buffer. The pointers
-- are not null and the lengths not negative in every call, so those early returns are left out; the
-- result is the distance of the returned pointer from `text`, `none` for NULL.
pub mod First
use comm_traffic_center.Base.{
  ℕ, zero, suc, ◌+◌, ◌-◌, Bool, ◌&&◌, Option, none, some, Bytes, ltb, leb, ◌==◌, if◌then◌else◌,
  true, false,
}

-- `while ((idxText + patnLen) <= idxLen && text[idxText] != patn[0]) idxText++;`
unfoldable pub skip : ℕ → Bytes → ℕ → Bytes → ℕ → ℕ → ℕ
skip zero text idx_len patn patn_len i = i
skip (suc fuel) text idx_len patn patn_len i =
    let next = skip fuel text idx_len patn patn_len (i + 1) in
    if leb (i + patn_len) idx_len then (if text i == patn 0 then i else next) else i

-- `for (idxPatn = 1; idxPatn < patnLen; idxPatn++) if (text[..] != patn[..]) break;`: the value of
-- `idxPatn` behind the loop, with `rounds` elements left.
unfoldable pub match_rest : ℕ → Bytes → Bytes → ℕ → ℕ → ℕ
match_rest zero text patn i k = k
match_rest (suc rounds) text patn i k =
    let next = match_rest rounds text patn i (k + 1) in if text (i + k) == patn k then next else k

-- The outer loop at `idxText = i`; the outer option is `none` when the fuel runs out.
unfoldable pub search_from : ℕ → Bytes → ℕ → Bytes → ℕ → ℕ → Option (Option ℕ)
search_from zero text idx_len patn patn_len i = none
search_from (suc fuel) text idx_len patn patn_len i =
    let j = skip (suc idx_len) text idx_len patn patn_len i in
    let k = match_rest (patn_len - 1) text patn j 1 in
    let rest = search_from fuel text idx_len patn patn_len (j + k) in
    if ltb i idx_len
    then (if ltb idx_len (j + patn_len)
        then some none
        else if k == patn_len
        then some (some j)
        else rest)
    else some none

-- `First` shows that the fuel is enough.
unfoldable pub get_msg_head : Bytes → ℕ → Bytes → ℕ → Option ℕ
get_msg_head text idx_len patn patn_len =
    elim (search_from (suc idx_len) text idx_len patn patn_len 0) [ none ↦ none | some r ↦ r ]
