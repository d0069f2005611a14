-- ===== src/Ingestion/Inference.antt =====
-- The period of a file that arrives (precis_mcp/ingestion/period_inference.py). The regular expression of a
-- binding is an argument.
pub mod Canonical
use precis_mcp.Common.{
  length, get_elem?, take, drop, replicate, All, filterb, length-append, contains, Text, codes,
  text_beq, text_beq_iff, text_eq, string_eq, nat_eq, ◌==◌, beq_refl, Eq, ltb, leb, nat_beq,
  if◌then◌else◌, ltb→lt, leb→le, le→leb, nat_beq_iff, Bool-cases, Option-cases, ℕ, zero, suc, ◌+◌,
  ◌-◌, ◌*◌, ◌/◌, ◌%◌, ◌≤◌, ◌<◌, min, String, ◌≡◌, refl, sym, ap, subst, ◌∙◌, fun_ext, ◌≢◌, ◌↔◌, ◌⊎◌,
  inl, inr, Bool, true, false, not, ◌&&◌, ◌||◌, Option, none, some, List, [], ◌∷◌, ◌++◌, map,
  append_assoc, append-nil, arith,
}
use precis_mcp.Common.Result.{
  guard, ◌>>=◌, ◌>>◌, map_result, >>=-eq-ok, >>=-cong, >>=_assoc, Result, err, ok,
}
use precis_mcp.Common.Maps.{
  Dict, lookup, insert, keys, insert_item, sort_items, lookup-insert, lookup-sort_items,
}
use precis_mcp.Common.Decimal.{is_digit}
use precis_mcp.Common.Spaces.{strip}

pub data InferenceError : Type 0 where
  not_a_period no_match no_period_group no_rows no_column null_column : InferenceError

abbrev pub is_upper : ℕ → Bool
is_upper c = leb 65 c && leb c 90

abbrev pub all_upper : Text → Bool
all_upper [] = true
all_upper (c ∷ cs) = is_upper c && all_upper cs

-- `(-[A-Z]+)?$`
abbrev pub is_adjustment : Text → Bool
is_adjustment [] = true
is_adjustment (c ∷ []) = false
is_adjustment (c ∷ d ∷ cs) = nat_beq c 45 && (is_upper d && all_upper cs)

abbrev pub six_digits : ℕ → ℕ → ℕ → ℕ → ℕ → ℕ → Bool
six_digits a b c d e f =
    is_digit a && (is_digit b && (is_digit c && (is_digit d && (is_digit e && is_digit f))))

-- `_DASHED_RE`
unfoldable pub is_dashed : Text → Bool
is_dashed (a ∷ b ∷ c ∷ d ∷ dash ∷ e ∷ f ∷ rest) =
    six_digits a b c d e f && (nat_beq dash 45 && is_adjustment rest)
is_dashed _ = false

-- `_YYYYMM_RE`
unfoldable pub from_compact : Text → Option Text
from_compact (a ∷ b ∷ c ∷ d ∷ e ∷ f ∷ []) =
    if six_digits a b c d e f then some (a ∷ b ∷ c ∷ d ∷ 45 ∷ e ∷ f ∷ []) else none
from_compact _ = none

-- `_DATE_RE`, which has no end
unfoldable pub from_date : Text → Option Text
from_date (a ∷ b ∷ c ∷ d ∷ sign ∷ e ∷ f ∷ rest) =
    if six_digits a b c d e f && (nat_beq sign 45 || nat_beq sign 47)
    then some (a ∷ b ∷ c ∷ d ∷ 45 ∷ e ∷ f ∷ [])
    else none
from_date _ = none

abbrev pub found_or : Option Text → Option Text → Result InferenceError Text
found_or (some t) date = ok t
found_or none (some t) = ok t
found_or none none = err not_a_period

abbrev pub normalise_stripped : Text → Result InferenceError Text
normalise_stripped t = if is_dashed t then ok t else found_or (from_compact t) (from_date t)

unfoldable pub normalise_period : Text → Result InferenceError Text
normalise_period raw = normalise_stripped (strip raw)

abbrev pub from_match : Option (Option Text) → Result InferenceError Text
from_match none = err no_match
from_match (some none) = err no_period_group
from_match (some (some raw)) = normalise_period raw

-- `search` answers the group `period` of the first match.
unfoldable pub infer_period_from_filename :
    (Text → Text → Option (Option Text)) → Text → Text → Result InferenceError Text
infer_period_from_filename search filename regex = from_match (search regex filename)

abbrev pub from_value : Option (Option Text) → Result InferenceError Text
from_value none = err no_column
from_value (some none) = err null_column
from_value (some (some value)) = normalise_period value

-- A row is its values as texts, `none` for a null.
unfoldable pub infer_period_from_rows :
    List (Dict (Option Text)) → Text → Result InferenceError Text
infer_period_from_rows [] column = err no_rows
infer_period_from_rows (row ∷ rows) column = from_value (lookup column row)
