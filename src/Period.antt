-- ===== src/Period.antt =====
-- Calendar periods `YYYY-MM` (precis_mcp/ingestion/period_selection.py, the period helpers of
-- precis_mcp/engine/resolver.py and of precis_mcp/scope_resolver.py). A period is the list of its
-- code points.
pub mod Selection
pub mod Format
pub mod Shift
pub mod Windows
pub mod Order
use precis_mcp.Common.{
  ℕ, zero, suc, ◌+◌, ◌-◌, ◌*◌, ◌/◌, ◌%◌, Text, Bool, true, false, not, ◌&&◌, ◌||◌, Option, none,
  some, List, [], ◌∷◌, ◌++◌, ltb, leb, nat_beq, ◌==◌, if◌then◌else◌, length, get_elem?, take, drop,
}
use precis_mcp.Common.Int.{ℤ, pos, negsuc, ◌+ℤ◌}
use precis_mcp.Common.Decimal.{isdigit, int_from, int?, pad, decimal}
use precis_mcp.Common.Result.{Result, ok, err, ◌>>=◌}

-- What the period functions raise.
pub data PeriodError : Type 0 where
  -- PeriodSelectionError, by its message
  invalid_period non_calendar_period explicit_missing explicit_empty unknown_strategy : PeriodError
  -- ValueError of `int` or of `datetime`
  value_error : PeriodError

-- The fields of a `datetime` that the selection reads.
pub record Datetime : Type 0 where
  pub year : ℕ
  pub month : ℕ

-- `f"{year:04d}-{month:02d}"` for a year that is not negative
unfoldable pub format_period : ℕ → ℕ → Text
format_period year month = pad 4 year ++ b'-' ∷ pad 2 month

-- `f"{year:04d}"`, where the sign counts in the width
unfoldable pub format_year : ℤ → Text
format_year (pos y) = pad 4 y
format_year (negsuc y) = b'-' ∷ pad 3 (suc y)

unfoldable pub datetime_to_period : Datetime → Text
datetime_to_period dt = format_period dt.year dt.month

abbrev char_is : Option ℕ → ℕ → Bool
char_is none c = false
char_is (some d) c = nat_beq d c

-- The test of the texts that `_parse_calendar_period` reads as numbers.
unfoldable pub has_calendar_shape : Text → Bool
has_calendar_shape period =
    nat_beq (length period) 7
    && (char_is (get_elem? period 4) b'-' && (isdigit (take 4 period) && isdigit (drop 5 period)))

abbrev pub int_or_raise : Text → Result PeriodError ℕ
int_or_raise t = elim (int? t) [ none ↦ err value_error | some n ↦ ok n ]

-- `int` raises where a digit is not a decimal one.
abbrev pub parse_parts : Text → Text → Result PeriodError (ℕ × ℕ)
parse_parts y m = do
  year ← int_or_raise y
  month ← int_or_raise m
  if not (leb 1 month && leb month 12) then err non_calendar_period else ok (year, month)

unfoldable pub parse_calendar_period : Text → Result PeriodError (ℕ × ℕ)
parse_calendar_period period =
    if has_calendar_shape period
    then parse_parts (take 4 period) (drop 5 period)
    else err invalid_period

-- `datetime(year, month, 1)` refuses the year 0; two such datetimes compare as their months do.
unfoldable pub period_to_first_of_month : Text → Result PeriodError ℕ
period_to_first_of_month period = do
  (year, month) ← parse_calendar_period period
  if nat_beq year 0 then err value_error else ok (year * 12 + (month - 1))

-- `divmod(total, 12)`, rounding down
unfoldable pub divmod12 : ℤ → ℤ × ℕ
divmod12 (pos n) = (pos (n / 12), n % 12)
divmod12 (negsuc n) = (negsuc (n / 12), 11 - n % 12)

-- `f"{new_year:04d}-{new_month_idx + 1:02d}"` for the month with this number
unfoldable pub format_total : ℤ → Text
format_total total =
    let (year, month) = divmod12 total in format_year year ++ b'-' ∷ pad 2 (month + 1)

unfoldable pub shift_month : Text → ℤ → Result PeriodError Text
shift_month period delta = do
  (year, month) ← parse_calendar_period period
  ok (format_total (pos (year * 12 + (month - 1)) +ℤ delta))

-- `shift_period` of precis_mcp/engine/resolver.py. `month - 1` may be -1 there.
unfoldable pub shift_period : Text → ℤ → Result PeriodError Text
shift_period period months = do
  year ← int_or_raise (take 4 period)
  month ← int_or_raise (take 2 (drop 5 period))
  ok (format_total (pos (year * 12 + month) +ℤ negsuc 0 +ℤ months))

-- `(year, month) <= (end_year, end_month)`
abbrev pub month_le : ℕ → ℕ → ℕ → ℕ → Bool
month_le year month end_year end_month =
    ltb year end_year || (nat_beq year end_year && leb month end_month)

-- The loop of `_generate_monthly_range`, on fuel; `none` means that the fuel ran out.
unfoldable pub monthly_loop : ℕ → ℕ → ℕ → ℕ → ℕ → Option (List Text)
monthly_loop zero year month end_year end_month = none
monthly_loop (suc fuel) year month end_year end_month =
    let wraps = ltb 12 (month + 1) in
    let rest =
      monthly_loop fuel (if wraps then year + 1 else year) (if wraps then 1 else month + 1) end_year
        end_month in
    if month_le year month end_year end_month
    then elim rest [ none ↦ none | some periods ↦ some (format_period year month ∷ periods) ]
    else some []

abbrev pub monthly_fuel : ℕ → ℕ → ℕ → ℕ
monthly_fuel year month end_year = suc ((end_year + 1 - year) * 13 + (13 - month))

unfoldable pub generate_monthly_range : Text → Text → Result PeriodError (Option (List Text))
generate_monthly_range start end = do
  year ← int_or_raise (take 4 start)
  month ← int_or_raise (take 2 (drop 5 start))
  end_year ← int_or_raise (take 4 end)
  end_month ← int_or_raise (take 2 (drop 5 end))
  ok (monthly_loop (monthly_fuel year month end_year) year month end_year end_month)
