-- ===== src/Tests/Periods.antt =====
-- The period functions at concrete inputs.
use precis_mcp.Common.{
  Text, codes, ◌∷◌, [], nat_eq, text_eq, string_eq, ◌≡◌, refl, none, some, arith,
}
use precis_mcp.Common.Int.{pos, negsuc}
use precis_mcp.Common.Result.{◌>>=◌, ok, err}
use precis_mcp.Period.{
  Datetime, format_period, datetime_to_period, has_calendar_shape, parse_calendar_period,
  shift_month, shift_period, generate_monthly_range, invalid_period, value_error,
}
use precis_mcp.Period.Selection.{
  PeriodSelection, SelectionContext, select_lookback, select_watermark, lookback,
}
use precis_mcp.Common.Decimal.{other_decimal, decimal_in, other_digit, in_runs}
use precis_mcp.Period.Format.{parse-format_period, Parsed, parse_canonical}
use precis_mcp.Common.Spaces.{strip}
use precis_mcp.Ingestion.Inference.{is_dashed, from_compact, from_date, normalise_period}
use precis_mcp.Ingestion.Inference.Canonical.{normalise_period-is_dashed}
use precis_mcp.Period.Shift.{shift_period-eq-shift_month}
use precis_mcp.Period.Windows.{
  months_from, select_lookback_lem, generate_monthly_range_lem, select_watermark_lem,
  select_watermark-eq-generate_monthly_range,
}
use precis_mcp.Common.{true}

abbrev march : Text
march = codes "2024-03"

march_parses : parse_calendar_period march ≡ ok (2024, 3)
unfolding parse_calendar_period has_calendar_shape
march_parses = refl

december_parses : parse_calendar_period (codes "2023-12") ≡ ok (2023, 12)
unfolding parse_calendar_period has_calendar_shape
december_parses = refl

-- Full-width digits are read, and superscripts are not.
full_width_parses :
    parse_calendar_period (65298 ∷ 65296 ∷ 65298 ∷ 65300 ∷ b'-' ∷ 65296 ∷ 65299 ∷ []) ≡ ok (2024, 3)
unfolding parse_calendar_period has_calendar_shape other_decimal decimal_in
full_width_parses = refl

superscript_raises :
    parse_calendar_period (178 ∷ 48 ∷ 50 ∷ 52 ∷ b'-' ∷ 48 ∷ 51 ∷ []) ≡ err value_error
unfolding parse_calendar_period has_calendar_shape other_decimal decimal_in other_digit in_runs
superscript_raises = refl

-- The adjustment period is no calendar period.
adjustment_raises : parse_calendar_period (codes "2024-13-ADJ") ≡ err invalid_period
unfolding parse_calendar_period has_calendar_shape
adjustment_raises = refl

abbrev tick : Datetime
tick = record { year = 2024; month = 3 }

abbrev last_three : PeriodSelection
last_three = record { strategy = lookback; lookback_periods = 3 }

abbrev caught_up_to_december : SelectionContext
caught_up_to_december = record {
  now = tick;
  explicit_period = none;
  latest_loaded_period = some (codes "2023-12");
  watermark_fallback_periods = 3;
}

parse-format_period_example : parse_calendar_period (format_period 2024 3) ≡ ok (2024, 3)
parse-format_period_example = parse-format_period 2024 3 (omega arith, omega arith, omega arith)

parse_canonical_example : Parsed march 2024 3
parse_canonical_example = parse_canonical march 2024 3 march_parses

shift_period-eq-shift_month_example : shift_period march (negsuc 11) ≡ shift_month march (negsuc 11)
shift_period-eq-shift_month_example =
    shift_period-eq-shift_month march 2024 3 (negsuc 11) march_parses

select_lookback_example :
    select_lookback last_three caught_up_to_december ≡ ok (months_from 24288 3)
select_lookback_example =
    select_lookback_lem last_three caught_up_to_december
      (omega arith, (omega arith, omega arith, omega arith)) (omega arith)

generate_monthly_range_example :
    generate_monthly_range (codes "2023-12") march ≡ ok (some (months_from 24287 4))
generate_monthly_range_example =
    generate_monthly_range_lem (codes "2023-12") march 2023 12 2024 3 december_parses march_parses

select_watermark_example : select_watermark caught_up_to_december ≡ ok (months_from 24288 3)
select_watermark_example =
    select_watermark_lem caught_up_to_december (codes "2023-12") 2023 12
      (omega arith, (omega arith, omega arith, omega arith)) (omega arith) refl december_parses
      (omega arith) (omega arith)

select_watermark-eq-generate_monthly_range_example :
    (shift_month (codes "2023-12") (pos 1) >>= λ start.
    generate_monthly_range start (datetime_to_period tick))
    ≡ (select_watermark caught_up_to_december >>= λ periods. ok (some periods))
select_watermark-eq-generate_monthly_range_example =
    select_watermark-eq-generate_monthly_range caught_up_to_december (codes "2023-12") 2023 12
      (omega arith, (omega arith, omega arith, omega arith)) (omega arith) refl december_parses
      (omega arith) (omega arith) (omega arith)

normalises : normalise_period (codes " 202604 ") ≡ ok (codes "2026-04")
unfolding normalise_period strip is_dashed from_compact from_date
normalises = refl

normalise_period-is_dashed_example :
    (is_dashed (codes "2026-04") ≡ true)
    × (normalise_period (codes "2026-04") ≡ ok (codes "2026-04"))
normalise_period-is_dashed_example =
    normalise_period-is_dashed (codes " 202604 ") (codes "2026-04") normalises

-- An adjustment period in small letters becomes the month.
adjustment_cut : normalise_period (codes "2026-12-adj") ≡ ok (codes "2026-12")
unfolding normalise_period strip is_dashed from_compact from_date
adjustment_cut = refl
