-- ===== src/Period/Windows.antt =====
-- The windows of months that the loops over periods produce.
use precis_mcp.Common.{
  length, Text, nat_eq, text_eq, string_eq, ltb, leb, leb→le, Bool-cases, ℕ, zero, suc, ◌+◌, ◌-◌,
  ◌*◌, ◌/◌, ◌%◌, ◌≤◌, ◌<◌, min, ◌≡◌, refl, ap, inl, inr, some, List, [], ◌∷◌, arith,
}
use precis_mcp.Common.Int.{◌+ℤ◌, neg, int_laws, pos}
use precis_mcp.Common.Result.{◌>>=◌, ok}
use precis_mcp.Period.{
  Datetime, format_period, datetime_to_period, parse_calendar_period, shift_month, month_le,
  monthly_loop, monthly_fuel, generate_monthly_range,
}
use precis_mcp.Period.Format.{IsMonth, parse-IsMonth, parse-int_year, parse-int_month}
use precis_mcp.Period.Shift.{
  month_limit, month_number, month_text, format_total-pos, format_period-month_text,
  parse-month_text, parse_number, shift_month-parsed, shift_month-month_text, first-month_text,
}
use precis_mcp.Period.Selection.{
  PeriodSelection, SelectionContext, trailing, select_lookback, watermark_loop, safety,
  select_watermark,
}

-- `n` consecutive months from month number `i` on, oldest first.
abbrev pub months_from : ℕ → ℕ → List Text
months_from i zero = []
months_from i (suc n) = month_text i ∷ months_from (suc i) n

pub length-months_from : (i n : ℕ) → length (months_from i n) ≡ n
length-months_from i zero = refl
length-months_from i (suc n) = ap suc (length-months_from (suc i) n)

abbrev pub number_of : Datetime → ℕ
number_of dt = month_number dt.year dt.month

abbrev pub IsDatetime : Datetime → Type 0
IsDatetime dt = (1 ≤ dt.year) × IsMonth dt.year dt.month

pub tick_text :
    (now : Datetime) → IsDatetime now → datetime_to_period now ≡ month_text (number_of now)
unfolding datetime_to_period
tick_text now (h0, valid) = format_period-month_text now.year now.month valid

pos-neg : (t n : ℕ) → n ≤ t → pos t +ℤ neg n ≡ pos (t - n)
unfolding ◌+ℤ◌
pos-neg t n h = ground arith

pub trailing_lem :
    (t n : ℕ)
    → t < month_limit
    → n ≤ t + 1
    → trailing (month_text t) n ≡ ok (months_from (t + 1 - n) n)
unfolding trailing
trailing_lem t zero lt h = refl
trailing_lem t (suc n) lt h =
    let first : t + 1 - suc n ≡ t - n = omega arith in
    let next : t + 1 - n ≡ suc (t - n) = omega arith in
    rw (
      shift_month-month_text t (neg n) lt,
      pos-neg t n (omega arith),
      format_total-pos (t - n),
      trailing_lem t n lt (omega arith),
      first,
      next,
    )

-- The lookback strategy selects the last `lookback_periods` months up to and including the tick's
-- month, oldest first, when so many months lie behind the tick.
pub select_lookback_lem :
    (selection : PeriodSelection) (ctx : SelectionContext)
    → IsDatetime ctx.now
    → selection.lookback_periods ≤ number_of ctx.now + 1
    → select_lookback selection ctx
      ≡ ok (
          months_from
            (number_of ctx.now + 1 - selection.lookback_periods)
            selection.lookback_periods)
unfolding select_lookback
select_lookback_lem selection ctx valid h =
    rw (tick_text ctx.now valid)
      (trailing_lem (number_of ctx.now) selection.lookback_periods (omega arith) h)

next-month_text :
    (c : ℕ) → c < month_limit → shift_month (month_text c) (pos 1) ≡ ok (month_text (suc c))
next-month_text c h =
    let e : pos c +ℤ pos 1 ≡ pos (suc c) = omega int_laws in
    rw (shift_month-month_text c (pos 1) h, e, format_total-pos (suc c))

-- The loop stops behind the tick's month or after `safety` rounds.
pub watermark_loop_lem :
    (safety c t : ℕ)
    → 12 ≤ c
    → c < month_limit
    → t + 1 < month_limit
    → watermark_loop safety (month_text c) t ≡ ok (months_from c (min safety (t + 1 - c)))
unfolding watermark_loop
watermark_loop_lem zero c t h1 h2 h3 =
    let e : min 0 (t + 1 - c) ≡ 0 = omega arith in rw (first-month_text c h1 (omega arith), e)
watermark_loop_lem (suc safety) c t h1 h2 h3 = elim (Bool-cases (leb c t)) [
  | inl on ↦
      let le : c ≤ t = leb→le c t on in
      let e : min (suc safety) (t + 1 - c) ≡ suc (min safety (t + 1 - suc c)) = omega arith in
      rw (
        first-month_text c h1 (omega arith),
        on,
        next-month_text c (omega arith),
        watermark_loop_lem safety (suc c) t (omega arith) (omega arith) h3,
        e,
      )
  | inr off ↦
      let e : min (suc safety) (t + 1 - c) ≡ 0 = ground arith in
      rw (first-month_text c h1 (omega arith), off, e)
]

-- The loop of `_generate_monthly_range` has fuel enough, and lists the months from one to the other.
pub monthly_loop_lem :
    (fuel year month end_year end_month : ℕ)
    → 1 ≤ month
    → month ≤ 12
    → IsMonth end_year end_month
    → (end_year + 1 - year) * 13 + (13 - month) < fuel
    → monthly_loop fuel year month end_year end_month
      ≡ some (
          months_from
            (month_number year month)
            (month_number end_year end_month + 1 - month_number year month))
unfolding monthly_loop
monthly_loop_lem zero year month end_year end_month v1 v2 w h = absurd (omega arith)
monthly_loop_lem (suc fuel) year month end_year end_month v1 v2 w h =
    elim (Bool-cases (month_le year month end_year end_month)) [
      | inl on ↦
          let le : month_number year month ≤ month_number end_year end_month = ground arith in
          let e : month_number end_year end_month + 1 - month_number year month
              ≡ suc (month_number end_year end_month + 1 - suc (month_number year month)) =
            omega arith in
          let year_le : year ≤ end_year = ground arith in
          let text : format_period year month ≡ month_text (month_number year month) =
            format_period-month_text year month (omega arith) in
          elim (Bool-cases (ltb 12 (month + 1))) [
            | inl wrap ↦
                let december : month ≡ 12 = ground arith in
                let next : month_number (year + 1) 1 ≡ suc (month_number year month) =
                  omega arith in
                rw (
                  on,
                  wrap,
                  monthly_loop_lem fuel (year + 1) 1 end_year end_month (omega arith) (omega arith)
                      w (omega arith),
                  text,
                  e,
                  next,
                )
            | inr same ↦
                let before : month < 12 = ground arith in
                let next : month_number year (month + 1) ≡ suc (month_number year month) =
                  omega arith in
                rw (
                  on,
                  same,
                  monthly_loop_lem fuel year (month + 1) end_year end_month (omega arith)
                      (omega arith) w (omega arith),
                  text,
                  e,
                  next,
                )
          ]
      | inr off ↦
          let e : month_number end_year end_month + 1 - month_number year month ≡ 0 =
            ground arith in
          rw (off, e)
    ]

-- For two calendar periods `_generate_monthly_range` terminates, and returns every month from the one to
-- the other, both included, oldest first (none if the end is before the start).
pub generate_monthly_range_lem :
    (start end : Text) (year month end_year end_month : ℕ)
    → parse_calendar_period start ≡ ok (year, month)
    → parse_calendar_period end ≡ ok (end_year, end_month)
    → generate_monthly_range start end
      ≡ ok (
          some (
            months_from
              (month_number year month)
              (month_number end_year end_month + 1 - month_number year month)))
unfolding generate_monthly_range
generate_monthly_range_lem start end year month end_year end_month start_parses end_parses =
    let (hy, h1, h2) = parse-IsMonth start year month start_parses in
    let (hy', h1', h2') = parse-IsMonth end end_year end_month end_parses in
    rw (
      parse-int_year start year month start_parses,
      parse-int_month start year month start_parses,
      parse-int_year end end_year end_month end_parses,
      parse-int_month end end_year end_month end_parses,
      monthly_loop_lem (monthly_fuel year month end_year) year month end_year end_month h1 h2
          (hy', h1', h2') (omega arith),
    )

-- The watermark strategy selects the months after the latest loaded one up to the tick's month, oldest
-- first, and at most 240 of them; a latest month at or after the tick's selects none.
pub select_watermark_lem :
    (ctx : SelectionContext) (latest : Text) (year month : ℕ)
    → IsDatetime ctx.now
    → number_of ctx.now + 1 < month_limit
    → ctx.latest_loaded_period ≡ some latest
    → parse_calendar_period latest ≡ ok (year, month)
    → 1 ≤ year
    → suc (month_number year month) < month_limit
    → select_watermark ctx
      ≡ ok (
          months_from
            (suc (month_number year month))
            (min 240 (number_of ctx.now - month_number year month)))
unfolding select_watermark
select_watermark_lem ctx latest year month now_valid room loaded parses h1 far =
    let bound = parse_number latest year month parses in
    let t = number_of ctx.now in
    let l = month_number year month in
    let e : t + 1 - suc l ≡ t - l = omega arith in
    rw (
      loaded,
      tick_text ctx.now now_valid,
      shift_month-parsed latest year month (pos 1) parses,
      next-month_text l bound,
      first-month_text t (omega arith) (omega arith),
      watermark_loop_lem 240 (suc l) t (omega arith) (omega arith) room,
      e,
    )

-- A watermark run with at most 240 months to catch up selects what `_generate_monthly_range` lists from
-- the month after the latest loaded one to the tick's month.
pub select_watermark-eq-generate_monthly_range :
    (ctx : SelectionContext) (latest : Text) (year month : ℕ)
    → IsDatetime ctx.now
    → number_of ctx.now + 1 < month_limit
    → ctx.latest_loaded_period ≡ some latest
    → parse_calendar_period latest ≡ ok (year, month)
    → 1 ≤ year
    → month_number year month ≤ number_of ctx.now
    → number_of ctx.now ≤ month_number year month + 240
    → (shift_month latest (pos 1) >>= λ start.
        generate_monthly_range start (datetime_to_period ctx.now))
      ≡ (select_watermark ctx >>= λ periods. ok (some periods))
select_watermark-eq-generate_monthly_range ctx latest year month now_valid room loaded parses h1 le
      close =
    let bound = parse_number latest year month parses in
    let t = number_of ctx.now in
    let l = month_number year month in
    let start_number : month_number (suc l / 12) (suc l % 12 + 1) ≡ suc l = omega arith in
    let tick_number : month_number (t / 12) (t % 12 + 1) ≡ t = omega arith in
    let e : t + 1 - suc l ≡ t - l = omega arith in
    let cap : min 240 (t - l) ≡ t - l = omega arith in
    rw (
      select_watermark_lem ctx latest year month now_valid room loaded parses h1 (omega arith),
      tick_text ctx.now now_valid,
      shift_month-parsed latest year month (pos 1) parses,
      next-month_text l bound,
      generate_monthly_range_lem (month_text (suc l)) (month_text t) _ _ _ _
          (parse-month_text (suc l) (omega arith)) (parse-month_text t (omega arith)),
      start_number,
      tick_number,
      e,
      cap,
    )
