-- ===== src/Period/Selection.antt =====
-- `select_periods` of precis_mcp/ingestion/period_selection.py.
use precis_mcp.Common.{
  ℕ, zero, suc, Text, Option, none, some, List, [], ◌∷◌, map, leb, if◌then◌else◌,
}
use precis_mcp.Common.Int.{pos, neg}
use precis_mcp.Common.Result.{Result, ok, err, ◌>>=◌, map_result}
use precis_mcp.Period.{
  PeriodError, explicit_missing, explicit_empty, unknown_strategy, Datetime, datetime_to_period,
  shift_month, period_to_first_of_month,
}

pub data Kind : Type 0 where
  snapshot period : Kind

pub data Strategy : Type 0 where
  lookback explicit watermark : Strategy
  -- any other text
  other : Strategy

pub record PeriodSelection : Type 0 where
  pub strategy : Strategy
  pub lookback_periods : ℕ

pub record SelectionContext : Type 0 where
  pub now : Datetime
  pub explicit_period : Option Text
  pub latest_loaded_period : Option Text
  pub watermark_fallback_periods : ℕ

-- `range(n - 1, -1, -1)`
abbrev pub countdown : ℕ → List ℕ
countdown zero = []
countdown (suc n) = n ∷ countdown n

-- `[shift_month(end, -i) for i in range(n - 1, -1, -1)]`
unfoldable pub trailing : Text → ℕ → Result PeriodError (List Text)
trailing end n = map_result (λ i. shift_month end (neg i)) (countdown n)

unfoldable pub select_lookback : PeriodSelection → SelectionContext → Result PeriodError (List Text)
select_lookback selection ctx = trailing (datetime_to_period ctx.now) selection.lookback_periods

abbrev explicit_of : Option Text → Result PeriodError (List Text)
explicit_of none = err explicit_missing
explicit_of (some []) = err explicit_empty
explicit_of (some (c ∷ cs)) = ok ((c ∷ cs) ∷ [])

unfoldable pub select_explicit : SelectionContext → Result PeriodError (List Text)
select_explicit ctx = explicit_of ctx.explicit_period

-- The loop of `_select_watermark`; the first argument is `safety`.
unfoldable pub watermark_loop : ℕ → Text → ℕ → Result PeriodError (List Text)
watermark_loop zero cursor end_idx = do first ← period_to_first_of_month cursor; ok []
watermark_loop (suc safety) cursor end_idx =
    let rest = (do next ← shift_month cursor (pos 1); watermark_loop safety next end_idx) in
    period_to_first_of_month cursor >>= λ first.
    if leb first end_idx then (do out ← rest; ok (cursor ∷ out)) else ok []

abbrev pub safety : ℕ
safety = 240

abbrev watermark_from : Option Text → Text → ℕ → Result PeriodError (List Text)
watermark_from none tick_period n = trailing tick_period n
watermark_from (some latest) tick_period n = do
  cursor ← shift_month latest (pos 1)
  end_idx ← period_to_first_of_month tick_period
  watermark_loop safety cursor end_idx

unfoldable pub select_watermark : SelectionContext → Result PeriodError (List Text)
select_watermark ctx =
    watermark_from ctx.latest_loaded_period (datetime_to_period ctx.now)
      ctx.watermark_fallback_periods

abbrev by_strategy : Strategy → PeriodSelection → SelectionContext → Result PeriodError (List Text)
by_strategy lookback selection ctx = select_lookback selection ctx
by_strategy explicit selection ctx = select_explicit ctx
by_strategy watermark selection ctx = select_watermark ctx
by_strategy other selection ctx = err unknown_strategy

-- `None` is the one attempt of a snapshot binding.
unfoldable pub select_periods :
    Kind → PeriodSelection → SelectionContext → Result PeriodError (List (Option Text))
select_periods snapshot selection ctx = ok (none ∷ [])
select_periods period selection ctx = do
  periods ← by_strategy selection.strategy selection ctx
  ok (map some periods)
