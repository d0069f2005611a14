-- ===== src/Ingestion/Scheduler.antt =====
-- The cron scheduler (precis_mcp/ingestion/scheduler.py). Cron expressions are evaluated by another
-- library: `from_crontab` is an argument, and so is the environment of each load, by its number.
pub mod Ticks
use precis_mcp.Common.{
  length, get_elem?, take, drop, replicate, All, filterb, length-append, contains, Text, codes,
  text_beq, text_beq_iff, text_eq, string_eq, nat_eq, ◌==◌, beq_refl, Eq, ltb, leb, nat_beq,
  if◌then◌else◌, ltb→lt, leb→le, le→leb, nat_beq_iff, Bool-cases, Option-cases, ℕ, zero, suc, ◌+◌,
  ◌-◌, ◌*◌, ◌/◌, ◌%◌, ◌≤◌, ◌<◌, min, String, ◌≡◌, refl, sym, ap, subst, ◌∙◌, fun_ext, ◌≢◌, ◌↔◌, ◌⊎◌,
  inl, inr, Bool, true, false, not, ◌&&◌, ◌||◌, Option, none, some, List, [], ◌∷◌, ◌++◌, map,
  append_assoc, append-nil, arith,
}
use precis_mcp.Common.Result.{Result, ok, err}
use precis_mcp.Period.{
  PeriodError, Datetime, format_period, format_year, datetime_to_period, has_calendar_shape,
  parse_calendar_period, period_to_first_of_month, divmod12, format_total, shift_month,
  int_or_raise, shift_period, month_le, monthly_loop, monthly_fuel, generate_monthly_range,
  invalid_period, non_calendar_period, explicit_missing, explicit_empty, unknown_strategy,
  value_error,
}
use precis_mcp.Period.Selection.{
  Kind, Strategy, PeriodSelection, SelectionContext, countdown, trailing, select_lookback,
  select_explicit, watermark_loop, safety, select_watermark, select_periods, snapshot, period,
  lookback, explicit, watermark, other,
}
use precis_mcp.Ingestion.Warehouse.{ClickHouse}
use precis_mcp.Ingestion.History.{
  Status, Message, HistoryRow, History, update, record_extract, record_swap, record_checks,
  finalise, find_running_for_binding, latest_successful_period, last_scheduled_attempt_at,
  failed_other, lock_conflict, extract_failed, source_total_failed, zero_rows, validation_failed,
  checks_errored, checks_failed, swap_failed,
}
use precis_mcp.Ingestion.Binding.{
  Stage, Mode, Schedule, Binding, RunError, Registry, get_binding, get_source, period_fits,
  find_binding, checked_binding, extract, validate, stage_swap, stage_other, cron, push, watch,
  bad_stop_after, unknown_binding, unknown_source, snapshot_with_period, period_missing,
  validation_raised,
}
use precis_mcp.Ingestion.Attempt.{
  LoadAttemptResult, Shape, Environment, World, Step, step_on, ◌>>=◌, ◌>>◌, write_history, pass,
  Outcome, next, return, raise, shape_ok, shape_drift, validation_error, client_error,
}
use precis_mcp.Ingestion.Orchestrator.{
  stops_at, release, fail_with, count_success, stop_if, extract_stage, zero_row_guard,
  validate_stage, check_stage, swap_stage, stages, lock_key, with_lock, new_row, attempt, finished,
  run_checked, run_binding,
}

-- `SchedulerTickResult`
pub record SchedulerTickResult : Type 0 where
  pub bindings_inspected : ℕ
  pub bindings_fired : ℕ
  pub loads_fired : ℕ
  pub attempts : List LoadAttemptResult

-- `CronTrigger.from_crontab(expression, timezone=...)`: `none` is an exception; a trigger takes a time to
-- the next one after it, if there is one.
abbrev pub Crontab : Type 0
Crontab = Text → Text → Option (ℕ → Option ℕ)

abbrev text_or : Text → Option Text → Text
text_or d none = d
text_or d (some []) = d
text_or d (some (c ∷ cs)) = c ∷ cs

abbrev is_due : ℕ → Option ℕ → Bool
is_due now none = false
is_due now (some next_fire) = leb next_fire now

abbrev fires : ℕ → Option (ℕ → Option ℕ) → Option ℕ → Bool
fires now none last_attempt = false
fires now (some following) none = true
fires now (some following) (some last) = is_due now (following last)

unfoldable pub should_fire : Crontab → ℕ → Binding → History → Bool
should_fire from_crontab now b history =
    fires now
      (from_crontab (text_or [] b.schedule.expression) (text_or (codes "UTC") b.schedule.timezone))
      (last_scheduled_attempt_at b.id history)

module _ (ch : ClickHouse) (env_at : ℕ → Environment ch) where
  -- `calls` counts the calls of `run_binding`.
  pub record TickState : Type 0 where
    pub calls : ℕ
    pub world : World ch
    pub result : SchedulerTickResult

  abbrev pub add_attempt : LoadAttemptResult → SchedulerTickResult → SchedulerTickResult
  add_attempt r t = record t { loads_fired = t.loads_fired + 1; attempts = t.attempts ++ r ∷ [] }

  -- An exception of `run_binding` is logged, and the next period follows.
  abbrev pub after_run : Result RunError LoadAttemptResult → World ch → TickState → TickState
  after_run (err e) w s = record s { calls = suc s.calls; world = w }
  after_run (ok r) w s = record s {
    calls = suc s.calls;
    world = w;
    result = add_attempt r s.result;
  }

  abbrev pub triggered_by : Binding → Text
  triggered_by b = codes "schedule:" ++ b.id

  unfoldable pub fire_periods : Binding → List (Option Text) → TickState → TickState
  fire_periods b [] s = s
  fire_periods b (p ∷ ps) s =
      let (r, w) = run_binding ch (env_at s.calls) b.id p (triggered_by b) none none s.world in
      fire_periods b ps (after_run r w s)

  abbrev pub fire_selected :
      Binding → Result PeriodError (List (Option Text)) → TickState → TickState
  fire_selected b (err e) s = s
  fire_selected b (ok periods) s = fire_periods b periods s

  unfoldable pub fire : Binding → Datetime → TickState → TickState
  fire b now s =
      fire_selected b
        (select_periods b.kind b.schedule.period_selection (record {
          now = now;
          explicit_period = none;
          latest_loaded_period = latest_successful_period b.id s.world.history;
          watermark_fallback_periods = 3;
        }))
        s

  module _ (from_crontab : Crontab) (now : Datetime) (now_at : ℕ) where
    abbrev pub count_inspected : TickState → TickState
    count_inspected s = record s {
      result = record s.result { bindings_inspected = s.result.bindings_inspected + 1 };
    }

    abbrev pub count_fired : TickState → TickState
    count_fired s = record s {
      result = record s.result { bindings_fired = s.result.bindings_fired + 1 };
    }

    abbrev pub fire_if : Bool → Binding → TickState → TickState
    fire_if true b s = fire b now (count_fired s)
    fire_if false b s = s

    abbrev pub visit : Mode → Binding → TickState → TickState
    visit cron b s =
        let s' = count_inspected s in
        fire_if (should_fire from_crontab now_at b s'.world.history) b s'
    visit push b s = s
    visit watch b s = s

    unfoldable pub tick_over : List Binding → TickState → TickState
    tick_over [] s = s
    tick_over (b ∷ bs) s = tick_over bs (visit b.schedule.mode b s)

    abbrev pub empty_result : SchedulerTickResult
    empty_result = record {
      bindings_inspected = 0;
      bindings_fired = 0;
      loads_fired = 0;
      attempts = [];
    }

    -- One tick over the bindings of the registry.
    unfoldable pub tick : List Binding → World ch → SchedulerTickResult × World ch
    tick bindings w =
        let s = tick_over bindings (record { calls = 0; world = w; result = empty_result }) in
        (s.result, s.world)
