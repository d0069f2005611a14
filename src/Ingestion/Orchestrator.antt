-- ===== src/Ingestion/Orchestrator.antt =====
-- `run_binding` of precis_mcp/ingestion/orchestrator.py, stage by stage.
pub mod Bookkeeping
pub mod Record
pub mod LiveData
pub mod Locks
use precis_mcp.Common.{
  length, get_elem?, take, drop, replicate, All, filterb, length-append, contains, ◌==◌, Text,
  codes, text_beq, text_beq_iff, nat_eq, text_eq, string_eq, beq_refl, Eq, ltb, leb, nat_beq,
  if◌then◌else◌, ltb→lt, leb→le, le→leb, nat_beq_iff, Bool-cases, Option-cases, ℕ, zero, suc, ◌+◌,
  ◌-◌, ◌*◌, ◌/◌, ◌%◌, ◌≤◌, ◌<◌, min, String, ◌≡◌, refl, sym, ap, subst, ◌∙◌, fun_ext, ◌≢◌, ◌↔◌, ◌⊎◌,
  inl, inr, Bool, true, false, not, ◌&&◌, ◌||◌, Option, none, some, List, [], ◌∷◌, ◌++◌, map,
  append_assoc, append-nil, arith,
}
use precis_mcp.Common.Result.{Result, ok, err}
use precis_mcp.Period.Selection.{
  Kind, Strategy, PeriodSelection, SelectionContext, countdown, trailing, select_lookback,
  select_explicit, watermark_loop, safety, select_watermark, select_periods, snapshot, period,
  lookback, explicit, watermark, other,
}
use precis_mcp.Ingestion.Warehouse.{
  TableRow, Statement, render, of_period, ClickHouse, Exec, continue, ◌>>>◌, staging_for,
  drop_partition, truncate, replace_partition, exchange_tables,
}
use precis_mcp.Ingestion.Executor.{ExecutorError, execute, source_failed}
use precis_mcp.Ingestion.Swap.{
  SwapError, run_command, swap_partition, swap_snapshot, swap, swap_period_required,
  swap_period_forbidden, swap_bad_target, command_failed,
}
use precis_mcp.Ingestion.Checks.{
  Severity, Verdict, Operator, Check, CheckResult, parse_threshold, compares, trips, Counted,
  check_result, is_severity, tripped, verdict_of, CheckRun, run_checks, blocked, reconcile_checks,
  error, warning, passed, succeeded_with_warnings, failed_checks, gt, lt, ge, le, eq, ne, counted,
  check_error, other_error,
}
use precis_mcp.Ingestion.History.{
  Status, Message, HistoryRow, History, update, record_extract, record_swap, record_checks,
  finalise, find_running_for_binding, latest_successful_period, running, success, failed_extract,
  failed_validation, failed_recon, failed_checks, failed_swap, failed_other, lock_conflict,
  extract_failed, source_total_failed, zero_rows, validation_failed, checks_errored, checks_failed,
  swap_failed,
}
use precis_mcp.Ingestion.Attempt.{
  LoadAttemptResult, Shape, Environment, World, Step, step_on, ◌>>=◌, ◌>>◌, write_history, pass,
  Outcome, next, return, raise, shape_ok, shape_drift, validation_error, client_error,
}
use precis_mcp.Ingestion.Binding.{
  Stage, Binding, RunError, Registry, get_binding, get_source, checked_binding, extract, validate,
  stage_swap, stage_other, bad_stop_after, unknown_binding, unknown_source, snapshot_with_period,
  period_missing, validation_raised, lock_raised,
}

-- `stop_after == stage`
abbrev pub stops_at : Stage → Option Stage → Bool
stops_at extract (some extract) = true
stops_at validate (some validate) = true
stops_at _ _ = false

abbrev period_or : Text → Option Text → Text
period_or now none = now
period_or now (some p) = p

-- `lock.release()`: the key is held once.
unfoldable pub release : Text → List Text → List Text
release key [] = []
release key (k ∷ ks) = let rest = release key ks in if k == key then ks else k ∷ rest

module _ (ch : ClickHouse) where
  open ch use {Store}

  -- A failure is recorded on the load's row, counted, and returned.
  abbrev pub fail_with : {A : Type 0} → Text → Text → Status → Option ℕ → Message → Step ch A
  fail_with load_id binding_id status rows message w = (
    return (record {
      load_id = load_id;
      status = status;
      rows_landed = rows;
      error = some message;
      stopped_after = none;
    }),
    record w {
      history = finalise load_id status (some message) w.history;
      attempts = (binding_id, status) ∷ w.attempts;
    },
  )

  abbrev succeed : Text → Option ℕ → Option Stage → LoadAttemptResult
  succeed load_id rows stage = record {
    load_id = load_id;
    status = success;
    rows_landed = rows;
    error = none;
    stopped_after = stage;
  }

  abbrev pub count_success : Text → Text → World ch → World ch
  count_success load_id binding_id w = record w {
    history = finalise load_id success none w.history;
    attempts = (binding_id, success) ∷ w.attempts;
  }

  -- `if stop_after == stage: return _early_finalise(...)`
  unfoldable pub stop_if : Bool → Text → Text → Stage → ℕ → Step ch (Unit {0})
  stop_if true load_id binding_id stage rows w =
      (return (succeed load_id (some rows) (some stage)), count_success load_id binding_id w)
  stop_if false load_id binding_id stage rows w = (next tt, w)

  module _ (env : Environment ch) (b : Binding) (p : Option Text) where
    open env use {load_id}

    abbrev read_totals : Result Text (Unit {0})
    read_totals = elim (reconcile_checks b.checks) [ [] ↦ ok tt | c ∷ cs ↦ env.source_totals b p ]

    abbrev after_execute : Result ExecutorError ℕ → Result Text (Unit {0}) → Step ch ℕ
    after_execute (err e) totals w = fail_with load_id b.id failed_extract none (extract_failed e) w
    after_execute (ok n) (err e) w =
        fail_with load_id b.id failed_extract none (source_total_failed e) w
    after_execute (ok n) (ok _) w =
        (next n, record w { history = record_extract load_id n w.history })

    -- Nothing is cleared when the source cannot be connected to.
    abbrev pub execute_on : Result Text (Unit {0}) → Exec Store ExecutorError ℕ
    execute_on (err e) s = (err (source_failed e), s)
    execute_on (ok _) s = execute ch b.kind p b.target load_id (env.fetch b p) s

    unfoldable pub extract_stage : Step ch ℕ
    extract_stage w =
        let (r, s) = execute_on (env.connect b) w.store in
        after_execute r read_totals (record w { store = s })

    -- The zero-row guard.
    unfoldable pub zero_row_guard : ℕ → Step ch (Unit {0})
    zero_row_guard zero w = fail_with load_id b.id failed_validation (some 0) zero_rows w
    zero_row_guard (suc n) w = (next tt, w)

    abbrev after_shape : ℕ → Shape → Step ch (Unit {0})
    after_shape n shape_ok w = (next tt, w)
    after_shape n (shape_drift m) w =
        fail_with load_id b.id failed_recon (some n) (validation_failed m) w
    after_shape n (validation_error m) w =
        fail_with load_id b.id failed_recon (some n) (validation_failed m) w
    after_shape n (client_error e) w = (raise (validation_raised e), w)

    unfoldable pub validate_stage : ℕ → Step ch (Unit {0})
    validate_stage n w = after_shape n (env.shape w.store b.target) w

    abbrev after_verdict : ℕ → CheckRun → Bool → Step ch (Unit {0})
    after_verdict n run true w =
        fail_with load_id b.id failed_checks (some n) (checks_failed run.results) w
    after_verdict n run false w = (next tt, w)

    abbrev after_checks : ℕ → Result Text CheckRun → Step ch (Unit {0})
    after_checks n (err e) w = fail_with load_id b.id failed_recon (some n) (checks_errored e) w
    after_checks n (ok run) w =
        after_verdict n run (blocked run.verdict)
          (record w { history = record_checks load_id run w.history })

    abbrev some_checks : List Check → ℕ → Step ch (Unit {0})
    some_checks [] n w = (next tt, w)
    some_checks (c ∷ cs) n w = after_checks n (run_checks (env.count w.store) (c ∷ cs)) w

    unfoldable pub check_stage : ℕ → Step ch (Unit {0})
    check_stage n w = some_checks b.checks n w

    abbrev after_swap : ℕ → Result SwapError (Unit {0}) → Step ch LoadAttemptResult
    after_swap n (err e) w = fail_with load_id b.id failed_swap (some n) (swap_failed e) w
    after_swap n (ok _) w = (
      next (succeed load_id (some n) none),
      count_success load_id b.id (record w { history = record_swap load_id w.history }),
    )

    unfoldable pub swap_stage : ℕ → Step ch LoadAttemptResult
    swap_stage n w =
        let (r, s) = swap ch b.kind p b.target w.store in after_swap n r (record w { store = s })

    -- The body of the `try`, with the lock held.
    unfoldable pub stages : Option Stage → Step ch LoadAttemptResult
    stages stop = ◌>>=◌ ch extract_stage λ n.
        ◌>>◌ ch (stop_if (stops_at extract stop) load_id b.id extract n) (
          ◌>>◌ ch (zero_row_guard n) (
            ◌>>◌ ch (validate_stage n) (
              ◌>>◌ ch (check_stage n) (
                ◌>>◌ ch (stop_if (stops_at validate stop) load_id b.id validate n)
                  (swap_stage n)))))

    abbrev pub lock_key : Text
    lock_key = codes "ingest_lock:" ++ b.id

    -- From the lock on: what acquiring it raises, whether it is held already, and the body.
    abbrev pub with_lock : Option Text → Bool → Option Stage → Step ch LoadAttemptResult
    with_lock (some e) busy stop w = (raise (lock_raised e), w)
    with_lock none true stop w =
        fail_with load_id b.id failed_other none
          (lock_conflict (find_running_for_binding b.id w.history)) w
    with_lock none false stop w =
        let (o, w') = stages stop (record w { locks = lock_key ∷ w.locks }) in
        (o, record w' { locks = release lock_key w'.locks })

    abbrev pub new_row : Text → Option Text → HistoryRow
    new_row triggered_by notes = record {
      load_id = load_id;
      binding_id = b.id;
      source_id = b.source;
      dataset_id = drop 5 b.target;
      period = period_or env.current_month p;
      scenario_id = b.scenario;
      triggered_by = triggered_by;
      started_at = env.started_at;
      notes = notes;
      status = running;
      rows_landed = none;
      control_total_result = none;
      swap_committed = false;
      error_message = none;
    }

    -- From `insert_attempt` on.
    unfoldable pub attempt : Text → Option Text → Option Stage → Step ch LoadAttemptResult
    attempt triggered_by notes stop w =
        with_lock (env.lock_error lock_key) (contains w.locks lock_key) stop
          (record w { history = new_row triggered_by notes ∷ w.history })

  abbrev pub finished : Outcome LoadAttemptResult → Result RunError LoadAttemptResult
  finished (next r) = ok r
  finished (return r) = ok r
  finished (raise e) = err e

  abbrev pub run_checked :
      Environment ch
      → Result RunError Binding
      → Option Text
      → Text
      → Option Text
      → Option Stage
      → World ch
      → Result RunError LoadAttemptResult × World ch
  run_checked env (err e) p triggered_by notes stop w = (err e, w)
  run_checked env (ok b) p triggered_by notes stop w =
      let (o, w') = attempt env b p triggered_by notes stop w in (finished o, w')

  unfoldable pub run_binding :
      Environment ch
      → Text
      → Option Text
      → Text
      → Option Text
      → Option Stage
      → World ch
      → Result RunError LoadAttemptResult × World ch
  run_binding env binding_id p triggered_by notes stop w =
      run_checked env (checked_binding env.registry binding_id p stop) p triggered_by notes stop w
