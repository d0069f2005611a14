-- ===== src/Tests/Loads.antt =====
-- A load into a warehouse that keeps its tables as a function.
use precis_mcp.Common.{
  ◌==◌, Text, codes, nat_eq, text_eq, string_eq, if◌then◌else◌, ◌≡◌, refl, sym, ap, ◌&&◌, Option,
  none, some, List, [], ◌∷◌, ◌++◌,
}
use precis_mcp.Common.Result.{Result, ok}
use precis_mcp.Period.Selection.{snapshot, period, lookback}
use precis_mcp.Common.{◌+◌, ◌≤◌}
use precis_mcp.Ingestion.Warehouse.{
  TableRow, Statement, of_period, ClickHouse, staging_for, drop_partition, truncate,
  replace_partition, exchange_tables,
}
use precis_mcp.Ingestion.Executor.{
  matches_period, validate_period_args, SourceRow, clear_staging, execute,
}
use precis_mcp.Ingestion.Swap.{swap}
use precis_mcp.Ingestion.Checks.{Check, Counted, CheckRun, error, warning, succeeded_with_warnings}
use precis_mcp.Ingestion.Scheduler.{SchedulerTickResult, Crontab, tick}
use precis_mcp.Ingestion.Scheduler.Ticks.{IsQuiet, tick-Sound}
use precis_mcp.Ingestion.Binding.{
  Schedule, Binding, RunError, get_binding, get_source, checked_binding, cron,
}
use precis_mcp.Ingestion.Attempt.{LoadAttemptResult, Environment, World, shape_ok}
use precis_mcp.Ingestion.Orchestrator.{
  stop_if, extract_stage, zero_row_guard, validate_stage, check_stage, swap_stage, stages, attempt,
  run_binding,
}
use precis_mcp.Ingestion.Orchestrator.LiveData.{Ended, run_binding-Ended}
use precis_mcp.Ingestion.Orchestrator.Locks.{run_binding-locks}
use precis_mcp.Ingestion.Promotion.{SameLive, execute-SameLive}
use precis_mcp.Ingestion.Promotion.Slice.{Staged, Loaded, execute-Loaded, Swapped, swap-Swapped}
use precis_mcp.Ingestion.History.{success}
use precis_mcp.Common.{true}
use precis_mcp.Common.{false}
use precis_mcp.Common.{length}
use precis_mcp.Common.{All}

abbrev Tables : Type 0
Tables = Text → Text → List TableRow

abbrev run : Statement → Tables → Option Tables
run (drop_partition table p) s = some λ t q. if t == table && q == p then [] else s t q
run (truncate table) s = some λ t q. if t == table then [] else s t q
run (replace_partition target p staging) s =
    some λ t q. if t == target && q == p then s staging p else s t q
run (exchange_tables a b) s = some λ t q. if t == a then s b q else if t == b then s a q else s t q

abbrev insert : Text → List TableRow → Tables → Option Tables
insert table new s = some λ t q. if t == table then s t q ++ of_period q new else s t q

abbrev or_empty : Option Tables → Tables
or_empty none = λ t q. []
or_empty (some s) = s

stored : (f s : Tables) → ◌≡◌ {A = Option Tables} (some f) (some s) → (t q : Text) → s t q ≡ f t q
stored f s h t q = sym (ap (λ o. or_empty o t q) h)

abbrev warehouse : ClickHouse
warehouse = record {
  Store = Tables;
  rows = λ s t q. s t q;
  command = run;
  insert_df = insert;
  rows-drop = λ table p s s' h t q. stored _ s' h t q;
  rows-truncate = λ table s s' h t q. stored _ s' h t q;
  rows-replace = λ target p staging s s' h t q. stored _ s' h t q;
  rows-exchange = λ a b s s' h t q. stored _ s' h t q;
  rows-insert = λ table new s s' h t q. stored _ s' h t q;
}

abbrev gl : Text
gl = codes "live.gl"

abbrev march : Text
march = codes "2024-03"

abbrev nightly : Schedule
nightly = record {
  mode = cron;
  expression = some (codes "0 2 * * *");
  timezone = some (codes "UTC");
  period_selection = record { strategy = lookback; lookback_periods = 1 };
}

abbrev ledger : Binding
ledger = record {
  id = codes "gl";
  source = codes "erp";
  target = gl;
  scenario = codes "a1";
  kind = period;
  schedule = nightly;
  checks = [];
}

abbrev fetched : List SourceRow
fetched = (record { period = march; payload = 7 }) ∷ []

abbrev env : Environment warehouse
env = record {
  registry = record { bindings = ledger ∷ []; sources = codes "erp" ∷ [] };
  load_id = codes "L1";
  started_at = 100;
  current_month = codes "2024-04";
  lock_error = λ key. none;
  connect = λ b. ok tt;
  fetch = λ b p. ok fetched;
  source_totals = λ b p. ok tt;
  shape = λ s t. shape_ok;
  count = λ s c. Counted.counted 0;
}

abbrev stale : TableRow
stale = record { period = march; load_id = codes "L0"; payload = 1 }

abbrev world : World warehouse
world = record {
  store = λ t q. if t == gl && q == march then stale ∷ [] else [];
  history = [];
  locks = [];
  attempts = [];
}

registered : checked_binding env.registry (codes "gl") (some march) none ≡ ok ledger
unfolding checked_binding get_binding get_source
registered = refl

abbrev ending : Result RunError LoadAttemptResult × World warehouse
ending = run_binding warehouse env (codes "gl") (some march) (codes "cli") none none world

succeeds :
    ending.0
    ≡ ok (record {
      load_id = codes "L1";
      status = success;
      rows_landed = some 1;
      error = none;
      stopped_after = none;
    })
unfolding run_binding checked_binding get_binding get_source attempt stages extract_stage execute
    validate_period_args matches_period staging_for clear_staging stop_if zero_row_guard
    validate_stage check_stage swap_stage swap
succeeds = refl

run_binding-Ended_example :
    Ended warehouse env ledger (some march) world.store ending.0 ending.1.store
run_binding-Ended_example =
    run_binding-Ended warehouse env (codes "gl") ledger (some march) (codes "cli") none none world
      registered

run_binding-locks_example : ending.1.locks ≡ []
run_binding-locks_example =
    run_binding-locks warehouse env (codes "gl") (some march) (codes "cli") none none world

execute-SameLive_example :
    SameLive warehouse world.store
      (execute warehouse period (some march) gl (codes "L1") (ok fetched) world.store).1
execute-SameLive_example =
    execute-SameLive warehouse period (some march) gl (codes "L1") (ok fetched) world.store

execute-Loaded_example :
    let (r, s) = execute warehouse period (some march) gl (codes "L1") (ok fetched) world.store in
    Loaded warehouse period (some march) gl (codes "L1") (ok fetched) r s
execute-Loaded_example =
    execute-Loaded warehouse period (some march) gl (codes "L1") (ok fetched) world.store

staged : Staged warehouse snapshot none gl [] world.store
unfolding staging_for
staged = (codes "staging.gl", refl, λ x h. refl)

swap-Swapped_example :
    let (r, s) = swap warehouse snapshot none gl world.store in
    Swapped warehouse snapshot none gl [] world.store r s
swap-Swapped_example = swap-Swapped warehouse snapshot none gl [] world.store staged

abbrev no_nulls : Check
no_nulls = record {
  name = codes "nulls";
  severity = error;
  is_reconcile = false;
  threshold = some (codes " >= 5");
}

abbrev no_gaps : Check
no_gaps = record { name = codes "gaps"; severity = warning; is_reconcile = false; threshold = none }

-- Four failing rows of each check.
abbrev four : Check → Counted
four c = Counted.counted 4

abbrev warned : CheckRun
warned = record {
  verdict = succeeded_with_warnings;
  results =
      (record { name = codes "nulls"; severity = error; passed = true; failing = some 4 })
      ∷ (record { name = codes "gaps"; severity = warning; passed = false; failing = some 4 })
      ∷ [];
}

abbrev daily : Crontab
daily expression timezone = some λ t. some (t + 86400)

abbrev ticked : SchedulerTickResult × World warehouse
ticked = tick warehouse (λ n. env) daily (record { year = 2024; month = 3 }) 100 (ledger ∷ []) world

tick-Sound_example :
    (ticked.1.locks ≡ [])
    × (ticked.0.loads_fired ≡ length ticked.0.attempts)
    × (ticked.0.bindings_fired ≤ ticked.0.bindings_inspected)
    × (All IsQuiet ticked.0.attempts → SameLive warehouse world.store ticked.1.store)
tick-Sound_example =
    tick-Sound warehouse (λ n. env) daily (record { year = 2024; month = 3 }) 100 (ledger ∷ [])
      world
