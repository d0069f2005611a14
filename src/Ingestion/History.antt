-- ===== src/Ingestion/History.antt =====
-- The `load_history` table (precis_mcp/ingestion/load_history.py, over the platform database). The
-- newest row stands first, which is the order of `started_at DESC`.
use precis_mcp.Common.{
  ◌==◌, Text, nat_eq, text_eq, string_eq, if◌then◌else◌, ℕ, Bool, true, false, ◌&&◌, Option, none,
  some, List, [], ◌∷◌,
}
use precis_mcp.Common.Strings.{starts_with}
use precis_mcp.Common.Order.{text_ltb}
use precis_mcp.Ingestion.Executor.{ExecutorError}
use precis_mcp.Ingestion.Swap.{SwapError}
use precis_mcp.Ingestion.Checks.{CheckResult, CheckRun}
use precis_mcp.Common.{codes}

pub data Status : Type 0 where
  running success failed_extract failed_validation failed_recon failed_checks failed_swap
        failed_other :
      Status

-- The error texts that the orchestrator puts together, by what they are made of.
pub data Message : Type 0 where
  -- "Lock conflict ...; in-flight load: ..."
  lock_conflict : Option Text → Message
  extract_failed : ExecutorError → Message
  -- a reconcile check's source total could not be read
  source_total_failed : Text → Message
  zero_rows : Message
  validation_failed : Text → Message
  checks_errored : Text → Message
  checks_failed : List CheckResult → Message
  swap_failed : SwapError → Message

pub record HistoryRow : Type 0 where
  pub load_id : Text
  pub binding_id : Text
  pub source_id : Text
  pub dataset_id : Text
  pub period : Text
  pub scenario_id : Text
  pub triggered_by : Text
  pub started_at : ℕ
  pub notes : Option Text
  pub status : Status
  pub rows_landed : Option ℕ
  pub control_total_result : Option CheckRun
  pub swap_committed : Bool
  pub error_message : Option Message

abbrev pub History : Type 0
History = List HistoryRow

-- `UPDATE load_history SET ... WHERE load_id = ...`
unfoldable pub update : (HistoryRow → HistoryRow) → Text → History → History
update f load_id [] = []
update f load_id (r ∷ rs) = (if r.load_id == load_id then f r else r) ∷ update f load_id rs

unfoldable pub record_extract : Text → ℕ → History → History
record_extract load_id n = update (λ r. record r { rows_landed = some n }) load_id

unfoldable pub record_swap : Text → History → History
record_swap load_id = update (λ r. record r { swap_committed = true }) load_id

unfoldable pub record_checks : Text → CheckRun → History → History
record_checks load_id run = update (λ r. record r { control_total_result = some run }) load_id

unfoldable pub finalise : Text → Status → Option Message → History → History
finalise load_id status message =
    update (λ r. record r { status = status; error_message = message }) load_id

abbrev is_running : Status → Bool
is_running running = true
is_running _ = false

unfoldable pub find_running_for_binding : Text → History → Option Text
find_running_for_binding binding_id [] = none
find_running_for_binding binding_id (r ∷ rs) =
    if r.binding_id == binding_id && is_running r.status
    then some r.load_id
    else find_running_for_binding binding_id rs

abbrev is_success : Status → Bool
is_success success = true
is_success _ = false

abbrev later_period : Text → Option Text → Option Text
later_period p none = some p
later_period p (some q) = if text_ltb p q then some q else some p

-- `ORDER BY period DESC LIMIT 1` over the successful rows of the binding
unfoldable pub latest_successful_period : Text → History → Option Text
latest_successful_period binding_id [] = none
latest_successful_period binding_id (r ∷ rs) =
    let rest = latest_successful_period binding_id rs in
    if r.binding_id == binding_id && is_success r.status then later_period r.period rest else rest

-- `triggered_by LIKE 'schedule:%'`, `ORDER BY started_at DESC LIMIT 1`: the newest row stands first.
unfoldable pub last_scheduled_attempt_at : Text → History → Option ℕ
last_scheduled_attempt_at binding_id [] = none
last_scheduled_attempt_at binding_id (r ∷ rs) =
    let rest = last_scheduled_attempt_at binding_id rs in
    if r.binding_id == binding_id && starts_with (codes "schedule:") r.triggered_by
    then some r.started_at
    else rest
