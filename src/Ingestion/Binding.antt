-- ===== src/Ingestion/Binding.antt =====
-- Bindings, and the checks of `run_binding`'s arguments (precis_mcp/ingestion/orchestrator.py and
-- registry.py).
use precis_mcp.Common.{
  contains, ◌==◌, Text, nat_eq, text_eq, string_eq, if◌then◌else◌, Option, none, some, List, [],
  ◌∷◌,
}
use precis_mcp.Common.Result.{◌>>=◌, ◌>>◌, Result, ok, err}
use precis_mcp.Period.Selection.{Kind, PeriodSelection, snapshot, period}
use precis_mcp.Ingestion.Checks.{Check}

-- `stop_after`; `other` is any other text
pub data Stage : Type 0 where
  extract validate stage_swap stage_other : Stage

pub data Mode : Type 0 where
  cron push watch : Mode

-- `Schedule`, without the settings of pushes and watches
pub record Schedule : Type 0 where
  pub mode : Mode
  pub expression : Option Text
  pub timezone : Option Text
  pub period_selection : PeriodSelection

pub record Binding : Type 0 where
  pub id : Text
  pub source : Text
  pub target : Text
  pub scenario : Text
  pub kind : Kind
  pub schedule : Schedule
  pub checks : List Check

-- What `run_binding` raises.
pub data RunError : Type 0 where
  bad_stop_after unknown_binding unknown_source snapshot_with_period period_missing : RunError
  -- an exception of the shape validation that is neither a ValidationError nor a RuntimeError
  validation_raised : Text → RunError
  -- an exception of making or acquiring the ingestion lock
  lock_raised : Text → RunError

pub record Registry : Type 0 where
  pub bindings : List Binding
  pub sources : List Text

unfoldable pub get_binding : List Binding → Text → Result RunError Binding
get_binding [] binding_id = err unknown_binding
get_binding (b ∷ bs) binding_id = if b.id == binding_id then ok b else get_binding bs binding_id

unfoldable pub get_source : List Text → Text → Result RunError Text
get_source sources source_id =
    if contains sources source_id then ok source_id else err unknown_source

abbrev pub period_fits : Kind → Option Text → Result RunError (Unit {0})
period_fits snapshot (some p) = err snapshot_with_period
period_fits period none = err period_missing
period_fits _ _ = ok tt

abbrev pub find_binding : Registry → Text → Option Text → Result RunError Binding
find_binding registry binding_id p = do
  b ← get_binding registry.bindings binding_id
  source ← get_source registry.sources b.source
  period_fits b.kind p
  ok b

-- What `run_binding` checks before it touches any state.
unfoldable pub checked_binding :
    Registry → Text → Option Text → Option Stage → Result RunError Binding
checked_binding registry binding_id p (some stage_other) = err bad_stop_after
checked_binding registry binding_id p stop = find_binding registry binding_id p
