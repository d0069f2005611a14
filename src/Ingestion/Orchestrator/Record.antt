-- ===== src/Ingestion/Orchestrator/Record.antt =====
-- What `run_binding` (precis_mcp/ingestion/orchestrator.py) leaves in the load history.
use precis_mcp.Common.{Text, nat_eq, text_eq, string_eq, ◌≡◌}
use precis_mcp.Common.Result.{Result, ok, err}
use precis_mcp.Ingestion.Warehouse.{ClickHouse}
use precis_mcp.Ingestion.History.{History}
use precis_mcp.Ingestion.Binding.{Binding, RunError, validation_raised, lock_raised}
use precis_mcp.Ingestion.Attempt.{LoadAttemptResult, World}
use precis_mcp.Ingestion.Orchestrator.Bookkeeping.{IsClosed}
use precis_mcp.Ingestion.Orchestrator.Bookkeeping.{IsOpen}

abbrev IsRefusal : RunError → Type 0
IsRefusal (validation_raised m) = ⊥
IsRefusal (lock_raised m) = ⊥
IsRefusal _ = Unit

abbrev Refuses : {A : Type 0} → Result RunError A → Type 0
Refuses (ok a) = Unit
Refuses (err e) = IsRefusal e

-- The world `run_binding` ends in, beside the one it began with: a result has exactly one new row, which
-- agrees with it; an exception of the lock or of the shape validation leaves the row running; every other
-- exception comes before anything is written.
abbrev pub IsRecorded :
    (ch : ClickHouse) → Text → World ch → Result RunError LoadAttemptResult → World ch → Type 0
IsRecorded ch load_id w (ok r) w' = IsClosed ch load_id w.history r w'
IsRecorded ch load_id w (err (validation_raised m)) w' = IsOpen ch load_id w.history w'
IsRecorded ch load_id w (err (lock_raised m)) w' = IsOpen ch load_id w.history w'
IsRecorded ch load_id w (err _) w' = w' ≡ w
