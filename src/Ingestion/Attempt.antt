-- ===== src/Ingestion/Attempt.antt =====
-- One load attempt (precis_mcp/ingestion/orchestrator.py): its result, its state and its control flow.
-- What other systems answer is an argument (the clock, the generated id, the lock that may raise, the
-- source, the shape validation, the check counts); the warehouse, the load history, the locks and the attempt metric are
-- the state. Writes to the platform database succeed.
use precis_mcp.Common.{Text, nat_eq, text_eq, string_eq, ℕ, Option, List}
use precis_mcp.Common.Result.{Result}
use precis_mcp.Ingestion.Binding.{Stage, Binding, RunError, Registry}
use precis_mcp.Ingestion.Warehouse.{ClickHouse}
use precis_mcp.Ingestion.Executor.{SourceRow}
use precis_mcp.Ingestion.Checks.{Check, Counted}
use precis_mcp.Ingestion.History.{Status, Message, History}

-- `LoadAttemptResult`, without its duration
pub record LoadAttemptResult : Type 0 where
  pub load_id : Text
  pub status : Status
  pub rows_landed : Option ℕ
  pub error : Option Message
  pub stopped_after : Option Stage

-- How a step ends: it goes on, it has returned from `run_binding`, or it has raised.
pub data Outcome (A : Type 0) : Type 0 where
  next : A → Outcome A
  return : LoadAttemptResult → Outcome A
  raise : RunError → Outcome A

-- What `validate_staging_shape` comes to.
pub data Shape : Type 0 where
  shape_ok : Shape
  shape_drift : Text → Shape
  validation_error : Text → Shape
  client_error : Text → Shape

module _ (ch : ClickHouse) where
  open ch use {Store}

  pub record Environment : Type 0 where
    pub registry : Registry
    pub load_id : Text
    -- the clock of the database when the row of the load is inserted
    pub started_at : ℕ
    -- `time.strftime("%Y-%m", time.gmtime())`
    pub current_month : Text
    -- what `lock_factory` or `lock.acquire` raises for a key
    pub lock_error : Text → Option Text
    -- `ibis_backend_for_source` and `source_path_resolver`
    pub connect : Binding → Result Text (Unit {0})
    -- the answer of the source to the rendered extract query of a binding
    pub fetch : Binding → Option Text → Result Text (List SourceRow)
    -- the reads of the source totals of the reconcile checks
    pub source_totals : Binding → Option Text → Result Text (Unit {0})
    pub shape : Store → Text → Shape
    pub count : Store → Check → Counted

  pub record World : Type 0 where
    pub store : Store
    pub history : History
    pub locks : List Text
    pub attempts : List (Text × Status)

  abbrev pub Step : Type 0 → Type 0
  Step A = World → Outcome A × World

  module _ {A B : Type 0} where
    abbrev pub step_on : Outcome A → (A → Step B) → Step B
    step_on (next a) f w = f a w
    step_on (return r) f w = (return r, w)
    step_on (raise e) f w = (raise e, w)

    infixl 5 ◌>>=◌
    abbrev pub ◌>>=◌ : Step A → (A → Step B) → Step B
    ◌>>=◌ m f w = let (o, w') = m w in step_on o f w'

  abbrev pub ◌>>◌ : {B : Type 0} → Step (Unit {0}) → Step B → Step B
  m >> n = m >>= λ _. n

  infixl 5 ◌>>◌
  abbrev pub write_history : (History → History) → Step (Unit {0})
  write_history f w = (next tt, record w { history = f w.history })

  abbrev pub pass : Step (Unit {0})
  pass w = (next tt, w)
