-- ===== src/Ingestion/Orchestrator/Bookkeeping.antt =====
-- The row of a load through the stages of `run_binding` (precis_mcp/ingestion/orchestrator.py).
use precis_mcp.Common.{
  All, ◌==◌, Text, nat_eq, text_eq, string_eq, ℕ, zero, suc, ◌≡◌, refl, ◌≢◌, Bool, true, false,
  Option, none, some, List, [], ◌∷◌,
}
use precis_mcp.Common.Result.{Result, ok, err}
use precis_mcp.Ingestion.Warehouse.{ClickHouse}
use precis_mcp.Ingestion.Executor.{ExecutorError}
use precis_mcp.Ingestion.Swap.{SwapError, swap}
use precis_mcp.Ingestion.Checks.{Check, CheckRun, run_checks, blocked, failed_checks}
use precis_mcp.Ingestion.History.{
  Status, Message, HistoryRow, History, update, record_extract, record_swap, record_checks,
  finalise, running, success, failed_extract, failed_validation, failed_recon, failed_checks,
  failed_swap, extract_failed, source_total_failed, zero_rows, validation_failed, checks_errored,
  checks_failed, swap_failed,
}
use precis_mcp.Ingestion.Binding.{
  Stage, Binding, RunError, extract, validate, bad_stop_after, unknown_binding, unknown_source,
  snapshot_with_period, period_missing, validation_raised, lock_raised,
}
use precis_mcp.Ingestion.Attempt.{
  LoadAttemptResult, Shape, Environment, World, Step, step_on, ◌>>=◌, Outcome, next, return, raise,
  shape_ok, shape_drift, validation_error, client_error,
}
use precis_mcp.Ingestion.Orchestrator.{
  execute_on, stops_at, fail_with, count_success, stop_if, extract_stage, zero_row_guard,
  validate_stage, check_stage, swap_stage, stages,
}
use precis_mcp.Ingestion.Orchestrator.{succeed}
use precis_mcp.Ingestion.Orchestrator.{after_shape}
use precis_mcp.Ingestion.Orchestrator.{some_checks}
use precis_mcp.Ingestion.Orchestrator.{after_swap}
use precis_mcp.Ingestion.Orchestrator.{after_checks}
use precis_mcp.Ingestion.Orchestrator.{read_totals}
use precis_mcp.Ingestion.Orchestrator.{after_verdict}
use precis_mcp.Ingestion.Orchestrator.{after_execute}

-- No older row has the id of the load.
abbrev pub IsFresh : Text → History → Type 0
IsFresh load_id rows = All (λ r. (r.load_id == load_id) ≡ false) rows

pub update-fresh :
    (f : HistoryRow → HistoryRow) (load_id : Text) (rows : History)
    → IsFresh load_id rows
    → update f load_id rows ≡ rows
unfolding update
update-fresh f load_id [] h = refl
update-fresh f load_id (r ∷ rs) (h, hs) = rw (h, update-fresh f load_id rs hs)

pub update-own :
    (f : HistoryRow → HistoryRow) (load_id : Text) (r : HistoryRow) (rows : History)
    → (r.load_id == load_id) ≡ true
    → IsFresh load_id rows
    → update f load_id (r ∷ rows) ≡ f r ∷ rows
update-own f load_id r rows own fresh = unfold update in rw (own, update-fresh f load_id rows fresh)

module _ (ch : ClickHouse) (load_id : Text) (old : History) where
  -- The load's row is the newest, and it is still running.
  pub record IsOpen (w : World ch) : Type 0 where
    pub row : HistoryRow
    pub history : w.history ≡ row ∷ old
    pub own : (row.load_id == load_id) ≡ true
    pub status : row.status ≡ running
    pub uncommitted : row.swap_committed ≡ false

  -- The load's row agrees with the result that is returned.
  pub record IsClosed (r : LoadAttemptResult) (w : World ch) : Type 0 where
    pub row : HistoryRow
    pub history : w.history ≡ row ∷ old
    pub own : (row.load_id == load_id) ≡ true
    pub status : row.status ≡ r.status
    pub error : row.error_message ≡ r.error
    pub result_id : r.load_id ≡ load_id
    pub final : r.status ≢ running

  -- The exceptions that leave the attempt come from the lock and from the shape validation.
  abbrev pub Raised : RunError → World ch → Type 0
  Raised (validation_raised m) w = IsOpen w
  Raised (lock_raised m) w = IsOpen w
  Raised bad_stop_after w = ⊥
  Raised unknown_binding w = ⊥
  Raised unknown_source w = ⊥
  Raised snapshot_with_period w = ⊥
  Raised period_missing w = ⊥

  abbrev pub After : {A : Type 0} → (A → World ch → Type 0) → Outcome A → World ch → Type 0
  After P (next a) w = P a w
  After P (return r) w = IsClosed r w
  After P (raise e) w = Raised e w

  bind-After :
      {A B : Type 0} (Q : B → World ch → Type 0) (o : Outcome A) (f : A → Step ch B) (w : World ch)
      → After (λ a. IsOpen) o w
      → ((a : A) (v : World ch) → IsOpen v → After Q (f a v).0 (f a v).1)
      → After Q (step_on ch o f w).0 (step_on ch o f w).1
  bind-After Q (next a) f w h k = k a w h
  bind-After Q (return r) f w h k = h
  bind-After Q (raise e) f w h k = h

  module _ (fresh : IsFresh load_id old) where
    abbrev Kept : {A : Type 0} → Step ch A → Type 0
    Kept m = (w : World ch) → IsOpen w → After (λ a. IsOpen) (m w).0 (m w).1

    finalise-own :
        (w : World ch) (s : Status) (m : Option Message) (h : IsOpen w)
        → finalise load_id s m w.history ≡ record h.row { status = s; error_message = m } ∷ old
    unfolding finalise
    finalise-own w s m h =
        rw h.history (
          update-own (λ r. record r { status = s; error_message = m }) load_id h.row old h.own
            fresh)

    -- A failure closes the row with the status and the message that it returns.
    pub fail_with-After :
        {A : Type 0} (Q : A → World ch → Type 0) (binding_id : Text) (s : Status) (n : Option ℕ)
        (m : Message)
        → s ≢ running
        → (w : World ch) → IsOpen w
        → After Q
            (fail_with ch {A = A} load_id binding_id s n m w).0
            (fail_with ch {A = A} load_id binding_id s n m w).1
    fail_with-After Q binding_id s n m final w h = record {
      row = record h.row { status = s; error_message = some m };
      history = finalise-own w s (some m) h;
      own = h.own;
      status = refl;
      error = refl;
      result_id = refl;
      final = final;
    }

    opened :
        (w : World ch) (f : HistoryRow → HistoryRow) (h : IsOpen w)
        → ((f h.row).load_id == load_id) ≡ true
        → (f h.row).status ≡ running
        → (f h.row).swap_committed ≡ false
        → IsOpen (record w { history = update f load_id w.history })
    opened w f h own status uncommitted = record {
      row = f h.row;
      history = rw h.history (update-own f load_id h.row old h.own fresh);
      own = own;
      status = status;
      uncommitted = uncommitted;
    }

    count_success-IsClosed :
        (binding_id : Text) (n : Option ℕ) (stage : Option Stage) (w : World ch) (row : HistoryRow)
        → w.history ≡ row ∷ old
        → (row.load_id == load_id) ≡ true
        → IsClosed (succeed ch load_id n stage) (count_success ch load_id binding_id w)
    unfolding finalise
    count_success-IsClosed binding_id n stage w row e own = record {
      row = record row { status = success; error_message = none };
      history = rw e (
          update-own (λ r. record r { status = success; error_message = none }) load_id row old own
            fresh);
      own = own;
      status = refl;
      error = refl;
      result_id = refl;
      final = λ q. cc q;
    }

    stop_if-After :
        (b : Bool) (binding_id : Text) (stage : Stage) (n : ℕ)
        → Kept (stop_if ch b load_id binding_id stage n)
    unfolding stop_if
    stop_if-After true binding_id stage n w h =
        count_success-IsClosed binding_id (some n) (some stage) w h.row h.history h.own
    stop_if-After false binding_id stage n w h = h

module _ (ch : ClickHouse) (env : Environment ch) (b : Binding) (p : Option Text) (old : History)
    (fresh : IsFresh env.load_id old) where
  abbrev Open : World ch → Type 0
  Open = IsOpen ch env.load_id old

  abbrev Keeps : {A : Type 0} → Step ch A → Type 0
  Keeps {A} m =
      (w : World ch) → Open w → After ch env.load_id old {A = A} (λ a. Open) (m w).0 (m w).1

  failing :
      (A : Type 0) (s : Status) (n : Option ℕ) (m : Message)
      → s ≢ running
      → Keeps {A = A} (fail_with ch {A = A} env.load_id b.id s n m)
  failing A s n m final =
      fail_with-After ch env.load_id old fresh {A = A} (λ a. Open) b.id s n m final

  after_execute-Keeps :
      (r : Result ExecutorError ℕ) (t : Result Text (Unit {0}))
      → Keeps (after_execute ch env b p r t)
  after_execute-Keeps (err e) t = failing ℕ failed_extract none (extract_failed e) (λ q. cc q)
  after_execute-Keeps (ok n) (err e) =
      failing ℕ failed_extract none (source_total_failed e) (λ q. cc q)
  after_execute-Keeps (ok n) (ok _) = λ w h.
      unfold record_extract in
      opened ch env.load_id old fresh w (λ r. record r { rows_landed = some n }) h h.own h.status
        h.uncommitted

  with_store : (w : World ch) (s : ch.Store) → Open w → Open (record w { store = s })
  with_store w s h = record {
    row = h.row;
    history = h.history;
    own = h.own;
    status = h.status;
    uncommitted = h.uncommitted;
  }

  extract_stage-Keeps : Keeps (extract_stage ch env b p)
  unfolding extract_stage
  extract_stage-Keeps w h =
      let (r, s) = execute_on ch env b p (env.connect b) w.store in
      after_execute-Keeps r (read_totals ch env b p) (record w { store = s }) (with_store w s h)

  zero_row_guard-Keeps : (n : ℕ) → Keeps (zero_row_guard ch env b p n)
  unfolding zero_row_guard
  zero_row_guard-Keeps zero = failing (Unit {0}) failed_validation (some 0) zero_rows (λ q. cc q)
  zero_row_guard-Keeps (suc n) = λ w h. h

  after_shape-Keeps : (n : ℕ) (s : Shape) → Keeps (after_shape ch env b p n s)
  after_shape-Keeps n shape_ok = λ w h. h
  after_shape-Keeps n (shape_drift m) =
      failing (Unit {0}) failed_recon (some n) (validation_failed m) (λ q. cc q)
  after_shape-Keeps n (validation_error m) =
      failing (Unit {0}) failed_recon (some n) (validation_failed m) (λ q. cc q)
  after_shape-Keeps n (client_error e) = λ w h. h

  validate_stage-Keeps : (n : ℕ) → Keeps (validate_stage ch env b p n)
  unfolding validate_stage
  validate_stage-Keeps n w h = after_shape-Keeps n (env.shape w.store b.target) w h

  after_verdict-Keeps :
      (n : ℕ) (run : CheckRun) (v : Bool) → Keeps (after_verdict ch env b p n run v)
  after_verdict-Keeps n run true =
      failing (Unit {0}) failed_checks (some n) (checks_failed run.results) (λ q. cc q)
  after_verdict-Keeps n run false = λ w h. h

  after_checks-Keeps : (n : ℕ) (r : Result Text CheckRun) → Keeps (after_checks ch env b p n r)
  after_checks-Keeps n (err e) =
      failing (Unit {0}) failed_recon (some n) (checks_errored e) (λ q. cc q)
  after_checks-Keeps n (ok run) = λ w h.
      after_verdict-Keeps n run (blocked run.verdict)
        (record w { history = record_checks env.load_id run w.history })
        (unfold record_checks in
          opened ch env.load_id old fresh w (λ r. record r { control_total_result = some run }) h
            h.own h.status h.uncommitted)

  some_checks-Keeps : (cs : List Check) (n : ℕ) → Keeps (some_checks ch env b p cs n)
  some_checks-Keeps [] n = λ w h. h
  some_checks-Keeps (c ∷ cs) n =
      λ w h. after_checks-Keeps n (run_checks (env.count w.store) (c ∷ cs)) w h

  check_stage-Keeps : (n : ℕ) → Keeps (check_stage ch env b p n)
  unfolding check_stage
  check_stage-Keeps n w h = some_checks-Keeps b.checks n w h

  abbrev Closes : Step ch LoadAttemptResult → Type 0
  Closes m =
      (w : World ch)
      → Open w
      → After ch env.load_id old (IsClosed ch env.load_id old) (m w).0 (m w).1

  after_swap-Closes : (n : ℕ) (r : Result SwapError (Unit {0})) → Closes (after_swap ch env b p n r)
  after_swap-Closes n (err e) =
      fail_with-After ch env.load_id old fresh (IsClosed ch env.load_id old) b.id failed_swap
        (some n) (swap_failed e) (λ q. cc q)
  after_swap-Closes n (ok _) = λ w h.
      count_success-IsClosed ch env.load_id old fresh b.id (some n) none
        (record w { history = record_swap env.load_id w.history })
        (record h.row { swap_committed = true })
        (unfold record_swap in
          rw h.history (
            update-own (λ r. record r { swap_committed = true }) env.load_id h.row old h.own fresh))
        h.own

  swap_stage-Closes : (n : ℕ) → Closes (swap_stage ch env b p n)
  unfolding swap_stage
  swap_stage-Closes n w h =
      let (r, s) = swap ch b.kind p b.target w.store in
      after_swap-Closes n r (record w { store = s }) (with_store w s h)

  then-Closes :
      {A : Type 0} (m : Step ch A) (f : A → Step ch LoadAttemptResult)
      → Keeps {A = A} m
      → ((a : A) → Closes (f a))
      → Closes (◌>>=◌ ch m f)
  then-Closes m f hm hf w h =
      let (o, v) = m w in
      bind-After ch env.load_id old (IsClosed ch env.load_id old) o f v (hm w h) (λ a u k. hf a u k)

  pub stages-Closes : (stop : Option Stage) → Closes (stages ch env b p stop)
  unfolding stages
  stages-Closes stop = then-Closes (extract_stage ch env b p) _ extract_stage-Keeps λ n.
      then-Closes _ _
        (stop_if-After ch env.load_id old fresh (stops_at extract stop) b.id extract n)
        λ _. then-Closes _ _ (zero_row_guard-Keeps n) λ _.
          then-Closes _ _ (validate_stage-Keeps n) λ _. then-Closes _ _ (check_stage-Keeps n) λ _.
            then-Closes _ _
              (stop_if-After ch env.load_id old fresh (stops_at validate stop) b.id validate n)
              λ _. swap_stage-Closes n
