-- ===== src/Ingestion/Orchestrator/Locks.antt =====
-- The ingestion lock around the stages of `run_binding` (precis_mcp/ingestion/orchestrator.py).
use precis_mcp.Common.{
  contains, Text, nat_eq, text_eq, string_eq, beq_refl, ℕ, zero, suc, ◌≡◌, refl, ap, subst, ◌∙◌,
  Bool, true, false, Option, none, some, List, [], ◌∷◌,
}
use precis_mcp.Common.Result.{Result, ok, err}
use precis_mcp.Ingestion.Warehouse.{ClickHouse}
use precis_mcp.Ingestion.Executor.{ExecutorError}
use precis_mcp.Ingestion.Swap.{SwapError, swap}
use precis_mcp.Ingestion.Checks.{Check, CheckRun, run_checks, blocked}
use precis_mcp.Ingestion.History.{record_checks}
use precis_mcp.Ingestion.Binding.{Stage, Binding, RunError, checked_binding, extract, validate}
use precis_mcp.Ingestion.Attempt.{
  Shape, Environment, World, Step, step_on, ◌>>=◌, Outcome, next, return, raise, shape_ok,
  shape_drift, validation_error, client_error,
}
use precis_mcp.Ingestion.Orchestrator.{
  execute_on, stops_at, release, stop_if, extract_stage, zero_row_guard, validate_stage,
  check_stage, swap_stage, stages, lock_key, with_lock, new_row, attempt, run_checked, run_binding,
}
use precis_mcp.Ingestion.Orchestrator.{after_verdict}
use precis_mcp.Ingestion.Orchestrator.{after_checks}
use precis_mcp.Ingestion.Orchestrator.{after_swap}
use precis_mcp.Ingestion.Orchestrator.{some_checks}
use precis_mcp.Ingestion.Orchestrator.{read_totals}
use precis_mcp.Ingestion.Orchestrator.{after_shape}
use precis_mcp.Ingestion.Orchestrator.{after_execute}

release-own : (key : Text) (ks : List Text) → release key (key ∷ ks) ≡ ks
unfolding release
release-own key ks = rw (beq_refl key)

module _ (ch : ClickHouse) where
  abbrev Locked : {A : Type 0} → List Text → Outcome A → World ch → Type 0
  Locked ks (next a) v = v.locks ≡ ks
  Locked ks (return r) v = v.locks ≡ ks
  Locked ks (raise e) v = v.locks ≡ ks

  locks_of :
      {A : Type 0} (ks : List Text) (o : Outcome A) (v : World ch) → Locked ks o v → v.locks ≡ ks
  locks_of ks (next a) v h = h
  locks_of ks (return r) v h = h
  locks_of ks (raise e) v h = h

  -- A step that leaves the locks alone.
  abbrev Unlocking : {A : Type 0} → Step ch A → Type 0
  Unlocking {A} m = (w : World ch) → Locked {A = A} w.locks (m w).0 (m w).1

  on_locks :
      {A B : Type 0} (ks : List Text) (o : Outcome A) (f : A → Step ch B) (v : World ch)
      → Locked ks o v
      → ((a : A) → Locked v.locks (f a v).0 (f a v).1)
      → Locked ks (step_on ch o f v).0 (step_on ch o f v).1
  on_locks {A} {B} ks (next a) f v h k = subst (λ l. Locked {A = B} l (f a v).0 (f a v).1) h (k a)
  on_locks ks (return r) f v h k = h
  on_locks ks (raise e) f v h k = h

  then_locks :
      {A B : Type 0} (m : Step ch A) (f : A → Step ch B)
      → Unlocking {A = A} m
      → ((a : A) → Unlocking {A = B} (f a))
      → Unlocking {A = B} (◌>>=◌ ch m f)
  then_locks m f h k w = let (o, v) = m w in on_locks w.locks o f v (h w) (λ a. k a v)

  stop_if-locks :
      (c : Bool) (id binding_id : Text) (stage : Stage) (n : ℕ)
      → Unlocking (stop_if ch c id binding_id stage n)
  unfolding stop_if
  stop_if-locks true id binding_id stage n w = refl
  stop_if-locks false id binding_id stage n w = refl

  module _ (env : Environment ch) (b : Binding) (p : Option Text) where
    after_execute-locks :
        (r : Result ExecutorError ℕ) (t : Result Text (Unit {0}))
        → Unlocking (after_execute ch env b p r t)
    after_execute-locks (err e) t w = refl
    after_execute-locks (ok n) (err e) w = refl
    after_execute-locks (ok n) (ok _) w = refl

    extract_stage-locks : Unlocking (extract_stage ch env b p)
    unfolding extract_stage
    extract_stage-locks w =
        let (r, s) = execute_on ch env b p (env.connect b) w.store in
        after_execute-locks r (read_totals ch env b p) (record w { store = s })

    zero_row_guard-locks : (n : ℕ) → Unlocking (zero_row_guard ch env b p n)
    unfolding zero_row_guard
    zero_row_guard-locks zero w = refl
    zero_row_guard-locks (suc n) w = refl

    after_shape-locks : (n : ℕ) (s : Shape) → Unlocking (after_shape ch env b p n s)
    after_shape-locks n shape_ok w = refl
    after_shape-locks n (shape_drift m) w = refl
    after_shape-locks n (validation_error m) w = refl
    after_shape-locks n (client_error e) w = refl

    validate_stage-locks : (n : ℕ) → Unlocking (validate_stage ch env b p n)
    unfolding validate_stage
    validate_stage-locks n w = after_shape-locks n (env.shape w.store b.target) w

    after_verdict-locks :
        (n : ℕ) (run : CheckRun) (c : Bool) → Unlocking (after_verdict ch env b p n run c)
    after_verdict-locks n run true w = refl
    after_verdict-locks n run false w = refl

    after_checks-locks :
        (n : ℕ) (r : Result Text CheckRun) → Unlocking (after_checks ch env b p n r)
    after_checks-locks n (err e) w = refl
    after_checks-locks n (ok run) w =
        after_verdict-locks n run (blocked run.verdict)
          (record w { history = record_checks env.load_id run w.history })

    some_checks-locks : (cs : List Check) (n : ℕ) → Unlocking (some_checks ch env b p cs n)
    some_checks-locks [] n w = refl
    some_checks-locks (c ∷ cs) n w =
        after_checks-locks n (run_checks (env.count w.store) (c ∷ cs)) w

    check_stage-locks : (n : ℕ) → Unlocking (check_stage ch env b p n)
    unfolding check_stage
    check_stage-locks n w = some_checks-locks b.checks n w

    after_swap-locks :
        (n : ℕ) (r : Result SwapError (Unit {0})) → Unlocking (after_swap ch env b p n r)
    after_swap-locks n (err e) w = refl
    after_swap-locks n (ok _) w = refl

    swap_stage-locks : (n : ℕ) → Unlocking (swap_stage ch env b p n)
    unfolding swap_stage
    swap_stage-locks n w =
        let (r, s) = swap ch b.kind p b.target w.store in
        after_swap-locks n r (record w { store = s })

    stages-locks : (stop : Option Stage) → Unlocking (stages ch env b p stop)
    unfolding stages
    stages-locks stop = then_locks (extract_stage ch env b p) _ extract_stage-locks λ n.
        then_locks _ _ (stop_if-locks (stops_at extract stop) env.load_id b.id extract n) λ _.
          then_locks _ _ (zero_row_guard-locks n) λ _. then_locks _ _ (validate_stage-locks n) λ _.
            then_locks _ _ (check_stage-locks n) λ _.
              then_locks _ _ (stop_if-locks (stops_at validate stop) env.load_id b.id validate n)
                λ _. swap_stage-locks n

    with_lock-locks :
        (error : Option Text) (busy : Bool) (stop : Option Stage) (w : World ch)
        → (with_lock ch env b p error busy stop w).1.locks ≡ w.locks
    with_lock-locks (some e) busy stop w = refl
    with_lock-locks none true stop w = refl
    with_lock-locks none false stop w =
        let held = record w { locks = lock_key ch env b p ∷ w.locks } in
        let (o, v) = stages ch env b p stop held in
        ap (release (lock_key ch env b p)) (locks_of held.locks o v (stages-locks stop held))
        ∙ release-own (lock_key ch env b p) w.locks

  run_checked-locks :
      (env : Environment ch) (found : Result RunError Binding) (p : Option Text)
      (triggered_by : Text) (notes : Option Text) (stop : Option Stage) (w : World ch)
      → (run_checked ch env found p triggered_by notes stop w).1.locks ≡ w.locks
  unfolding attempt
  run_checked-locks env (err e) p triggered_by notes stop w = refl
  run_checked-locks env (ok b) p triggered_by notes stop w =
      with_lock-locks env b p (env.lock_error (lock_key ch env b p))
        (contains w.locks (lock_key ch env b p)) stop
        (record w { history = new_row ch env b p triggered_by notes ∷ w.history })

-- `run_binding` leaves the set of held locks as it found it, however it ends: a lock that it takes is
-- released on every path, and a lock that another load holds is not.
pub run_binding-locks :
    (ch : ClickHouse) (env : Environment ch) (binding_id : Text) (p : Option Text)
    (triggered_by : Text) (notes : Option Text) (stop : Option Stage) (w : World ch)
    → (run_binding ch env binding_id p triggered_by notes stop w).1.locks ≡ w.locks
unfolding run_binding
run_binding-locks ch env binding_id p triggered_by notes stop w =
    run_checked-locks ch env (checked_binding env.registry binding_id p stop) p triggered_by notes
      stop w
