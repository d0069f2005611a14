-- ===== src/Ingestion/Orchestrator/LiveData.antt =====
-- What `run_binding` (precis_mcp/ingestion/orchestrator.py) does to the live tables.
use precis_mcp.Common.{
  length, contains, Text, nat_eq, text_eq, string_eq, ℕ, zero, suc, ◌≤◌, ◌≡◌, refl, sym, subst, ◌∙◌,
  ◌⊎◌, inl, inr, Bool, true, false, Option, none, some, List, [], ◌∷◌, arith,
}
use precis_mcp.Common.Result.{Result, ok, err}
use precis_mcp.Ingestion.Warehouse.{TableRow, ClickHouse}
use precis_mcp.Ingestion.Executor.{ExecutorError, SourceRow, assign_load_id}
use precis_mcp.Ingestion.Swap.{SwapError, swap}
use precis_mcp.Ingestion.Checks.{Check, CheckRun, run_checks, blocked}
use precis_mcp.Ingestion.History.{Status, record_checks, success, failed_swap}
use precis_mcp.Ingestion.Binding.{Stage, Binding, RunError, checked_binding, extract, validate}
use precis_mcp.Ingestion.Attempt.{
  LoadAttemptResult, Shape, Environment, World, Step, step_on, ◌>>=◌, ◌>>◌, Outcome, next, return,
  raise, shape_ok, shape_drift, validation_error, client_error,
}
use precis_mcp.Ingestion.Orchestrator.{
  execute_on, stops_at, release, stop_if, extract_stage, zero_row_guard, validate_stage,
  check_stage, swap_stage, stages, lock_key, with_lock, new_row, attempt, finished, run_binding,
}
use precis_mcp.Ingestion.Promotion.{SameLive, execute-SameLive}
use precis_mcp.Ingestion.Promotion.Slice.{
  Staged, Published, Loaded, execute-Loaded, Swapped, swap-Swapped,
}
use precis_mcp.Ingestion.Orchestrator.{after_checks}
use precis_mcp.Ingestion.Orchestrator.{after_swap}
use precis_mcp.Ingestion.Orchestrator.{after_verdict}
use precis_mcp.Ingestion.Orchestrator.{some_checks}
use precis_mcp.Ingestion.Orchestrator.{after_shape}
use precis_mcp.Ingestion.Orchestrator.{read_totals}
use precis_mcp.Ingestion.Orchestrator.{after_execute}
use precis_mcp.Ingestion.History.{record_extract}

module _ (ch : ClickHouse) (env : Environment ch) (b : Binding) (p : Option Text)
    (s0 : ch.Store) where
  open ch use {Store}

  -- The rows that the source answered with, at least one, are what the live slice now holds.
  abbrev pub PublishedSource : Store → Type 0
  PublishedSource s =
      (fetched : List SourceRow) × (env.fetch b p ≡ ok fetched)
      × (1 ≤ length fetched)
      × Published ch b.kind p b.target (assign_load_id env.load_id fetched) s0 s

  -- What a result says of the live tables.
  abbrev pub Effect : Status → Option Stage → Store → Type 0
  Effect success none s = PublishedSource s
  Effect failed_swap stage s = SameLive ch s0 s ⊎ PublishedSource s
  Effect _ stage s = SameLive ch s0 s

  abbrev pub Final : Outcome LoadAttemptResult → World ch → Type 0
  Final (next r) v = Effect r.status r.stopped_after v.store
  Final (return r) v = Effect r.status r.stopped_after v.store
  Final (raise e) v = SameLive ch s0 v.store

  -- A step that leaves the store, and ends early only with a result that says so.
  abbrev QuietEnd : {A : Type 0} → Store → Outcome A → World ch → Type 0
  QuietEnd s (next a) v = v.store ≡ s
  QuietEnd s (return r) v = SameLive ch s0 s → Effect r.status r.stopped_after v.store
  QuietEnd s (raise e) v = SameLive ch s0 s → SameLive ch s0 v.store

  abbrev Quiet : {A : Type 0} → Step ch A → Type 0
  Quiet {A} m = (w : World ch) → QuietEnd {A = A} w.store (m w).0 (m w).1

  bind-Final :
      {A : Type 0} (s : Store) (o : Outcome A) (f : A → Step ch LoadAttemptResult) (v : World ch)
      → QuietEnd {A = A} s o v
      → SameLive ch s0 s
      → ((a : A) → v.store ≡ s → Final (f a v).0 (f a v).1)
      → Final (step_on ch o f v).0 (step_on ch o f v).1
  bind-Final s (next a) f v h live k = k a h
  bind-Final s (return r) f v h live k = h live
  bind-Final s (raise e) f v h live k = h live

  stop_if-Quiet :
      (c : Bool) (id binding_id : Text) (stage : Stage) (n : ℕ)
      → Quiet (stop_if ch c id binding_id stage n)
  unfolding stop_if
  stop_if-Quiet true id binding_id stage n w = λ h. h
  stop_if-Quiet false id binding_id stage n w = refl

  after_shape-Quiet : (n : ℕ) (s : Shape) → Quiet (after_shape ch env b p n s)
  after_shape-Quiet n shape_ok w = refl
  after_shape-Quiet n (shape_drift m) w = λ h. h
  after_shape-Quiet n (validation_error m) w = λ h. h
  after_shape-Quiet n (client_error e) w = λ h. h

  validate_stage-Quiet : (n : ℕ) → Quiet (validate_stage ch env b p n)
  unfolding validate_stage
  validate_stage-Quiet n w = after_shape-Quiet n (env.shape w.store b.target) w

  after_verdict-Quiet :
      (n : ℕ) (run : CheckRun) (c : Bool) → Quiet (after_verdict ch env b p n run c)
  after_verdict-Quiet n run true w = λ h. h
  after_verdict-Quiet n run false w = refl

  after_checks-Quiet : (n : ℕ) (r : Result Text CheckRun) → Quiet (after_checks ch env b p n r)
  after_checks-Quiet n (err e) w = λ h. h
  after_checks-Quiet n (ok run) w =
      after_verdict-Quiet n run (blocked run.verdict)
        (record w { history = record_checks env.load_id run w.history })

  some_checks-Quiet : (cs : List Check) (n : ℕ) → Quiet (some_checks ch env b p cs n)
  some_checks-Quiet [] n w = refl
  some_checks-Quiet (c ∷ cs) n w = after_checks-Quiet n (run_checks (env.count w.store) (c ∷ cs)) w

  check_stage-Quiet : (n : ℕ) → Quiet (check_stage ch env b p n)
  unfolding check_stage
  check_stage-Quiet n w = some_checks-Quiet b.checks n w

  -- The staged rows of the source, at least one, with the live tables as they were.
  abbrev Ready : Store → Type 0
  Ready s =
      SameLive ch s0 s
      × ((fetched : List SourceRow) × (env.fetch b p ≡ ok fetched)
          × (1 ≤ length fetched)
          × Staged ch b.kind p b.target (assign_load_id env.load_id fetched) s)

  publish :
      (new : List TableRow) (s s' : Store)
      → SameLive ch s0 s
      → Published ch b.kind p b.target new s s'
      → Published ch b.kind p b.target new s0 s'
  publish new s s' live h t x l = rw (h t x l, live t x l)

  after_swap-Final :
      (n : ℕ) (fetched : List SourceRow) (s : Store) (r : Result SwapError (Unit {0}))
      (v : World ch)
      → SameLive ch s0 s
      → env.fetch b p ≡ ok fetched
      → 1 ≤ length fetched
      → Swapped ch b.kind p b.target (assign_load_id env.load_id fetched) s r v.store
      → Final (after_swap ch env b p n r v).0 (after_swap ch env b p n r v).1
  after_swap-Final n fetched s (ok _) v live e some_rows h =
      (fetched, e, some_rows, publish (assign_load_id env.load_id fetched) s v.store live h)
  after_swap-Final n fetched s (err _) v live e some_rows (inl same) =
      inl (λ t q l. same t q l ∙ live t q l)
  after_swap-Final n fetched s (err _) v live e some_rows (inr h) =
      inr (fetched, e, some_rows, publish (assign_load_id env.load_id fetched) s v.store live h)

  swap_stage-Final :
      (n : ℕ) (w : World ch)
      → Ready w.store
      → Final (swap_stage ch env b p n w).0 (swap_stage ch env b p n w).1
  unfolding swap_stage
  swap_stage-Final n w (live, (fetched, e, some_rows, staged)) =
      let (r, s) = swap ch b.kind p b.target w.store in
      after_swap-Final n fetched w.store r (record w { store = s }) live e some_rows
        (swap-Swapped ch b.kind p b.target (assign_load_id env.load_id fetched) w.store staged)

  then-Final :
      {A : Type 0} (m : Step ch A) (f : A → Step ch LoadAttemptResult)
      → Quiet {A = A} m
      → ((a : A) (v : World ch) → Ready v.store → Final (f a v).0 (f a v).1)
      → (w : World ch) → Ready w.store
      → Final (◌>>=◌ ch m f w).0 (◌>>=◌ ch m f w).1
  then-Final m f q k w ready =
      let (o, v) = m w in
      bind-Final w.store o f v (q w) ready.0 (λ a same. k a v (subst Ready (sym same) ready))

  -- The stages after the zero-row guard.
  guarded-Final :
      (stop : Option Stage) (n : ℕ) (w : World ch)
      → Ready w.store
      → let (o, v) =
          ◌>>◌ ch
            (validate_stage ch env b p n)
            (◌>>◌ ch (check_stage ch env b p n) (
              ◌>>◌ ch
                (stop_if ch (stops_at validate stop) env.load_id b.id validate n)
                (swap_stage ch env b p n)))
            w in
        Final o v
  guarded-Final stop n = then-Final _ _ (validate_stage-Quiet n) λ _.
      then-Final _ _ (check_stage-Quiet n) λ _.
        then-Final _ _ (stop_if-Quiet (stops_at validate stop) env.load_id b.id validate n)
          λ _ v ready. swap_stage-Final n v ready

  rest : Option Stage → ℕ → Step ch LoadAttemptResult
  rest stop n = ◌>>◌ ch (stop_if ch (stops_at extract stop) env.load_id b.id extract n) (
      ◌>>◌ ch (zero_row_guard ch env b p n) (
        ◌>>◌ ch (validate_stage ch env b p n) (
          ◌>>◌ ch (check_stage ch env b p n) (
            ◌>>◌ ch (stop_if ch (stops_at validate stop) env.load_id b.id validate n)
              (swap_stage ch env b p n)))))

  -- Everything after the extract stage.
  rest-Final :
      (stop : Option Stage) (n : ℕ) (w : World ch)
      → SameLive ch s0 w.store
      → Loaded ch b.kind p b.target env.load_id (env.fetch b p) (ok n) w.store
      → Final (rest stop n w).0 (rest stop n w).1
  unfolding rest zero_row_guard
  rest-Final stop zero w live loaded =
      let m = stop_if ch (stops_at extract stop) env.load_id b.id extract 0 in
      let (o, v) = m w in
      bind-Final w.store o _ v (stop_if-Quiet (stops_at extract stop) env.load_id b.id extract 0 w)
        live (λ _ same. subst (λ s. SameLive ch s0 s) (sym same) live)
  rest-Final stop (suc n) w live (fetched, e, count, staged) =
      then-Final _ _ (stop_if-Quiet (stops_at extract stop) env.load_id b.id extract (suc n))
        (λ _ v ready. guarded-Final stop (suc n) v ready) w
        (live, (fetched, e, omega (arith, count), staged))

  extracted-Final :
      (stop : Option Stage) (r : Result ExecutorError ℕ) (t : Result Text (Unit {0})) (w : World ch)
      → SameLive ch s0 w.store
      → Loaded ch b.kind p b.target env.load_id (env.fetch b p) r w.store
      → let (o, v) = ◌>>=◌ ch (after_execute ch env b p r t) (rest stop) w in Final o v
  extracted-Final stop (err e) t w live loaded = live
  extracted-Final stop (ok n) (err e) w live loaded = live
  extracted-Final stop (ok n) (ok _) w live loaded =
      rest-Final stop n (record w { history = record_extract env.load_id n w.history }) live loaded

  execute_on-SameLive :
      (connected : Result Text (Unit {0})) (s : Store)
      → SameLive ch s (execute_on ch env b p connected s).1
  execute_on-SameLive (err e) s t q l = refl
  execute_on-SameLive (ok _) s t q l =
      execute-SameLive ch b.kind p b.target env.load_id (env.fetch b p) s t q l

  execute_on-Loaded :
      (connected : Result Text (Unit {0})) (s : Store)
      → let (r, v) = execute_on ch env b p connected s in
        Loaded ch b.kind p b.target env.load_id (env.fetch b p) r v
  execute_on-Loaded (err e) s = tt
  execute_on-Loaded (ok _) s = execute-Loaded ch b.kind p b.target env.load_id (env.fetch b p) s

  pub stages-Final :
      (stop : Option Stage) (w : World ch)
      → SameLive ch s0 w.store
      → Final (stages ch env b p stop w).0 (stages ch env b p stop w).1
  unfolding stages extract_stage rest
  stages-Final stop w live =
      let (r, s) = execute_on ch env b p (env.connect b) w.store in
      extracted-Final stop r (read_totals ch env b p) (record w { store = s })
        (λ t q l. execute_on-SameLive (env.connect b) w.store t q l ∙ live t q l)
        (execute_on-Loaded (env.connect b) w.store)

  unlocked :
      (o : Outcome LoadAttemptResult) (v : World ch) (locks : List Text)
      → Final o v
      → Final o (record v { locks = locks })
  unlocked (next r) v locks h = h
  unlocked (return r) v locks h = h
  unlocked (raise e) v locks h = h

  with_lock-Final :
      (error : Option Text) (busy : Bool) (stop : Option Stage) (w : World ch)
      → SameLive ch s0 w.store
      → Final (with_lock ch env b p error busy stop w).0 (with_lock ch env b p error busy stop w).1
  with_lock-Final (some e) busy stop w live = live
  with_lock-Final none true stop w live = live
  with_lock-Final none false stop w live =
      let (o, v) = stages ch env b p stop (record w { locks = lock_key ch env b p ∷ w.locks }) in
      unlocked o v (release (lock_key ch env b p) v.locks)
        (stages-Final stop (record w { locks = lock_key ch env b p ∷ w.locks }) live)

  -- What a run says of the live tables.
  abbrev pub Ended : Result RunError LoadAttemptResult → Store → Type 0
  Ended (ok r) s = Effect r.status r.stopped_after s
  Ended (err e) s = SameLive ch s0 s

  finished-Ended :
      (o : Outcome LoadAttemptResult) (v : World ch) → Final o v → Ended (finished ch o) v.store
  finished-Ended (next r) v h = h
  finished-Ended (return r) v h = h
  finished-Ended (raise e) v h = h

  pub attempt-Ended :
      (triggered_by : Text) (notes : Option Text) (stop : Option Stage) (w : World ch)
      → SameLive ch s0 w.store
      → let (o, v) = attempt ch env b p triggered_by notes stop w in Ended (finished ch o) v.store
  unfolding attempt
  attempt-Ended triggered_by notes stop w live =
      let w1 = record w { history = new_row ch env b p triggered_by notes ∷ w.history } in
      let (o, v) =
        with_lock ch env b p (env.lock_error (lock_key ch env b p))
          (contains w.locks (lock_key ch env b p)) stop w1 in
      finished-Ended o v (
        with_lock-Final (env.lock_error (lock_key ch env b p))
          (contains w.locks (lock_key ch env b p)) stop w1 live)

-- A load of a binding that is registered and whose period fits touches the live tables only through the
-- swap. When it returns `success` without having been told to stop early, the source answered with at
-- least one row, and the live target holds, in the slice of the load (its period, or the whole table of a
-- snapshot), exactly the source's rows with the load's id; every other live row is as it was. When it
-- returns `failed_swap`, the live tables are as they were or the slice is replaced in the same way. In
-- every other case, whether it returns or raises, no live table has changed.
pub run_binding-Ended :
    (ch : ClickHouse) (env : Environment ch) (binding_id : Text) (b : Binding) (p : Option Text)
    (triggered_by : Text) (notes : Option Text) (stop : Option Stage) (w : World ch)
    → checked_binding env.registry binding_id p stop ≡ ok b
    → let (r, v) = run_binding ch env binding_id p triggered_by notes stop w in
      Ended ch env b p w.store r v.store
unfolding run_binding
run_binding-Ended ch env binding_id b p triggered_by notes stop w found =
    rw found (attempt-Ended ch env b p w.store triggered_by notes stop w (λ t q l. refl))
