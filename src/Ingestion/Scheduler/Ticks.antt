-- ===== src/Ingestion/Scheduler/Ticks.antt =====
-- What a tick of the scheduler (precis_mcp/ingestion/scheduler.py) counts, and what it leaves alone.
use precis_mcp.Common.{
  length, All, length-append, Text, text_eq, string_eq, nat_eq, ℕ, ◌≤◌, ◌≡◌, refl, ◌∙◌, ◌⊎◌, inl,
  inr, Bool, true, false, Option, none, some, List, [], ◌∷◌, ◌++◌, arith,
}
use precis_mcp.Common.Result.{Result, ok, err}
use precis_mcp.Period.{Datetime}
use precis_mcp.Ingestion.Warehouse.{ClickHouse}
use precis_mcp.Ingestion.History.{Status}
use precis_mcp.Ingestion.Binding.{
  Stage, Mode, Binding, RunError, checked_binding, cron, push, watch,
}
use precis_mcp.Ingestion.Attempt.{LoadAttemptResult, Environment, World}
use precis_mcp.Ingestion.Orchestrator.{run_binding}
use precis_mcp.Ingestion.Orchestrator.LiveData.{Effect, Ended, run_binding-Ended}
use precis_mcp.Ingestion.Orchestrator.Locks.{run_binding-locks}
use precis_mcp.Ingestion.Promotion.{SameLive}
use precis_mcp.Ingestion.Scheduler.{
  Crontab, should_fire, TickState, after_run, triggered_by, fire_periods, fire_selected, fire,
  count_inspected, count_fired, fire_if, visit, tick_over, empty_result, tick,
}
use precis_mcp.Ingestion.Scheduler.{PeriodError}

-- Results after which a live table may have changed.
abbrev pub may_publish : Status → Option Stage → Bool
may_publish Status.success none = true
may_publish Status.failed_swap stage = true
may_publish _ _ = false

abbrev pub IsQuiet : LoadAttemptResult → Type 0
IsQuiet r = may_publish r.status r.stopped_after ≡ false

Result-cases :
    (r : Result RunError Binding) → ((e : RunError) × (r ≡ err e)) ⊎ ((b : Binding) × (r ≡ ok b))
Result-cases (err e) = inl (e, refl)
Result-cases (ok b) = inr (b, refl)

All-snoc :
    {A : Type 0} (P : A → Type 0) (xs : List A) (a : A) → All P (xs ++ a ∷ []) → All P xs × P a
All-snoc P [] a (h, _) = (tt, h)
All-snoc P (x ∷ xs) a (h, more) = let (k, last) = All-snoc P xs a more in ((h, k), last)

module _ (ch : ClickHouse) where
  Effect-SameLive :
      (env : Environment ch) (b : Binding) (p : Option Text) (s0 s : ch.Store) (status : Status)
      (stage : Option Stage)
      → may_publish status stage ≡ false
      → Effect ch env b p s0 status stage s
      → SameLive ch s0 s
  Effect-SameLive env b p s0 s Status.success none h e = absurd (cc h)
  Effect-SameLive env b p s0 s Status.success (some _) h e = e
  Effect-SameLive env b p s0 s Status.failed_swap stage h e = absurd (cc h)
  Effect-SameLive env b p s0 s Status.running stage h e = e
  Effect-SameLive env b p s0 s Status.failed_extract stage h e = e
  Effect-SameLive env b p s0 s Status.failed_validation stage h e = e
  Effect-SameLive env b p s0 s Status.failed_recon stage h e = e
  Effect-SameLive env b p s0 s Status.failed_checks stage h e = e
  Effect-SameLive env b p s0 s Status.failed_other stage h e = e

  abbrev Kept : Result RunError LoadAttemptResult → ch.Store → ch.Store → Type 0
  Kept (ok r) s0 s = IsQuiet r → SameLive ch s0 s
  Kept (err e) s0 s = SameLive ch s0 s

  Ended-Kept :
      (env : Environment ch) (b : Binding) (p : Option Text) (s0 s : ch.Store)
      (r : Result RunError LoadAttemptResult)
      → Ended ch env b p s0 r s
      → Kept r s0 s
  Ended-Kept env b p s0 s (ok r) e = λ h. Effect-SameLive env b p s0 s r.status r.stopped_after h e
  Ended-Kept env b p s0 s (err _) e = e

  run_binding-Kept :
      (env : Environment ch) (binding_id : Text) (p : Option Text) (by : Text) (w : World ch)
      → let (r, v) = run_binding ch env binding_id p by none none w in Kept r w.store v.store
  unfolding run_binding
  run_binding-Kept env binding_id p by w =
      elim (Result-cases (checked_binding env.registry binding_id p none)) [
        | inl (e, found) ↦ rw found (λ t q l. refl)
        | inr (b, found) ↦
            let (r, v) = run_binding ch env binding_id p by none none w in
            Ended-Kept env b p w.store v.store r
              (run_binding-Ended ch env binding_id b p by none none w found)
      ]

  module _ (env_at : ℕ → Environment ch) (w0 : World ch) where
    -- What holds between two calls.
    record Sound (s : TickState ch env_at) : Type 0 where
      live : All IsQuiet s.result.attempts → SameLive ch w0.store s.world.store
      locks : s.world.locks ≡ w0.locks
      loads : s.result.loads_fired ≡ length s.result.attempts
      fired : s.result.bindings_fired ≤ s.result.bindings_inspected

    after_run-Sound :
        (s : TickState ch env_at) (r : Result RunError LoadAttemptResult) (v : World ch)
        → Sound s
        → Kept r s.world.store v.store
        → v.locks ≡ s.world.locks
        → Sound (after_run ch env_at r v s)
    after_run-Sound s (err e) v h kept same = record {
      live = λ quiet t q l. kept t q l ∙ h.live quiet t q l;
      locks = same ∙ h.locks;
      loads = h.loads;
      fired = h.fired;
    }
    after_run-Sound s (ok r) v h kept same = record {
      live = λ quiet t q l.
          let (old, new) = All-snoc IsQuiet s.result.attempts r quiet in
          kept new t q l ∙ h.live old t q l;
      locks = same ∙ h.locks;
      loads = omega (arith, h.loads, length-append s.result.attempts (r ∷ []));
      fired = h.fired;
    }

    fire_periods-Sound :
        (b : Binding) (ps : List (Option Text)) (s : TickState ch env_at)
        → Sound s
        → Sound (fire_periods ch env_at b ps s)
    unfolding fire_periods
    fire_periods-Sound b [] s h = h
    fire_periods-Sound b (p ∷ ps) s h =
        let (r, v) =
          run_binding ch (env_at s.calls) b.id p (triggered_by ch env_at b) none none s.world in
        fire_periods-Sound b ps (after_run ch env_at r v s) (
          after_run-Sound s r v h
            (run_binding-Kept (env_at s.calls) b.id p (triggered_by ch env_at b) s.world)
            (run_binding-locks ch (env_at s.calls) b.id p (triggered_by ch env_at b) none none
              s.world))

    fire_selected-Sound :
        (b : Binding) (r : Result PeriodError (List (Option Text))) (s : TickState ch env_at)
        → Sound s
        → Sound (fire_selected ch env_at b r s)
    fire_selected-Sound b (err e) s h = h
    fire_selected-Sound b (ok ps) s h = fire_periods-Sound b ps s h

    fire-Sound :
        (b : Binding) (now : Datetime) (s : TickState ch env_at)
        → Sound s
        → Sound (fire ch env_at b now s)
    unfolding fire
    fire-Sound b now s h = fire_selected-Sound b _ s h

    module _ (from_crontab : Crontab) (now : Datetime) (now_at : ℕ) where
      visit-Sound :
          (m : Mode) (b : Binding) (s : TickState ch env_at)
          → Sound s
          → Sound (visit ch env_at from_crontab now now_at m b s)
      visit-Sound cron b s h = by_test (should_fire from_crontab now_at b s.world.history)
        where
          by_test :
              (test : Bool)
              → Sound (
                  fire_if ch env_at from_crontab now now_at test b
                    (count_inspected ch env_at from_crontab now now_at s))
          by_test true =
              fire-Sound b now
                (count_fired ch env_at from_crontab now now_at
                  (count_inspected ch env_at from_crontab now now_at s))
                (record {
                  live = h.live;
                  locks = h.locks;
                  loads = h.loads;
                  fired = omega (arith, h.fired);
                })
          by_test false = record {
            live = h.live;
            locks = h.locks;
            loads = h.loads;
            fired = omega (arith, h.fired);
          }
      visit-Sound push b s h = h
      visit-Sound watch b s h = h

      tick_over-Sound :
          (bs : List Binding) (s : TickState ch env_at)
          → Sound s
          → Sound (tick_over ch env_at from_crontab now now_at bs s)
      unfolding tick_over
      tick_over-Sound [] s h = h
      tick_over-Sound (b ∷ bs) s h =
          tick_over-Sound bs (visit ch env_at from_crontab now now_at b.schedule.mode b s)
            (visit-Sound b.schedule.mode b s h)

      begin : Sound (record {
        calls = 0;
        world = w0;
        result = empty_result ch env_at from_crontab now now_at;
      })
      begin = record { live = λ _ t q l. refl; locks = refl; loads = refl; fired = omega arith }

-- A tick of the scheduler over any bindings leaves the held locks as they were, and reports as many loads
-- as it lists attempts and no more fired bindings than inspected ones. When every listed attempt either
-- stopped early or failed otherwise than in the swap, no live table has changed: neither the calls that
-- raised, nor bindings whose cron expression or period selection fails, touch live data.
pub tick-Sound :
    (ch : ClickHouse) (env_at : ℕ → Environment ch) (from_crontab : Crontab) (now : Datetime)
    (now_at : ℕ) (bindings : List Binding) (w : World ch)
    → let (result, v) = tick ch env_at from_crontab now now_at bindings w in
      (v.locks ≡ w.locks)
      × (result.loads_fired ≡ length result.attempts)
      × (result.bindings_fired ≤ result.bindings_inspected)
      × (All IsQuiet result.attempts → SameLive ch w.store v.store)
unfolding tick
tick-Sound ch env_at from_crontab now now_at bindings w =
    let s : TickState ch env_at = record {
      calls = 0;
      world = w;
      result = empty_result ch env_at from_crontab now now_at;
    } in
    let h =
      tick_over-Sound ch env_at w from_crontab now now_at bindings s
        (begin ch env_at w from_crontab now now_at) in
    (h.locks, h.loads, h.fired, h.live)
