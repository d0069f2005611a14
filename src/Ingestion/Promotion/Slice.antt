-- ===== src/Ingestion/Promotion/Slice.antt =====
-- The slice that a load replaces: one period, or the whole table of a snapshot.
use precis_mcp.Common.{
  length, ◌==◌, Text, codes, text_beq, text_beq_iff, nat_eq, text_eq, string_eq, beq_refl,
  if◌then◌else◌, Bool-cases, ℕ, ◌≡◌, refl, sym, subst, ◌∙◌, ◌⊎◌, inl, inr, Bool, true, false, ◌&&◌,
  Option, none, some, List, [], ◌∷◌,
}
use precis_mcp.Common.Result.{Result, ok, err}
use precis_mcp.Period.Selection.{Kind, snapshot, period}
use precis_mcp.Ingestion.Warehouse.{
  TableRow, of_period, ClickHouse, continue, staging_for, drop_partition, truncate,
  replace_partition, exchange_tables,
}
use precis_mcp.Ingestion.Executor.{
  ExecutorError, validate_period_args, SourceRow, assign_load_id, or_raise, clear_staging, inserted,
  load_source, execute_into, execute, clear_failed,
}
use precis_mcp.Ingestion.Swap.{SwapError, or_failed, run_command, swap}
use precis_mcp.Ingestion.Promotion.{is_live, live-ne-staging, SameLive}
use precis_mcp.Ingestion.Promotion.{drop-SameLive}

and_false : (b : Bool) → (b && false) ≡ false
and_false true = refl
and_false false = refl

and_true : (b : Bool) → (b && true) ≡ b
and_true true = refl
and_true false = refl

-- The partitions that a load with this kind and period replaces.
abbrev pub in_slice : Kind → Option Text → Text → Bool
in_slice snapshot p x = true
in_slice period none x = false
in_slice period (some p) x = x == p

module _ (ch : ClickHouse) (kind : Kind) (p : Option Text) (target : Text) where
  open ch use {Store, rows}

  -- The staging twin holds exactly these rows in the slice.
  abbrev pub Staged : List TableRow → Store → Type 0
  Staged new s =
      (staging : Text) × (staging_for target ≡ some staging)
      × ((x : Text) → in_slice kind p x ≡ true → rows s staging x ≡ of_period x new)

  -- The live target holds exactly these rows in the slice, and everything else that is live is as before.
  abbrev pub Published : List TableRow → Store → Store → Type 0
  Published new s s' =
      (t x : Text)
      → is_live t ≡ true
      → rows s' t x ≡ (if t == target && in_slice kind p x then of_period x new else rows s t x)

  module _ (load_id : Text) (source : Result Text (List SourceRow)) where
    -- `execute` succeeded: the source answered, and its rows are what is staged.
    abbrev pub Loaded : Result ExecutorError ℕ → Store → Type 0
    Loaded (err e) s = Unit
    Loaded (ok n) s =
        (fetched : List SourceRow) × (source ≡ ok fetched)
        × (n ≡ length fetched)
        × Staged (assign_load_id load_id fetched) s

  module _ (staging : Text) where
    abbrev Cleared : Result ExecutorError (Unit {0}) → Store → Type 0
    Cleared (err e) s = Unit
    Cleared (ok _) s = (x : Text) → in_slice kind p x ≡ true → rows s staging x ≡ []

    or_raise-Cleared :
        (e : ExecutorError) (o : Option Store) (s : Store)
        → ((s' : Store)
            → o ≡ some s'
            → (x : Text) → in_slice kind p x ≡ true
            → rows s' staging x ≡ [])
        → let (r, s') = or_raise ch e o s in Cleared r s'
    or_raise-Cleared e none s k = tt
    or_raise-Cleared e (some s') s k = k s' refl

module _ (ch : ClickHouse) where
  open ch use {Store, rows, command}

  clear_staging-Cleared :
      (kind : Kind) (p : Option Text) (target staging : Text) (s : Store)
      → let (r, s') = clear_staging ch kind p staging s in Cleared ch kind p target staging r s'
  unfolding clear_staging
  clear_staging-Cleared period none target staging s =
      or_raise-Cleared ch period none target staging clear_failed
        (command (drop_partition staging (codes "None")) s) s (λ s' h x q. absurd (cc q))
  clear_staging-Cleared period (some p) target staging s =
      or_raise-Cleared ch period (some p) target staging clear_failed
        (command (drop_partition staging p) s) s
        (λ s' h x q. rw (ch.rows-drop staging p s s' h staging x, beq_refl staging, q))
  clear_staging-Cleared snapshot p target staging s =
      or_raise-Cleared ch snapshot p target staging clear_failed (command (truncate staging) s) s
        (λ s' h x q. rw (ch.rows-truncate staging s s' h staging x, beq_refl staging))

  module _ (kind : Kind) (p : Option Text) (target load_id staging : Text)
      (twin : staging_for target ≡ some staging) where
    inserted-Loaded :
        (fetched : List SourceRow) (o : Option Store) (s : Store)
        → ((s' : Store)
            → o ≡ some s'
            → (x : Text) → in_slice kind p x ≡ true
            → rows s' staging x ≡ of_period x (assign_load_id load_id fetched))
        → let (r, s') = inserted ch (length fetched) o s in
          Loaded ch kind p target load_id (ok fetched) r s'
    inserted-Loaded fetched none s k = tt
    inserted-Loaded fetched (some s') s k = (fetched, refl, refl, (staging, twin, k s' refl))

    load_source-Loaded :
        (source : Result Text (List SourceRow)) (s : Store)
        → ((x : Text) → in_slice kind p x ≡ true → rows s staging x ≡ [])
        → let (r, s') = load_source ch staging load_id source s in
          Loaded ch kind p target load_id source r s'
    load_source-Loaded (err e) s empty = tt
    load_source-Loaded (ok []) s empty = ([], refl, refl, (staging, twin, empty))
    load_source-Loaded (ok (r ∷ rs)) s empty =
        inserted-Loaded (r ∷ rs) (ch.insert_df staging (assign_load_id load_id (r ∷ rs)) s) s
          (λ s' h x q. rw (
            ch.rows-insert staging (assign_load_id load_id (r ∷ rs)) s s' h staging x,
            beq_refl staging,
            empty x q,
          ))

    then_load :
        (source : Result Text (List SourceRow)) (r : Result ExecutorError (Unit {0})) (s : Store)
        → Cleared ch kind p target staging r s
        → let (q, s') = continue r (λ _. load_source ch staging load_id source) s in
          Loaded ch kind p target load_id source q s'
    then_load source (err e) s h = tt
    then_load source (ok _) s h = load_source-Loaded source s h

  execute_into-Loaded :
      (kind : Kind) (p : Option Text) (target load_id : Text)
      (source : Result Text (List SourceRow)) (twin : Option Text) (s : Store)
      → staging_for target ≡ twin
      → let (r, s') = execute_into ch kind p load_id source twin s in
        Loaded ch kind p target load_id source r s'
  execute_into-Loaded kind p target load_id source none s h = tt
  execute_into-Loaded kind p target load_id source (some staging) s h =
      let (r, s') = clear_staging ch kind p staging s in
      then_load kind p target load_id staging h source r s'
        (clear_staging-Cleared kind p target staging s)

  execute_valid-Loaded :
      (kind : Kind) (p : Option Text) (target load_id : Text)
      (source : Result Text (List SourceRow)) (valid : Result ExecutorError (Unit {0})) (s : Store)
      → let (r, s') =
          continue valid (λ _. execute_into ch kind p load_id source (staging_for target)) s in
        Loaded ch kind p target load_id source r s'
  execute_valid-Loaded kind p target load_id source (err e) s = tt
  execute_valid-Loaded kind p target load_id source (ok _) s =
      execute_into-Loaded kind p target load_id source (staging_for target) s refl

  -- When `execute` succeeds, the source answered, `rows_landed` is the number of its rows, and in the
  -- slice of the load the staging twin holds exactly these rows, each with the load's id: what an earlier
  -- load left there is gone.
  pub execute-Loaded :
      (kind : Kind) (p : Option Text) (target load_id : Text)
      (source : Result Text (List SourceRow)) (s : Store)
      → let (r, s') = execute ch kind p target load_id source s in
        Loaded ch kind p target load_id source r s'
  unfolding execute
  execute-Loaded kind p target load_id source s =
      execute_valid-Loaded kind p target load_id source (validate_period_args kind p) s

  -- What `swap` did: on success the slice is promoted; after an error it is promoted or nothing live has changed.
  abbrev pub Swapped :
      Kind
      → Option Text
      → Text
      → List TableRow
      → Store
      → Result SwapError (Unit {0})
      → Store
      → Type 0
  Swapped kind p target new s (ok _) s' = Published ch kind p target new s s'
  Swapped kind p target new s (err e) s' = SameLive ch s s' ⊎ Published ch kind p target new s s'

  module _ (target staging : Text) (new : List TableRow) (twin : staging_for target ≡ some staging)
      (s : Store) where
    after_replace :
        (p : Text) (s' : Store) (o : Option Store)
        → Published ch period (some p) target new s s'
        → ((s'' : Store) → o ≡ some s'' → SameLive ch s' s'')
        → let (r, v) = or_failed ch (drop_partition staging p) o s' in
          Swapped period (some p) target new s r v
    after_replace p s' none h k = inr h
    after_replace p s' (some s'') h k = λ t x l. k s'' refl t x l ∙ h t x l

    replaced :
        (p : Text)
        → ((x : Text) → in_slice period (some p) x ≡ true → rows s staging x ≡ of_period x new)
        → (s' : Store) → command (replace_partition target p staging) s ≡ some s'
        → Published ch period (some p) target new s s'
    replaced p staged s' h t x l = elim (Bool-cases (text_beq x p)) [
      | inl e ↦
          let q : rows s staging p ≡ of_period x new =
            subst (λ k. rows s staging p ≡ of_period k new) (sym ((text_beq_iff x p).0 e))
              (staged p (beq_refl p)) in
          rw (ch.rows-replace target p staging s s' h t x, q)
      | inr e ↦ rw (ch.rows-replace target p staging s s' h t x, e, and_false (text_beq t target))
    ]

    exchanged :
        ((x : Text) → rows s staging x ≡ of_period x new)
        → (s' : Store) → command (exchange_tables target staging) s ≡ some s'
        → Published ch snapshot none target new s s'
    exchanged staged s' h t x l = rw (
      ch.rows-exchange target staging s s' h t x,
      live-ne-staging target staging t twin l,
      staged x,
      and_true (text_beq t target),
    )

    run_exchange :
        (o : Option Store)
        → ((s' : Store) → o ≡ some s' → Published ch snapshot none target new s s')
        → let (r, v) = or_failed ch (exchange_tables target staging) o s in
          Swapped snapshot none target new s r v
    run_exchange none k = inl (λ t q l. refl)
    run_exchange (some s') k = k s' refl

    run_replace :
        (p : Text) (o : Option Store)
        → ((s' : Store) → o ≡ some s' → Published ch period (some p) target new s s')
        → let (r, v) =
            continue
              (or_failed ch (replace_partition target p staging) o s).0
              (λ _. run_command ch (drop_partition staging p))
              (or_failed ch (replace_partition target p staging) o s).1 in
          Swapped period (some p) target new s r v
    run_replace p none k = inl (λ t q l. refl)
    run_replace p (some s') k =
        after_replace p s' (command (drop_partition staging p) s') (k s' refl)
          (drop-SameLive ch target staging twin p s')

  -- A swap of a staged slice: on success the live target holds exactly the staged rows in the slice and all
  -- other live rows are as before; after an error either nothing live has changed or the slice is promoted.
  pub swap-Swapped :
      (kind : Kind) (p : Option Text) (target : Text) (new : List TableRow) (s : Store)
      → Staged ch kind p target new s
      → let (r, s') = swap ch kind p target s in Swapped kind p target new s r s'
  unfolding swap
  swap-Swapped period none target new s h = inl (λ t q l. refl)
  swap-Swapped period (some p) target new s (staging, twin, staged) = rw twin (
      run_replace target staging new twin s p (command (replace_partition target p staging) s)
        (replaced target staging new twin s p staged))
  swap-Swapped snapshot (some p) target new s h = inl (λ t q l. refl)
  swap-Swapped snapshot none target new s (staging, twin, staged) = rw twin (
      run_exchange target staging new twin s (command (exchange_tables target staging) s)
        (exchanged target staging new twin s (λ x. staged x refl)))
