-- ===== src/Ingestion/Promotion.antt =====
-- What a load writes: the staging tables in `execute` (precis_mcp/ingestion/ibis_executor.py), the live
-- partition or table in `swap` (precis_mcp/ingestion/swap.py).
use precis_mcp.Common.{
  length, get_elem?, take, drop, replicate, All, filterb, length-append, contains, ◌==◌, Text,
  codes, text_beq, text_beq_iff, nat_eq, text_eq, string_eq, beq_refl, Eq, ltb, leb, nat_beq,
  if◌then◌else◌, ltb→lt, leb→le, le→leb, nat_beq_iff, Bool-cases, Option-cases, ℕ, zero, suc, ◌+◌,
  ◌-◌, ◌*◌, ◌/◌, ◌%◌, ◌≤◌, ◌<◌, min, String, ◌≡◌, refl, sym, ap, subst, ◌∙◌, fun_ext, ◌≢◌, ◌↔◌, ◌⊎◌,
  inl, inr, Bool, true, false, not, ◌&&◌, ◌||◌, Option, none, some, List, [], ◌∷◌, ◌++◌, map,
  append_assoc, append-nil, arith,
}
pub mod Slice
use precis_mcp.Common.Strings.{
  starts_with, push, strip_suffix, push_left, split_first, is_some, ends_with, has_fragment,
  strip_suffix-eq_some, strip_suffix-append, starts_with-eq_true, starts_with-append, drop-append,
  split_first-eq_some, split_first-cons, split_first-none_tail, ends_with_tail,
}
use precis_mcp.Common.Result.{◌>>=◌, ◌>>◌, guard, map_result, >>=-eq-ok, Result, ok, err}
use precis_mcp.Period.Selection.{
  Kind, Strategy, PeriodSelection, SelectionContext, countdown, trailing, select_lookback,
  select_explicit, watermark_loop, safety, select_watermark, select_periods, snapshot, period,
  lookback, explicit, watermark, other,
}
use precis_mcp.Ingestion.Warehouse.{
  TableRow, Statement, render, of_period, ClickHouse, Exec, continue, ◌>>>◌, staging_for,
  drop_partition, truncate, replace_partition, exchange_tables,
}
use precis_mcp.Ingestion.Executor.{
  matches_period, ExecutorError, validate_period_args, SourceRow, assign_load_id, or_raise,
  clear_staging, inserted, insert_rows, load_source, execute_into, execute, period_required,
  period_format, period_forbidden, bad_target, clear_failed, insert_failed, source_failed,
}
use precis_mcp.Ingestion.Swap.{
  SwapError, or_failed, run_command, swap_partition, swap_snapshot, swap, swap_period_required,
  swap_period_forbidden, swap_bad_target, command_failed,
}
use precis_mcp.Common.Result.{Result}
use precis_mcp.Common.Result.{Result}
use precis_mcp.Common.Result.{Result}

abbrev pub is_live : Text → Bool
is_live t = starts_with (codes "live.") t

staging_for-eq_some :
    (target staging : Text)
    → staging_for target ≡ some staging
    → staging ≡ codes "staging." ++ drop 5 target
unfolding staging_for
staging_for-eq_some target staging h = elim (Bool-cases (starts_with (codes "live.") target)) [
  | inl e ↦ ground (arith, e)
  | inr e ↦ ground (arith, e)
]

not_live : (rest : Text) → is_live (codes "staging." ++ rest) ≡ false
not_live rest = refl

-- A live table is no staging table.
pub live-ne-staging :
    (target staging t : Text)
    → staging_for target ≡ some staging
    → is_live t ≡ true
    → text_beq t staging ≡ false
live-ne-staging target staging t h l = elim (Bool-cases (text_beq t staging)) [
  | inl e ↦
      let q : is_live (codes "staging." ++ drop 5 target) ≡ true =
        subst (λ k. is_live k ≡ true)
          ((text_beq_iff t staging).0 e ∙ staging_for-eq_some target staging h) l in
      absurd (cc q)
  | inr e ↦ e
]

module _ (ch : ClickHouse) where
  open ch use {Store, rows}

  -- No live table has changed.
  abbrev pub SameLive : Store → Store → Type 0
  SameLive s s' = (t q : Text) → is_live t ≡ true → rows s' t q ≡ rows s t q

  module _ (target staging : Text) (twin : staging_for target ≡ some staging) where
    cleared :
        (e : ExecutorError) (st : Statement) (s : Store)
        → ((s' : Store) → ch.command st s ≡ some s' → SameLive s s')
        → SameLive s (or_raise ch e (ch.command st s) s).1
    cleared e st s k = elim (Option-cases (ch.command st s)) [
      | inl h ↦ λ t q l. rw h
      | inr (s', h) ↦ λ t q l. rw h (k s' h t q l)
    ]

    pub drop-SameLive :
        (p : Text) (s s' : Store)
        → ch.command (drop_partition staging p) s ≡ some s'
        → SameLive s s'
    drop-SameLive p s s' h t q l =
        rw (ch.rows-drop staging p s s' h t q, live-ne-staging target staging t twin l)

    truncate-SameLive : (s s' : Store) → ch.command (truncate staging) s ≡ some s' → SameLive s s'
    truncate-SameLive s s' h t q l =
        rw (ch.rows-truncate staging s s' h t q, live-ne-staging target staging t twin l)

    clear_staging-SameLive :
        (k : Kind) (p : Option Text) (s : Store) → SameLive s (clear_staging ch k p staging s).1
    unfolding clear_staging
    clear_staging-SameLive period none s =
        cleared clear_failed (drop_partition staging (codes "None")) s
          (drop-SameLive (codes "None") s)
    clear_staging-SameLive period (some p) s =
        cleared clear_failed (drop_partition staging p) s (drop-SameLive p s)
    clear_staging-SameLive snapshot p s =
        cleared clear_failed (truncate staging) s (truncate-SameLive s)

    load_source-SameLive :
        (load_id : Text) (source : Result Text (List SourceRow)) (s : Store)
        → SameLive s (load_source ch staging load_id source s).1
    load_source-SameLive load_id (err e) s t q l = refl
    load_source-SameLive load_id (ok []) s t q l = refl
    load_source-SameLive load_id (ok (r ∷ rs)) s t q l =
        elim (Option-cases (ch.insert_df staging (assign_load_id load_id (r ∷ rs)) s)) [
          | inl h ↦ rw h
          | inr (s', h) ↦ rw (
            h,
            ch.rows-insert staging (assign_load_id load_id (r ∷ rs)) s s' h t q,
            live-ne-staging target staging t twin l,
          )
        ]

    continue-SameLive :
        {E A B : Type 0} (s : Store) (r : Result E A) (f : A → Exec Store E B) (s' : Store)
        → SameLive s s'
        → ((a : A) → SameLive s' (f a s').1)
        → SameLive s (continue r f s').1
    continue-SameLive s (ok a) f s' h k t q l = k a t q l ∙ h t q l
    continue-SameLive s (err e) f s' h k t q l = h t q l

    execute_into-SameLive :
        (kind : Kind) (p : Option Text) (load_id : Text) (source : Result Text (List SourceRow))
        (s : Store)
        → SameLive s (execute_into ch kind p load_id source (some staging) s).1
    execute_into-SameLive kind p load_id source s =
        let (r, s') = clear_staging ch kind p staging s in
        continue-SameLive s r (λ _. load_source ch staging load_id source) s'
          (clear_staging-SameLive kind p s) (λ _. load_source-SameLive load_id source s')

  execute_valid-SameLive :
      (kind : Kind) (p : Option Text) (target load_id : Text)
      (source : Result Text (List SourceRow)) (valid : Result ExecutorError (Unit {0})) (s : Store)
      → SameLive s
          (continue valid (λ _. execute_into ch kind p load_id source (staging_for target)) s).1
  execute_valid-SameLive kind p target load_id source (err e) s t q l = refl
  execute_valid-SameLive kind p target load_id source (ok _) s t q l =
      elim (Option-cases (staging_for target)) [
        | inl h ↦ rw h
        | inr (staging, h) ↦
            rw h (execute_into-SameLive target staging h kind p load_id source s t q l)
      ]

  -- Whatever `execute` comes to, no live table changes: it writes the staging twin of its target only.
  pub execute-SameLive :
      (kind : Kind) (p : Option Text) (target load_id : Text)
      (source : Result Text (List SourceRow)) (s : Store)
      → SameLive s (execute ch kind p target load_id source s).1
  unfolding execute
  execute-SameLive kind p target load_id source s =
      execute_valid-SameLive kind p target load_id source (validate_period_args kind p) s
