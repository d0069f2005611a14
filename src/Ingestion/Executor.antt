-- ===== src/Ingestion/Executor.antt =====
-- `execute` of precis_mcp/ingestion/ibis_executor.py: read the source, and write its rows to staging.
use precis_mcp.Common.{
  length, Text, codes, text_beq, nat_eq, text_eq, string_eq, leb, nat_beq, if◌then◌else◌, ℕ, Bool,
  false, ◌&&◌, ◌||◌, Option, none, some, List, [], ◌∷◌, ◌++◌,
}
use precis_mcp.Common.Result.{Result, ok, err}
use precis_mcp.Common.Decimal.{is_ascii_digit, all_digits, int_from}
use precis_mcp.Period.Selection.{Kind, snapshot, period}
use precis_mcp.Ingestion.Warehouse.{
  TableRow, ClickHouse, Exec, continue, ◌>>>◌, staging_for, drop_partition, truncate,
}

-- `(?:0[1-9]|1[0-2]|13)`
abbrev calendar_or_13 : ℕ → ℕ → Bool
calendar_or_13 e f =
    let month = e ∷ f ∷ [] in
    (is_ascii_digit e && is_ascii_digit f)
    && (leb 1 (int_from 0 month) && leb (int_from 0 month) 13)

-- What `(?:-ADJ)?$` accepts: `$` also stands before a last line feed.
abbrev period_tail : Text → Bool
period_tail t =
    text_beq t []
    || (text_beq t (codes "-ADJ") || (text_beq t (10 ∷ []) || text_beq t (codes "-ADJ" ++ 10 ∷ [])))

-- `_PERIOD_RE.match(period)`
unfoldable pub matches_period : Text → Bool
matches_period (a ∷ b ∷ c ∷ d ∷ dash ∷ e ∷ f ∷ rest) =
    all_digits (a ∷ b ∷ c ∷ d ∷ [])
    && (nat_beq dash b'-' && (calendar_or_13 e f && period_tail rest))
matches_period _ = false

pub data ExecutorError : Type 0 where
  period_required period_format period_forbidden bad_target : ExecutorError
  clear_failed insert_failed : ExecutorError
  source_failed : Text → ExecutorError

unfoldable pub validate_period_args : Kind → Option Text → Result ExecutorError (Unit {0})
validate_period_args period none = err period_required
validate_period_args period (some p) = if matches_period p then ok tt else err period_format
validate_period_args snapshot none = ok tt
validate_period_args snapshot (some p) = err period_forbidden

-- A row as the source delivers it, before `_load_id` is set.
pub record SourceRow : Type 0 where
  pub period : Text
  pub payload : ℕ

abbrev pub assign_load_id : Text → List SourceRow → List TableRow
assign_load_id load_id [] = []
assign_load_id load_id (r ∷ rs) =
    (record { period = r.period; load_id = load_id; payload = r.payload })
    ∷ assign_load_id load_id rs

module _ (ch : ClickHouse) where
  open ch use {Store, command, insert_df}

  abbrev pub or_raise :
      ExecutorError → Option Store → Store → Result ExecutorError (Unit {0}) × Store
  or_raise e none s = (err e, s)
  or_raise e (some s') s = (ok tt, s')

  -- Drop the slice that is about to be written.
  unfoldable pub clear_staging : Kind → Option Text → Text → Exec Store ExecutorError (Unit {0})
  clear_staging period none staging s =
      or_raise clear_failed (command (drop_partition staging (codes "None")) s) s
  clear_staging period (some p) staging s =
      or_raise clear_failed (command (drop_partition staging p) s) s
  clear_staging snapshot p staging s = or_raise clear_failed (command (truncate staging) s) s

  abbrev pub inserted : ℕ → Option Store → Store → Result ExecutorError ℕ × Store
  inserted n none s = (err insert_failed, s)
  inserted n (some s') s = (ok n, s')

  abbrev pub insert_rows : Text → Text → List SourceRow → Exec Store ExecutorError ℕ
  insert_rows staging load_id [] s = (ok 0, s)
  insert_rows staging load_id (r ∷ rs) s =
      inserted (length (r ∷ rs)) (insert_df staging (assign_load_id load_id (r ∷ rs)) s) s

  abbrev pub load_source : Text → Text → Result Text (List SourceRow) → Exec Store ExecutorError ℕ
  load_source staging load_id (err e) s = (err (source_failed e), s)
  load_source staging load_id (ok fetched) s = insert_rows staging load_id fetched s

  abbrev pub execute_into :
      Kind
      → Option Text
      → Text
      → Result Text (List SourceRow)
      → Option Text
      → Exec Store ExecutorError ℕ
  execute_into kind p load_id source none s = (err bad_target, s)
  execute_into kind p load_id source (some staging) s =
      (clear_staging kind p staging >>> λ _. load_source staging load_id source) s

  -- The source's answer to the rendered query is an argument. The result is `rows_landed`.
  unfoldable pub execute :
      Kind → Option Text → Text → Text → Result Text (List SourceRow) → Exec Store ExecutorError ℕ
  execute kind p target load_id source s =
      continue (validate_period_args kind p)
        (λ _. execute_into kind p load_id source (staging_for target)) s
