-- ===== src/Ingestion/Swap.antt =====
-- precis_mcp/ingestion/swap.py: promote a staged partition or table to live.
use precis_mcp.Common.Result.{Result, ok, err}
use precis_mcp.Common.{Text, nat_eq, text_eq, string_eq, Option, none, some}
use precis_mcp.Common.Result.{ok, err}
use precis_mcp.Period.Selection.{Kind, snapshot, period}
use precis_mcp.Ingestion.Warehouse.{
  Statement, ClickHouse, Exec, ◌>>>◌, staging_for, drop_partition, replace_partition,
  exchange_tables,
}

pub data SwapError : Type 0 where
  swap_period_required swap_period_forbidden swap_bad_target : SwapError
  -- the client's exception at this statement
  command_failed : Statement → SwapError

module _ (ch : ClickHouse) where
  open ch use {Store, command}

  abbrev pub or_failed : Statement → Option Store → Store → Result SwapError (Unit {0}) × Store
  or_failed statement none s = (err (command_failed statement), s)
  or_failed statement (some s') s = (ok tt, s')

  abbrev pub run_command : Statement → Exec Store SwapError (Unit {0})
  run_command statement s = or_failed statement (command statement s) s

  abbrev pub swap_partition : Text → Text → Option Text → Exec Store SwapError (Unit {0})
  swap_partition target p none s = (err swap_bad_target, s)
  swap_partition target p (some staging) s =
      (run_command (replace_partition target p staging) >>> λ _.
      run_command (drop_partition staging p))
        s

  abbrev pub swap_snapshot : Text → Option Text → Exec Store SwapError (Unit {0})
  swap_snapshot target none s = (err swap_bad_target, s)
  swap_snapshot target (some staging) s = run_command (exchange_tables target staging) s

  unfoldable pub swap : Kind → Option Text → Text → Exec Store SwapError (Unit {0})
  swap period none target s = (err swap_period_required, s)
  swap period (some p) target s = swap_partition target p (staging_for target) s
  swap snapshot (some p) target s = (err swap_period_forbidden, s)
  swap snapshot none target s = swap_snapshot target (staging_for target) s
