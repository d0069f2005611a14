-- ===== src/Lib.antt =====
-- A model of precis-mcp, a server that loads financial data into a warehouse and reports on it.
--
-- The parts and their files:
-- * Calendar periods. Period.antt has the helpers of precis_mcp/ingestion/period_selection.py
--   (datetime_to_period, _parse_calendar_period, period_to_first_of_month, shift_month),
--   shift_period of precis_mcp/engine/resolver.py and _generate_monthly_range of
--   precis_mcp/scope_resolver.py; Period/Selection.antt has select_periods and its three
--   strategies. A period is the list of its code points, and a month is also the number year * 12 +
--   (month - 1). Format, Shift, Windows and Order hold the proofs.
-- * Scenarios. Scenario.antt is precis_mcp/engine/scenario_registry.py: the registry that from_rows
--   builds, as the list of its scenarios in the order of insertion, and resolve_key with its
--   generated keys for shifts and comparisons. Registry, Resolve, Plain, Canonical and Access hold
--   the proofs, Separator those on splitting a key.
-- * Loads. Ingestion/Orchestrator.antt is run_binding of precis_mcp/ingestion/orchestrator.py, one
--   function per stage. It calls Executor (ibis_executor.py), Checks (checks.py) and Swap
--   (swap.py), writes History (load_history.py) and reads Binding (registry.py). Attempt.antt has
--   the state of a load (warehouse, history, held locks, attempt counter) and how a step ends: it
--   goes on, has returned, or has raised. Promotion says what the executor and the swap write;
--   Orchestrator/Bookkeeping, Record, LiveData and Locks hold the proofs on run_binding. Scheduler
--   is the tick of precis_mcp/ingestion/scheduler.py, which selects periods and calls run_binding;
--   Scheduler/Ticks and Checks/Gate hold the proofs on ticks and on the verdict of the checks.
--   Ingestion/Inference.antt is the period of a file (precis_mcp/ingestion/period_inference.py),
--   with its proofs in Inference/Canonical. Ingestion/Shape.antt is the comparison of columns of
--   precis_mcp/ingestion/validate.py.
-- * Filters, scopes and locks. Filters.antt is precis_mcp/engine/filter_resolver.py, and
--   Filters/Targets is on the dimension of a filter key; Scope.antt is
--   precis_mcp/engine/scope_enforcer.py with the scope records of precis_mcp/auth.py, and
--   Locks.antt is precis_mcp/scope_resolver.py. A set or a dict is a list of its members or items,
--   of which lookups and tests for members are what counts. Scope/Leaves, Scope/Merge,
--   Scope/Enforce and Locks/Conditions hold the proofs.
-- * Permissions. Access.antt is the roles and profiles of precis_mcp/auth.py; Access/Ladders and
--   Access/Roles hold the proofs. Access/Discovery.antt is what a caller sees outside any scenario
--   and the write scope (scope_enforcer.py), and Discovery/Union holds the proofs. Gate.antt is
--   _permission_gate of precis_mcp/dispatch.py, with the expansion of references to scenario ids;
--   Gate/Granted holds the proofs.
-- * Identity. Identity.antt is precis_mcp/auth_mode.py and resolve_user_id of precis_mcp/auth.py;
--   Identity/Configured holds the proofs.
-- * Requests. Modifiers.antt is parse_scenario_modifiers of precis_mcp/engine/resolver.py;
--   Planning.antt is what resolve of that file does with the scenarios of the blocks, and the forks
--   of precis_mcp/engine/__init__.py; Planning/Sorting.antt is the topological sort. Queries,
--   Executed and Authorised put the gate and the queries together, Fuel is on the collection of keys,
--   and Sorting/Ends and Sorting/Order are on the sort.
-- * Backups. Backup.antt is the retention of precis_mcp/backup/prune.py, over the keys that exist
--   at the destination; Backup/Manifests and Backup/Protected hold the proofs.
-- * Reads. Concurrency.antt is the limiter of precis_mcp/concurrency.py, whose tasks move one at a
--   time; Concurrency/Slots has the proofs.
--
-- The environment of a load (its id, the clock, the connection and what the source answers, the
-- shape validation, the counts of failing rows) is an argument. ClickHouse is an interface,
-- Ingestion/Warehouse.antt, whose laws are the documented effects of the five statements that a
-- load sends; a statement that raises has changed nothing. Acquiring the lock may raise; writes to
-- the load history succeed, and the clock does not move.
--
-- Fuel: _generate_monthly_range loops while the month is not past the end, and its fuel grows with
-- the distance of the two years; resolve_key calls itself on the two sides of a comparison, and its
-- fuel is the length of the key. A comparison depends on keys of scenarios, which depend on none,
-- so fuel 2 collects the keys of a request; a topological sort has as many rounds as keys. The loop
-- of the watermark strategy has the bound of 240 months of the source.
--
-- Not modelled: logs, spans, metrics other than the attempt counter, durations; columns of a
-- scenario or a binding that these functions only carry along; SQL text beyond the statements of a
-- load; letters outside ASCII; the signs, spaces and underscores that `int` also reads; the SQL
-- and the formatting of the query engine, the metrics and the domain of a request, the server,
-- identity providers, the dumps of a backup and the file watcher.
mod Common
pub mod Period
pub mod Scenario
pub mod Ingestion
pub mod Filters
pub mod Access
pub mod Modifiers
pub mod Gate
pub mod Locks
pub mod Backup
pub mod Identity
pub mod Planning
pub mod Scope
pub mod Concurrency
pub mod Tests
