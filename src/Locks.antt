-- ===== src/Locks.antt =====
-- Scenario locks (precis_mcp/scope_resolver.py): conditions on dimensions, resolved to the ids of leaf
-- members, and whether a cell is locked. The rows of the period table are an argument.
pub mod Conditions
use precis_mcp.Common.{
  length, get_elem?, take, drop, replicate, All, filterb, length-append, contains, Text, codes,
  text_beq, text_beq_iff, text_eq, string_eq, nat_eq, ◌==◌, beq_refl, Eq, ltb, leb, nat_beq,
  if◌then◌else◌, ltb→lt, leb→le, le→leb, nat_beq_iff, Bool-cases, Option-cases, ℕ, zero, suc, ◌+◌,
  ◌-◌, ◌*◌, ◌/◌, ◌%◌, ◌≤◌, ◌<◌, min, String, ◌≡◌, refl, sym, ap, subst, ◌∙◌, fun_ext, ◌≢◌, ◌↔◌, ◌⊎◌,
  inl, inr, Bool, true, false, not, ◌&&◌, ◌||◌, Option, none, some, List, [], ◌∷◌, ◌++◌, map,
  append_assoc, append-nil, arith,
}
use precis_mcp.Common.Result.{
  guard, ◌>>=◌, ◌>>◌, map_result, >>=-eq-ok, >>=-cong, >>=_assoc, Result, err, ok,
}
use precis_mcp.Common.Maps.{
  Dict, lookup, insert, keys, insert_item, sort_items, lookup-insert, lookup-sort_items,
}
use precis_mcp.Common.Sets.{
  intersection, difference, union, set_of, insert_sorted, sorted, contains-append, contains-filterb,
  contains-intersection, contains-difference, contains-union, contains-set_of, contains-sorted,
}
use precis_mcp.Period.{PeriodError, generate_monthly_range}
use precis_mcp.Filters.{Source, Dimension, Catalogue, Members, FilterError, resolve_single_value}

-- The value of a key of a condition.
pub data LockValue : Type 0 where
  one : Text → LockValue
  many : List Text → LockValue

abbrev pub Condition : Type 0
Condition = Dict LockValue

-- The locked leaf ids by leaf dimension.
abbrev pub Resolved : Type 0
Resolved = Dict (List Text)

pub data LockError : Type 0 where
  bad_period : PeriodError → LockError
  range_out_of_fuel : LockError

abbrev pub or_lock_error : Result PeriodError (Option (List Text)) → Result LockError (List Text)
or_lock_error (ok (some periods)) = ok periods
or_lock_error (ok none) = err range_out_of_fuel
or_lock_error (err e) = err (bad_period e)

abbrev pub period_source : Option Dimension → Option Source
period_source none = none
period_source (some dim) = dim.source

abbrev pub expand_from :
    (Source → Text → Text → List Text) → Option Source → Text → Text → Result LockError (List Text)
expand_from period_rows none start end = or_lock_error (generate_monthly_range start end)
expand_from period_rows (some source) start end = ok (period_rows source start end)

abbrev pub period_key : Text
period_key = codes "period"

-- The text of a bound; a missing one and an empty one count alike.
abbrev pub bound : Option LockValue → Text
bound (some (one t)) = t
bound (some (many ts)) = []
bound none = []

-- `if key in ("period_from", "period_to", "_type")`
abbrev pub is_special : Text → Bool
is_special key = contains (codes "period_from" ∷ codes "period_to" ∷ codes "_type" ∷ []) key

abbrev pub ids_of : Option (List Text) → List Text
ids_of none = []
ids_of (some ids) = ids

-- `resolved[key] |= leaves`, or the assignment where the key is new
abbrev pub lock_leaves : Text → List Text → Resolved → Resolved
lock_leaves key leaves resolved =
    insert key
      (elim (lookup key resolved) [ none ↦ set_of leaves | some ids ↦ union ids (set_of leaves) ])
      resolved

module _ (members : Members) (catalogue : Catalogue)
    (period_rows : Source → Text → Text → List Text) where
  -- `_expand_period_range`
  unfoldable pub expand_period_range : Text → Text → Result LockError (List Text)
  expand_period_range start end =
      expand_from period_rows (period_source (lookup period_key catalogue.dimensions)) start end

  abbrev pub resolve_periods : Text → Text → Result LockError Resolved
  resolve_periods [] [] = ok []
  resolve_periods (c ∷ cs) [] = ok ((period_key, (c ∷ cs) ∷ []) ∷ [])
  resolve_periods [] (d ∷ ds) = ok ((period_key, (d ∷ ds) ∷ []) ∷ [])
  resolve_periods (c ∷ cs) (d ∷ ds) = do
    periods ← expand_period_range (c ∷ cs) (d ∷ ds)
    ok ((period_key, set_of periods) ∷ [])

  -- One value: what does not resolve is left out with a warning.
  abbrev pub add_found :
      Option Text × List Text → Result FilterError (Text × List Text) → Option Text × List Text
  add_found found (err e) = found
  add_found (last, leaves) (ok (key, more)) = (some key, union leaves (set_of more))

  -- The loop over the values of a key: the leaf dimension of the last, and the leaves of all.
  unfoldable pub resolve_values :
      Text → List Text → Option Text × List Text → Option Text × List Text
  resolve_values key [] found = found
  resolve_values key (v ∷ vs) found =
      resolve_values key vs (add_found found (resolve_single_value members catalogue key v))

  -- `if leaf_dim_key and all_leaves`
  abbrev pub add_all_found : Option Text × List Text → Resolved → Resolved
  add_all_found (none, leaves) resolved = resolved
  add_all_found (some key, []) resolved = resolved
  add_all_found (some key, x ∷ xs) resolved = lock_leaves key (x ∷ xs) resolved

  abbrev pub add_one : Result FilterError (Text × List Text) → Resolved → Resolved
  add_one (err e) resolved = resolved
  add_one (ok (key, leaves)) resolved = lock_leaves key leaves resolved

  abbrev pub lock_value : Text → LockValue → Resolved → Resolved
  lock_value key (one v) resolved = add_one (resolve_single_value members catalogue key v) resolved
  lock_value key (many vs) resolved = add_all_found (resolve_values key vs (none, [])) resolved

  -- The loop over the other keys of the condition.
  unfoldable pub lock_values : Condition → Resolved → Resolved
  lock_values [] resolved = resolved
  lock_values ((key, value) ∷ condition) resolved =
      lock_values condition (if is_special key then resolved else lock_value key value resolved)

  unfoldable pub resolve_lock_condition : Condition → Result LockError Resolved
  resolve_lock_condition condition = do
    periods ←
        resolve_periods (bound (lookup (codes "period_from") condition))
          (bound (lookup (codes "period_to") condition))
    ok (lock_values condition periods)

  abbrev keep_nonempty : Resolved → List Resolved → List Resolved
  keep_nonempty [] locks = locks
  keep_nonempty (r ∷ rs) locks = (r ∷ rs) ∷ locks

  -- `resolve_scenario_locks`, from the conditions that are stored
  unfoldable pub resolve_scenario_locks : List Condition → Result LockError (List Resolved)
  resolve_scenario_locks [] = ok []
  resolve_scenario_locks (condition ∷ conditions) = do
    resolved ← resolve_lock_condition condition
    locks ← resolve_scenario_locks conditions
    ok (keep_nonempty resolved locks)

abbrev pub holds_value : Option Text → List Text → Bool
holds_value none ids = false
holds_value (some value) ids = contains ids value

-- `matches_all_dims`
unfoldable pub matches_all_dims : Dict Text → Resolved → Bool
matches_all_dims cell [] = true
matches_all_dims cell ((key, ids) ∷ condition) =
    let rest = matches_all_dims cell condition in
    if holds_value (lookup key cell) ids then rest else false

unfoldable pub is_cell_locked : Dict Text → List Resolved → Bool
is_cell_locked cell [] = false
is_cell_locked cell (condition ∷ locks) =
    let rest = is_cell_locked cell locks in if matches_all_dims cell condition then true else rest
