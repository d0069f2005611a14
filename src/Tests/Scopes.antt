-- ===== src/Tests/Scopes.antt =====
-- Scopes and roles of a user, locks and shapes, on one dimension of cost centres.
use precis_mcp.Common.{
  Text, codes, text_beq, ◌&&◌, ◌||◌, text_eq, string_eq, nat_eq, ◌≡◌, refl, ◌↔◌, true, false,
  Option, none, some, List, [], ◌∷◌,
}
use precis_mcp.Common.Result.{ok}
use precis_mcp.Common.Maps.{Dict, lookup, insert}
use precis_mcp.Common.Sets.{intersection, difference, union, set_of, insert_sorted, sorted}
use precis_mcp.Filters.{
  Source, Dimension, CubeDimension, Catalogue, Members, find_filter_target, leaves_of,
  resolve_single_value, map_to_view_column,
}
use precis_mcp.Scope.{
  DimensionScope, ScopeSpec, check_domain_access, add_values, scope_members, effective,
  resolve_scope_leaf_sets, scope_columns, resolve_scope_filters, Filter, merge_into,
  merge_dimension_filters, scenario_filters, consistent, enforce_cross_scenario_scope,
}
use precis_mcp.Scope.Leaves.{resolve_scope_leaf_sets-Describes, Describes}
use precis_mcp.Scope.Enforce.{AllWithin, enforce_cross_scenario_scope-Within}
use precis_mcp.Access.{
  pattern_match_rank, Entry, best_pattern, resolve_profile_for_scenario, Blocks, highest, lowest,
  compute_tool_scopes, UserPermissions, analyst, planner, manager, write,
}
use precis_mcp.Access.Discovery.{
  LeafSets, union_of, restricted_everywhere, read_dim_scopes, resolve_each, union_read_member_sets,
  resolve_write_scope,
}
use precis_mcp.Access.Discovery.Union.{readable_scopes, Shows, union_read_member_sets-Shows}
use precis_mcp.Access.Ladders.{
  most_specific, resolve_profile_for_scenario-most_specific, first_block, qualifying,
}
use precis_mcp.Access.Roles.{compute_tool_scopes-first_block}
use precis_mcp.Locks.{
  period_key, Condition, Resolved, resolve_values, lock_values, resolve_lock_condition,
  matches_all_dims, is_cell_locked, one, many,
}
use precis_mcp.Locks.Conditions.{
  given_bound, in_range, locks, condition_names, resolve_lock_condition-locks,
}
use precis_mcp.Ingestion.Shape.{compare_shapes}
use precis_mcp.Ingestion.Shape.Passed.{IsSameShape, compare_shapes-passed}
use precis_mcp.Common.Result.{map_result}
use precis_mcp.Common.{map}

abbrev source : Source
source = record { table = codes "gl.dim_cc"; key_column = codes "id" }

abbrev cc_key : Text
cc_key = codes "cc"

abbrev cost_centre : Dimension
cost_centre = record {
  key = cc_key;
  source = some source;
  derived = false;
  ragged = false;
  leaf_dimension = [];
  provided_table = [];
  transitive = [];
}

abbrev column : CubeDimension
column = record { key = cc_key; source = codes "cc_id"; source_inline = false; filterable = true }

abbrev catalogue : Catalogue
catalogue = record {
  dimensions = (cc_key, cost_centre) ∷ [];
  domains = (codes "pnl", column ∷ []) ∷ [];
}

abbrev members : Members
members = record {
  leaf_rows = λ s value. value ∷ [];
  derived_rows = λ r value. [];
  ragged_rows = λ view leaf_column value. [];
  all_rows = λ s. codes "c1" ∷ codes "c2" ∷ [];
}

abbrev only_c1 : DimensionScope
only_c1 = record { allow = some ((cc_key, codes "c1" ∷ []) ∷ []); deny = none }

abbrev spec : ScopeSpec
spec = record { dimensions = some only_c1; domains = none }

resolves :
    resolve_scope_leaf_sets members catalogue (some spec)
    ≡ ok (some ((cc_key, codes "c1" ∷ []) ∷ []))
unfolding resolve_scope_leaf_sets scope_members add_values find_filter_target leaves_of effective
    lookup insert difference union
resolves = refl

resolve_scope_leaf_sets-Describes_example :
    Describes members catalogue only_c1 ((cc_key, codes "c1" ∷ []) ∷ []) cc_key (codes "c2")
resolve_scope_leaf_sets-Describes_example =
    resolve_scope_leaf_sets-Describes members catalogue only_c1 none
      ((cc_key, codes "c1" ∷ []) ∷ []) cc_key (codes "c2") resolves ((λ e. cc e), ((λ e. cc e), tt))

abbrev user_filter : Filter
user_filter = some ((codes "cc_id", codes "c1" ∷ codes "c2" ∷ []) ∷ [])

abbrev scope_filter : Dict (List Text)
scope_filter = (codes "cc_id", codes "c1" ∷ []) ∷ []

abbrev scopes : Dict (Option ScopeSpec)
scopes = (codes "a1", some spec) ∷ []

enforced :
    enforce_cross_scenario_scope members catalogue (codes "pnl") user_filter scopes
    ≡ ok (some scope_filter)
unfolding enforce_cross_scenario_scope scenario_filters check_domain_access resolve_scope_filters
    scope_columns map_to_view_column merge_dimension_filters merge_into consistent scope_members
    add_values find_filter_target leaves_of effective lookup insert difference union intersection
    set_of sorted insert_sorted
enforced = refl

enforce_cross_scenario_scope-Within_example :
    AllWithin members catalogue (codes "pnl") user_filter (some scope_filter) scopes
enforce_cross_scenario_scope-Within_example =
    enforce_cross_scenario_scope-Within members catalogue (codes "pnl") user_filter scopes
      (some scope_filter) enforced

abbrev profile : Dict Entry
profile =
    (codes "*", (codes "analyst", none) ∷ []) ∷ (codes "PLAN", (codes "planner", none) ∷ []) ∷ []

resolve_profile_for_scenario-most_specific_example :
    resolve_profile_for_scenario profile (codes "b1") (codes "BUDGET")
    ≡ most_specific (codes "b1") (codes "BUDGET") profile
resolve_profile_for_scenario-most_specific_example =
    resolve_profile_for_scenario-most_specific profile (codes "b1") (codes "BUDGET")

planner_resolves :
    resolve_profile_for_scenario profile (codes "b1") (codes "BUDGET")
    ≡ some ((codes "planner", none) ∷ [])
unfolding resolve_profile_for_scenario best_pattern pattern_match_rank
planner_resolves = refl

abbrev blocks : Blocks
blocks = (manager, none) ∷ (planner, some spec) ∷ []

compute_tool_scopes-first_block_example :
    (compute_tool_scopes blocks).tool_scopes write ≡ first_block (qualifying write) blocks
compute_tool_scopes-first_block_example = compute_tool_scopes-first_block blocks write

abbrev condition : Condition
condition =
    (codes "period_from", one (codes "2026-01"))
    ∷ (cc_key, many (codes "c1" ∷ codes "c2" ∷ []))
    ∷ []

abbrev period_rows : Source → Text → Text → List Text
period_rows s start end = []

abbrev locked : Resolved
locked = (codes "period", codes "2026-01" ∷ []) ∷ (cc_key, codes "c1" ∷ codes "c2" ∷ []) ∷ []

condition_resolves : resolve_lock_condition members catalogue period_rows condition ≡ ok locked
unfolding resolve_lock_condition lock_values resolve_values resolve_single_value find_filter_target
    leaves_of lookup insert union difference set_of
condition_resolves = refl

cell_locked :
    is_cell_locked ((codes "period", codes "2026-01") ∷ (cc_key, codes "c2") ∷ []) (locked ∷ [])
    ≡ true
unfolding is_cell_locked matches_all_dims lookup
cell_locked = refl

resolve_lock_condition-locks_example : locks locked cc_key (codes "c2") ≡ (
    (text_beq period_key cc_key
      && in_range members catalogue period_rows
          (given_bound (lookup (codes "period_from") condition))
          (given_bound (lookup (codes "period_to") condition))
          (codes "c2"))
    || condition_names members catalogue period_rows condition cc_key (codes "c2"))
resolve_lock_condition-locks_example =
    resolve_lock_condition-locks members catalogue period_rows condition locked cc_key (codes "c2")
      condition_resolves

abbrev live : Dict Text
live = (codes "amount", codes "Decimal(18, 2)") ∷ []

abbrev staging : Dict Text
staging = (codes "amount", codes "Decimal(18,2)") ∷ []

compare_shapes-passed_example :
    (compare_shapes live staging).passed ≡ true ↔ IsSameShape live staging
compare_shapes-passed_example = compare_shapes-passed live staging

abbrev reader : UserPermissions
reader = record {
  user_id = codes "u";
  is_admin = false;
  scenarios = (codes "a1", compute_tool_scopes ((analyst, some spec) ∷ [])) ∷ [];
}

sees :
    union_read_member_sets members catalogue (some reader)
    ≡ ok (some ((cc_key, codes "c1" ∷ []) ∷ []))
unfolding union_read_member_sets read_dim_scopes resolve_each restricted_everywhere union_of
    compute_tool_scopes highest lowest scope_members add_values find_filter_target leaves_of
    effective lookup insert difference union
sees = refl

union_read_member_sets-Shows_example :
    (per_scope : List LeafSets) × (map_result
        (resolve_scope_leaf_sets members catalogue)
        (readable_scopes reader.scenarios)
      ≡ ok (map some per_scope))
    × Shows ((cc_key, codes "c1" ∷ []) ∷ []) per_scope cc_key (codes "c2")
union_read_member_sets-Shows_example =
    union_read_member_sets-Shows members catalogue reader ((cc_key, codes "c1" ∷ []) ∷ []) cc_key
      (codes "c2") sees

write_scope :
    resolve_write_scope members catalogue (some spec) (codes "pnl") ≡ ok (some scope_filter)
unfolding resolve_write_scope check_domain_access resolve_scope_filters scope_columns
    map_to_view_column scope_members add_values find_filter_target leaves_of effective lookup insert
    difference union sorted insert_sorted
write_scope = refl
