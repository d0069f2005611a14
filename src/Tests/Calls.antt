-- ===== src/Tests/Calls.antt =====
-- A call of a read tool on two scenarios, one with a fork.
use precis_mcp.Common.{
  All, contains, Text, codes, text_beq_iff, text_eq, string_eq, nat_eq, ◌≡◌, ◌≢◌, refl, sym, subst,
  ◌∙◌, ◌⊎◌, inl, inr, true, false, Option, none, some, List, [], ◌∷◌, ◌++◌, arith,
}
use precis_mcp.Common.Result.{err, ok}
use precis_mcp.Common.Maps.{Dict, lookup, insert}
use precis_mcp.Common.Sets.{difference, union, insert_sorted, sorted}
use precis_mcp.Common.Strings.{is_some}
use precis_mcp.Scenario.{
  by_alias, by_id, compatibility_alias, resolve_key, resolve_fuel, expand_dependencies,
}
use precis_mcp.Access.{
  ScenarioPermissions, UserPermissions, compute_tool_scopes, analyst, read, highest, lowest,
}
use precis_mcp.Modifiers.{split_parts, split_value, add_modifiers, parse_scenario_modifiers}
use precis_mcp.Modifiers.Parse.{joined, parse_scenario_modifiers-joined}
use precis_mcp.Gate.{
  Arg, Descriptor, extract_from, extract_scenario_ids, expand_or_key, expand_scenario_ref, ScopeMap,
  authorize_ids, authorize_refs, any_scope, permission_gate, scoped, text, entries,
}
use precis_mcp.Gate.Granted.{grant_of, scope_in, permission_gate-grant_of, permission_gate_passes}
use precis_mcp.Planning.{
  DataQuery, parse_key, collect_computed_deps, collect_all, plan_key, dedupe, resolve_scenarios,
  executed_id, collect_out_of_fuel,
}
use precis_mcp.Planning.Fuel.{collect_all-ne-collect_out_of_fuel}
use precis_mcp.Planning.Queries.{IsUnmodified}
use precis_mcp.Planning.Executed.{HasLiteralTarget}
use precis_mcp.Planning.Authorised.{queries-grant_of}
use precis_mcp.Common.Int.{pos}
use precis_mcp.Planning.Sorting.{topological_sort, sort_keys, sort_loop, free}
use precis_mcp.Tests.Scenarios.{registry, well_formed, IsPlain-registry}

abbrev modifiers : Dict Text
modifiers = (codes "commit", codes "a=b") ∷ (codes "fork", []) ∷ []

parse_scenario_modifiers-joined_example :
    parse_scenario_modifiers (codes "budget" ++ joined modifiers) ≡ ok (codes "budget", modifiers)
parse_scenario_modifiers-joined_example =
    parse_scenario_modifiers-joined (codes "budget") modifiers (ground arith) (ground arith)
      (ground arith)

abbrev reader : ScenarioPermissions
reader = compute_tool_scopes ((analyst, none) ∷ [])

abbrev permissions : UserPermissions
permissions = record {
  user_id = codes "u";
  is_admin = false;
  scenarios = (codes "a1", reader) ∷ (codes "b1", reader) ∷ [];
}

abbrev descriptor : Descriptor
descriptor = record { access = scoped read; scenario_params = codes "scenarios" ∷ [] }

abbrev named_refs : List Text
named_refs = codes "actuals" ∷ codes "budget&fork=a1" ∷ []

abbrev args : Dict Arg
args =
    (
      codes "scenarios",
      entries (some (codes "actuals") ∷ none ∷ some (codes "budget&fork=a1") ∷ []),
    )
    ∷ []

refs_are : extract_scenario_ids args descriptor.scenario_params ≡ named_refs
unfolding extract_scenario_ids extract_from lookup
refs_are = refl

passes : permission_gate permissions (some registry) descriptor args ≡ ok none
unfolding permission_gate extract_scenario_ids extract_from lookup authorize_refs authorize_ids
    expand_scenario_ref insert compute_tool_scopes highest lowest any_scope parse_scenario_modifiers
    split_parts split_value add_modifiers expand_dependencies resolve_key resolve_fuel by_alias
    by_id compatibility_alias union difference
passes = refl

budget_expands :
    contains (expand_scenario_ref (some registry) (codes "budget&fork=a1")) (codes "b1") ≡ true
unfolding expand_scenario_ref lookup insert parse_scenario_modifiers split_parts split_value
    add_modifiers expand_dependencies resolve_key resolve_fuel by_alias by_id compatibility_alias
    union difference
budget_expands = refl

permission_gate-grant_of_example :
    grant_of permissions read (codes "b1") ≡ some (scope_in none (codes "b1"))
permission_gate-grant_of_example =
    permission_gate-grant_of permissions (some registry) descriptor args read none
      (codes "budget&fork=a1") (codes "b1") refl passes (rw refs_are refl) budget_expands

abbrev one_arg : Dict Arg
one_arg = (codes "scenarios", text (codes "a1")) ∷ []

one_ref : extract_scenario_ids one_arg descriptor.scenario_params ≡ codes "a1" ∷ []
unfolding extract_scenario_ids extract_from lookup
one_ref = refl

expands_to_itself : expand_scenario_ref (some registry) (codes "a1") ≡ codes "a1" ∷ []
unfolding expand_scenario_ref lookup parse_scenario_modifiers split_parts add_modifiers
    expand_dependencies resolve_key resolve_fuel by_alias by_id compatibility_alias union difference
expands_to_itself = refl

only : (a x : Text) → contains (a ∷ []) x ≡ true → a ≡ x
only a x h = (text_beq_iff a x).0 (ground arith)

granted_everywhere :
    (ref sid : Text)
    → contains (extract_scenario_ids one_arg descriptor.scenario_params) ref ≡ true
    → contains (expand_scenario_ref (some registry) ref) sid ≡ true
    → is_some (grant_of permissions read sid) ≡ true
granted_everywhere ref sid named expands =
    let r : codes "a1" ≡ ref = only (codes "a1") ref (rw one_ref at named) in
    let s : codes "a1" ≡ sid = only (codes "a1") sid (
      subst (λ l. contains l sid ≡ true) expands_to_itself
        (subst (λ x. contains (expand_scenario_ref (some registry) x) sid ≡ true) (sym r)
          expands)) in
    subst (λ x. is_some (grant_of permissions read x) ≡ true) s
      (unfold lookup compute_tool_scopes highest lowest in refl)

permission_gate_passes_example :
    (scopes : Option ScopeMap) × (permission_gate permissions (some registry) descriptor one_arg
      ≡ ok scopes)
permission_gate_passes_example =
    permission_gate_passes permissions (some registry) descriptor one_arg read refl
      (λ e. absurd (cc (sym one_ref ∙ e))) granted_everywhere

abbrev block_keys : List Text
block_keys = codes "budget&fork=a1" ∷ []

abbrev query : DataQuery
query = record {
  scenario_key = codes "budget&fork=a1";
  scenario_id = codes "b1";
  period_start = codes "2026-01";
  period_end = codes "2026-03";
  modifiers = (codes "fork", codes "a1") ∷ [];
  time_offset = pos 0;
}

plan_resolves :
    resolve_scenarios registry (codes "2026-01") (codes "2026-03") block_keys ≡ ok (query ∷ [], [])
unfolding resolve_scenarios collect_all collect_computed_deps parse_key plan_key dedupe lookup
    insert sorted insert_sorted parse_scenario_modifiers split_parts split_value add_modifiers
    resolve_key resolve_fuel by_alias by_id compatibility_alias topological_sort sort_keys sort_loop
    free
plan_resolves = refl

unmodified : All IsUnmodified registry
unmodified = ground arith

expand_a1 : contains (expand_or_key (some registry) (codes "a1")) (codes "a1") ≡ true
unfolding expand_dependencies resolve_key resolve_fuel by_alias by_id compatibility_alias union
    difference
expand_a1 = refl

literal_when :
    (ref base : Text) (modifiers : Dict Text)
    → parse_scenario_modifiers ref ≡ ok (base, modifiers)
    → (lookup (codes "fork") modifiers ≡ none)
      ⊎ (lookup (codes "fork") modifiers ≡ some (codes "a1"))
    → HasLiteralTarget registry ref
literal_when ref base ms parsed (inl none_left) b ms' h c cs found =
    let same : ms ≡ ms' = cc (parsed, h) in
    absurd (cc (subst (λ m. lookup (codes "fork") m ≡ none) same none_left, found))
literal_when ref base ms parsed (inr is_a1) b ms' h c cs found =
    let same : ms ≡ ms' = cc (parsed, h) in
    let target : codes "a1" ≡ c ∷ cs =
      cc (subst (λ m. lookup (codes "fork") m ≡ some (codes "a1")) same is_a1, found) in
    subst (λ t. contains (expand_or_key (some registry) t) t ≡ true) target expand_a1

either : (a b x : Text) → contains (a ∷ b ∷ []) x ≡ true → (a ≡ x) ⊎ (b ≡ x)
either a b x h = ground (arith, text_beq_iff a x, text_beq_iff b x)

plain_actuals : HasLiteralTarget registry (codes "actuals")
unfolding parse_scenario_modifiers split_parts add_modifiers lookup
plain_actuals = literal_when (codes "actuals") (codes "actuals") [] refl (inl refl)

forked_budget : HasLiteralTarget registry (codes "budget&fork=a1")
unfolding parse_scenario_modifiers split_parts split_value add_modifiers lookup insert
forked_budget =
    literal_when (codes "budget&fork=a1") (codes "budget") ((codes "fork", codes "a1") ∷ []) refl
      (inr refl)

literal_targets :
    (ref : Text)
    → contains (extract_scenario_ids args descriptor.scenario_params) ref ≡ true
    → HasLiteralTarget registry ref
literal_targets ref named =
    elim (either (codes "actuals") (codes "budget&fork=a1") ref (rw refs_are at named)) [
      | inl e ↦ subst (HasLiteralTarget registry) e plain_actuals
      | inr e ↦ subst (HasLiteralTarget registry) e forked_budget
    ]

queries-grant_of_example :
    All
      (λ q.
        grant_of permissions read (executed_id registry q)
        ≡ some (scope_in none (executed_id registry q)))
      (query ∷ [])
queries-grant_of_example =
    queries-grant_of registry well_formed IsPlain-registry unmodified permissions descriptor args
      read none block_keys (codes "2026-01") (codes "2026-03") (query ∷ []) [] refl passes
      (rw refs_are (refl, tt)) literal_targets plan_resolves

collect_all-ne-collect_out_of_fuel_example :
    collect_all registry (codes "actuals_vs_budget" ∷ []) [] ≢ err collect_out_of_fuel
collect_all-ne-collect_out_of_fuel_example =
    collect_all-ne-collect_out_of_fuel registry well_formed IsPlain-registry unmodified
      (codes "actuals_vs_budget" ∷ []) []
