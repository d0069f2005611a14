-- ===== src/Planning.antt =====
-- The scenarios of a report request: how precis_mcp/engine/resolver.py turns the references of its blocks
-- into queries and computed columns, and how precis_mcp/engine/__init__.py resolves forks.
pub mod Sorting
pub mod Queries
pub mod Executed
pub mod Authorised
pub mod Fuel
use precis_mcp.Common.{
  length, get_elem?, take, drop, replicate, All, filterb, length-append, contains, Text, codes,
  text_beq, text_beq_iff, text_eq, string_eq, nat_eq, ◌==◌, beq_refl, Eq, ltb, leb, nat_beq,
  if◌then◌else◌, ltb→lt, leb→le, le→leb, nat_beq_iff, Bool-cases, Option-cases, ℕ, zero, suc, ◌+◌,
  ◌-◌, ◌*◌, ◌/◌, ◌%◌, ◌≤◌, ◌<◌, min, String, ◌≡◌, refl, sym, ap, subst, ◌∙◌, fun_ext, ◌≢◌, ◌↔◌, ◌⊎◌,
  inl, inr, Bool, true, false, not, ◌&&◌, ◌||◌, Option, none, some, List, [], ◌∷◌, ◌++◌, map,
  append_assoc, append-nil, arith,
}
use precis_mcp.Common.Result.{
  guard, ◌>>=◌, ◌>>◌, map_result, >>=-eq-ok, >>=-cong, >>=_assoc, Result, err, ok,
}
use precis_mcp.Common.Int.{
  ℤ, pos_part, neg_part, sub_ℕ, ◌+ℤ◌, neg, +ℤ_parts, eq_of_parts, int_laws, pos, negsuc,
}
use precis_mcp.Common.Maps.{
  Dict, lookup, insert, keys, insert_item, sort_items, lookup-insert, lookup-sort_items,
}
use precis_mcp.Common.Sets.{
  intersection, difference, union, set_of, insert_sorted, sorted, contains-append, contains-filterb,
  contains-intersection, contains-difference, contains-union, contains-set_of, contains-sorted,
}
use precis_mcp.Period.{shift_period, PeriodError}
use precis_mcp.Scenario.{
  RealScenario, ShiftedScenario, SimpleRef, ScenarioRef, Variance, Registry, RegistryError,
  resolve_key, simple_key, real, shifted, simple, variance, variance_pct,
}
use precis_mcp.Modifiers.{ModifierError, parse_scenario_modifiers}
use precis_mcp.Gate.{parent_of}
use precis_mcp.Planning.Sorting.{topological_sort}

pub data PlanError : Type 0 where
  unknown_reference : Text → PlanError
  modifier_error : ModifierError → PlanError
  modifiers_on_computed : Text → PlanError
  period_error : PeriodError → PlanError
  circular_dependency collect_out_of_fuel : PlanError

-- `DataQuery`, but for the metrics and the domain, which all the queries of a request share.
pub record DataQuery : Type 0 where
  pub scenario_key : Text
  pub scenario_id : Text
  pub period_start : Text
  pub period_end : Text
  pub modifiers : Dict Text
  pub time_offset : ℤ

pub record ComputedScenarioEval : Type 0 where
  pub scenario_key : Text
  pub formula : Text
  pub dependencies : List Text

abbrev pub or_modifier_error {ℓ} : {A : Type ℓ} → Result ModifierError A → Result PlanError A
or_modifier_error (ok a) = ok a
or_modifier_error (err e) = err (modifier_error e)

abbrev pub or_period_error {ℓ} : {A : Type ℓ} → Result PeriodError A → Result PlanError A
or_period_error (ok a) = ok a
or_period_error (err e) = err (period_error e)

abbrev pub or_unknown_reference :
    Text → Result RegistryError ScenarioRef → Result PlanError ScenarioRef
or_unknown_reference base (ok ref) = ok ref
or_unknown_reference base (err e) = err (unknown_reference base)

-- `_base_key` with `_modifiers_for`, and `_registry_or_error`
unfoldable pub parse_key : Registry → Text → Result PlanError (ScenarioRef × Dict Text)
parse_key registry key = do
  (base, modifiers) ← or_modifier_error (parse_scenario_modifiers key)
  ref ← or_unknown_reference base (resolve_key registry base)
  ok (ref, modifiers)

abbrev pub sides : ScenarioRef → Option (SimpleRef × SimpleRef)
sides (simple s) = none
sides (variance v) = some (v.left, v.right)
sides (variance_pct v) = some (v.left, v.right)

abbrev pub collect_sides :
    (Text → List Text → Result PlanError (List Text))
    → Text
    → Option (SimpleRef × SimpleRef)
    → Dict Text
    → List Text
    → Result PlanError (List Text)
collect_sides collect key none modifiers visited = ok visited
collect_sides collect key (some (left, right)) [] visited = do
  more ← collect (simple_key left) visited
  collect (simple_key right) more
collect_sides collect key (some (left, right)) (m ∷ ms) visited = err (modifiers_on_computed key)

-- `_collect_computed_deps`, on fuel: it recurses on the keys of the two sides of a comparison.
unfoldable pub collect_computed_deps :
    ℕ → Registry → Text → List Text → Result PlanError (List Text)
collect_computed_deps zero registry key visited = err collect_out_of_fuel
collect_computed_deps (suc fuel) registry key visited =
    if contains visited key
    then ok visited
    else (parse_key registry key >>= λ (ref, modifiers).
        collect_sides (collect_computed_deps fuel registry) key (sides ref) modifiers
          (visited ++ key ∷ []))

unfoldable pub collect_all : Registry → List Text → List Text → Result PlanError (List Text)
collect_all registry [] visited = ok visited
collect_all registry (key ∷ keys) visited = do
  more ← collect_computed_deps 2 registry key visited
  collect_all registry keys more

abbrev pub simple_query : Text → Text → Text → Dict Text → SimpleRef → Result PlanError DataQuery
simple_query key period_start period_end modifiers (real s) = ok (record {
  scenario_key = key;
  scenario_id = s.scenario_id;
  period_start = period_start;
  period_end = period_end;
  modifiers = modifiers;
  time_offset = pos 0;
})
simple_query key period_start period_end modifiers (shifted s) = do
  shifted_start ← or_period_error (shift_period period_start s.time_offset_months)
  shifted_end ← or_period_error (shift_period period_end s.time_offset_months)
  ok (record {
    scenario_key = key;
    scenario_id = s.base.scenario_id;
    period_start = shifted_start;
    period_end = shifted_end;
    modifiers = modifiers;
    time_offset = s.time_offset_months;
  })

-- What a key comes to: a query, or a computed column.
pub data Planned : Type 0 where
  data_query : DataQuery → Planned
  computed : Text → ScenarioRef → Planned

abbrev pub planned_ref : Text → Text → Text → ScenarioRef → Dict Text → Result PlanError Planned
planned_ref period_start period_end key (simple s) modifiers = do
  q ← simple_query key period_start period_end modifiers s
  ok (data_query q)
planned_ref period_start period_end key (variance v) modifiers = ok (computed key (variance v))
planned_ref period_start period_end key (variance_pct v) modifiers =
    ok (computed key (variance_pct v))

unfoldable pub plan_key : Registry → Text → Text → Text → Result PlanError Planned
plan_key registry period_start period_end key = parse_key registry key >>= λ (ref, modifiers).
    planned_ref period_start period_end key ref modifiers

abbrev pub queries_of : List Planned → List DataQuery
queries_of [] = []
queries_of (data_query q ∷ plans) = q ∷ queries_of plans
queries_of (computed key ref ∷ plans) = queries_of plans

abbrev pub computed_of : List Planned → List (Text × ScenarioRef)
computed_of [] = []
computed_of (data_query q ∷ plans) = computed_of plans
computed_of (computed key ref ∷ plans) = (key, ref) ∷ computed_of plans

abbrev pub modifiers_beq : Dict Text → Dict Text → Bool
modifiers_beq [] [] = true
modifiers_beq ((k, v) ∷ ms) ((j, w) ∷ ns) = text_beq k j && (text_beq v w && modifiers_beq ms ns)
modifiers_beq _ _ = false

-- The dedup key.
abbrev pub same_query : DataQuery → DataQuery → Bool
same_query p q =
    text_beq p.scenario_id q.scenario_id
    && (text_beq p.period_start q.period_start
        && (text_beq p.period_end q.period_end
            && modifiers_beq (sort_items p.modifiers) (sort_items q.modifiers)))

abbrev pub has_query : List DataQuery → DataQuery → Bool
has_query [] q = false
has_query (p ∷ ps) q = same_query p q || has_query ps q

unfoldable pub dedupe : List DataQuery → List DataQuery → List DataQuery
dedupe kept [] = kept
dedupe kept (q ∷ qs) = dedupe (if has_query kept q then kept else kept ++ q ∷ []) qs

-- `_computed_formula_for` and `_computed_deps_for`
abbrev pub formula_for : ScenarioRef → Text
formula_for (simple s) = []
formula_for (variance v) = simple_key v.left ++ (codes " - " ++ simple_key v.right)
formula_for (variance_pct v) =
    codes "("
    ++ (simple_key v.left
        ++ (codes " - "
            ++ (simple_key v.right
                ++ (codes ") / abs(" ++ (simple_key v.right ++ codes ") * 100")))))

abbrev pub computed_deps : ScenarioRef → List Text
computed_deps ref = elim (sides ref) [
  | none ↦ []
  | some (left, right) ↦ set_of (simple_key left ∷ simple_key right ∷ [])
]

abbrev pub deps_or_none : Option ScenarioRef → List Text
deps_or_none none = []
deps_or_none (some ref) = computed_deps ref

abbrev pub evals_for : Dict ScenarioRef → List Text → List ComputedScenarioEval
evals_for refs [] = []
evals_for refs (key ∷ keys) =
    let rest = evals_for refs keys in
    elim (lookup key refs) [
      | none ↦ rest
      | some ref ↦
          record {
            scenario_key = key;
            formula = formula_for ref;
            dependencies = sorted (computed_deps ref);
          }
          ∷ rest
    ]

abbrev pub evals_of :
    Dict ScenarioRef → Option (List Text) → Result PlanError (List ComputedScenarioEval)
evals_of refs none = err circular_dependency
evals_of refs (some keys) = ok (evals_for refs keys)

-- The scenarios of `resolve`: the queries and the computed columns, from the keys of the blocks.
unfoldable pub resolve_scenarios :
    Registry
    → Text
    → Text
    → List Text
    → Result PlanError (List DataQuery × List ComputedScenarioEval)
resolve_scenarios registry period_start period_end block_keys = do
  expanded ← collect_all registry block_keys []
  plans ← map_result (plan_key registry period_start period_end) (sorted expanded)
  let refs = computed_of plans
  evals ← evals_of refs (topological_sort (keys refs) (λ key. deps_or_none (lookup key refs)))
  ok (dedupe [] (queries_of plans), evals)

-- The id that a query is executed with: Stage 2b of `run_engine`, which resolves the fork.
unfoldable pub executed_id : Registry → DataQuery → Text
executed_id registry q = elim (lookup (codes "fork") q.modifiers) [
  | none ↦ q.scenario_id
  | some (c ∷ cs) ↦ c ∷ cs
  | some [] ↦ elim (parent_of registry q.scenario_id) [
    | none ↦ q.scenario_id
    | some parent ↦ parent
  ]
]
