-- ===== src/Tests/Scenarios.antt =====
-- A scenario registry of two rows.
use precis_mcp.Common.{
  All, Text, codes, nat_eq, text_eq, string_eq, ◌≡◌, refl, ◌≢◌, true, none, some, List, [], ◌∷◌,
}
use precis_mcp.Common.Strings.{is_some, strip_suffix, split_first, ends_with, has_fragment}
use precis_mcp.Common.Result.{ok, err}
use precis_mcp.Scenario.{
  RealScenario, ScenarioRef, compatibility_alias, validate_alias, Registry, by_alias, by_id,
  add_scenario, add_all, Row, real_from_row, from_rows, shifted_ref, resolve_shifted, comparison,
  resolve_fuel, resolve_key, ref_key, normalize_key, resolve_writable, expand_dependencies,
  non_writable_scenario, out_of_fuel, real, shifted, simple, prior_year,
}
use precis_mcp.Scenario.Registry.{IsWellFormed, from_rows-IsWellFormed, Entry}
use precis_mcp.Scenario.Resolve.{IsResolved, resolve_key-IsResolved}
use precis_mcp.Scenario.Plain.{IsPlain}
use precis_mcp.Scenario.Canonical.{resolve_key-ref_key}
use precis_mcp.Scenario.Access.{
  resolve_key-ne-out_of_fuel, expand_dependencies-held, resolve_writable-Entry,
}

abbrev row : Text → Text → Row
row id alias = record {
  scenario_id = id;
  alias = some alias;
  name = none;
  description = none;
  kind = none;
  variant_of = none;
}

abbrev rows : List Row
rows = row (codes "a1") (codes "actuals") ∷ row (codes "b1") (codes "budget") ∷ []

abbrev scenario : Text → Text → RealScenario
scenario id alias = record {
  key = alias;
  scenario_id = id;
  alias = alias;
  name = alias;
  description = [];
  kind = [];
  variant_of = none;
}

abbrev pub actuals : RealScenario
actuals = scenario (codes "a1") (codes "actuals")

abbrev pub budget : RealScenario
budget = scenario (codes "b1") (codes "budget")

abbrev pub registry : Registry
registry = actuals ∷ budget ∷ []

builds : from_rows rows ≡ ok registry
unfolding from_rows real_from_row add_all add_scenario validate_alias by_alias by_id
    compatibility_alias has_fragment ends_with split_first strip_suffix
builds = refl

abbrev last_year : ScenarioRef
last_year = comparison true (real actuals) (shifted (shifted_ref prior_year actuals))

abbrev pub variance_value : Text
variance_value = codes "actuals_vs_actuals_py_pct"

variance_resolves : resolve_key registry variance_value ≡ ok last_year
unfolding resolve_key resolve_fuel resolve_shifted shifted_ref comparison by_alias by_id
    compatibility_alias split_first strip_suffix
variance_resolves = refl

budget_writable : resolve_writable registry (codes "b1") ≡ ok budget
unfolding resolve_writable resolve_key resolve_fuel by_alias by_id compatibility_alias
budget_writable = refl

generated_not_writable : resolve_writable registry (codes "prior_year") ≡ err non_writable_scenario
unfolding resolve_writable resolve_key resolve_fuel resolve_shifted shifted_ref by_alias by_id
    compatibility_alias strip_suffix
generated_not_writable = refl

normalizes : normalize_key registry (codes "prior_year") ≡ ok (codes "actuals_py")
unfolding normalize_key resolve_key resolve_fuel resolve_shifted shifted_ref by_alias by_id
    compatibility_alias strip_suffix
normalizes = refl

expands : expand_dependencies registry variance_value ≡ ok (codes "a1" ∷ codes "a1" ∷ [])
unfolding expand_dependencies resolve_key resolve_fuel resolve_shifted shifted_ref comparison
    by_alias by_id compatibility_alias split_first strip_suffix
expands = refl

from_rows-IsWellFormed_example : IsWellFormed registry
from_rows-IsWellFormed_example = from_rows-IsWellFormed rows registry builds

pub well_formed : IsWellFormed registry
well_formed = from_rows-IsWellFormed rows registry builds

pub IsPlain-registry : All IsPlain registry
unfolding ends_with has_fragment split_first strip_suffix
IsPlain-registry = (
  record { alias_end = refl; alias_pct = refl; id_fragment = refl; id_py = refl; id_pp = refl },
  (
    record { alias_end = refl; alias_pct = refl; id_fragment = refl; id_py = refl; id_pp = refl },
    tt,
  ),
)

resolve_key-IsResolved_example : IsResolved registry last_year
resolve_key-IsResolved_example =
    resolve_key-IsResolved registry well_formed variance_value last_year variance_resolves

resolve_key-ref_key_example : resolve_key registry (ref_key last_year) ≡ ok last_year
resolve_key-ref_key_example =
    resolve_key-ref_key registry well_formed IsPlain-registry variance_value last_year
      variance_resolves

resolve_key-ne-out_of_fuel_example : resolve_key registry variance_value ≢ err out_of_fuel
resolve_key-ne-out_of_fuel_example = resolve_key-ne-out_of_fuel registry variance_value

expand_dependencies-held_example :
    All (λ id. is_some (by_id registry id) ≡ true) (codes "a1" ∷ codes "a1" ∷ [])
expand_dependencies-held_example =
    expand_dependencies-held registry variance_value (codes "a1" ∷ codes "a1" ∷ []) well_formed
      expands

resolve_writable-Entry_example :
    Entry registry budget × (resolve_key registry (codes "b1") ≡ ok (simple (real budget)))
resolve_writable-Entry_example =
    resolve_writable-Entry registry (codes "b1") budget well_formed budget_writable
