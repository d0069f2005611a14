-- ===== src/Scenario.antt =====
-- The scenario registry (precis_mcp/engine/scenario_registry.py): real scenarios by alias and by id, and
-- the reporting keys that are generated from them.
pub mod Separator
pub mod Registry
pub mod Resolve
pub mod Plain
pub mod Canonical
pub mod Access
use precis_mcp.Common.{
  length, get_elem?, take, drop, replicate, All, filterb, length-append, contains, ◌==◌, Text,
  codes, text_beq, text_beq_iff, nat_eq, text_eq, string_eq, beq_refl, Eq, ltb, leb, nat_beq,
  if◌then◌else◌, ltb→lt, leb→le, le→leb, nat_beq_iff, Bool-cases, Option-cases, ℕ, zero, suc, ◌+◌,
  ◌-◌, ◌*◌, ◌/◌, ◌%◌, ◌≤◌, ◌<◌, min, String, ◌≡◌, refl, sym, ap, subst, ◌∙◌, fun_ext, ◌≢◌, ◌↔◌, ◌⊎◌,
  inl, inr, Bool, true, false, not, ◌&&◌, ◌||◌, Option, none, some, List, [], ◌∷◌, ◌++◌, map,
  append_assoc, append-nil, arith,
}
use precis_mcp.Common.Int.{
  ℤ, pos_part, neg_part, sub_ℕ, ◌+ℤ◌, neg, +ℤ_parts, eq_of_parts, int_laws, pos, negsuc,
}
use precis_mcp.Common.Result.{◌>>=◌, ◌>>◌, guard, map_result, >>=-eq-ok, Result, ok, err}
use precis_mcp.Common.Strings.{
  starts_with, push, strip_suffix, push_left, split_first, is_some, ends_with, has_fragment,
  strip_suffix-eq_some, strip_suffix-append, starts_with-eq_true, starts_with-append, drop-append,
  split_first-eq_some, split_first-cons, split_first-none_tail, ends_with_tail,
}

pub data RegistryError : Type 0 where
  unknown_scenario : RegistryError
  alias_required alias_fragment alias_suffix alias_compatibility : RegistryError
  duplicate_alias duplicate_scenario_id : RegistryError
  non_writable_scenario : RegistryError
  -- the fuel of `resolve_key` ran out; the program has no such outcome
  out_of_fuel : RegistryError

-- `RealScenarioRef`, without the columns that the registry only carries along
pub record RealScenario : Type 0 where
  pub key : Text
  pub scenario_id : Text
  pub alias : Text
  pub name : Text
  pub description : Text
  pub kind : Text
  pub variant_of : Option Text

pub record ShiftedScenario : Type 0 where
  pub key : Text
  pub base : RealScenario
  pub time_offset_months : ℤ
  pub label : Text
  pub description : Text

-- `RealScenarioRef | ShiftedScenarioRef`
pub data SimpleRef : Type 0 where
  real : RealScenario → SimpleRef
  shifted : ShiftedScenario → SimpleRef

pub record Variance : Type 0 where
  pub key : Text
  pub left : SimpleRef
  pub right : SimpleRef
  pub label : Text
  pub description : Text

pub data ScenarioRef : Type 0 where
  simple : SimpleRef → ScenarioRef
  variance : Variance → ScenarioRef
  variance_pct : Variance → ScenarioRef

abbrev pub vs : Text
vs = codes "_vs_"

abbrev pub py : Text
py = codes "_py"

abbrev pub pp : Text
pp = codes "_pp"

abbrev pub pct : Text
pct = codes "_pct"

-- `COMPATIBILITY_ALIASES.get(value)`
unfoldable pub compatibility_alias : Text → Option Text
compatibility_alias value =
    if value == codes "prior_year"
    then some (codes "actuals_py")
    else if value == codes "prior_period"
    then some (codes "actuals_pp")
    else none

unfoldable pub validate_alias : Text → Result RegistryError (Unit {0})
validate_alias alias =
    if alias == []
    then err alias_required
    else if has_fragment vs alias
    then err alias_fragment
    else if ends_with py alias || (ends_with pp alias || ends_with pct alias)
    then err alias_suffix
    else if is_some (compatibility_alias alias)
    then err alias_compatibility
    else ok tt

-- The two dicts of a registry hold the same scenarios, each under its own alias and its own id, so
-- one list in the order of insertion stands for both.
abbrev pub Registry : Type 0
Registry = List RealScenario

-- `self._aliases.get(key)`
unfoldable pub by_alias : Registry → Text → Option RealScenario
by_alias [] key = none
by_alias (s ∷ reg) key = if s.alias == key then some s else by_alias reg key

-- `self._ids.get(key)`
unfoldable pub by_id : Registry → Text → Option RealScenario
by_id [] key = none
by_id (s ∷ reg) key = if s.scenario_id == key then some s else by_id reg key

-- The body of the loop of `__init__`.
unfoldable pub add_scenario : Registry → RealScenario → Result RegistryError Registry
add_scenario reg s = do
  validate_alias s.alias
  guard (not (is_some (by_alias reg s.alias))) duplicate_alias
  guard (not (is_some (by_id reg s.scenario_id))) duplicate_scenario_id
  ok (reg ++ s ∷ [])

unfoldable pub add_all : Registry → List RealScenario → Result RegistryError Registry
add_all reg [] = ok reg
add_all reg (s ∷ rest) = do reg' ← add_scenario reg s; add_all reg' rest

-- `ScenarioRegistry(real_scenarios)`
abbrev pub make_registry : List RealScenario → Result RegistryError Registry
make_registry scenarios = add_all [] scenarios

-- A row of `semantic.scenarios`; `none` is NULL.
pub record Row : Type 0 where
  pub scenario_id : Text
  pub alias : Option Text
  pub name : Option Text
  pub description : Option Text
  pub kind : Option Text
  pub variant_of : Option Text

-- `str(value or default)`
abbrev pub or_default : Option Text → Text → Text
or_default none d = d
or_default (some []) d = d
or_default (some (c ∷ cs)) d = c ∷ cs

unfoldable pub real_from_row : Row → RealScenario
real_from_row row = record {
  key = or_default row.alias [];
  scenario_id = row.scenario_id;
  alias = or_default row.alias [];
  name = or_default row.name (or_default row.alias row.scenario_id);
  description = or_default row.description [];
  kind = or_default row.kind [];
  variant_of = row.variant_of;
}

-- `ScenarioRegistry.from_rows`
unfoldable pub from_rows : List Row → Result RegistryError Registry
from_rows rows = make_registry (map real_from_row rows)

pub data Shift : Type 0 where
  prior_year prior_period : Shift

abbrev pub suffix : Shift → Text
suffix prior_year = py
suffix prior_period = pp

abbrev pub offset : Shift → ℤ
offset prior_year = negsuc 11
offset prior_period = negsuc 0

abbrev label_suffix : Shift → Text
label_suffix prior_year = codes " PY"
label_suffix prior_period = codes " PP"

abbrev shift_words : Shift → Text
shift_words prior_year = codes " shifted by -12 months."
shift_words prior_period = codes " shifted by -1 month."

unfoldable pub shifted_ref : Shift → RealScenario → ShiftedScenario
shifted_ref sh base = record {
  key = base.alias ++ suffix sh;
  base = base;
  time_offset_months = offset sh;
  label = base.name ++ label_suffix sh;
  description = base.name ++ shift_words sh;
}

abbrev pub shift_base : Shift → Option RealScenario → Option ShiftedScenario
shift_base sh none = none
shift_base sh (some base) = some (shifted_ref sh base)

abbrev pub shift_first : Registry → Option Text → Option Text → Option ShiftedScenario
shift_first reg (some base_key) _ = shift_base prior_year (by_alias reg base_key)
shift_first reg none (some base_key) = shift_base prior_period (by_alias reg base_key)
shift_first reg none none = none

-- The first suffix that fits decides.
unfoldable pub resolve_shifted : Registry → Text → Option ShiftedScenario
resolve_shifted reg key = shift_first reg (strip_suffix py key) (strip_suffix pp key)

abbrev pub simple_key : SimpleRef → Text
simple_key (real r) = r.key
simple_key (shifted s) = s.key

abbrev pub label : SimpleRef → Text
label (real r) = r.name
label (shifted s) = s.label

abbrev variance_label : SimpleRef → SimpleRef → Text
variance_label left right = label left ++ (codes " vs " ++ label right)

abbrev variance_description : SimpleRef → SimpleRef → Text
variance_description left right =
    variance_label left right
    ++ (codes ": " ++ (label left ++ (codes " minus " ++ (label right ++ codes "."))))

-- The two results of `_resolve_variance`.
unfoldable pub comparison : Bool → SimpleRef → SimpleRef → ScenarioRef
comparison true left right = variance_pct (record {
  key = simple_key left ++ (vs ++ (simple_key right ++ pct));
  left = left;
  right = right;
  label = variance_label left right ++ codes " %";
  description = variance_description left right ++ codes " Percentage variance vs comparator.";
})
comparison false left right = variance (record {
  key = simple_key left ++ (vs ++ simple_key right);
  left = left;
  right = right;
  label = variance_label left right;
  description = variance_description left right;
})

-- `is_pct` and `body`
abbrev pub comparison_body : Text → Option Text → Bool × Text
comparison_body key (some body) = (true, body)
comparison_body key none = (false, key)

-- From the resolved sides on. Only the sides' UnknownScenarioError is caught.
abbrev pub compare_sides :
    Bool
    → Result RegistryError ScenarioRef
    → Result RegistryError ScenarioRef
    → Result RegistryError (Option ScenarioRef)
compare_sides is_pct (err unknown_scenario) right = ok none
compare_sides is_pct (err e) right = err e
compare_sides is_pct (ok left) (err unknown_scenario) = ok none
compare_sides is_pct (ok left) (err e) = err e
compare_sides is_pct (ok (simple left)) (ok (simple right)) =
    ok (some (comparison is_pct left right))
compare_sides is_pct (ok left) (ok right) = ok none

-- Python's `a or b`
abbrev pub or_else {ℓ} : {A : Type ℓ} → Option A → Option A → Option A
or_else none b = b
or_else (some a) b = some a

abbrev pub find_real : Registry → Text → Option RealScenario
find_real reg key = or_else (by_alias reg key) (by_id reg key)

abbrev pub get_or_self : Text → Option Text → Text
get_or_self value none = value
get_or_self value (some key) = key

abbrev pub compatible : Text → Text
compatible value = get_or_self value (compatibility_alias value)

-- `raise UnknownScenarioError` where no resolution fits
abbrev pub or_unknown : Result RegistryError (Option ScenarioRef) → Result RegistryError ScenarioRef
or_unknown (ok (some ref)) = ok ref
or_unknown (ok none) = err unknown_scenario
or_unknown (err e) = err e

abbrev pub Resolver : Type 0
Resolver = Text → Result RegistryError ScenarioRef

abbrev pub resolve_sides :
    Resolver → Bool → Option (Text × Text) → Result RegistryError (Option ScenarioRef)
resolve_sides resolve is_pct none = ok none
resolve_sides resolve is_pct (some (left_key, right_key)) =
    compare_sides is_pct (resolve left_key) (resolve right_key)

-- `_resolve_variance`, over the resolution of the sides
abbrev pub resolve_variance : Resolver → Text → Result RegistryError (Option ScenarioRef)
resolve_variance resolve key =
    let (is_pct, body) = comparison_body key (strip_suffix pct key) in
    resolve_sides resolve is_pct (split_first vs body)

abbrev pub or_compared :
    Option ShiftedScenario → Result RegistryError ScenarioRef → Result RegistryError ScenarioRef
or_compared (some s) compared = ok (simple (shifted s))
or_compared none compared = compared

abbrev pub or_generated :
    Option RealScenario → Result RegistryError ScenarioRef → Result RegistryError ScenarioRef
or_generated (some s) generated = ok (simple (real s))
or_generated none generated = generated

-- `resolve_key`, on fuel for the calls that `_resolve_variance` makes on the two sides.
unfoldable pub resolve_fuel : ℕ → Registry → Text → Result RegistryError ScenarioRef
resolve_fuel zero reg value = err out_of_fuel
resolve_fuel (suc fuel) reg [] = err unknown_scenario
resolve_fuel (suc fuel) reg (c ∷ cs) =
    let key = compatible (c ∷ cs) in
    or_generated (find_real reg key) (
      or_compared (resolve_shifted reg key)
        (or_unknown (resolve_variance (resolve_fuel fuel reg) key)))

-- `resolve_key`: a side of a comparison is shorter than the key, so its length is fuel enough.
unfoldable pub resolve_key : Registry → Text → Result RegistryError ScenarioRef
resolve_key reg value = resolve_fuel (suc (length value)) reg value

abbrev pub ref_key : ScenarioRef → Text
ref_key (simple s) = simple_key s
ref_key (variance v) = v.key
ref_key (variance_pct v) = v.key

unfoldable pub normalize_key : Registry → Text → Result RegistryError Text
normalize_key reg value = do ref ← resolve_key reg value; ok (ref_key ref)

abbrev pub writable : ScenarioRef → Result RegistryError RealScenario
writable (simple (real r)) = ok r
writable ref = err non_writable_scenario

unfoldable pub resolve_writable : Registry → Text → Result RegistryError RealScenario
resolve_writable reg value = do ref ← resolve_key reg value; writable ref

abbrev pub simple_id : SimpleRef → Text
simple_id (real r) = r.scenario_id
simple_id (shifted s) = s.base.scenario_id

-- `_dependencies`; a set as a list, where an id may stand twice
abbrev pub dependencies : ScenarioRef → List Text
dependencies (simple s) = simple_id s ∷ []
dependencies (variance v) = simple_id v.left ∷ simple_id v.right ∷ []
dependencies (variance_pct v) = simple_id v.left ∷ simple_id v.right ∷ []

unfoldable pub expand_dependencies : Registry → Text → Result RegistryError (List Text)
expand_dependencies reg value = do ref ← resolve_key reg value; ok (dependencies ref)
