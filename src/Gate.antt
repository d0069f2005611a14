-- ===== src/Gate.antt =====
-- The permission gate of precis_mcp/dispatch.py: which scenarios a call of a tool names, which it
-- executes, and whether the caller may. The ids that Python keeps in sets are lists here.
pub mod Granted
use precis_mcp.Common.{
  length, get_elem?, take, drop, replicate, All, filterb, length-append, contains, Text, codes,
  text_beq, text_beq_iff, text_eq, string_eq, nat_eq, ◌==◌, beq_refl, Eq, ltb, leb, nat_beq,
  if◌then◌else◌, ltb→lt, leb→le, le→leb, nat_beq_iff, Bool-cases, Option-cases, ℕ, zero, suc, ◌+◌,
  ◌-◌, ◌*◌, ◌/◌, ◌%◌, ◌≤◌, ◌<◌, min, String, ◌≡◌, refl, sym, ap, subst, ◌∙◌, fun_ext, ◌≢◌, ◌↔◌, ◌⊎◌,
  inl, inr, Bool, true, false, not, ◌&&◌, ◌||◌, Option, none, some, List, [], ◌∷◌, ◌++◌, map,
  append_assoc, append-nil, arith,
}
use precis_mcp.Common.Result.{guard, ◌>>=◌, ◌>>◌, map_result, >>=-eq-ok, Result, err, ok}
use precis_mcp.Common.Maps.{
  Dict, lookup, insert, keys, insert_item, sort_items, lookup-insert, lookup-sort_items,
}
use precis_mcp.Common.Sets.{union, set_of}
use precis_mcp.Scope.{ScopeSpec}
use precis_mcp.Scenario.{RealScenario, Registry, RegistryError, expand_dependencies}
use precis_mcp.Access.{
  ToolType, UserPermissions, ScenarioPermissions, Role, read, write, plan_manager,
}
use precis_mcp.Modifiers.{ModifierError, parse_scenario_modifiers, strip_scenario_modifiers}

-- `ToolDescriptor.access`
pub data AccessClass : Type 0 where
  scoped : ToolType → AccessClass
  admin general : AccessClass

-- The value of an argument: a text, a list of scenarios (an element without one is `none`), or another.
pub data Arg : Type 0 where
  text : Text → Arg
  entries : List (Option Text) → Arg
  other : Arg

pub record Descriptor : Type 0 where
  pub access : AccessClass
  pub scenario_params : List Text

-- `if ref not in seen: ... result.append(ref)`, where the empty text counts as absent
abbrev pub add_ref : Text → List Text → List Text
add_ref [] result = result
add_ref (c ∷ cs) result = if contains result (c ∷ cs) then result else result ++ (c ∷ cs) ∷ []

abbrev pub add_entries : List (Option Text) → List Text → List Text
add_entries [] result = result
add_entries (none ∷ more) result = add_entries more result
add_entries (some ref ∷ more) result = add_entries more (add_ref ref result)

abbrev pub add_arg : Option Arg → List Text → List Text
add_arg none result = result
add_arg (some (text ref)) result = add_ref ref result
add_arg (some (entries refs)) result = add_entries refs result
add_arg (some other) result = result

unfoldable pub extract_from : Dict Arg → List Text → List Text → List Text
extract_from args [] result = result
extract_from args (param ∷ params) result =
    extract_from args params (add_arg (lookup param args) result)

-- `_extract_scenario_ids`
unfoldable pub extract_scenario_ids : Dict Arg → List Text → List Text
extract_scenario_ids args params = extract_from args params []

-- What cannot be parsed is gated on its base.
abbrev pub parsed_or_base : Text → Result ModifierError (Text × Dict Text) → Text × Dict Text
parsed_or_base ref (ok parsed) = parsed
parsed_or_base ref (err e) = (strip_scenario_modifiers ref, [])

-- The ids that the registry gives, or the key itself where it gives none.
abbrev pub ids_or_key : Text → Result RegistryError (List Text) → List Text
ids_or_key key (ok (id ∷ ids)) = id ∷ ids
ids_or_key key (ok []) = key ∷ []
ids_or_key key (err e) = key ∷ []

-- A registry that cannot be loaded is `none`.
abbrev pub expand_or_key : Option Registry → Text → List Text
expand_or_key none key = key ∷ []
expand_or_key (some registry) key = ids_or_key key (expand_dependencies registry key)

-- `parent_by_id.get(sid)`, where an empty parent counts as absent
unfoldable pub parent_of : Registry → Text → Option Text
parent_of [] sid = none
parent_of (s ∷ registry) sid =
    if s.scenario_id == sid
    then elim s.variant_of [ none ↦ none | some [] ↦ none | some (c ∷ cs) ↦ some (c ∷ cs) ]
    else parent_of registry sid

unfoldable pub parents : Registry → List Text → List Text
parents registry [] = []
parents registry (sid ∷ ids) =
    let rest = parents registry ids in
    elim (parent_of registry sid) [ none ↦ rest | some parent ↦ parent ∷ rest ]

abbrev pub unresolved_fork : Text → Text
unresolved_fork base = base ++ codes "&fork"

-- What a fork adds, by its target.
abbrev pub fork_ids : Option Registry → Text → List Text → Text → List Text
fork_ids registry base base_ids (c ∷ cs) = expand_or_key registry (c ∷ cs)
fork_ids (some registry) base base_ids [] = parents registry base_ids
fork_ids none base base_ids [] = unresolved_fork base ∷ []

abbrev pub with_fork : Option Registry → Text → List Text → Option Text → List Text
with_fork registry base base_ids none = base_ids
with_fork registry base base_ids (some target) =
    union base_ids (fork_ids registry base base_ids target)

-- `_expand_scenario_ref_for_permissions`
unfoldable pub expand_scenario_ref : Option Registry → Text → List Text
expand_scenario_ref registry ref =
    let (base, modifiers) = parsed_or_base ref (parse_scenario_modifiers ref) in
    with_fork registry base (expand_or_key registry base) (lookup (codes "fork") modifiers)

pub data Denial : Type 0 where
  admin_required scenario_required : Denial
  no_access : Text → Denial
  role_cannot : Role → ToolType → Text → Denial

-- `per_scenario_scope`
abbrev pub ScopeMap : Type 0
ScopeMap = Dict (Option ScopeSpec)

abbrev pub granted : ToolType → Text → Option ScenarioPermissions → Result Denial (Option ScopeSpec)
granted tool sid none = err (no_access sid)
granted tool sid (some perms) = elim (perms.tool_scopes tool) [
  | none ↦ err (role_cannot perms.effective_role tool sid)
  | some scope ↦ ok scope
]

-- The loop over the ids of one reference.
unfoldable pub authorize_ids :
    UserPermissions → ToolType → List Text → ScopeMap → Result Denial ScopeMap
authorize_ids permissions tool [] scopes = ok scopes
authorize_ids permissions tool (sid ∷ ids) scopes = do
  scope ← granted tool sid (lookup sid permissions.scenarios)
  authorize_ids permissions tool ids (insert sid scope scopes)

-- The loop over the references.
unfoldable pub authorize_refs :
    UserPermissions → ToolType → Option Registry → List Text → ScopeMap → Result Denial ScopeMap
authorize_refs permissions tool registry [] scopes = ok scopes
authorize_refs permissions tool registry (ref ∷ refs) scopes = do
  more ← authorize_ids permissions tool (expand_scenario_ref registry ref) scopes
  authorize_refs permissions tool registry refs more

unfoldable pub any_scope : ScopeMap → Bool
any_scope [] = false
any_scope ((sid, none) ∷ scopes) = any_scope scopes
any_scope ((sid, some spec) ∷ scopes) = true

-- What is set on the context variable, which starts clear; `none` where nothing is.
abbrev pub published : ScopeMap → Option ScopeMap
published scopes = if any_scope scopes then some scopes else none

abbrev pub without_scenario : ToolType → Result Denial (Option ScopeMap)
without_scenario read = ok none
without_scenario write = err scenario_required
without_scenario plan_manager = err scenario_required

abbrev pub gate_refs :
    UserPermissions → ToolType → Option Registry → List Text → Result Denial (Option ScopeMap)
gate_refs permissions tool registry [] = without_scenario tool
gate_refs permissions tool registry (ref ∷ refs) = do
  scopes ← authorize_refs permissions tool registry (ref ∷ refs) []
  ok (published scopes)

-- `_permission_gate`: the denial, or the scopes that it publishes.
unfoldable pub permission_gate :
    UserPermissions → Option Registry → Descriptor → Dict Arg → Result Denial (Option ScopeMap)
permission_gate permissions registry descriptor args = elim descriptor.access [
  | admin ↦ if permissions.is_admin then ok none else err admin_required
  | general ↦ ok none
  | scoped tool ↦
      gate_refs permissions tool registry (extract_scenario_ids args descriptor.scenario_params)
]
