-- ===== src/Access.antt =====
-- Roles and profiles (precis_mcp/auth.py): what a user's profile grants on each scenario.
pub mod Discovery
pub mod Ladders
pub mod Roles
use precis_mcp.Common.{
  length, get_elem?, take, drop, replicate, All, filterb, length-append, contains, Text, codes,
  text_beq, text_beq_iff, text_eq, string_eq, nat_eq, ◌==◌, beq_refl, Eq, ltb, leb, nat_beq,
  if◌then◌else◌, ltb→lt, leb→le, le→leb, nat_beq_iff, Bool-cases, Option-cases, ℕ, zero, suc, ◌+◌,
  ◌-◌, ◌*◌, ◌/◌, ◌%◌, ◌≤◌, ◌<◌, min, String, ◌≡◌, refl, sym, ap, subst, ◌∙◌, fun_ext, ◌≢◌, ◌↔◌, ◌⊎◌,
  inl, inr, Bool, true, false, not, ◌&&◌, ◌||◌, Option, none, some, List, [], ◌∷◌, ◌++◌, map,
  append_assoc, append-nil, arith,
}
use precis_mcp.Common.Result.{guard, ◌>>=◌, ◌>>◌, map_result, >>=-eq-ok, Result, err, ok}
use precis_mcp.Common.Maps.{Dict, lookup}
use precis_mcp.Scope.{ScopeSpec, DimensionScope, DomainScope}

pub data Role : Type 0 where
  analyst planner manager : Role

-- `ROLE_RANK`
abbrev pub role_rank : Role → ℕ
role_rank analyst = 0
role_rank planner = 1
role_rank manager = 2

-- `role in ROLE_RANK`
unfoldable pub role_of : Text → Option Role
role_of name =
    if name == codes "analyst"
    then some analyst
    else if name == codes "planner"
    then some planner
    else if name == codes "manager"
    then some manager
    else none

pub data ToolType : Type 0 where
  read write plan_manager : ToolType

-- `TOOL_TYPE_MIN_RANK`
abbrev pub min_rank : ToolType → ℕ
min_rank read = 0
min_rank write = 1
min_rank plan_manager = 2

-- A role block of a profile as it is stored; an empty block is one with no clauses.
pub record RoleBlock : Type 0 where
  pub domains : Option DomainScope
  pub dimensions : Option DimensionScope

abbrev parse_domains : Option DomainScope → Option DomainScope
parse_domains none = none
parse_domains (some doms) = elim doms.allow [
  | some allow ↦ some doms
  | none ↦ elim doms.deny [ some deny ↦ some doms | none ↦ none ]
]

abbrev parse_dimensions : Option DimensionScope → Option DimensionScope
parse_dimensions none = none
parse_dimensions (some dims) = elim dims.allow [
  | some allow ↦ some dims
  | none ↦ elim dims.deny [ some deny ↦ some dims | none ↦ none ]
]

abbrev spec_of : Option DimensionScope → Option DomainScope → Option ScopeSpec
spec_of none none = none
spec_of (some dims) domains = some (record { dimensions = some dims; domains = domains })
spec_of none (some domains) = some (record { dimensions = none; domains = some domains })

unfoldable pub parse_scope : Option RoleBlock → Option ScopeSpec
parse_scope none = none
parse_scope (some block) = spec_of (parse_dimensions block.dimensions) (parse_domains block.domains)

-- `CATEGORY_TOKENS`
abbrev pub category_members : Text → Option (List Text)
category_members pattern =
    if pattern == codes "ACTUAL"
    then some (codes "ACTUAL" ∷ [])
    else if pattern == codes "BUDGET"
    then some (codes "BUDGET" ∷ [])
    else if pattern == codes "FORECAST"
    then some (codes "FORECAST" ∷ [])
    else if pattern == codes "PLAN"
    then some (codes "BUDGET" ∷ codes "FORECAST" ∷ [])
    else none

abbrev pub category_rank : Text → Text → Option (List Text) → Option ℕ
category_rank pattern kind none = none
category_rank pattern kind (some names) =
    if not (contains names kind) then none else if pattern == codes "PLAN" then some 2 else some 3

unfoldable pub pattern_match_rank : Text → Text → Text → Option ℕ
pattern_match_rank pattern scenario_id kind =
    if pattern == scenario_id
    then some 4
    else if pattern == codes "*"
    then some 1
    else category_rank pattern kind (category_members pattern)

-- A pattern's entry: its role blocks by the name of the role, `none` for a null block.
abbrev pub Entry : Type 0
Entry = Dict (Option RoleBlock)

-- `best_rank` and `best_entry`; -1 is `none`
abbrev pub Best : Type 0
Best = Option (ℕ × Entry)

abbrev pub better : Option ℕ → Entry → Best → Best
better none entry best = best
better (some rank) entry none = some (rank, entry)
better (some rank) entry (some (best_rank, best_entry)) =
    if leb rank best_rank then some (best_rank, best_entry) else some (rank, entry)

unfoldable pub best_pattern : Text → Text → Dict Entry → Best → Best
best_pattern scenario_id kind [] best = best
best_pattern scenario_id kind ((pattern, entry) ∷ rest) best =
    best_pattern scenario_id kind rest
      (better (pattern_match_rank pattern scenario_id kind) entry best)

abbrev pub entry_of : Best → Option Entry
entry_of none = none
entry_of (some (rank, entry)) = some entry

unfoldable pub resolve_profile_for_scenario : Dict Entry → Text → Text → Option Entry
resolve_profile_for_scenario patterns scenario_id kind =
    entry_of (best_pattern scenario_id kind patterns none)

abbrev pub Blocks : Type 0
Blocks = List (Role × Option ScopeSpec)

abbrev add_block : Option Role → Option RoleBlock → Blocks → Blocks
add_block none block blocks = blocks
add_block (some role) block blocks = (role, parse_scope block) ∷ blocks

-- Unknown role names are dropped.
unfoldable pub known_blocks : Entry → Blocks
known_blocks [] = []
known_blocks ((name, block) ∷ entry) = add_block (role_of name) block (known_blocks entry)

abbrev blocks_of : Option Entry → Blocks
blocks_of none = []
blocks_of (some entry) = known_blocks entry

-- `_resolve_profile_blocks`; `None` is the empty list, which the callers treat alike
unfoldable pub resolve_profile_blocks : Dict Entry → Text → Text → Blocks
resolve_profile_blocks patterns scenario_id kind =
    blocks_of (resolve_profile_for_scenario patterns scenario_id kind)

abbrev pub roles : Blocks → List Role
roles [] = []
roles ((role, scope) ∷ blocks) = role ∷ roles blocks

-- `max(roles, key=...)` and `min(roles, key=...)`, from the first on
unfoldable pub highest : Role → List Role → Role
highest best [] = best
highest best (r ∷ rs) = highest (if ltb (role_rank best) (role_rank r) then r else best) rs

unfoldable pub lowest : Role → List Role → Role
lowest best [] = best
lowest best (r ∷ rs) = lowest (if ltb (role_rank r) (role_rank best) then r else best) rs

abbrev pub is_role : Role → Role → Bool
is_role analyst analyst = true
is_role planner planner = true
is_role manager manager = true
is_role _ _ = false

-- `blocks[role]`
abbrev pub block_of : Role → Blocks → Option (Option ScopeSpec)
block_of role [] = none
block_of role ((r, scope) ∷ blocks) = if is_role r role then some scope else block_of role blocks

abbrev pub chosen_scope : List Role → Blocks → Option (Option ScopeSpec)
chosen_scope [] blocks = none
chosen_scope (r ∷ rs) blocks = block_of (lowest r rs) blocks

-- The scope of a tool type; `none` where `tool_scopes` has no entry for it.
abbrev pub scope_for : Role → ToolType → Blocks → Option (Option ScopeSpec)
scope_for effective_role tool blocks =
    if ltb (role_rank effective_role) (min_rank tool)
    then none
    else chosen_scope (filterb (λ r. leb (min_rank tool) (role_rank r)) (roles blocks)) blocks

pub record ScenarioPermissions : Type 0 where
  pub effective_role : Role
  pub tool_scopes : ToolType → Option (Option ScopeSpec)

unfoldable pub compute_tool_scopes : Blocks → ScenarioPermissions
compute_tool_scopes [] = record { effective_role = analyst; tool_scopes = λ tool. none }
compute_tool_scopes ((role, scope) ∷ blocks) =
    let effective_role = highest role (roles blocks) in
    record {
      effective_role = effective_role;
      tool_scopes = λ tool. scope_for effective_role tool ((role, scope) ∷ blocks);
    }

pub record UserPermissions : Type 0 where
  pub user_id : Text
  pub is_admin : Bool
  pub scenarios : Dict ScenarioPermissions

pub record UserRow : Type 0 where
  pub is_admin : Bool
  pub is_disabled : Bool

pub data AuthError : Type 0 where
  user_not_found account_disabled : AuthError

-- A scenario for which the profile has no block is left out.
abbrev pub permit : Text → Blocks → Dict ScenarioPermissions → Dict ScenarioPermissions
permit sid [] permissions = permissions
permit sid (b ∷ blocks) permissions = (sid, compute_tool_scopes (b ∷ blocks)) ∷ permissions

-- The loop over the kinds of the scenarios.
unfoldable pub scenario_permissions : Dict Entry → Dict Text → Dict ScenarioPermissions
scenario_permissions patterns [] = []
scenario_permissions patterns ((sid, kind) ∷ kinds) =
    permit sid (resolve_profile_blocks patterns sid kind) (scenario_permissions patterns kinds)

abbrev permissions_of : Option (Dict Entry) → Dict Text → Dict ScenarioPermissions
permissions_of none kinds = []
permissions_of (some patterns) kinds = scenario_permissions patterns kinds

-- `load_permissions`; the rows of the user, of the active profile and of the scenarios are arguments.
unfoldable pub load_permissions :
    Text → Option UserRow → Option (Dict Entry) → Dict Text → Result AuthError UserPermissions
load_permissions user_id none profile kinds = err user_not_found
load_permissions user_id (some user) profile kinds =
    if user.is_disabled
    then err account_disabled
    else ok (record {
      user_id = user_id;
      is_admin = user.is_admin;
      scenarios = permissions_of profile kinds;
    })
