-- ===== src/Access/Discovery.antt =====
-- What a caller may see of a dimension's members outside any scenario: `union_read_member_sets` of
-- precis_mcp/engine/scope_enforcer.py, and the write scope of a dataset there.
pub mod Union
use precis_mcp.Common.{
  length, get_elem?, take, drop, replicate, All, filterb, length-append, contains, Text, codes,
  text_beq, text_beq_iff, text_eq, string_eq, nat_eq, ◌==◌, beq_refl, Eq, ltb, leb, nat_beq,
  if◌then◌else◌, ltb→lt, leb→le, le→leb, nat_beq_iff, Bool-cases, Option-cases, ℕ, zero, suc, ◌+◌,
  ◌-◌, ◌*◌, ◌/◌, ◌%◌, ◌≤◌, ◌<◌, min, String, ◌≡◌, refl, sym, ap, subst, ◌∙◌, fun_ext, ◌≢◌, ◌↔◌, ◌⊎◌,
  inl, inr, Bool, true, false, not, ◌&&◌, ◌||◌, Option, none, some, List, [], ◌∷◌, ◌++◌, map,
  append_assoc, append-nil, arith,
}
use precis_mcp.Common.Result.{
  guard, ◌>>=◌, ◌>>◌, map_result, >>=-eq-ok, >>=-cong, >>=_assoc, Result, err, ok,
}
use precis_mcp.Common.Maps.{
  Dict, lookup, insert, keys, insert_item, sort_items, lookup-insert, lookup-sort_items,
}
use precis_mcp.Common.Sets.{
  intersection, difference, union, set_of, insert_sorted, sorted, contains-append, contains-filterb,
  contains-intersection, contains-difference, contains-union, contains-set_of, contains-sorted,
}
use precis_mcp.Filters.{Catalogue, Members}
use precis_mcp.Scope.{
  ScopeSpec, DimensionScope, ScopeError, is_empty, resolve_sets, set_or_empty, check_domain_access,
  resolve_scope_filters, Filter, some_filter,
}
use precis_mcp.Access.{ScenarioPermissions, UserPermissions, read}

-- The sets of a scope, by leaf dimension.
abbrev pub LeafSets : Type 0
LeafSets = Dict (List Text)

abbrev pub all_have : Text → List LeafSets → Bool
all_have key [] = true
all_have key (sets ∷ rest) = contains (keys sets) key && all_have key rest

-- `set().union(*(r[key] for r in per_scope))`
unfoldable pub union_of : Text → List LeafSets → List Text
union_of key [] = []
union_of key (sets ∷ rest) = union (set_or_empty (lookup key sets)) (union_of key rest)

abbrev pub unions_for : List Text → List LeafSets → LeafSets
unions_for [] per_scope = []
unions_for (key ∷ ks) per_scope = (key, union_of key per_scope) ∷ unions_for ks per_scope

-- `restricted_everywhere`
unfoldable pub restricted_everywhere : List LeafSets → List Text
restricted_everywhere [] = []
restricted_everywhere (sets ∷ rest) = filterb (λ key. all_have key rest) (keys sets)

abbrev pub none_if_empty : LeafSets → Option LeafSets
none_if_empty [] = none
none_if_empty (x ∷ xs) = some (x ∷ xs)

abbrev pub union_all : Option (List LeafSets) → Option LeafSets
union_all none = none
union_all (some per_scope) = none_if_empty (unions_for (restricted_everywhere per_scope) per_scope)

module _ (members : Members) (catalogue : Catalogue) where
  -- `dim_scope`, where it restricts a dimension
  abbrev pub restricting : Option DimensionScope → Option DimensionScope
  restricting none = none
  restricting (some dims) =
      if is_empty members catalogue dims.allow && is_empty members catalogue dims.deny
      then none
      else some dims

  abbrev pub dimensions_of : Option ScopeSpec → Option DimensionScope
  dimensions_of none = none
  dimensions_of (some scope) = scope.dimensions

  abbrev pub push_scope :
      Option DimensionScope → Option (List DimensionScope) → Option (List DimensionScope)
  push_scope none scopes = none
  push_scope (some dims) none = none
  push_scope (some dims) (some scopes) = some (dims ∷ scopes)

  -- `read_dim_scopes`; `none` where a readable scenario is unrestricted
  unfoldable pub read_dim_scopes : Dict ScenarioPermissions → Option (List DimensionScope)
  read_dim_scopes [] = some []
  read_dim_scopes ((sid, perms) ∷ scenarios) =
      let rest = read_dim_scopes scenarios in
      elim (perms.tool_scopes read) [
        | none ↦ rest
        | some scope ↦ push_scope (restricting (dimensions_of scope)) rest
      ]

  abbrev pub push_sets : LeafSets → Option (List LeafSets) → Option (List LeafSets)
  push_sets sets none = none
  push_sets sets (some per_scope) = some (sets ∷ per_scope)

  abbrev pub no_sets : LeafSets → Bool
  no_sets [] = true
  no_sets (x ∷ xs) = false

  -- `per_scope`; `none` where a scope comes to no dimension, which ends the loop
  unfoldable pub resolve_each : List DimensionScope → Result ScopeError (Option (List LeafSets))
  resolve_each [] = ok (some [])
  resolve_each (dims ∷ scopes) = do
    sets ← resolve_sets members catalogue dims
    if no_sets sets then ok none else (do rest ← resolve_each scopes; ok (push_sets sets rest))

  abbrev pub union_scopes : Option (List DimensionScope) → Result ScopeError (Option LeafSets)
  union_scopes none = ok none
  union_scopes (some []) = ok none
  union_scopes (some (dims ∷ scopes)) = do
    per_scope ← resolve_each (dims ∷ scopes)
    ok (union_all per_scope)

  -- `union_read_member_sets`; `none` where nothing is filtered
  unfoldable pub union_read_member_sets :
      Option UserPermissions → Result ScopeError (Option LeafSets)
  union_read_member_sets none = ok none
  union_read_member_sets (some permissions) =
      if permissions.is_admin then ok none else union_scopes (read_dim_scopes permissions.scenarios)

  abbrev pub domain_or_pnl : Text → Text
  domain_or_pnl [] = codes "pnl"
  domain_or_pnl (c ∷ cs) = c ∷ cs

  abbrev pub check_dataset : Option ScopeSpec → Text → Result ScopeError (Unit {0})
  check_dataset scope [] = ok tt
  check_dataset scope (c ∷ cs) = check_domain_access scope (c ∷ cs)

  -- `resolve_write_scope`, by the domain of the dataset
  unfoldable pub resolve_write_scope : Option ScopeSpec → Text → Result ScopeError Filter
  resolve_write_scope none domain = ok none
  resolve_write_scope (some scope) domain = do
    check_dataset (some scope) domain
    filters ← resolve_scope_filters members catalogue (some scope) (domain_or_pnl domain)
    ok (some_filter filters)
