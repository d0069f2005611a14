-- ===== src/Access/Discovery/Union.antt =====
-- Which members a caller sees, in terms of the scopes of the scenarios that the caller may read.
use precis_mcp.Common.{
  contains, Text, text_beq, text_beq_iff, text_eq, string_eq, nat_eq, Bool-cases, ◌≡◌, refl, ap,
  subst, ◌∙◌, inl, inr, Bool, false, ◌&&◌, ◌||◌, Option, none, some, List, [], ◌∷◌, map, arith,
}
use precis_mcp.Common.Result.{◌>>=◌, map_result, >>=-eq-ok, Result, ok}
use precis_mcp.Common.Maps.{Dict, lookup, keys}
use precis_mcp.Common.Sets.{contains-filterb, contains-union}
use precis_mcp.Filters.{Catalogue, Members}
use precis_mcp.Scope.{
  DimensionScope, ScopeSpec, ScopeError, set_or_empty, is_empty, resolve_sets, resolve_dims_sets,
  resolve_scope_leaf_sets,
}
use precis_mcp.Scope.Leaves.{is_there}
use precis_mcp.Access.{ScenarioPermissions, UserPermissions, read}
use precis_mcp.Access.Discovery.{
  LeafSets, all_have, union_of, unions_for, restricted_everywhere, none_if_empty, union_all,
  restricting, dimensions_of, push_scope, read_dim_scopes, push_sets, no_sets, resolve_each,
  union_scopes, union_read_member_sets,
}

-- The read scopes of the readable scenarios.
abbrev pub readable_scopes : Dict ScenarioPermissions → List (Option ScopeSpec)
readable_scopes [] = []
readable_scopes ((sid, perms) ∷ scenarios) =
    let rest = readable_scopes scenarios in
    elim (perms.tool_scopes read) [ none ↦ rest | some scope ↦ scope ∷ rest ]

-- Some of the resolved scopes permits the member.
abbrev pub any_permits : Text → Text → List LeafSets → Bool
any_permits key a [] = false
any_permits key a (sets ∷ rest) =
    contains (set_or_empty (lookup key sets)) a || any_permits key a rest

contains-union_of :
    (key a : Text) (per_scope : List LeafSets)
    → contains (union_of key per_scope) a ≡ any_permits key a per_scope
unfolding union_of
contains-union_of key a [] = refl
contains-union_of key a (sets ∷ rest) = rw (
  contains-union (set_or_empty (lookup key sets)) (union_of key rest) a,
  contains-union_of key a rest,
)

contains-restricted_everywhere :
    (key : Text) (sets : LeafSets) (rest : List LeafSets)
    → contains (restricted_everywhere (sets ∷ rest)) key ≡ all_have key (sets ∷ rest)
unfolding restricted_everywhere
contains-restricted_everywhere key sets rest =
    contains-filterb (λ k. all_have k rest) (keys sets) key

is_there-unions_for :
    (key : Text) (ks : List Text) (per_scope : List LeafSets)
    → is_there (lookup key (unions_for ks per_scope)) ≡ contains ks key
unfolding lookup
is_there-unions_for key [] per_scope = refl
is_there-unions_for key (k ∷ ks) per_scope = ground (arith, is_there-unions_for key ks per_scope)

contains-unions_for :
    (key a : Text) (ks : List Text) (per_scope : List LeafSets)
    → contains (set_or_empty (lookup key (unions_for ks per_scope))) a
      ≡ (contains ks key && contains (union_of key per_scope) a)
unfolding lookup
contains-unions_for key a [] per_scope = refl
contains-unions_for key a (k ∷ ks) per_scope = elim (Bool-cases (text_beq k key)) [
  | inl e ↦ rw e (ap (λ x. contains (union_of x per_scope) a) ((text_beq_iff k key).0 e))
  | inr e ↦ rw e (contains-unions_for key a ks per_scope)
]

-- What the union of resolved scopes shows: a dimension is restricted where each scope restricts it, and
-- then to the members that some scope permits.
abbrev pub Shows : LeafSets → List LeafSets → Text → Text → Type 0
Shows sets per_scope key a =
    (is_there (lookup key sets) ≡ all_have key per_scope)
    × (contains (set_or_empty (lookup key sets)) a
        ≡ (all_have key per_scope && any_permits key a per_scope))

none_if_empty-eq_some : (sets : LeafSets) (x : LeafSets) → none_if_empty sets ≡ some x → sets ≡ x
none_if_empty-eq_some [] x h = cc h
none_if_empty-eq_some (s ∷ sets) x h = cc h

union_all-Shows :
    (per_scope : List LeafSets) (sets : LeafSets) (key a : Text)
    → union_all (some per_scope) ≡ some sets
    → Shows sets per_scope key a
union_all-Shows [] sets key a h = absurd (unfold restricted_everywhere in cc h)
union_all-Shows (s ∷ rest) sets key a h =
    let all = s ∷ rest in
    let everywhere = contains-restricted_everywhere key s rest in
    let same = none_if_empty-eq_some (unions_for (restricted_everywhere all) all) sets h in
    subst (λ x. Shows x all key a) same
      (
        is_there-unions_for key (restricted_everywhere all) all ∙ everywhere,
        contains-unions_for key a (restricted_everywhere all) all
            ∙ rw (everywhere, contains-union_of key a all) refl,
      )

module _ (members : Members) (catalogue : Catalogue) where
  abbrev resolve_some : DimensionScope → Result ScopeError (Option LeafSets)
  resolve_some dims = do sets ← resolve_sets members catalogue dims; ok (some sets)

  abbrev HasScopes : List (Option ScopeSpec) → Option (List DimensionScope) → Type 0
  HasScopes read_scopes none = Unit
  HasScopes read_scopes (some scopes) =
      map_result (resolve_scope_leaf_sets members catalogue) read_scopes
      ≡ map_result resolve_some scopes

  resolve_dims_sets-restricting :
      (o : Option DimensionScope) (dims : DimensionScope)
      → restricting members catalogue o ≡ some dims
      → resolve_dims_sets members catalogue o ≡ resolve_some dims
  resolve_dims_sets-restricting none dims h = absurd (cc h)
  resolve_dims_sets-restricting (some d) dims h =
      elim (Bool-cases (is_empty members catalogue d.allow && is_empty members catalogue d.deny)) [
        | inl e ↦ absurd (cc (rw e at h))
        | inr e ↦ let same : d ≡ dims = cc (rw e at h) in rw e (ap resolve_some same)
      ]

  resolve-restricting :
      (scope : Option ScopeSpec) (dims : DimensionScope)
      → restricting members catalogue (dimensions_of members catalogue scope) ≡ some dims
      → resolve_scope_leaf_sets members catalogue scope ≡ resolve_some dims
  unfolding resolve_scope_leaf_sets
  resolve-restricting none dims h = absurd (cc h)
  resolve-restricting (some scope) dims h = resolve_dims_sets-restricting scope.dimensions dims h

  HasScopes-push_scope :
      (scope : Option ScopeSpec) (read_scopes : List (Option ScopeSpec))
      (restricted : Option DimensionScope) (rest : Option (List DimensionScope))
      → restricting members catalogue (dimensions_of members catalogue scope) ≡ restricted
      → HasScopes read_scopes rest
      → HasScopes (scope ∷ read_scopes) (push_scope members catalogue restricted rest)
  HasScopes-push_scope scope read_scopes none rest e h = tt
  HasScopes-push_scope scope read_scopes (some dims) none e h = tt
  HasScopes-push_scope scope read_scopes (some dims) (some scopes) e h =
      rw (resolve-restricting scope dims e, h)

  HasScopes-readable :
      (granted_scope : Option (Option ScopeSpec)) (read_scopes : List (Option ScopeSpec))
      (rest : Option (List DimensionScope))
      → HasScopes read_scopes rest
      → HasScopes
          (elim granted_scope [ none ↦ read_scopes | some scope ↦ scope ∷ read_scopes ])
          (elim granted_scope [
            | none ↦ rest
            | some scope ↦
                push_scope members catalogue
                  (restricting members catalogue (dimensions_of members catalogue scope))
                  rest
          ])
  HasScopes-readable none read_scopes rest h = h
  HasScopes-readable (some scope) read_scopes rest h =
      HasScopes-push_scope scope read_scopes _ rest refl h

  read_dim_scopes-HasScopes :
      (scenarios : Dict ScenarioPermissions)
      → HasScopes (readable_scopes scenarios) (read_dim_scopes members catalogue scenarios)
  unfolding read_dim_scopes
  read_dim_scopes-HasScopes [] = refl
  read_dim_scopes-HasScopes ((sid, perms) ∷ scenarios) =
      HasScopes-readable (perms.tool_scopes read) (readable_scopes scenarios)
        (read_dim_scopes members catalogue scenarios) (read_dim_scopes-HasScopes scenarios)

  push_sets-eq_some :
      (sets : LeafSets) (r : Option (List LeafSets)) (per_scope : List LeafSets)
      → push_sets members catalogue sets r ≡ some per_scope
      → (rest : List LeafSets) × (r ≡ some rest) × (sets ∷ rest ≡ per_scope)
  push_sets-eq_some sets none per_scope h = absurd (cc h)
  push_sets-eq_some sets (some rest) per_scope h = (rest, refl, cc h)

  resolve_each-map_result :
      (scopes : List DimensionScope) (per_scope : List LeafSets)
      → resolve_each members catalogue scopes ≡ ok (some per_scope)
      → map_result resolve_some scopes ≡ ok (map some per_scope)
  unfolding resolve_each
  resolve_each-map_result [] per_scope h =
      let same : [] ≡ per_scope = cc h in
      subst (λ x. map_result resolve_some [] ≡ ok (map some x)) same refl
  resolve_each-map_result (dims ∷ scopes) per_scope h =
      let (sets, found, more) = >>=-eq-ok (resolve_sets members catalogue dims) _ h in
      elim (Bool-cases (no_sets members catalogue sets)) [
        | inl e ↦ absurd (cc (rw e at more))
        | inr e ↦
            let (r, others, last) =
              >>=-eq-ok (resolve_each members catalogue scopes)
                (λ r. ok (push_sets members catalogue sets r)) (rw e at more) in
            let (rest, r_is, same) = push_sets-eq_some sets r per_scope (cc last) in
            let later = resolve_each-map_result scopes rest (cc (others, r_is)) in
            subst (λ x. map_result resolve_some (dims ∷ scopes) ≡ ok (map some x)) same
              (rw (found, later))
      ]

  union_scopes-Shows :
      (o : Option (List DimensionScope)) (read_scopes : List (Option ScopeSpec)) (sets : LeafSets)
      (key a : Text)
      → HasScopes read_scopes o
      → union_scopes members catalogue o ≡ ok (some sets)
      → (per_scope : List LeafSets) × (map_result
            (resolve_scope_leaf_sets members catalogue)
            read_scopes
          ≡ ok (map some per_scope))
        × Shows sets per_scope key a
  union_scopes-Shows none read_scopes sets key a has h = absurd (cc h)
  union_scopes-Shows (some []) read_scopes sets key a has h = absurd (cc h)
  union_scopes-Shows (some (dims ∷ scopes)) read_scopes sets key a has h =
      let (o, found, last) =
        >>=-eq-ok (resolve_each members catalogue (dims ∷ scopes)) (λ o. ok (union_all o)) h in
      known o found (cc last)
    where
      known :
          (o : Option (List LeafSets))
          → resolve_each members catalogue (dims ∷ scopes) ≡ ok o
          → union_all o ≡ some sets
          → (per_scope : List LeafSets) × (map_result
                (resolve_scope_leaf_sets members catalogue)
                read_scopes
              ≡ ok (map some per_scope))
            × Shows sets per_scope key a
      known none found e = absurd (cc e)
      known (some per_scope) found e = (
        per_scope,
        has ∙ resolve_each-map_result (dims ∷ scopes) per_scope found,
        union_all-Shows per_scope sets key a e,
      )

  -- When what a caller sees of the dimensions is restricted, the read scope of every scenario that the
  -- caller may read resolves to restricted dimensions; a dimension is restricted exactly when each of these
  -- scopes restricts it, and then a member is seen exactly when one of them permits it.
  pub union_read_member_sets-Shows :
      (permissions : UserPermissions) (sets : LeafSets) (key a : Text)
      → union_read_member_sets members catalogue (some permissions) ≡ ok (some sets)
      → (per_scope : List LeafSets) × (map_result
            (resolve_scope_leaf_sets members catalogue)
            (readable_scopes permissions.scenarios)
          ≡ ok (map some per_scope))
        × Shows sets per_scope key a
  unfolding union_read_member_sets
  union_read_member_sets-Shows permissions sets key a h = elim (Bool-cases permissions.is_admin) [
    | inl e ↦ absurd (cc (rw e at h))
    | inr e ↦
        union_scopes-Shows (read_dim_scopes members catalogue permissions.scenarios)
          (readable_scopes permissions.scenarios) sets key a
          (read_dim_scopes-HasScopes permissions.scenarios) (rw e at h)
  ]
