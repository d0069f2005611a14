-- ===== src/Gate/Granted.antt =====
-- Whom the gate lets pass, and with which scopes.
use precis_mcp.Common.{
  contains, Text, text_beq, text_beq_iff, text_eq, string_eq, nat_eq, if◌then◌else◌, Bool-cases,
  Option-cases, ◌≡◌, refl, sym, ◌∙◌, ◌≢◌, inl, inr, true, Option, none, some, List, [], ◌∷◌, ◌++◌,
  arith,
}
use precis_mcp.Common.Result.{◌>>=◌, >>=-eq-ok, >>=-cong, >>=_assoc, Result, ok}
use precis_mcp.Common.Strings.{is_some}
use precis_mcp.Common.Sets.{contains-append}
use precis_mcp.Common.Maps.{Dict, lookup, insert, lookup-insert}
use precis_mcp.Scope.{ScopeSpec}
use precis_mcp.Scenario.{Registry}
use precis_mcp.Access.{ToolType, ScenarioPermissions, UserPermissions}
use precis_mcp.Gate.{
  Arg, Descriptor, extract_scenario_ids, expand_scenario_ref, Denial, ScopeMap, granted,
  authorize_ids, authorize_refs, any_scope, published, gate_refs, permission_gate, scoped,
}

-- The scope that the permissions give for a type of tool on a scenario, where they give the tool at all.
abbrev pub grant_of : UserPermissions → ToolType → Text → Option (Option ScopeSpec)
grant_of permissions tool sid = elim (lookup sid permissions.scenarios) [
  | none ↦ none
  | some perms ↦ perms.tool_scopes tool
]

abbrev pub all_ids : Option Registry → List Text → List Text
all_ids registry [] = []
all_ids registry (ref ∷ refs) = expand_scenario_ref registry ref ++ all_ids registry refs

-- The scope that a call finds published for a scenario; none where it is unrestricted.
abbrev pub scope_in : Option ScopeMap → Text → Option ScopeSpec
scope_in none sid = none
scope_in (some scopes) sid = elim (lookup sid scopes) [ none ↦ none | some scope ↦ scope ]

any_scope-lookup :
    (scopes : ScopeMap) (sid : Text) (spec : ScopeSpec)
    → lookup sid scopes ≡ some (some spec)
    → any_scope scopes ≡ true
unfolding any_scope lookup
any_scope-lookup [] sid spec h = cc h
any_scope-lookup ((k, none) ∷ scopes) sid spec h = ground (arith, any_scope-lookup scopes sid spec)
any_scope-lookup ((k, some s) ∷ scopes) sid spec h = refl

scope_in-published :
    (scopes : ScopeMap) (sid : Text) (scope : Option ScopeSpec)
    → lookup sid scopes ≡ some scope
    → scope_in (published scopes) sid ≡ scope
scope_in-published scopes sid none h = ground arith
scope_in-published scopes sid (some spec) h = ground (arith, any_scope-lookup scopes sid spec h)

contains-all_ids :
    (registry : Option Registry) (refs : List Text) (ref sid : Text)
    → contains refs ref ≡ true
    → contains (expand_scenario_ref registry ref) sid ≡ true
    → contains (all_ids registry refs) sid ≡ true
contains-all_ids registry [] ref sid h k = cc h
contains-all_ids registry (r ∷ refs) ref sid h k = elim (Bool-cases (text_beq r ref)) [
  | inl e ↦
      let here : contains (expand_scenario_ref registry r) sid ≡ true =
        rw ((text_beq_iff r ref).0 e) k in
      rw (contains-append (expand_scenario_ref registry r) (all_ids registry refs) sid, here)
  | inr e ↦
      let later = contains-all_ids registry refs ref sid (rw e at h) k in
      ground (arith, contains-append (expand_scenario_ref registry r) (all_ids registry refs) sid)
]

all_ids_cases :
    (registry : Option Registry) (refs : List Text) (sid : Text)
    → contains (all_ids registry refs) sid ≡ true
    → (ref : Text) × (contains refs ref ≡ true)
      × (contains (expand_scenario_ref registry ref) sid ≡ true)
all_ids_cases registry [] sid h = cc h
all_ids_cases registry (r ∷ refs) sid h =
    elim (Bool-cases (contains (expand_scenario_ref registry r) sid)) [
      | inl e ↦ (r, ground (arith, text_beq_iff r r), e)
      | inr e ↦
          let (ref, among, expands) = all_ids_cases registry refs sid (
            ground (
              arith,
              contains-append (expand_scenario_ref registry r) (all_ids registry refs) sid,
            )) in
          (ref, ground arith, expands)
    ]

module _ (permissions : UserPermissions) (tool : ToolType) where
  granted-grant_of :
      (sid : Text) (perms : Option ScenarioPermissions) (scope : Option ScopeSpec)
      → granted tool sid perms ≡ ok scope
      → elim perms [ none ↦ none | some p ↦ p.tool_scopes tool ] ≡ some scope
  granted-grant_of sid none scope h = cc h
  granted-grant_of sid (some perms) scope h = ground arith

  authorize_ids-append :
      (xs ys : List Text) (scopes : ScopeMap)
      → authorize_ids permissions tool (xs ++ ys) scopes
        ≡ (authorize_ids permissions tool xs scopes >>= authorize_ids permissions tool ys)
  unfolding authorize_ids
  authorize_ids-append [] ys scopes = refl
  authorize_ids-append (x ∷ xs) ys scopes =
      let call = granted tool x (lookup x permissions.scenarios) in
      let next : Option ScopeSpec → Result Denial ScopeMap =
        λ scope. authorize_ids permissions tool xs (insert x scope scopes) in
      >>=-cong call _ _ (λ scope. authorize_ids-append xs ys (insert x scope scopes))
      ∙ sym (>>=_assoc call next (authorize_ids permissions tool ys))

  authorize_refs-all_ids :
      (registry : Option Registry) (refs : List Text) (scopes : ScopeMap)
      → authorize_refs permissions tool registry refs scopes
        ≡ authorize_ids permissions tool (all_ids registry refs) scopes
  unfolding authorize_refs
  authorize_refs-all_ids registry [] scopes = unfold authorize_ids in refl
  authorize_refs-all_ids registry (ref ∷ refs) scopes =
      >>=-cong (authorize_ids permissions tool (expand_scenario_ref registry ref) scopes) _ _
        (authorize_refs-all_ids registry refs)
      ∙ sym (authorize_ids-append (expand_scenario_ref registry ref) (all_ids registry refs) scopes)

  authorize_ids-lookup :
      (ids : List Text) (scopes more : ScopeMap) (sid : Text)
      → authorize_ids permissions tool ids scopes ≡ ok more
      → lookup sid more
        ≡ (if contains ids sid then grant_of permissions tool sid else lookup sid scopes)
  unfolding authorize_ids
  authorize_ids-lookup [] scopes more sid h = cc h
  authorize_ids-lookup (id ∷ ids) scopes more sid h =
      let (scope, first, rest) =
        >>=-eq-ok (granted tool id (lookup id permissions.scenarios))
          (λ s. authorize_ids permissions tool ids (insert id s scopes)) h in
      ground (
        arith,
        granted-grant_of id (lookup id permissions.scenarios) scope first,
        authorize_ids-lookup ids (insert id scope scopes) more sid rest,
        lookup-insert sid id scope scopes,
        text_beq_iff id sid,
      )

  authorize_ids-granted :
      (ids : List Text) (scopes more : ScopeMap) (sid : Text)
      → authorize_ids permissions tool ids scopes ≡ ok more
      → contains ids sid ≡ true
      → (scope : Option ScopeSpec) × (grant_of permissions tool sid ≡ some scope)
  unfolding authorize_ids
  authorize_ids-granted [] scopes more sid h k = cc k
  authorize_ids-granted (id ∷ ids) scopes more sid h k =
      let (scope, first, rest) =
        >>=-eq-ok (granted tool id (lookup id permissions.scenarios))
          (λ s. authorize_ids permissions tool ids (insert id s scopes)) h in
      elim (Bool-cases (text_beq id sid)) [
        | inl e ↦ (
          scope,
          rw (sym ((text_beq_iff id sid).0 e))
              (granted-grant_of id (lookup id permissions.scenarios) scope first),
        )
        | inr e ↦ authorize_ids-granted ids (insert id scope scopes) more sid rest (rw e at k)
      ]

  granted_ok :
      (sid : Text) (perms : Option ScenarioPermissions)
      → is_some (elim perms as (λ x. Option (Option ScopeSpec)) [
        | none ↦ none
        | some p ↦ p.tool_scopes tool
      ])
        ≡ true
      → (scope : Option ScopeSpec) × (granted tool sid perms ≡ ok scope)
  granted_ok sid none h = cc h
  granted_ok sid (some perms) h = elim (Option-cases (perms.tool_scopes tool)) [
    | inl e ↦ absurd (cc (h, e))
    | inr (scope, e) ↦ (scope, ground arith)
  ]

  authorize_ids_passes :
      (ids : List Text) (scopes : ScopeMap)
      → ((sid : Text) → contains ids sid ≡ true → is_some (grant_of permissions tool sid) ≡ true)
      → (more : ScopeMap) × (authorize_ids permissions tool ids scopes ≡ ok more)
  unfolding authorize_ids
  authorize_ids_passes [] scopes all = (scopes, refl)
  authorize_ids_passes (id ∷ ids) scopes all =
      let (scope, e) =
        granted_ok id (lookup id permissions.scenarios)
          (all id (ground (arith, text_beq_iff id id))) in
      let (more, rest) =
        authorize_ids_passes ids (insert id scope scopes) (λ sid h. all sid (ground arith)) in
      (more, rw e rest)

  gate_refs-grant_of :
      (registry : Option Registry) (refs : List Text) (out : Option ScopeMap) (ref sid : Text)
      → gate_refs permissions tool registry refs ≡ ok out
      → contains refs ref ≡ true
      → contains (expand_scenario_ref registry ref) sid ≡ true
      → grant_of permissions tool sid ≡ some (scope_in out sid)
  gate_refs-grant_of registry [] out ref sid h named expands = cc named
  gate_refs-grant_of registry (r ∷ refs) out ref sid h named expands =
      let (scopes, passes, e) =
        >>=-eq-ok (authorize_refs permissions tool registry (r ∷ refs) []) (λ s. ok (published s))
          h in
      let all = all_ids registry (r ∷ refs) in
      let member = contains-all_ids registry (r ∷ refs) ref sid named expands in
      let run : authorize_ids permissions tool all [] ≡ ok scopes =
        sym (authorize_refs-all_ids registry (r ∷ refs) []) ∙ passes in
      let (scope, grant) = authorize_ids-granted all [] scopes sid run member in
      let held = authorize_ids-lookup all [] scopes sid run in
      let known : lookup sid scopes ≡ some scope = cc (rw member at held, grant) in
      let out_is : published scopes ≡ out = cc e in
      cc (grant, scope_in-published scopes sid scope known, out_is)

  gate_refs_passes :
      (registry : Option Registry) (refs : List Text)
      → refs ≢ []
      → ((ref sid : Text)
          → contains refs ref ≡ true
          → contains (expand_scenario_ref registry ref) sid ≡ true
          → is_some (grant_of permissions tool sid) ≡ true)
      → (out : Option ScopeMap) × (gate_refs permissions tool registry refs ≡ ok out)
  gate_refs_passes registry [] named all = absurd (named refl)
  gate_refs_passes registry (r ∷ refs) named all =
      let (scopes, run) = authorize_ids_passes (all_ids registry (r ∷ refs)) [] (λ sid member.
        let (ref, among, expands) = all_ids_cases registry (r ∷ refs) sid member in
        all ref sid among expands) in
      let passes = authorize_refs-all_ids registry (r ∷ refs) [] ∙ run in
      (published scopes, rw passes)

module _ (permissions : UserPermissions) (registry : Option Registry) (descriptor : Descriptor)
    (args : Dict Arg) (tool : ToolType) where
  abbrev pub refs_of : List Text
  refs_of = extract_scenario_ids args descriptor.scenario_params

  -- When the gate lets a call of a scenario-scoped tool pass, then for every reference among the call's
  -- scenario arguments and every id that the reference expands to (its dependencies and its fork target), the
  -- caller's permissions give the tool's type of access on that id, with the scope that the gate publishes
  -- for it; what it publishes no scope for, the permissions leave unrestricted.
  pub permission_gate-grant_of :
      (published_scopes : Option ScopeMap) (ref sid : Text)
      → descriptor.access ≡ scoped tool
      → permission_gate permissions registry descriptor args ≡ ok published_scopes
      → contains refs_of ref ≡ true
      → contains (expand_scenario_ref registry ref) sid ≡ true
      → grant_of permissions tool sid ≡ some (scope_in published_scopes sid)
  unfolding permission_gate
  permission_gate-grant_of published_scopes ref sid h passes named expands =
      gate_refs-grant_of permissions tool registry refs_of published_scopes ref sid (rw h at passes)
        named expands

  -- A call of a scenario-scoped tool that names a scenario passes when the permissions give its type of
  -- access on every id that its references expand to.
  pub permission_gate_passes :
      descriptor.access ≡ scoped tool
      → refs_of ≢ []
      → ((ref sid : Text)
          → contains refs_of ref ≡ true
          → contains (expand_scenario_ref registry ref) sid ≡ true
          → is_some (grant_of permissions tool sid) ≡ true)
      → (published_scopes : Option ScopeMap) × (permission_gate permissions registry descriptor args
          ≡ ok published_scopes)
  unfolding permission_gate
  permission_gate_passes h named all =
      let (out, passes) = gate_refs_passes permissions tool registry refs_of named all in
      (out, rw h passes)
