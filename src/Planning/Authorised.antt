-- ===== src/Planning/Authorised.antt =====
-- The gate of a call and the queries of its request, put together.
use precis_mcp.Common.{
  All, contains, Text, text_eq, string_eq, nat_eq, Bool-cases, ◌≡◌, subst, inl, inr, true, Option,
  some, List, [], ◌∷◌, ◌++◌,
}
use precis_mcp.Common.Result.{◌>>=◌, map_result, >>=-eq-ok, Result, ok}
use precis_mcp.Common.Maps.{Dict}
use precis_mcp.Common.Order.{text_ltb}
use precis_mcp.Common.Sets.{insert_sorted, sorted}
use precis_mcp.Scenario.{Registry}
use precis_mcp.Scenario.Registry.{IsWellFormed}
use precis_mcp.Scenario.Plain.{IsPlain}
use precis_mcp.Access.{UserPermissions, ToolType}
use precis_mcp.Gate.{Arg, Descriptor, extract_scenario_ids, ScopeMap, permission_gate, scoped}
use precis_mcp.Gate.Granted.{grant_of, scope_in, permission_gate-grant_of}
use precis_mcp.Planning.{
  PlanError, DataQuery, ComputedScenarioEval, collect_all, Planned, plan_key, queries_of,
  computed_of, has_query, dedupe, evals_of, resolve_scenarios, executed_id, data_query, computed,
}
use precis_mcp.Planning.Queries.{IsUnmodified, collect_all-All}
use precis_mcp.Planning.Executed.{
  HasLiteralTarget, IsAuthorised, IsNamed, IsNamed-sides, plan_key-IsAuthorised,
}

All-insert_sorted {ℓ} :
    (P : Text → Type ℓ) (x : Text) (ys : List Text) → P x → All P ys → All P (insert_sorted x ys)
unfolding insert_sorted
All-insert_sorted P x [] p all = (p, tt)
All-insert_sorted P x (y ∷ ys) p (q, all) = elim (Bool-cases (text_ltb y x)) [
  | inl e ↦ rw e (q, All-insert_sorted P x ys p all)
  | inr e ↦ rw e (p, (q, all))
]

All-sorted {ℓ} : (P : Text → Type ℓ) (xs : List Text) → All P xs → All P (sorted xs)
unfolding sorted
All-sorted P [] all = tt
All-sorted P (x ∷ xs) (p, all) = All-insert_sorted P x (sorted xs) p (All-sorted P xs all)

module _ {ℓ} (Q : DataQuery → Type ℓ) where
  All-snoc : (qs : List DataQuery) (q : DataQuery) → All Q qs → Q q → All Q (qs ++ q ∷ [])
  All-snoc [] q all h = (h, tt)
  All-snoc (p ∷ qs) q (g, all) h = (g, All-snoc qs q all h)

  All-dedupe : (qs kept : List DataQuery) → All Q qs → All Q kept → All Q (dedupe kept qs)
  unfolding dedupe
  All-dedupe [] kept all more = more
  All-dedupe (q ∷ qs) kept (h, all) more = elim (Bool-cases (has_query kept q)) [
    | inl e ↦ rw e (All-dedupe qs kept all more)
    | inr e ↦ rw e (All-dedupe qs (kept ++ q ∷ []) all (All-snoc kept q more h))
  ]

  -- What every key's query has, the queries of the plans have.
  All-queries_of :
      (plan : Text → Result PlanError Planned) (P : Text → Type 0) (planned_keys : List Text)
      (plans : List Planned)
      → ((key : Text) (q : DataQuery) → P key → plan key ≡ ok (data_query q) → Q q)
      → All P planned_keys
      → map_result plan planned_keys ≡ ok plans
      → All Q (queries_of plans)
  All-queries_of plan P [] plans each all h =
      let same : [] ≡ plans = cc h in subst (λ x. All Q (queries_of x)) same tt
  All-queries_of plan P (key ∷ more) plans each (p, all) h =
      let (first, made, rest) =
        >>=-eq-ok (plan key) (λ y. map_result plan more >>= λ ys. ok (y ∷ ys)) h in
      let (others, made_others, e) =
        >>=-eq-ok (map_result plan more) (λ ys. ok (first ∷ ys)) rest in
      let same : first ∷ others ≡ plans = cc e in
      subst (λ x. All Q (queries_of x)) same
        (head first others made (All-queries_of plan P more others each all made_others))
    where
      head :
          (y : Planned) (others : List Planned)
          → plan key ≡ ok y
          → All Q (queries_of others)
          → All Q (queries_of (y ∷ others))
      head (data_query q) others made qs = (each key q p made, qs)
      head (computed k ref) others made qs = qs

All-implies {ℓ κ} :
    (P : DataQuery → Type ℓ) (Q : DataQuery → Type κ) (qs : List DataQuery)
    → ((q : DataQuery) → P q → Q q)
    → All P qs
    → All Q qs
All-implies P Q [] each all = tt
All-implies P Q (q ∷ qs) each (h, all) = (each q h, All-implies P Q qs each all)

module _ (reg : Registry) (wf : IsWellFormed reg) (plain : All IsPlain reg)
    (unmodified : All IsUnmodified reg) where
  IsNamed-All :
      (refs named : List Text)
      → All (λ key. contains refs key ≡ true) named
      → All (IsNamed reg refs) named
  IsNamed-All refs [] all = tt
  IsNamed-All refs (key ∷ named) (h, all) = (inl h, IsNamed-All refs named all)

  -- Every query of a request is executed with an id that one of the references expands to for the gate: the
  -- registry is built from rows, its names are plain and without `&`, the keys of the blocks are among the
  -- references, and an explicit fork target is one that the registry expands to itself.
  pub resolve_scenarios-IsAuthorised :
      (refs block_keys : List Text) (period_start period_end : Text) (queries : List DataQuery)
      (evals : List ComputedScenarioEval)
      → All (λ key. contains refs key ≡ true) block_keys
      → ((ref : Text) → contains refs ref ≡ true → HasLiteralTarget reg ref)
      → resolve_scenarios reg period_start period_end block_keys ≡ ok (queries, evals)
      → All (λ q. IsAuthorised reg refs (executed_id reg q)) queries
  unfolding resolve_scenarios
  resolve_scenarios-IsAuthorised refs block_keys period_start period_end queries evals among literal
        h =
      let plan = plan_key reg period_start period_end in
      let (expanded, collected, h1) = >>=-eq-ok (collect_all reg block_keys []) _ h in
      let (plans, made, h2) = >>=-eq-ok (map_result plan (sorted expanded)) _ h1 in
      let (made_evals, ordered, e) =
        >>=-eq-ok (evals_of (computed_of plans) _) (λ v. ok (dedupe [] (queries_of plans), v)) h2 in
      let same : dedupe [] (queries_of plans) ≡ queries = cc e in
      let named = All-sorted (IsNamed reg refs) expanded (
        collect_all-All reg (IsNamed reg refs) (IsNamed-sides reg wf plain unmodified refs)
          block_keys [] expanded (IsNamed-All refs block_keys among) tt collected) in
      let Q = λ (q : DataQuery). IsAuthorised reg refs (executed_id reg q) in
      subst (All Q) same (
        All-dedupe Q (queries_of plans) []
          (All-queries_of Q plan (IsNamed reg refs) (sorted expanded) plans
            (λ key q n k.
              plan_key-IsAuthorised reg wf plain unmodified refs period_start period_end key q
                literal n k)
            named made)
          tt)

  -- When the gate lets a call of a scenario-scoped tool pass and the request for its scenarios resolves,
  -- the caller's permissions give the tool's type of access on every id that a query of the request is
  -- executed with, under the scope that the gate publishes for that id. The registry is built from rows,
  -- its names are plain and without `&`, the keys of the blocks are among the references of the call, and
  -- an explicit fork target is one that the registry expands to itself.
  pub queries-grant_of :
      (permissions : UserPermissions) (descriptor : Descriptor) (args : Dict Arg) (tool : ToolType)
      (published_scopes : Option ScopeMap) (block_keys : List Text) (period_start period_end : Text)
      (queries : List DataQuery) (evals : List ComputedScenarioEval)
      → descriptor.access ≡ scoped tool
      → permission_gate permissions (some reg) descriptor args ≡ ok published_scopes
      → All
          (λ key. contains (extract_scenario_ids args descriptor.scenario_params) key ≡ true)
          block_keys
      → ((ref : Text)
          → contains (extract_scenario_ids args descriptor.scenario_params) ref ≡ true
          → HasLiteralTarget reg ref)
      → resolve_scenarios reg period_start period_end block_keys ≡ ok (queries, evals)
      → All
          (λ q.
            grant_of permissions tool (executed_id reg q)
            ≡ some (scope_in published_scopes (executed_id reg q)))
          queries
  queries-grant_of permissions descriptor args tool published_scopes block_keys period_start
        period_end queries evals scoped_tool passes among literal resolves =
      let refs = extract_scenario_ids args descriptor.scenario_params in
      All-implies _ _ queries
        (λ q (ref, named, expands).
          permission_gate-grant_of permissions (some reg) descriptor args tool published_scopes ref
            (executed_id reg q) scoped_tool passes named expands)
        (resolve_scenarios-IsAuthorised refs block_keys period_start period_end queries evals among
          literal resolves)
