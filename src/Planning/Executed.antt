-- ===== src/Planning/Executed.antt =====
-- Which scenarios the queries of a request are executed with, against those that the gate of the call
-- authorises.
use precis_mcp.Common.{
  All, contains, Text, codes, text_beq_iff, text_eq, string_eq, nat_eq, ℕ, ◌≡◌, refl, sym, subst,
  ◌∙◌, ◌⊎◌, inl, inr, Bool, true, ◌||◌, Option, none, some, List, [], ◌∷◌, arith,
}
use precis_mcp.Common.Result.{◌>>=◌, >>=-eq-ok, Result, err, ok}
use precis_mcp.Common.Maps.{Dict, lookup}
use precis_mcp.Common.Sets.{contains-union}
use precis_mcp.Scenario.{
  RegistryError, SimpleRef, ScenarioRef, Registry, resolve_key, simple_id, dependencies,
  expand_dependencies, real, shifted, simple, variance, variance_pct,
}
use precis_mcp.Scenario.Registry.{IsWellFormed}
use precis_mcp.Scenario.Resolve.{IsRegistered, IsResolved, resolve_key-IsResolved}
use precis_mcp.Scenario.Plain.{IsPlain}
use precis_mcp.Modifiers.{parse_scenario_modifiers, ModifierError}
use precis_mcp.Gate.{expand_or_key, parent_of, parents, with_fork, expand_scenario_ref}
use precis_mcp.Planning.{
  DataQuery, or_modifier_error, or_unknown_reference, parse_key, sides, planned_ref, plan_key,
  executed_id, data_query,
}
use precis_mcp.Planning.Queries.{IsUnmodified, parse_key-simple_key, IsHandedOn}

-- A fork target that the registry expands to itself: its ids contain the target.
abbrev pub IsLiteralTarget : Registry → Dict Text → Type 0
IsLiteralTarget reg modifiers =
    (c : ℕ) (cs : Text)
    → lookup (codes "fork") modifiers ≡ some (c ∷ cs)
    → contains (expand_or_key (some reg) (c ∷ cs)) (c ∷ cs) ≡ true

abbrev pub HasLiteralTarget : Registry → Text → Type 0
HasLiteralTarget reg key =
    (base : Text) (modifiers : Dict Text)
    → parse_scenario_modifiers key ≡ ok (base, modifiers)
    → IsLiteralTarget reg modifiers

or_modifier_error-eq_ok {ℓ} :
    {A : Type ℓ} (r : Result ModifierError A) {a : A} → or_modifier_error r ≡ ok a → r ≡ ok a
or_modifier_error-eq_ok (ok b) h = cc h
or_modifier_error-eq_ok (err e) h = absurd (cc h)

or_unknown_reference-eq_ok :
    (base : Text) (r : Result RegistryError ScenarioRef) {ref : ScenarioRef}
    → or_unknown_reference base r ≡ ok ref
    → r ≡ ok ref
or_unknown_reference-eq_ok base (ok b) h = cc h
or_unknown_reference-eq_ok base (err e) h = absurd (cc h)

pub parse_key-eq_ok :
    (reg : Registry) (key : Text) (ref : ScenarioRef) (modifiers : Dict Text)
    → parse_key reg key ≡ ok (ref, modifiers)
    → (base : Text) × (parse_scenario_modifiers key ≡ ok (base, modifiers))
      × (resolve_key reg base ≡ ok ref)
unfolding parse_key
parse_key-eq_ok reg key ref modifiers h =
    let ((base, ms), parsed, more) =
      >>=-eq-ok (or_modifier_error (parse_scenario_modifiers key))
        (λ (base, ms). or_unknown_reference base (resolve_key reg base) >>= λ r. ok (r, ms)) h in
    let (r, resolved, e) =
      >>=-eq-ok (or_unknown_reference base (resolve_key reg base)) (λ r. ok (r, ms)) more in
    let same : ms ≡ modifiers = cc e in
    let same_ref : r ≡ ref = cc e in
    (
      base,
      subst (λ x. parse_scenario_modifiers key ≡ ok (base, x)) same
          (or_modifier_error-eq_ok (parse_scenario_modifiers key) parsed),
      subst (λ x. resolve_key reg base ≡ ok x) same_ref
          (or_unknown_reference-eq_ok base (resolve_key reg base) resolved),
    )

-- What a parsed reference expands to.
expand-parsed :
    (reg : Registry) (key base : Text) (ref : ScenarioRef) (modifiers : Dict Text)
    → parse_scenario_modifiers key ≡ ok (base, modifiers)
    → resolve_key reg base ≡ ok ref
    → expand_scenario_ref (some reg) key
      ≡ with_fork (some reg) base (dependencies ref) (lookup (codes "fork") modifiers)
unfolding expand_scenario_ref expand_dependencies
expand-parsed reg key base (simple s) modifiers p r = rw (p, r)
expand-parsed reg key base (variance v) modifiers p r = rw (p, r)
expand-parsed reg key base (variance_pct v) modifiers p r = rw (p, r)

abbrev fork_of : Registry → Text → Option Text → Text
fork_of reg sid none = sid
fork_of reg sid (some (c ∷ cs)) = c ∷ cs
fork_of reg sid (some []) = elim (parent_of reg sid) [ none ↦ sid | some parent ↦ parent ]

contains-parents :
    (reg : Registry) (sid p : Text)
    → parent_of reg sid ≡ some p
    → contains (parents reg (sid ∷ [])) p ≡ true
unfolding parents
contains-parents reg sid p e = ground (arith, text_beq_iff p p)

or_true : (b : Bool) → (b || true) ≡ true
or_true b = ground arith

with_fork-executed :
    (reg : Registry) (base sid : Text) (fork : Option Text)
    → ((c : ℕ) (cs : Text)
        → fork ≡ some (c ∷ cs)
        → contains (expand_or_key (some reg) (c ∷ cs)) (c ∷ cs) ≡ true)
    → contains (with_fork (some reg) base (sid ∷ []) fork) (fork_of reg sid fork) ≡ true
with_fork-executed reg base sid none literal = ground (arith, text_beq_iff sid sid)
with_fork-executed reg base sid (some []) literal =
    rw (contains-union (sid ∷ []) (parents reg (sid ∷ [])) (fork_of reg sid (some [])))
      (own (parent_of reg sid) refl)
  where
    own :
        (parent : Option Text)
        → parent_of reg sid ≡ parent
        → (contains (sid ∷ []) (elim parent [ none ↦ sid | some p ↦ p ])
            || contains (parents reg (sid ∷ [])) (elim parent [ none ↦ sid | some p ↦ p ]))
          ≡ true
    own none e = ground (arith, text_beq_iff sid sid)
    own (some p) e = rw (contains-parents reg sid p e, or_true (contains (sid ∷ []) p))
with_fork-executed reg base sid (some (c ∷ cs)) literal = rw (
  contains-union (sid ∷ []) (expand_or_key (some reg) (c ∷ cs)) (c ∷ cs),
  literal c cs refl,
  or_true (contains (sid ∷ []) (c ∷ cs)),
)

-- An id that a reference among these expands to.
abbrev pub IsAuthorised : Registry → List Text → Text → Type 0
IsAuthorised reg refs sid =
    (ref : Text) × (contains refs ref ≡ true)
    × (contains (expand_scenario_ref (some reg) ref) sid ≡ true)

-- A key of a block, or the key of a scenario that a block's reference depends on.
abbrev pub IsNamed : Registry → List Text → Text → Type 0
IsNamed reg refs key =
    (contains refs key ≡ true)
    ⊎ ((s : SimpleRef) × (parse_key reg key ≡ ok (simple s, []))
        × IsAuthorised reg refs (simple_id s))

record Queried (key : Text) (ref : ScenarioRef) (modifiers : Dict Text) (q : DataQuery)
    : Type 0 where
  source : SimpleRef
  is_simple : ref ≡ simple source
  id : q.scenario_id ≡ simple_id source
  kept : q.modifiers ≡ modifiers

planned_ref-Queried :
    (period_start period_end key : Text) (ref : ScenarioRef) (modifiers : Dict Text) (q : DataQuery)
    → planned_ref period_start period_end key ref modifiers ≡ ok (data_query q)
    → Queried key ref modifiers q
planned_ref-Queried period_start period_end key (variance v) modifiers q h = absurd (cc h)
planned_ref-Queried period_start period_end key (variance_pct v) modifiers q h = absurd (cc h)
planned_ref-Queried period_start period_end key (simple (real s)) modifiers q h = record {
  source = real s;
  is_simple = refl;
  id = ground arith;
  kept = ground arith;
}
planned_ref-Queried period_start period_end key (simple (shifted s)) modifiers q h = record {
  source = shifted s;
  is_simple = refl;
  id = ground arith;
  kept = ground arith;
}

simple_parse :
    (reg : Registry) (key : Text) (ref : ScenarioRef) (modifiers : Dict Text) (s t : SimpleRef)
    → parse_key reg key ≡ ok (ref, modifiers)
    → parse_key reg key ≡ ok (simple t, [])
    → ref ≡ simple s
    → (s ≡ t) × (modifiers ≡ [])
simple_parse reg key ref modifiers s t parsed own e = (cc (parsed, own, e), cc (parsed, own))

fork_of-unmodified :
    (reg : Registry) (s t : SimpleRef) (modifiers : Dict Text)
    → s ≡ t
    → modifiers ≡ []
    → fork_of reg (simple_id s) (lookup (codes "fork") modifiers) ≡ simple_id t
unfolding lookup
fork_of-unmodified reg s t modifiers same none_left = rw (none_left, same)

pub sides-IsRegistered :
    (reg : Registry) (ref : ScenarioRef) (left right : SimpleRef)
    → IsResolved reg ref
    → sides ref ≡ some (left, right)
    → IsRegistered reg left
      × IsRegistered reg right
      × (dependencies ref ≡ simple_id left ∷ simple_id right ∷ [])
sides-IsRegistered reg (simple s) left right resolved e = absurd (cc e)
sides-IsRegistered reg (variance v) left right (l, r, q) e =
    let el : v.left ≡ left = cc e in
    let er : v.right ≡ right = cc e in
    (subst (IsRegistered reg) el l, subst (IsRegistered reg) er r, cc (el, er))
sides-IsRegistered reg (variance_pct v) left right (l, r, q) e =
    let el : v.left ≡ left = cc e in
    let er : v.right ≡ right = cc e in
    (subst (IsRegistered reg) el l, subst (IsRegistered reg) er r, cc (el, er))

executed_id-fork_of :
    (reg : Registry) (q : DataQuery)
    → executed_id reg q ≡ fork_of reg q.scenario_id (lookup (codes "fork") q.modifiers)
unfolding executed_id
executed_id-fork_of reg q = ground arith

module _ (reg : Registry) (wf : IsWellFormed reg) (plain : All IsPlain reg)
    (unmodified : All IsUnmodified reg) (refs : List Text) where
  pub IsNamed-sides : IsHandedOn reg (IsNamed reg refs)
  IsNamed-sides key ref left right (inl among) parsed e =
      let (base, split, resolved) = parse_key-eq_ok reg key ref [] parsed in
      let (l, r, ids) =
        sides-IsRegistered reg ref left right (resolve_key-IsResolved reg wf base ref resolved) e in
      let expands : expand_scenario_ref (some reg) key ≡ simple_id left ∷ simple_id right ∷ [] =
        expand-parsed reg key base ref [] split resolved ∙ (unfold lookup in ids) in
      (
        inr (
          left,
          parse_key-simple_key reg wf plain unmodified left l,
          (key, among, rw expands (ground (arith, text_beq_iff (simple_id left) (simple_id left)))),
        ),
        inr (
          right,
          parse_key-simple_key reg wf plain unmodified right r,
          (
            key,
            among,
            rw expands (ground (arith, text_beq_iff (simple_id right) (simple_id right))),
          ),
        ),
      )
  IsNamed-sides key ref left right (inr (s, own, authorised)) parsed e =
      let same : ref ≡ simple s = cc (parsed, own) in absurd (cc (rw same at e))

  pub plan_key-IsAuthorised :
      (period_start period_end key : Text) (q : DataQuery)
      → ((ref : Text) → contains refs ref ≡ true → HasLiteralTarget reg ref)
      → IsNamed reg refs key
      → plan_key reg period_start period_end key ≡ ok (data_query q)
      → IsAuthorised reg refs (executed_id reg q)
  unfolding plan_key
  plan_key-IsAuthorised period_start period_end key q literal named h =
      let ((ref, modifiers), parsed, planned) =
        >>=-eq-ok (parse_key reg key)
          (λ (ref, modifiers). planned_ref period_start period_end key ref modifiers) h in
      let queried = planned_ref-Queried period_start period_end key ref modifiers q planned in
      let s = queried.source in
      let run : executed_id reg q ≡ fork_of reg (simple_id s) (lookup (codes "fork") modifiers) =
        rw (executed_id-fork_of reg q, queried.id, queried.kept) in
      elim named [
        | inl among ↦
            let (base, split, resolved) = parse_key-eq_ok reg key ref modifiers parsed in
            (
              key,
              among,
              rw (run, expand-parsed reg key base ref modifiers split resolved, queried.is_simple)
                  (with_fork-executed reg base (simple_id s) (lookup (codes "fork") modifiers)
                    (literal key among base modifiers split)),
            )
        | inr (t, own, authorised) ↦
            let (q_ref, q_modifiers) =
              simple_parse reg key ref modifiers s t parsed own queried.is_simple in
            subst (IsAuthorised reg refs)
              (sym (run ∙ fork_of-unmodified reg s t modifiers q_ref q_modifiers)) authorised
      ]
