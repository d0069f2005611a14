-- ===== src/Planning/Fuel.antt =====
-- The collection of the keys of a request does not run out of fuel.
use precis_mcp.Common.{
  All, contains, Text, text_eq, string_eq, nat_eq, Bool-cases, ◌≡◌, refl, subst, ◌≢◌, inl, inr,
  Option, none, some, List, [], ◌∷◌, ◌++◌,
}
use precis_mcp.Common.Result.{◌>>=◌, Result, err, ok}
use precis_mcp.Common.Maps.{Dict}
use precis_mcp.Scenario.{RegistryError, SimpleRef, ScenarioRef, Registry, simple_key, resolve_key}
use precis_mcp.Scenario.Registry.{IsWellFormed}
use precis_mcp.Scenario.Resolve.{IsRegistered, IsResolved, resolve_key-IsResolved}
use precis_mcp.Scenario.Plain.{IsPlain}
use precis_mcp.Modifiers.{parse_scenario_modifiers, ModifierError}
use precis_mcp.Planning.{
  PlanError, or_modifier_error, or_unknown_reference, parse_key, sides, collect_sides,
  collect_computed_deps, collect_all, unknown_reference, modifier_error, modifiers_on_computed,
  period_error, circular_dependency, collect_out_of_fuel,
}
use precis_mcp.Planning.Queries.{IsUnmodified, parse_key-simple_key}
use precis_mcp.Planning.Executed.{parse_key-eq_ok, sides-IsRegistered}

abbrev HasFuel {ℓ} : {A : Type ℓ} → Result PlanError A → Type 0
HasFuel (ok a) = Unit
HasFuel (err collect_out_of_fuel) = ⊥
HasFuel (err (unknown_reference t)) = Unit
HasFuel (err (modifier_error e)) = Unit
HasFuel (err (modifiers_on_computed t)) = Unit
HasFuel (err (period_error e)) = Unit
HasFuel (err circular_dependency) = Unit

HasFuel->>= {ℓ κ} :
    {A : Type ℓ} {B : Type κ} (call : Result PlanError A) (rest : A → Result PlanError B)
    → HasFuel call
    → ((a : A) → call ≡ ok a → HasFuel (rest a))
    → HasFuel (call >>= rest)
HasFuel->>= (ok a) rest h more = more a refl
HasFuel->>= (err (unknown_reference t)) rest h more = tt
HasFuel->>= (err (modifier_error e)) rest h more = tt
HasFuel->>= (err (modifiers_on_computed t)) rest h more = tt
HasFuel->>= (err (period_error e)) rest h more = tt
HasFuel->>= (err circular_dependency) rest h more = tt
HasFuel->>= (err collect_out_of_fuel) rest h more = absurd h

HasFuel-modifier {ℓ} : {A : Type ℓ} (r : Result ModifierError A) → HasFuel (or_modifier_error r)
HasFuel-modifier (ok a) = tt
HasFuel-modifier (err e) = tt

HasFuel-reference :
    (base : Text) (r : Result RegistryError ScenarioRef) → HasFuel (or_unknown_reference base r)
HasFuel-reference base (ok a) = tt
HasFuel-reference base (err e) = tt

HasFuel-parse_key : (reg : Registry) (key : Text) → HasFuel (parse_key reg key)
unfolding parse_key
HasFuel-parse_key reg key =
    HasFuel->>= (or_modifier_error (parse_scenario_modifiers key)) _
      (HasFuel-modifier (parse_scenario_modifiers key))
      (λ (base, modifiers) e.
        HasFuel->>= (or_unknown_reference base (resolve_key reg base)) _
          (HasFuel-reference base (resolve_key reg base)) (λ ref k. tt))

module _ (reg : Registry) (wf : IsWellFormed reg) (plain : All IsPlain reg)
    (unmodified : All IsUnmodified reg) where
  HasFuel-side :
      (s : SimpleRef) (visited : List Text)
      → IsRegistered reg s
      → HasFuel (collect_computed_deps 1 reg (simple_key s) visited)
  unfolding collect_computed_deps
  HasFuel-side s visited h = elim (Bool-cases (contains visited (simple_key s))) [
    | inl e ↦ rw e tt
    | inr e ↦ rw (e, parse_key-simple_key reg wf plain unmodified s h) tt
  ]

  HasFuel-sides :
      (key : Text) (ref : ScenarioRef) (modifiers : Dict Text)
      (between : Option (SimpleRef × SimpleRef)) (visited : List Text)
      → IsResolved reg ref
      → sides ref ≡ between
      → HasFuel (collect_sides (collect_computed_deps 1 reg) key between modifiers visited)
  HasFuel-sides key ref modifiers none visited resolved e = tt
  HasFuel-sides key ref [] (some (left, right)) visited resolved e =
      let (l, r, ids) = sides-IsRegistered reg ref left right resolved e in
      HasFuel->>= (collect_computed_deps 1 reg (simple_key left) visited) _
        (HasFuel-side left visited l) (λ more k. HasFuel-side right more r)
  HasFuel-sides key ref (m ∷ ms) (some (left, right)) visited resolved e = tt

  HasFuel-collect_computed_deps :
      (key : Text) (visited : List Text) → HasFuel (collect_computed_deps 2 reg key visited)
  unfolding collect_computed_deps
  HasFuel-collect_computed_deps key visited = elim (Bool-cases (contains visited key)) [
    | inl e ↦ rw e tt
    | inr e ↦ rw e (
        HasFuel->>= (parse_key reg key) _ (HasFuel-parse_key reg key) (λ (ref, modifiers) parsed.
          let (base, split, resolved) = parse_key-eq_ok reg key ref modifiers parsed in
          HasFuel-sides key ref modifiers (sides ref) (visited ++ key ∷ [])
            (resolve_key-IsResolved reg wf base ref resolved) refl))
  ]

  HasFuel-collect_all :
      (block_keys visited : List Text) → HasFuel (collect_all reg block_keys visited)
  unfolding collect_all
  HasFuel-collect_all [] visited = tt
  HasFuel-collect_all (key ∷ more_keys) visited =
      HasFuel->>= (collect_computed_deps 2 reg key visited) _
        (HasFuel-collect_computed_deps key visited) (λ more e. HasFuel-collect_all more_keys more)

  -- In a registry built from rows whose names are plain and without `&`, the fuel of the model is enough to
  -- collect the keys of any request.
  pub collect_all-ne-collect_out_of_fuel :
      (block_keys visited : List Text)
      → collect_all reg block_keys visited ≢ err collect_out_of_fuel
  collect_all-ne-collect_out_of_fuel block_keys visited h =
      subst HasFuel h (HasFuel-collect_all block_keys visited)
