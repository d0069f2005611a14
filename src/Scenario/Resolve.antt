-- ===== src/Scenario/Resolve.antt =====
-- What `resolve_key` can return, and that its fuel is enough.
use precis_mcp.Common.{
  length, Text, nat_eq, text_eq, string_eq, Option-cases, ℕ, zero, suc, ◌≡◌, refl, subst, ◌∙◌, inl,
  inr, Bool, true, false, Option, none, some, [], ◌∷◌,
}
use precis_mcp.Common.Result.{Result, ok, err}
use precis_mcp.Common.Strings.{strip_suffix, split_first}
use precis_mcp.Scenario.{
  RegistryError, RealScenario, ShiftedScenario, SimpleRef, ScenarioRef, vs, py, pp, pct, Registry,
  by_alias, Shift, shifted_ref, shift_base, shift_first, resolve_shifted, comparison,
  comparison_body, compare_sides, find_real, compatible, or_unknown, Resolver, resolve_sides,
  resolve_variance, or_compared, or_generated, resolve_fuel, resolve_key, unknown_scenario, real,
  shifted, simple, variance, variance_pct, prior_year, prior_period,
}
use precis_mcp.Scenario.Registry.{IsWellFormed, Entry}
use precis_mcp.Scenario.{
  RegistryError, RealScenario, ShiftedScenario, SimpleRef, ScenarioRef, vs, py, pp, pct, Registry,
  by_alias, Shift, shifted_ref, shift_base, shift_first, resolve_shifted, comparison,
  comparison_body, compare_sides, find_real, compatible, or_unknown, Resolver, resolve_sides,
  resolve_variance, or_compared, or_generated, resolve_fuel, resolve_key, unknown_scenario, real,
  shifted, simple, variance, variance_pct, prior_year, prior_period,
}
use precis_mcp.Scenario.{
  RegistryError, RealScenario, ShiftedScenario, SimpleRef, ScenarioRef, vs, py, pp, pct, Registry,
  by_alias, Shift, shifted_ref, shift_base, shift_first, resolve_shifted, comparison,
  comparison_body, compare_sides, find_real, compatible, or_unknown, Resolver, resolve_sides,
  resolve_variance, or_compared, or_generated, resolve_fuel, resolve_key, unknown_scenario, real,
  shifted, simple, variance, variance_pct, prior_year, prior_period,
}

module _ (reg : Registry) where
  -- A scenario of the registry, or one of the registry shifted.
  abbrev pub IsRegistered : SimpleRef → Type 0
  IsRegistered (real s) = Entry reg s
  IsRegistered (shifted t) =
      (sh : Shift) × (s : RealScenario) × Entry reg s × (t ≡ shifted_ref sh s)

  -- A registered reference, or the comparison of two.
  abbrev pub IsResolved : ScenarioRef → Type 0
  IsResolved (simple s) = IsRegistered s
  IsResolved (variance v) =
      IsRegistered v.left × IsRegistered v.right × (variance v ≡ comparison false v.left v.right)
  IsResolved (variance_pct v) =
      IsRegistered v.left × IsRegistered v.right × (variance_pct v ≡ comparison true v.left v.right)

module _ (reg : Registry) (wf : IsWellFormed reg) where
  find_real-Entry : (key : Text) (s : RealScenario) → find_real reg key ≡ some s → Entry reg s
  find_real-Entry key s h = elim (Option-cases (by_alias reg key)) [
    | inl none' ↦ wf key s (inr (rw none' at h))
    | inr (t, e) ↦
        let q : ◌≡◌ {A = Option RealScenario} (some t) (some s) = rw e at h in
        wf key s (inl (e ∙ q))
  ]

  shift_base-Registered :
      (sh : Shift) (key : Text) (s : ShiftedScenario)
      → shift_base sh (by_alias reg key) ≡ some s
      → IsRegistered reg (shifted s)
  shift_base-Registered sh key s h = elim (Option-cases (by_alias reg key)) [
    | inl none' ↦ absurd (cc (rw none' at h))
    | inr (t, e) ↦
        let q : ◌≡◌ {A = Option ShiftedScenario} (some (shifted_ref sh t)) (some s) = rw e at h in
        let r : shifted_ref sh t ≡ s = cc q in
        subst (λ u. IsRegistered reg (shifted u)) r ((sh, t, wf key t (inl e), refl))
  ]

  shift_first-Registered :
      (o p : Option Text) (s : ShiftedScenario)
      → shift_first reg o p ≡ some s
      → IsRegistered reg (shifted s)
  shift_first-Registered (some b) p s h = shift_base-Registered prior_year b s h
  shift_first-Registered none (some b) s h = shift_base-Registered prior_period b s h
  shift_first-Registered none none s h = absurd (cc h)

  resolve_shifted-Registered :
      (key : Text) (s : ShiftedScenario)
      → resolve_shifted reg key ≡ some s
      → IsRegistered reg (shifted s)
  unfolding resolve_shifted
  resolve_shifted-Registered key s h =
      shift_first-Registered (strip_suffix py key) (strip_suffix pp key) s h

  abbrev pub IsSound : Result RegistryError ScenarioRef → Type 0
  IsSound (ok ref) = IsResolved reg ref
  IsSound (err e) = Unit

  abbrev IsSoundOption : Result RegistryError (Option ScenarioRef) → Type 0
  IsSoundOption (ok (some ref)) = IsResolved reg ref
  IsSoundOption (ok none) = Unit
  IsSoundOption (err e) = Unit

  compare_sides-IsSound :
      (is_pct : Bool) (l r : Result RegistryError ScenarioRef)
      → IsSound l
      → IsSound r
      → IsSoundOption (compare_sides is_pct l r)
  unfolding comparison
  compare_sides-IsSound true (ok (simple left)) (ok (simple right)) hl hr = (hl, hr, refl)
  compare_sides-IsSound false (ok (simple left)) (ok (simple right)) hl hr = (hl, hr, refl)
  compare_sides-IsSound is_pct (err unknown_scenario) r hl hr = tt
  compare_sides-IsSound is_pct (err e) r hl hr = tt
  compare_sides-IsSound is_pct (ok left) (err unknown_scenario) hl hr = tt
  compare_sides-IsSound is_pct (ok left) (err e) hl hr = tt
  compare_sides-IsSound is_pct (ok left) (ok right) hl hr = tt

  module _ (resolve : Resolver) (sound : (key : Text) → IsSound (resolve key)) where
    resolve_sides-IsSound :
        (is_pct : Bool) (o : Option (Text × Text)) → IsSoundOption (resolve_sides resolve is_pct o)
    resolve_sides-IsSound is_pct none = tt
    resolve_sides-IsSound is_pct (some (l, r)) =
        compare_sides-IsSound is_pct (resolve l) (resolve r) (sound l) (sound r)

  or_unknown-IsSound :
      (r : Result RegistryError (Option ScenarioRef)) → IsSoundOption r → IsSound (or_unknown r)
  or_unknown-IsSound (ok (some ref)) h = h
  or_unknown-IsSound (ok none) h = tt
  or_unknown-IsSound (err e) h = tt

  or_compared-IsSound :
      (o : Option ShiftedScenario) (r : Result RegistryError ScenarioRef)
      → ((s : ShiftedScenario) → o ≡ some s → IsRegistered reg (shifted s))
      → IsSound r
      → IsSound (or_compared o r)
  or_compared-IsSound none r h k = k
  or_compared-IsSound (some s) r h k = h s refl

  or_generated-IsSound :
      (o : Option RealScenario) (r : Result RegistryError ScenarioRef)
      → ((s : RealScenario) → o ≡ some s → Entry reg s)
      → IsSound r
      → IsSound (or_generated o r)
  or_generated-IsSound none r h k = k
  or_generated-IsSound (some s) r h k = h s refl

  resolve_fuel-IsSound : (fuel : ℕ) (value : Text) → IsSound (resolve_fuel fuel reg value)
  unfolding resolve_fuel
  resolve_fuel-IsSound zero value = tt
  resolve_fuel-IsSound (suc fuel) [] = tt
  resolve_fuel-IsSound (suc fuel) (c ∷ cs) =
      let key = compatible (c ∷ cs) in
      let resolve = resolve_fuel fuel reg in
      let (is_pct, body) = comparison_body key (strip_suffix pct key) in
      or_generated-IsSound (find_real reg key) _ (find_real-Entry key) (
        or_compared-IsSound (resolve_shifted reg key) _ (resolve_shifted-Registered key) (
          or_unknown-IsSound (resolve_variance resolve key) (
            resolve_sides-IsSound resolve (resolve_fuel-IsSound fuel) is_pct
              (split_first vs body))))

  -- In a registry built from rows, whatever `resolve_key` returns is a registered scenario, a registered
  -- scenario shifted by a year or by a period, or the comparison of two such.
  pub resolve_key-IsResolved :
      (value : Text) (ref : ScenarioRef) → resolve_key reg value ≡ ok ref → IsResolved reg ref
  unfolding resolve_key
  resolve_key-IsResolved value ref h =
      subst IsSound h (resolve_fuel-IsSound (suc (length value)) value)
