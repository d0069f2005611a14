-- ===== src/Scenario/Access.antt =====
-- Termination of `resolve_key`, and what write targets and dependencies can be.
use precis_mcp.Common.{
  length, All, length-append, ◌==◌, Text, codes, text_beq_iff, nat_eq, text_eq, string_eq,
  Bool-cases, Option-cases, ℕ, zero, suc, ◌≤◌, ◌<◌, ◌≡◌, refl, sym, ap, subst, ◌≢◌, inl, inr, Bool,
  true, Option, none, some, List, [], ◌∷◌, ◌++◌, arith,
}
use precis_mcp.Common.Result.{>>=-eq-ok, Result, ok, err}
use precis_mcp.Common.Strings.{
  strip_suffix, split_first, is_some, strip_suffix-eq_some, split_first-eq_some,
}
use precis_mcp.Scenario.{
  RegistryError, RealScenario, ShiftedScenario, SimpleRef, ScenarioRef, vs, pct,
  compatibility_alias, Registry, by_id, shifted_ref, resolve_shifted, comparison_body,
  compare_sides, find_real, compatible, or_unknown, Resolver, resolve_sides, resolve_variance,
  or_compared, or_generated, resolve_fuel, resolve_key, writable, resolve_writable, simple_id,
  dependencies, expand_dependencies, unknown_scenario, out_of_fuel, real, shifted, simple, variance,
  variance_pct,
}
use precis_mcp.Scenario.Registry.{IsWellFormed, Entry}
use precis_mcp.Scenario.Resolve.{IsRegistered, IsResolved, resolve_key-IsResolved}

abbrev Ends {ℓ} : {A : Type ℓ} → Result RegistryError A → Type 0
Ends (err out_of_fuel) = ⊥
Ends _ = Unit

length-compatible : (value : Text) → length (compatible value) ≤ length value
unfolding compatibility_alias
length-compatible value = elim (Bool-cases (value == codes "prior_year")) [
  | inl e ↦ rw (e, (text_beq_iff value (codes "prior_year")).0 e) (omega arith)
  | inr e ↦ elim (Bool-cases (value == codes "prior_period")) [
    | inl f ↦ rw (e, f, (text_beq_iff value (codes "prior_period")).0 f) (omega arith)
    | inr f ↦ rw (e, f) (omega arith)
  ]
]

compare_sides-Ends :
    (is_pct : Bool) (l r : Result RegistryError ScenarioRef)
    → Ends l
    → Ends r
    → Ends (compare_sides is_pct l r)
compare_sides-Ends is_pct (ok (simple left)) (ok (simple right)) hl hr = tt
compare_sides-Ends is_pct (err unknown_scenario) r hl hr = tt
compare_sides-Ends is_pct (err e) r hl hr = hl
compare_sides-Ends is_pct (ok left) (err unknown_scenario) hl hr = tt
compare_sides-Ends is_pct (ok left) (err e) hl hr = hr
compare_sides-Ends is_pct (ok left) (ok right) hl hr = tt

or_unknown-Ends : (r : Result RegistryError (Option ScenarioRef)) → Ends r → Ends (or_unknown r)
or_unknown-Ends (ok (some ref)) h = tt
or_unknown-Ends (ok none) h = tt
or_unknown-Ends (err e) h = h

or_compared-Ends :
    (o : Option ShiftedScenario) (r : Result RegistryError ScenarioRef)
    → Ends r
    → Ends (or_compared o r)
or_compared-Ends none r h = h
or_compared-Ends (some s) r h = tt

or_generated-Ends :
    (o : Option RealScenario) (r : Result RegistryError ScenarioRef)
    → Ends r
    → Ends (or_generated o r)
or_generated-Ends none r h = h
or_generated-Ends (some s) r h = tt

module _ (resolve : Resolver) (bound : ℕ)
    (ends : (t : Text) → length t < bound → Ends (resolve t)) where
  resolve_sides-Ends :
      (is_pct : Bool) (body : Text)
      → length body ≤ bound
      → Ends (resolve_sides resolve is_pct (split_first vs body))
  resolve_sides-Ends is_pct body h = elim (Option-cases (split_first vs body)) [
    | inl e ↦ rw e tt
    | inr (p, e) ↦
        let (l, r) = p in
        let lengths : length body ≡ length (l ++ (vs ++ r)) =
          ap length (split_first-eq_some vs body l r e) in
        rw e (
          compare_sides-Ends is_pct (resolve l) (resolve r)
            (ends l (omega (arith, length-append l (vs ++ r))))
            (ends r (omega (arith, length-append l (vs ++ r)))))
  ]

  comparison_body-le :
      (key : Text) (o : Option Text)
      → strip_suffix pct key ≡ o
      → length (comparison_body key o).1 ≤ length key
  comparison_body-le key none e = omega arith
  comparison_body-le key (some body) e =
      omega (arith, ap length (strip_suffix-eq_some pct key body e), length-append body pct)

resolve_fuel-Ends :
    (fuel : ℕ) (reg : Registry) (value : Text)
    → length value < fuel
    → Ends (resolve_fuel fuel reg value)
unfolding resolve_fuel
resolve_fuel-Ends zero reg value h = absurd (omega arith)
resolve_fuel-Ends (suc fuel) reg [] h = tt
resolve_fuel-Ends (suc fuel) reg (c ∷ cs) h =
    let key = compatible (c ∷ cs) in
    let resolve = resolve_fuel fuel reg in
    let ends = resolve_fuel-Ends fuel reg in
    or_generated-Ends (find_real reg key) _ (
      or_compared-Ends (resolve_shifted reg key) _ (
        or_unknown-Ends (resolve_variance resolve key) (
          resolve_sides-Ends resolve fuel ends (comparison_body key (strip_suffix pct key)).0
            (comparison_body key (strip_suffix pct key)).1
            (omega (
              arith,
              length-compatible (c ∷ cs),
              comparison_body-le resolve fuel ends key (strip_suffix pct key) refl,
            )))))

-- `resolve_key` terminates for every registry and every text: the fuel of the model never runs out.
pub resolve_key-ne-out_of_fuel :
    (reg : Registry) (value : Text) → resolve_key reg value ≢ err out_of_fuel
unfolding resolve_key
resolve_key-ne-out_of_fuel reg value h =
    subst Ends h (resolve_fuel-Ends (suc (length value)) reg value (omega arith))

simple_id-held :
    (reg : Registry) (s : SimpleRef) → IsRegistered reg s → is_some (by_id reg (simple_id s)) ≡ true
simple_id-held reg (real s) e = rw (e.found_id)
simple_id-held reg (shifted t) (sh, s, e, q) =
    subst (λ x. is_some (by_id reg (simple_id (shifted x))) ≡ true) (sym q)
      (unfold shifted_ref in rw (e.found_id))

-- In a registry built from rows, every id that `expand_dependencies` returns is the id of a scenario of
-- the registry.
pub expand_dependencies-held :
    (reg : Registry) (value : Text) (ids : List Text)
    → IsWellFormed reg
    → expand_dependencies reg value ≡ ok ids
    → All (λ id. is_some (by_id reg id) ≡ true) ids
unfolding expand_dependencies
expand_dependencies-held reg value ids wf h =
    let (ref, resolved, e) = >>=-eq-ok (resolve_key reg value) (λ ref. ok (dependencies ref)) h in
    let q : dependencies ref ≡ ids = cc e in
    subst (All (λ id. is_some (by_id reg id) ≡ true)) q
      (held ref (resolve_key-IsResolved reg wf value ref resolved))
  where
    held :
        (ref : ScenarioRef)
        → IsResolved reg ref
        → All (λ id. is_some (by_id reg id) ≡ true) (dependencies ref)
    held (simple s) e = (simple_id-held reg s e, tt)
    held (variance v) (hl, hr, q) =
        (simple_id-held reg v.left hl, (simple_id-held reg v.right hr, tt))
    held (variance_pct v) (hl, hr, q) =
        (simple_id-held reg v.left hl, (simple_id-held reg v.right hr, tt))

-- In a registry built from rows, what `resolve_writable` returns is a real scenario that the registry
-- holds, and the one that `resolve_key` resolves the value to: never a generated one.
pub resolve_writable-Entry :
    (reg : Registry) (value : Text) (s : RealScenario)
    → IsWellFormed reg
    → resolve_writable reg value ≡ ok s
    → Entry reg s × (resolve_key reg value ≡ ok (simple (real s)))
unfolding resolve_writable
resolve_writable-Entry reg value s wf h =
    let (ref, resolved, e) = >>=-eq-ok (resolve_key reg value) writable h in
    target ref (resolve_key-IsResolved reg wf value ref resolved) resolved e
  where
    target :
        (ref : ScenarioRef)
        → IsResolved reg ref
        → resolve_key reg value ≡ ok ref
        → writable ref ≡ ok s
        → Entry reg s × (resolve_key reg value ≡ ok (simple (real s)))
    target (simple (real r)) x k e =
        let q : r ≡ s = cc e in
        (subst (Entry reg) q x, subst (λ y. resolve_key reg value ≡ ok (simple (real y))) q k)
    target (simple (shifted t)) x k e = absurd (cc e)
    target (variance v) x k e = absurd (cc e)
    target (variance_pct v) x k e = absurd (cc e)
