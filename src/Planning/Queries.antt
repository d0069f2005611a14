-- ===== src/Planning/Queries.antt =====
-- What the collection of the scenario keys of a request returns.
use precis_mcp.Common.{
  All, contains, Text, text_eq, string_eq, nat_eq, ◌==◌, Bool-cases, ℕ, zero, suc, ◌≡◌, refl, sym,
  subst, inl, inr, Option, none, some, List, [], ◌∷◌, ◌++◌, append-nil, arith,
}
use precis_mcp.Common.Result.{>>=-eq-ok, Result, ok}
use precis_mcp.Common.Maps.{Dict}
use precis_mcp.Scenario.{
  RealScenario, SimpleRef, ScenarioRef, Registry, by_alias, Shift, suffix, shifted_ref, simple_key,
  real, shifted, simple, prior_year, prior_period,
}
use precis_mcp.Scenario.Registry.{IsWellFormed}
use precis_mcp.Scenario.Resolve.{IsRegistered}
use precis_mcp.Scenario.Plain.{IsPlain}
use precis_mcp.Scenario.Canonical.{resolve_key-simple_key}
use precis_mcp.Modifiers.{parse_scenario_modifiers, ampersand}
use precis_mcp.Modifiers.Parse.{Lacks, parse_scenario_modifiers-joined}
use precis_mcp.Planning.{
  PlanError, parse_key, sides, collect_sides, collect_computed_deps, collect_all,
}

by_alias-All :
    (P : RealScenario → Type 0) (reg : Registry) (key : Text) (s : RealScenario)
    → All P reg
    → by_alias reg key ≡ some s
    → P s
unfolding by_alias
by_alias-All P [] key s all h = absurd (cc h)
by_alias-All P (t ∷ reg) key s (p, all) h = elim (Bool-cases (t.alias == key)) [
  | inl e ↦ let q : t ≡ s = cc (rw e at h) in subst P q p
  | inr e ↦ by_alias-All P reg key s all (rw e at h)
]

-- An alias without the sign that separates modifiers.
abbrev pub IsUnmodified : RealScenario → Type 0
IsUnmodified s = Lacks ampersand s.alias

Lacks-append : (s t : Text) → Lacks ampersand s → Lacks ampersand t → Lacks ampersand (s ++ t)
Lacks-append [] t h k = k
Lacks-append (d ∷ s) t (e, h) k = (e, Lacks-append s t h k)

parse_unmodified : (key : Text) → Lacks ampersand key → parse_scenario_modifiers key ≡ ok (key, [])
parse_unmodified key h =
    subst (λ t. parse_scenario_modifiers t ≡ ok (key, [])) (append-nil key)
      (parse_scenario_modifiers-joined key [] h tt tt)

module _ (reg : Registry) (wf : IsWellFormed reg) (plain : All IsPlain reg)
    (unmodified : All IsUnmodified reg) where
  Lacks-suffix : (sh : Shift) → Lacks ampersand (suffix sh)
  Lacks-suffix prior_year = ground arith
  Lacks-suffix prior_period = ground arith

  Lacks-simple_key : (s : SimpleRef) → IsRegistered reg s → Lacks ampersand (simple_key s)
  Lacks-simple_key (real s) e =
      subst (Lacks ampersand) (sym e.keyed)
        (by_alias-All IsUnmodified reg s.alias s unmodified e.found)
  Lacks-simple_key (shifted t) (sh, s, e, q) =
      subst (λ x. Lacks ampersand (simple_key (shifted x))) (sym q)
        (unfold shifted_ref in
          Lacks-append s.alias (suffix sh)
            (by_alias-All IsUnmodified reg s.alias s unmodified e.found) (Lacks-suffix sh))

  -- The key of a side of a comparison is parsed and resolved to that side.
  pub parse_key-simple_key :
      (s : SimpleRef) → IsRegistered reg s → parse_key reg (simple_key s) ≡ ok (simple s, [])
  unfolding parse_key
  parse_key-simple_key s e = rw (
    parse_unmodified (simple_key s) (Lacks-simple_key s e),
    resolve_key-simple_key reg wf plain s e,
  )

-- A property that a comparison hands on to its sides.
abbrev pub IsHandedOn {ℓ} : Registry → (Text → Type ℓ) → Type ℓ
IsHandedOn reg P =
    (key : Text) (ref : ScenarioRef) (left right : SimpleRef)
    → P key
    → parse_key reg key ≡ ok (ref, [])
    → sides ref ≡ some (left, right)
    → P (simple_key left) × P (simple_key right)

All-snoc {ℓ} :
    (P : Text → Type ℓ) (xs : List Text) (x : Text) → All P xs → P x → All P (xs ++ x ∷ [])
All-snoc P [] x all p = (p, tt)
All-snoc P (y ∷ xs) x (q, all) p = (q, All-snoc P xs x all p)

module _ {ℓ} (reg : Registry) (P : Text → Type ℓ) (hands_on : IsHandedOn reg P) where
  abbrev Keeps : (Text → List Text → Result PlanError (List Text)) → Type ℓ
  Keeps collect =
      (key : Text) (visited result : List Text)
      → P key
      → All P visited
      → collect key visited ≡ ok result
      → All P result

  collect_sides-All :
      (collect : Text → List Text → Result PlanError (List Text)) (key : Text) (ref : ScenarioRef)
      (modifiers : Dict Text) (between : Option (SimpleRef × SimpleRef))
      (visited result : List Text)
      → Keeps collect
      → P key
      → parse_key reg key ≡ ok (ref, modifiers)
      → sides ref ≡ between
      → All P visited
      → collect_sides collect key between modifiers visited ≡ ok result
      → All P result
  collect_sides-All collect key ref modifiers none visited result keeps p parsed e all h =
      let same : visited ≡ result = cc h in subst (All P) same all
  collect_sides-All collect key ref [] (some (left, right)) visited result keeps p parsed e all h =
      let (pl, pr) = hands_on key ref left right p parsed e in
      let (more, first, rest) =
        >>=-eq-ok (collect (simple_key left) visited) (collect (simple_key right)) h in
      keeps (simple_key right) more result pr (keeps (simple_key left) visited more pl all first)
        rest
  collect_sides-All collect key ref (m ∷ ms) (some (left, right)) visited result keeps p parsed e
        all h =
      absurd (cc h)

  collect_computed_deps-All : (fuel : ℕ) → Keeps (collect_computed_deps fuel reg)
  unfolding collect_computed_deps
  collect_computed_deps-All zero key visited result p all h = absurd (cc h)
  collect_computed_deps-All (suc fuel) key visited result p all h =
      elim (Bool-cases (contains visited key)) [
        | inl e ↦ let same : visited ≡ result = cc (rw e at h) in subst (All P) same all
        | inr e ↦
            let ((ref, modifiers), parsed, rest) =
              >>=-eq-ok (parse_key reg key)
                (λ (ref, modifiers).
                  collect_sides (collect_computed_deps fuel reg) key (sides ref) modifiers
                    (visited ++ key ∷ []))
                (rw e at h) in
            collect_sides-All (collect_computed_deps fuel reg) key ref modifiers (sides ref)
              (visited ++ key ∷ []) result (collect_computed_deps-All fuel) p parsed refl
              (All-snoc P visited key all p) rest
      ]

  pub collect_all-All :
      (block_keys visited result : List Text)
      → All P block_keys
      → All P visited
      → collect_all reg block_keys visited ≡ ok result
      → All P result
  unfolding collect_all
  collect_all-All [] visited result ps all h =
      let same : visited ≡ result = cc h in subst (All P) same all
  collect_all-All (key ∷ more_keys) visited result (p, ps) all h =
      let (more, first, rest) =
        >>=-eq-ok (collect_computed_deps 2 reg key visited) (collect_all reg more_keys) h in
      collect_all-All more_keys more result ps
        (collect_computed_deps-All 2 key visited more p all first) rest
