-- ===== src/Scenario/Canonical.antt =====
-- The keys of resolved references (precis_mcp/engine/scenario_registry.py).
use precis_mcp.Common.{
  length, All, Text, codes, nat_eq, text_eq, string_eq, ℕ, suc, ◌≡◌, refl, sym, ap, subst, ◌≢◌, inl,
  Bool, true, false, Option, none, some, [], ◌∷◌, ◌++◌, append_assoc,
}
use precis_mcp.Common.Result.{>>=-eq-ok, ok}
use precis_mcp.Common.Strings.{
  strip_suffix, split_first, ends_with, has_fragment, strip_suffix-eq_some, strip_suffix-append,
}
use precis_mcp.Scenario.{
  RealScenario, SimpleRef, ScenarioRef, vs, py, pp, pct, compatibility_alias, Registry, by_alias,
  by_id, Shift, suffix, shifted_ref, shift_first, resolve_shifted, simple_key, comparison,
  find_real, or_unknown, resolve_variance, or_compared, or_generated, resolve_fuel, resolve_key,
  ref_key, normalize_key, real, shifted, simple, variance, variance_pct, prior_year, prior_period,
}
use precis_mcp.Scenario.Separator.{
  vs_end, IsSeparable, split_first-join, fragment-append, pct-append, strip-other, strip-pct,
}
use precis_mcp.Scenario.Registry.{IsWellFormed, by_alias-eq_some, by_id-eq_some, Entry}
use precis_mcp.Scenario.Resolve.{IsRegistered, IsResolved, resolve_key-IsResolved}
use precis_mcp.Scenario.Plain.{
  IsPlain, by_alias-IsPlain, by_id-IsPlain, Valid, valid, none_of, none_unless, shift_key,
  compatibility-shift, compatibility-fragment, append-ne-nil, strip_own, length-suc,
}

module _ (reg : Registry) (wf : IsWellFormed reg) (plain : All IsPlain reg) where
  alias_of : (key : Text) (s : RealScenario) → by_alias reg key ≡ some s → Valid key
  alias_of key s h = rw (by_alias-eq_some reg key s h) at (valid s.alias (wf key s (inl h)).valid)

  separable : (key : Text) (s : RealScenario) → by_alias reg key ≡ some s → IsSeparable key
  separable key s h = (
    (alias_of key s h).fragment,
    rw (by_alias-eq_some reg key s h) at (by_alias-IsPlain reg key s plain h).alias_end,
  )

  -- No scenario is held under a key with `_vs_`, or with a generated suffix.
  no_alias : (key : Text) → has_fragment vs key ≡ true → by_alias reg key ≡ none
  no_alias key h = none_unless (by_alias reg key) λ s e. cc ((alias_of key s e).fragment, h)

  no_id : (key : Text) → has_fragment vs key ≡ true → by_id reg key ≡ none
  no_id key h =
      none_unless (by_id reg key) λ s e.
        cc (rw (by_id-eq_some reg key s e) at (by_id-IsPlain reg key s plain e).id_fragment, h)

  shift_first-none :
      (o p : Option Text)
      → ((b : Text) → o ≡ some b → by_alias reg b ≡ none)
      → ((b : Text) → p ≡ some b → by_alias reg b ≡ none)
      → shift_first reg o p ≡ none
  shift_first-none (some b) p h k = rw (h b refl)
  shift_first-none none (some b) h k = rw (k b refl)
  shift_first-none none none h k = refl

  -- What is left of a key with `_vs_` when a shift's suffix is cut is no alias.
  no_base :
      (key tail b : Text)
      → has_fragment vs (b'_' ∷ tail) ≡ false
      → has_fragment vs key ≡ true
      → strip_suffix (b'_' ∷ tail) key ≡ some b
      → by_alias reg b ≡ none
  no_base key tail b free h e = none_unless (by_alias reg b) λ s found. cc (
    ap (has_fragment vs) (strip_suffix-eq_some (b'_' ∷ tail) key b e),
    fragment-append b tail (separable b s found) free,
    h,
  )

  no_shift : (key : Text) → has_fragment vs key ≡ true → resolve_shifted reg key ≡ none
  unfolding resolve_shifted
  no_shift key h =
      shift_first-none (strip_suffix py key) (strip_suffix pp key)
        (λ b. no_base key (codes "py") b (unfold has_fragment split_first in refl) h)
        (λ b. no_base key (codes "pp") b (unfold has_fragment split_first in refl) h)

  simple-IsSeparable : (s : SimpleRef) → IsRegistered reg s → IsSeparable (simple_key s)
  simple-IsSeparable (real s) e = rw e.keyed (separable s.alias s e.found)
  simple-IsSeparable (shifted t) (prior_year, s, e, q) = rw (shift_key prior_year s t q) (
    fragment-append s.alias (codes "py") (separable s.alias s e.found)
        (unfold has_fragment split_first in refl),
    unfold ends_with in rw (strip-other b'_' b'v' b's' b'_' b'p' b'y' refl s.alias),
  )
  simple-IsSeparable (shifted t) (prior_period, s, e, q) = rw (shift_key prior_period s t q) (
    fragment-append s.alias (codes "pp") (separable s.alias s e.found)
        (unfold has_fragment split_first in refl),
    unfold ends_with in rw (strip-other b'_' b'v' b's' b'_' b'p' b'p' refl s.alias),
  )

  alias_behind : (s : RealScenario) → Entry reg s → strip_suffix pct (b'_' ∷ s.alias) ≡ none
  unfolding strip_suffix
  alias_behind s e =
      let own : strip_suffix pct s.alias ≡ none =
        none_of _ (unfold ends_with in (alias_of s.alias s e.found).no_pct) in
      rw ((by_alias-IsPlain reg s.alias s plain e.found).alias_pct, own)

  no_pct_behind :
      (s : SimpleRef) → IsRegistered reg s → strip_suffix pct (b'_' ∷ simple_key s) ≡ none
  no_pct_behind (real s) e = rw e.keyed (alias_behind s e)
  no_pct_behind (shifted t) (prior_year, s, e, q) =
      rw (shift_key prior_year s t q) (strip-pct b'_' b'p' b'y' refl (b'_' ∷ s.alias))
  no_pct_behind (shifted t) (prior_period, s, e, q) =
      rw (shift_key prior_period s t q) (strip-pct b'_' b'p' b'p' refl (b'_' ∷ s.alias))

  resolve_step :
      (fuel : ℕ) (value : Text)
      → value ≢ []
      → compatibility_alias value ≡ none
      → resolve_fuel (suc fuel) reg value
        ≡ or_generated (find_real reg value) (
            or_compared
              (resolve_shifted reg value)
              (or_unknown (resolve_variance (resolve_fuel fuel reg) value)))
  unfolding resolve_fuel
  resolve_step fuel [] h k = absurd (h refl)
  resolve_step fuel (c ∷ cs) h k = rw k

  -- A shifted key is neither an alias nor an id of the registry.
  shift_unheld : (sh : Shift) (l : Text) → find_real reg (l ++ suffix sh) ≡ none
  shift_unheld sh l =
      let key = l ++ suffix sh in
      let no_alias' : by_alias reg key ≡ none =
        none_unless (by_alias reg key) (λ s h. not_valid sh (alias_of key s h) (strip_own sh l)) in
      let no_id' : by_id reg key ≡ none = none_unless (by_id reg key) λ s h.
        not_plain sh s (by_id-IsPlain reg key s plain h)
          (rw (by_id-eq_some reg key s h) (strip_own sh l)) in
      rw (no_alias', no_id')
    where
      not_valid : (sh : Shift) {key : Text} → Valid key → ends_with (suffix sh) key ≡ true → ⊥
      not_valid prior_year v h = cc (v.no_py)
      not_valid prior_period v h = cc (v.no_pp)

      not_plain :
          (sh : Shift) (s : RealScenario)
          → IsPlain s
          → ends_with (suffix sh) s.scenario_id ≡ true
          → ⊥
      not_plain prior_year s v h = cc (v.id_py)
      not_plain prior_period s v h = cc (v.id_pp)

  shift_found :
      (sh : Shift) (s : RealScenario)
      → Entry reg s
      → resolve_shifted reg (s.alias ++ suffix sh) ≡ some (shifted_ref sh s)
  unfolding resolve_shifted
  shift_found prior_year s e = rw (strip_suffix-append s.alias py, e.found)
  shift_found prior_period s e = rw (
    strip-other b'_' b'p' b'y' b'_' b'p' b'p' refl s.alias,
    strip_suffix-append s.alias pp,
    e.found,
  )

  resolve_simple :
      (fuel : ℕ) (s : SimpleRef)
      → IsRegistered reg s
      → resolve_fuel (suc fuel) reg (simple_key s) ≡ ok (simple s)
  resolve_simple fuel (real s) e =
      let v = alias_of s.alias s e.found in
      subst (λ key. resolve_fuel (suc fuel) reg key ≡ ok (simple (real s))) (sym e.keyed)
        (rw (resolve_step fuel s.alias v.not_empty (none_of _ v.no_compatibility), e.found))
  resolve_simple fuel (shifted t) (sh, s, e, q) =
      subst (λ key. resolve_fuel (suc fuel) reg key ≡ ok (simple (shifted t)))
        (sym (shift_key sh s t q))
        (rw
          (
            resolve_step fuel (s.alias ++ suffix sh) (append-ne-nil sh s.alias) (
                compatibility-shift sh (s.alias ++ suffix sh) s.alias
                  (strip_suffix-append s.alias (suffix sh))),
            shift_unheld sh s.alias,
            shift_found sh s e,
          )
          (ap (λ x. ok (simple (shifted x))) (sym q)))

  module _ (left right : SimpleRef) (hl : IsRegistered reg left) (hr : IsRegistered reg right) where
    split_sides :
        (rest : Text)
        → split_first vs (simple_key left ++ (vs ++ rest)) ≡ some (simple_key left, rest)
    split_sides rest = split_first-join (simple_key left) rest (simple-IsSeparable left hl)

    compared_fragment : (rest : Text) → has_fragment vs (simple_key left ++ (vs ++ rest)) ≡ true
    compared_fragment rest = unfold has_fragment in rw (split_sides rest)

    compared_not_empty : (rest : Text) → simple_key left ++ (vs ++ rest) ≢ []
    compared_not_empty rest h = cc (ap (split_first vs) h, split_sides rest, split_nil)
      where
        split_nil : split_first vs [] ≡ none
        split_nil = unfold split_first in refl

    compared_step :
        (fuel : ℕ) (rest : Text)
        → resolve_fuel (suc fuel) reg (simple_key left ++ (vs ++ rest))
          ≡ or_unknown (resolve_variance (resolve_fuel fuel reg) (simple_key left ++ (vs ++ rest)))
    compared_step fuel rest =
        let key = simple_key left ++ (vs ++ rest) in
        let free = compared_fragment rest in
        rw (
          resolve_step fuel key (compared_not_empty rest) (compatibility-fragment key free),
          no_alias key free,
          no_id key free,
          no_shift key free,
        )

    no_pct_key : strip_suffix pct (simple_key left ++ (vs ++ simple_key right)) ≡ none
    no_pct_key =
        subst (λ k. strip_suffix pct k ≡ none)
          (append_assoc (simple_key left) vs_end (b'_' ∷ simple_key right))
          (pct-append (simple_key left ++ vs_end) (simple_key right) (no_pct_behind right hr))

    pct_key :
        strip_suffix pct (simple_key left ++ (vs ++ (simple_key right ++ pct)))
        ≡ some (simple_key left ++ (vs ++ simple_key right))
    pct_key =
        subst (λ k. strip_suffix pct k ≡ some (simple_key left ++ (vs ++ simple_key right)))
          (append_assoc (simple_key left) (vs ++ simple_key right) pct)
          (strip_suffix-append (simple_key left ++ (vs ++ simple_key right)) pct)

    resolve_comparison :
        (fuel : ℕ) (is_pct : Bool)
        → resolve_fuel (suc (suc fuel)) reg (ref_key (comparison is_pct left right))
          ≡ ok (comparison is_pct left right)
    unfolding comparison
    resolve_comparison fuel true = rw (
      compared_step (suc fuel) (simple_key right ++ pct),
      pct_key,
      split_sides (simple_key right),
      resolve_simple fuel left hl,
      resolve_simple fuel right hr,
    )
    resolve_comparison fuel false = rw (
      compared_step (suc fuel) (simple_key right),
      no_pct_key,
      split_sides (simple_key right),
      resolve_simple fuel left hl,
      resolve_simple fuel right hr,
    )

    resolve_key-comparison :
        (is_pct : Bool)
        → resolve_key reg (ref_key (comparison is_pct left right))
          ≡ ok (comparison is_pct left right)
    unfolding resolve_key comparison
    resolve_key-comparison true =
        let (n, e) = length-suc _ (compared_not_empty (simple_key right ++ pct)) in
        rw e (resolve_comparison n true)
    resolve_key-comparison false =
        let (n, e) = length-suc _ (compared_not_empty (simple_key right)) in
        rw e (resolve_comparison n false)

  pub resolve_key-simple_key :
      (s : SimpleRef) → IsRegistered reg s → resolve_key reg (simple_key s) ≡ ok (simple s)
  unfolding resolve_key
  resolve_key-simple_key s e = resolve_simple (length (simple_key s)) s e

  -- In a registry built from rows whose names are plain, the key of whatever `resolve_key` returns
  -- resolves to the same reference: public keys are stable.
  pub resolve_key-ref_key :
      (value : Text) (ref : ScenarioRef)
      → resolve_key reg value ≡ ok ref
      → resolve_key reg (ref_key ref) ≡ ok ref
  resolve_key-ref_key value ref h = by_cases ref (resolve_key-IsResolved reg wf value ref h)
    where
      by_cases : (ref : ScenarioRef) → IsResolved reg ref → resolve_key reg (ref_key ref) ≡ ok ref
      by_cases (simple s) e = resolve_key-simple_key s e
      by_cases (variance v) (hl, hr, q) =
          subst (λ x. resolve_key reg (ref_key x) ≡ ok x) (sym q)
            (resolve_key-comparison v.left v.right hl hr false)
      by_cases (variance_pct v) (hl, hr, q) =
          subst (λ x. resolve_key reg (ref_key x) ≡ ok x) (sym q)
            (resolve_key-comparison v.left v.right hl hr true)

  -- In a registry built from rows whose names are plain, a key that a normalisation returns normalises
  -- to itself.
  pub normalize_key_idem :
      (value key : Text) → normalize_key reg value ≡ ok key → normalize_key reg key ≡ ok key
  unfolding normalize_key
  normalize_key_idem value key h =
      let (ref, resolved, e) = >>=-eq-ok (resolve_key reg value) (λ ref. ok (ref_key ref)) h in
      let q : ref_key ref ≡ key = cc e in rw (← q) (rw (resolve_key-ref_key value ref resolved))
