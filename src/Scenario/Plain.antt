-- ===== src/Scenario/Plain.antt =====
-- What an alias that the validation of precis_mcp/engine/scenario_registry.py accepts is like, and the
-- names that it does not rule out.
use precis_mcp.Common.{
  length, All, ◌==◌, Text, codes, text_beq, text_beq_iff, nat_eq, text_eq, string_eq, Bool-cases, ℕ,
  suc, ◌≡◌, refl, ap, subst, ◌≢◌, inl, inr, true, false, Option, none, some, [], ◌∷◌, ◌++◌, arith,
}
use precis_mcp.Common.Result.{ok}
use precis_mcp.Common.Strings.{
  strip_suffix, split_first, is_some, ends_with, has_fragment, strip_suffix-append,
}
use precis_mcp.Scenario.{
  RealScenario, ShiftedScenario, vs, py, pp, pct, compatibility_alias, validate_alias, Registry,
  by_alias, by_id, Shift, suffix, shifted_ref, prior_year, prior_period,
}
use precis_mcp.Scenario.Separator.{vs_end}

-- Names that the validation does not ask for: the alias is not `pct` and does not end in `_vs`, and the
-- id does not look like a generated key.
pub record IsPlain (s : RealScenario) : Type 0 where
  pub alias_end : ends_with vs_end s.alias ≡ false
  pub alias_pct : text_beq (codes "pct") s.alias ≡ false
  pub id_fragment : has_fragment vs s.scenario_id ≡ false
  pub id_py : ends_with py s.scenario_id ≡ false
  pub id_pp : ends_with pp s.scenario_id ≡ false

pub by_alias-IsPlain :
    (reg : Registry) (key : Text) (s : RealScenario)
    → All IsPlain reg
    → by_alias reg key ≡ some s
    → IsPlain s
unfolding by_alias
by_alias-IsPlain [] key s all h = absurd (cc h)
by_alias-IsPlain (t ∷ reg) key s (p, all) h = elim (Bool-cases (t.alias == key)) [
  | inl e ↦ let q : t ≡ s = cc (rw e at h) in subst IsPlain q p
  | inr e ↦ by_alias-IsPlain reg key s all (rw e at h)
]

pub by_id-IsPlain :
    (reg : Registry) (key : Text) (s : RealScenario)
    → All IsPlain reg
    → by_id reg key ≡ some s
    → IsPlain s
unfolding by_id
by_id-IsPlain [] key s all h = absurd (cc h)
by_id-IsPlain (t ∷ reg) key s (p, all) h = elim (Bool-cases (t.scenario_id == key)) [
  | inl e ↦ let q : t ≡ s = cc (rw e at h) in subst IsPlain q p
  | inr e ↦ by_id-IsPlain reg key s all (rw e at h)
]

-- What the validation rules out.
pub record Valid (alias : Text) : Type 0 where
  pub fragment : has_fragment vs alias ≡ false
  pub no_py : ends_with py alias ≡ false
  pub no_pp : ends_with pp alias ≡ false
  pub no_pct : ends_with pct alias ≡ false
  pub no_compatibility : is_some (compatibility_alias alias) ≡ false
  pub not_empty : alias ≢ []

pub valid : (alias : Text) → validate_alias alias ≡ ok tt → Valid alias
unfolding validate_alias
valid alias h = record {
  fragment = ground arith;
  no_py = ground arith;
  no_pp = ground arith;
  no_pct = ground arith;
  no_compatibility = ground arith;
  not_empty = λ e. ground (arith, text_beq_iff alias []);
}

pub none_of {ℓ} : {A : Type ℓ} (o : Option A) → is_some o ≡ false → o ≡ none
none_of none h = refl
none_of (some a) h = absurd (cc h)

pub none_unless {ℓ} : {A : Type ℓ} (o : Option A) → ((a : A) → o ≡ some a → ⊥) → o ≡ none
none_unless none h = refl
none_unless (some a) h = absurd (h a refl)

pub shift_key :
    (sh : Shift) (s : RealScenario) (t : ShiftedScenario)
    → t ≡ shifted_ref sh s
    → t.key ≡ s.alias ++ suffix sh
unfolding shifted_ref
shift_key sh s t q = ap (λ (x : ShiftedScenario). x.key) q

-- A key that a shift's suffix ends is none of the compatibility aliases, nor one with `_vs_`.
pub compatibility-shift :
    (sh : Shift) (v b : Text) → strip_suffix (suffix sh) v ≡ some b → compatibility_alias v ≡ none
unfolding compatibility_alias strip_suffix
compatibility-shift prior_year v b h =
    ground (arith, text_beq_iff v (codes "prior_year"), text_beq_iff v (codes "prior_period"))
compatibility-shift prior_period v b h =
    ground (arith, text_beq_iff v (codes "prior_year"), text_beq_iff v (codes "prior_period"))

pub compatibility-fragment : (v : Text) → has_fragment vs v ≡ true → compatibility_alias v ≡ none
unfolding compatibility_alias has_fragment split_first
compatibility-fragment v h =
    ground (arith, text_beq_iff v (codes "prior_year"), text_beq_iff v (codes "prior_period"))

pub append-ne-nil : (sh : Shift) (l : Text) → l ++ suffix sh ≢ []
append-ne-nil prior_year [] h = cc
append-ne-nil prior_period [] h = cc
append-ne-nil sh (c ∷ l) h = cc

pub strip_own : (sh : Shift) (l : Text) → ends_with (suffix sh) (l ++ suffix sh) ≡ true
unfolding ends_with
strip_own sh l = rw (strip_suffix-append l (suffix sh))

pub length-suc : (t : Text) → t ≢ [] → (n : ℕ) × (length t ≡ suc n)
length-suc [] h = absurd (h refl)
length-suc (c ∷ cs) h = (length cs, refl)
