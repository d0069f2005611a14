-- ===== src/Ingestion/Inference/Canonical.antt =====
-- The form of a normalised period.
use precis_mcp.Common.{
  Text, Bool, ltb, ◌&&◌, text_eq, string_eq, nat_eq, nat_beq, Bool-cases, ℕ, ◌≡◌, refl, subst, inl,
  inr, true, false, ◌||◌, Option, none, some, [], ◌∷◌, arith,
}
use precis_mcp.Common.Result.{ok}
use precis_mcp.Common.Decimal.{is_digit, decimal_value, other_decimal, other_decimal-none}
use precis_mcp.Common.Spaces.{is_space, strip, IsSolid, strip-IsSolid}
use precis_mcp.Ingestion.Inference.{
  all_upper, is_adjustment, six_digits, is_dashed, from_compact, from_date, found_or,
  normalise_stripped, normalise_period,
}

from_compact-is_dashed : (t p : Text) → from_compact t ≡ some p → is_dashed p ≡ true
unfolding from_compact is_dashed
from_compact-is_dashed (a ∷ b ∷ c ∷ d ∷ e ∷ f ∷ []) p h =
    elim (Bool-cases (six_digits a b c d e f)) [
      | inl k ↦
          let same : a ∷ b ∷ c ∷ d ∷ 45 ∷ e ∷ f ∷ [] ≡ p = cc (rw k at h) in
          subst (λ x. is_dashed x ≡ true) same (rw k refl)
      | inr k ↦ absurd (cc (rw k at h))
    ]
from_compact-is_dashed _ p h = absurd (cc h)

from_date-is_dashed : (t p : Text) → from_date t ≡ some p → is_dashed p ≡ true
unfolding from_date is_dashed
from_date-is_dashed (a ∷ b ∷ c ∷ d ∷ sign ∷ e ∷ f ∷ rest) p h =
    elim (Bool-cases (six_digits a b c d e f)) [
      | inl k ↦ elim (Bool-cases (nat_beq sign 45 || nat_beq sign 47)) [
        | inl j ↦
            let same : a ∷ b ∷ c ∷ d ∷ 45 ∷ e ∷ f ∷ [] ≡ p = cc (rw (k, j) at h) in
            subst (λ x. is_dashed x ≡ true) same (rw k refl)
        | inr j ↦ absurd (cc (rw (k, j) at h))
      ]
      | inr k ↦ absurd (cc (rw k at h))
    ]
from_date-is_dashed _ p h = absurd (cc h)

all_upper-IsSolid : (t : Text) → all_upper t ≡ true → IsSolid t
all_upper-IsSolid [] h = tt
all_upper-IsSolid (c ∷ t) h = (ground arith, all_upper-IsSolid t (ground arith))

is_adjustment-IsSolid : (t : Text) → is_adjustment t ≡ true → IsSolid t
is_adjustment-IsSolid [] h = tt
is_adjustment-IsSolid (c ∷ []) h = absurd (cc h)
is_adjustment-IsSolid (c ∷ d ∷ t) h =
    (ground arith, (ground arith, all_upper-IsSolid t (ground arith)))

-- White space outside ASCII is no decimal digit.
space_no_digit : (c : ℕ) → is_space c ≡ true → ltb c 128 ≡ false → other_decimal c ≡ none
space_no_digit c space other = ground (
  arith,
  other_decimal-none 133 160 c refl,
  other_decimal-none 5760 5760 c refl,
  other_decimal-none 8192 8287 c refl,
  other_decimal-none 12288 12288 c refl,
)

digit_solid : (c : ℕ) → is_digit c ≡ true → is_space c ≡ false
digit_solid c h = elim (Bool-cases (is_space c)) [
  | inr solid ↦ solid
  | inl space ↦ elim (Bool-cases (ltb c 128)) [
    | inl ascii ↦ absurd (ground arith)
    | inr other ↦
        absurd (cc (rw (is_digit, decimal_value, other, space_no_digit c space other) at h))
  ]
]

dash_solid : (c : ℕ) → nat_beq c 45 ≡ true → is_space c ≡ false
dash_solid c h = ground arith

both : (a b : Bool) → (a && b) ≡ true → (a ≡ true) × (b ≡ true)
both true b h = (refl, h)
both false b h = absurd (cc h)

is_dashed-IsSolid : (t : Text) → is_dashed t ≡ true → IsSolid t
unfolding is_dashed
is_dashed-IsSolid (a ∷ b ∷ c ∷ d ∷ dash ∷ e ∷ f ∷ rest) h =
    let (digits, h1) = both (six_digits a b c d e f) _ h in
    let (hyphen, tail) = both (nat_beq dash 45) (is_adjustment rest) h1 in
    let (ha, more_a) = both (is_digit a) _ digits in
    let (hb, more_b) = both (is_digit b) _ more_a in
    let (hc, more_c) = both (is_digit c) _ more_b in
    let (hd, more_d) = both (is_digit d) _ more_c in
    let (he, hf) = both (is_digit e) (is_digit f) more_d in
    (
      digit_solid a ha,
      (
        digit_solid b hb,
        (
          digit_solid c hc,
          (
            digit_solid d hd,
            (
              dash_solid dash hyphen,
              (digit_solid e he, (digit_solid f hf, is_adjustment-IsSolid rest tail)),
            ),
          ),
        ),
      ),
    )
is_dashed-IsSolid _ h = absurd (cc h)

strip-is_dashed : (t : Text) → is_dashed t ≡ true → strip t ≡ t
strip-is_dashed t h = strip-IsSolid t (is_dashed-IsSolid t h)

normalise_stripped-is_dashed : (t p : Text) → normalise_stripped t ≡ ok p → is_dashed p ≡ true
normalise_stripped-is_dashed t p h = elim (Bool-cases (is_dashed t)) [
  | inl e ↦ let same : t ≡ p = cc (rw e at h) in subst (λ x. is_dashed x ≡ true) same e
  | inr e ↦ found (from_compact t) (from_date t) refl refl (rw e at h)
]
  where
    found :
        (compact date : Option Text)
        → from_compact t ≡ compact
        → from_date t ≡ date
        → found_or compact date ≡ ok p
        → is_dashed p ≡ true
    found (some x) date e k j = from_compact-is_dashed t p (cc (e, j))
    found none (some x) e k j = from_date-is_dashed t p (cc (k, j))
    found none none e k j = absurd (cc j)

-- A period that is normalised has the canonical form, four digits, a dash and two digits, with an adjustment
-- suffix of capital letters at most; and normalising it again leaves it as it is.
pub normalise_period-is_dashed :
    (raw p : Text)
    → normalise_period raw ≡ ok p
    → (is_dashed p ≡ true) × (normalise_period p ≡ ok p)
unfolding normalise_period
normalise_period-is_dashed raw p h =
    let dashed = normalise_stripped-is_dashed (strip raw) p h in
    (dashed, rw (strip-is_dashed p dashed, dashed) refl)
