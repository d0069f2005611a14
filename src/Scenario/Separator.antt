-- ===== src/Scenario/Separator.antt =====
-- Where `_vs_` and the generated suffixes can occur in a key that is put together from aliases.
use precis_mcp.Common.{
  Text, codes, text_beq, nat_eq, text_eq, string_eq, nat_beq, ℕ, ◌≡◌, refl, false, none, some, [],
  ◌∷◌, ◌++◌, arith,
}
use precis_mcp.Common.Strings.{
  starts_with, strip_suffix, split_first, ends_with, has_fragment, split_first-cons,
  split_first-none_tail, ends_with_tail,
}
use precis_mcp.Scenario.{vs, pct}

abbrev pub vs_end : Text
vs_end = codes "_vs"

-- No `_vs_` inside, and none that a following `_` would complete.
abbrev pub IsSeparable : Text → Type 0
IsSeparable t = (has_fragment vs t ≡ false) × (ends_with vs_end t ≡ false)

no_start :
    (c : ℕ) (l t : Text)
    → starts_with vs (c ∷ l) ≡ false
    → text_beq vs_end (c ∷ l) ≡ false
    → starts_with vs (c ∷ l ++ b'_' ∷ t) ≡ false
no_start c [] t h k = ground arith
no_start c (d ∷ []) t h k = ground arith
no_start c (d ∷ e ∷ []) t h k = ground arith
no_start c (d ∷ e ∷ f ∷ l) t h k = h

-- A key is split exactly behind its left side.
pub split_first-join : (l r : Text) → IsSeparable l → split_first vs (l ++ (vs ++ r)) ≡ some (l, r)
split_first-join [] r (h, k) = unfold split_first in refl
split_first-join (c ∷ l) r (h, k) =
    let (h1, h2) = split_first-none_tail vs c l h in
    let (k1, k2) = ends_with_tail vs_end c l k in
    split_first-cons vs c (l ++ (vs ++ r)) l r (no_start c l (codes "vs_" ++ r) h1 k1)
      (split_first-join l r (h2, k2))

fragment-cons :
    (c : ℕ) (cs : Text)
    → starts_with vs (c ∷ cs) ≡ false
    → has_fragment vs cs ≡ false
    → has_fragment vs (c ∷ cs) ≡ false
unfolding has_fragment split_first
fragment-cons c cs h k = ground arith

-- A tail that begins with `_` and is free of `_vs_` brings none in.
pub fragment-append :
    (l t : Text)
    → IsSeparable l
    → has_fragment vs (b'_' ∷ t) ≡ false
    → has_fragment vs (l ++ b'_' ∷ t) ≡ false
fragment-append [] t s h = h
fragment-append (c ∷ l) t (h, k) free =
    let (h1, h2) = split_first-none_tail vs c l h in
    let (k1, k2) = ends_with_tail vs_end c l k in
    fragment-cons c (l ++ b'_' ∷ t) (no_start c l t h1 k1) (fragment-append l t (h2, k2) free)

-- A suffix `_xyz` with no further `_` ends a text behind a `_` only if it ends that last part.
pub pct-append :
    (x r : Text) → strip_suffix pct (b'_' ∷ r) ≡ none → strip_suffix pct (x ++ b'_' ∷ r) ≡ none
unfolding strip_suffix
pct-append [] r h = h
pct-append (c ∷ x) r h = rw (no_pct c x r, pct-append x r h)
  where
    no_pct : (c : ℕ) (x r : Text) → text_beq pct (c ∷ x ++ b'_' ∷ r) ≡ false
    no_pct c [] r = ground arith
    no_pct c (d ∷ []) r = ground arith
    no_pct c (d ∷ e ∷ []) r = ground arith
    no_pct c (d ∷ e ∷ f ∷ []) r = ground arith
    no_pct c (d ∷ e ∷ f ∷ g ∷ x) r = ground arith

module _ (x y z u v w : ℕ) (differ : nat_beq z w ≡ false) where
  -- A text ends in one suffix of three characters.
  pub strip-other : (l : Text) → strip_suffix (x ∷ y ∷ z ∷ []) (l ++ (u ∷ v ∷ w ∷ [])) ≡ none
  unfolding strip_suffix
  strip-other [] = ground arith
  strip-other (c ∷ l) = rw (too_long c l, strip-other l)
    where
      too_long : (c : ℕ) (l : Text) → text_beq (x ∷ y ∷ z ∷ []) (c ∷ l ++ (u ∷ v ∷ w ∷ [])) ≡ false
      too_long c [] = ground arith
      too_long c (d ∷ []) = ground arith
      too_long c (d ∷ e ∷ []) = ground arith
      too_long c (d ∷ e ∷ f ∷ l) = ground arith

pub strip-pct :
    (u v w : ℕ)
    → nat_beq b't' w ≡ false
    → (l : Text) → strip_suffix pct (l ++ (u ∷ v ∷ w ∷ [])) ≡ none
unfolding strip_suffix
strip-pct u v w differ [] = ground arith
strip-pct u v w differ (c ∷ l) = rw (no_pct c l, strip-pct u v w differ l)
  where
    no_pct : (c : ℕ) (l : Text) → text_beq pct (c ∷ l ++ (u ∷ v ∷ w ∷ [])) ≡ false
    no_pct c [] = ground arith
    no_pct c (d ∷ []) = ground arith
    no_pct c (d ∷ e ∷ []) = ground arith
    no_pct c (d ∷ e ∷ f ∷ []) = ground arith
    no_pct c (d ∷ e ∷ f ∷ g ∷ l) = ground arith
