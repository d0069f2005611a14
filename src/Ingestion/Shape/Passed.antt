-- ===== src/Ingestion/Shape/Passed.antt =====
-- When two shapes pass the comparison.
use precis_mcp.Common.{
  contains, Text, text_beq, text_beq_iff, text_eq, string_eq, nat_eq, Bool-cases, ◌≡◌, refl, sym,
  subst, ◌↔◌, inl, inr, Bool, true, false, not, ◌&&◌, Option, none, some, List, [], ◌∷◌, ◌++◌,
  arith,
}
use precis_mcp.Common.Strings.{is_some}
use precis_mcp.Common.Maps.{Dict, lookup, keys}
use precis_mcp.Common.Sets.{
  intersection, difference, sorted, contains-intersection, contains-difference, contains-sorted,
}
use precis_mcp.Ingestion.Shape.{normalise_type, is_empty, mismatch_of, mismatches, compare_shapes}

contains-keys : (d : Dict Text) (col : Text) → contains (keys d) col ≡ is_some (lookup col d)
unfolding lookup
contains-keys [] col = refl
contains-keys ((k, v) ∷ d) col = ground (arith, contains-keys d col)

is_empty-contains : (xs : List Text) (a : Text) → is_empty xs ≡ true → contains xs a ≡ false
is_empty-contains [] a h = refl
is_empty-contains (x ∷ xs) a h = cc h

is_empty_when : (xs : List Text) → ((a : Text) → contains xs a ≡ false) → is_empty xs ≡ true
is_empty_when [] h = refl
is_empty_when (x ∷ xs) h = ground (arith, h x, text_beq_iff x x)

abbrev normal : Option Text → Option Text
normal none = none
normal (some t) = some (normalise_type t)

-- Two shapes with the same columns, of types that are the same but for white space.
abbrev pub IsSameShape : Dict Text → Dict Text → Type 0
IsSameShape live staging = (col : Text) → normal (lookup col live) ≡ normal (lookup col staging)

append_empty {ℓ} :
    {A : Type ℓ} (xs ys : List A) → is_empty (xs ++ ys) ≡ true → (xs ≡ []) × (is_empty ys ≡ true)
append_empty [] ys h = (refl, h)
append_empty (x ∷ xs) ys h = cc h

-- Columns that both shapes have and that do not differ are of the same type.
mismatch_of-nil :
    (col : Text) (l s : Option Text)
    → is_some l ≡ is_some s
    → mismatch_of col l s ≡ []
    → normal l ≡ normal s
mismatch_of-nil col none none e h = refl
mismatch_of-nil col none (some s) e h = cc e
mismatch_of-nil col (some l) none e h = cc e
mismatch_of-nil col (some l) (some s) e h =
    ground (arith, text_beq_iff (normalise_type l) (normalise_type s))

mismatch_of-same : (col : Text) (l s : Option Text) → normal l ≡ normal s → mismatch_of col l s ≡ []
mismatch_of-same col none s e = refl
mismatch_of-same col (some l) none e = refl
mismatch_of-same col (some l) (some s) e =
    ground (arith, text_beq_iff (normalise_type l) (normalise_type s))

is_some-normal : (l s : Option Text) → normal l ≡ normal s → is_some l ≡ is_some s
is_some-normal none none e = refl
is_some-normal none (some s) e = cc e
is_some-normal (some l) none e = cc e
is_some-normal (some l) (some s) e = refl

and_not : (p : Bool) → (p && not p) ≡ false
and_not p = ground arith

both_missing : (l s : Option Text) → is_some l ≡ false → is_some l ≡ is_some s → normal l ≡ normal s
both_missing none none e h = refl
both_missing none (some s) e h = cc h
both_missing (some l) s e h = cc e

none_in :
    (a b : Dict Text)
    → IsSameShape a b
    → (col : Text) → contains (sorted (difference (keys a) (keys b))) col ≡ false
none_in a b same col =
    rw
      (
        contains-sorted (difference (keys a) (keys b)) col,
        contains-difference (keys a) (keys b) col,
        contains-keys a col,
        contains-keys b col,
        is_some-normal (lookup col a) (lookup col b) (same col),
      )
      (and_not (is_some (lookup col b)))

module _ (live staging : Dict Text) where
  mismatches-same :
      (cols : List Text) (col : Text)
      → is_empty (mismatches live staging cols) ≡ true
      → contains cols col ≡ true
      → mismatch_of col (lookup col live) (lookup col staging) ≡ []
  unfolding mismatches
  mismatches-same [] col h k = cc k
  mismatches-same (c ∷ cols) col h k =
      let (here, later) =
        append_empty (mismatch_of c (lookup c live) (lookup c staging))
          (mismatches live staging cols) h in
      elim (Bool-cases (text_beq c col)) [
        | inl e ↦
            subst (λ x. mismatch_of x (lookup x live) (lookup x staging) ≡ [])
              ((text_beq_iff c col).0 e) here
        | inr e ↦ mismatches-same cols col later (rw e at k)
      ]

  same-mismatches :
      IsSameShape live staging → (cols : List Text) → mismatches live staging cols ≡ []
  unfolding mismatches
  same-mismatches same [] = refl
  same-mismatches same (c ∷ cols) =
      rw (mismatch_of-same c (lookup c live) (lookup c staging) (same c), same-mismatches same cols)

  abbrev common : List Text
  common = sorted (intersection (keys live) (keys staging))

  compare_shapes-same : (compare_shapes live staging).passed ≡ true → IsSameShape live staging
  unfolding compare_shapes
  compare_shapes-same h col =
      let missing : is_empty (sorted (difference (keys live) (keys staging))) ≡ true =
        ground arith in
      let extra : is_empty (sorted (difference (keys staging) (keys live))) ≡ true = ground arith in
      let differing : is_empty (mismatches live staging common) ≡ true = ground arith in
      let both : is_some (lookup col live) ≡ is_some (lookup col staging) = ground (
        arith,
        is_empty-contains (sorted (difference (keys live) (keys staging))) col missing,
        is_empty-contains (sorted (difference (keys staging) (keys live))) col extra,
        contains-sorted (difference (keys live) (keys staging)) col,
        contains-sorted (difference (keys staging) (keys live)) col,
        contains-difference (keys live) (keys staging) col,
        contains-difference (keys staging) (keys live) col,
        contains-keys live col,
        contains-keys staging col,
      ) in
      elim (Bool-cases (is_some (lookup col live))) [
        | inl e ↦ mismatch_of-nil col (lookup col live) (lookup col staging) both (
            mismatches-same common col differing (
              rw
                (
                  contains-sorted (intersection (keys live) (keys staging)) col,
                  contains-intersection (keys live) (keys staging) col,
                  contains-keys live col,
                  contains-keys staging col,
                  ← both,
                  e,
                )
                refl))
        | inr e ↦ both_missing (lookup col live) (lookup col staging) e both
      ]

  compare_shapes_passes : IsSameShape live staging → (compare_shapes live staging).passed ≡ true
  unfolding compare_shapes
  compare_shapes_passes same =
      let missing =
        is_empty_when (sorted (difference (keys live) (keys staging)))
          (λ a. none_in live staging same a) in
      let extra =
        is_empty_when (sorted (difference (keys staging) (keys live)))
          (λ a. none_in staging live (λ col. sym (same col)) a) in
      rw (missing, extra, same-mismatches same common)

-- A staging table passes the comparison exactly when it has the columns of the live table and each column's
-- type is, but for white space, the type that it has there.
pub compare_shapes-passed :
    (live staging : Dict Text)
    → (compare_shapes live staging).passed ≡ true ↔ IsSameShape live staging
compare_shapes-passed live staging =
    (compare_shapes-same live staging, compare_shapes_passes live staging)
