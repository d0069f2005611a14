-- ===== src/Scope/Merge.antt =====
-- The merge of a caller's filters with those of a scope (precis_mcp/engine/scope_enforcer.py).
use precis_mcp.Common.{
  contains, Text, text_beq, text_beq_iff, text_eq, string_eq, nat_eq, if◌then◌else◌, Bool-cases,
  ◌≡◌, refl, sym, ap, subst, ◌∙◌, inl, inr, Bool, true, false, ◌&&◌, Option, none, some, List, [],
  ◌∷◌, arith,
}
use precis_mcp.Common.Maps.{Dict, lookup, insert, lookup-insert}
use precis_mcp.Common.Sets.{
  set_of, intersection, contains-sorted, contains-set_of, contains-intersection,
}
use precis_mcp.Scope.{Filter, merged_ids, merge_into, merge_dimension_filters}
use precis_mcp.Scope.{some_filter}

-- Whether a filter lets an id of a column through.
abbrev pub passes : Option (List Text) → Text → Bool
passes none a = true
passes (some ids) a = contains ids a

abbrev pub admits : Filter → Text → Text → Bool
admits none column a = true
admits (some f) column a = passes (lookup column f) a

-- The keys of a dict differ.
abbrev pub IsDict {ℓ} : {V : Type ℓ} → Dict V → Type ℓ
IsDict [] = Unit
IsDict ((k, v) ∷ d) = (lookup k d ≡ none) × IsDict d

passes-merged_ids :
    (o : Option (List Text)) (ids : List Text) (a : Text)
    → passes (some (merged_ids o ids)) a ≡ (passes o a && contains ids a)
passes-merged_ids none ids a = refl
passes-merged_ids (some own) ids a =
    contains-sorted (intersection (set_of own) (set_of ids)) a
    ∙ contains-intersection (set_of own) (set_of ids) a
    ∙ rw (contains-set_of own a, contains-set_of ids a) refl

and_true : (b : Bool) → (b && true) ≡ b
and_true true = refl
and_true false = refl

and_assoc : (a b c : Bool) → ((a && b) && c) ≡ (a && (b && c))
and_assoc a b c = ground arith

other_key : (j k : Text) → text_beq j k ≡ false → text_beq k j ≡ false
other_key j k h = ground (arith, text_beq_iff j k, text_beq_iff k j)

-- What one column's filter lets through: all ids of other columns.
abbrev limit : Text → Text → List Text → Text → Bool
limit column k ids a = if text_beq k column then contains ids a else true

passes-lookup_cons :
    (column k a : Text) (ids : List Text) (d : Dict (List Text))
    → lookup k d ≡ none
    → passes (lookup column ((k, ids) ∷ d)) a ≡ (limit column k ids a && passes (lookup column d) a)
unfolding lookup
passes-lookup_cons column k a ids d h = elim (Bool-cases (text_beq k column)) [
  | inl e ↦
      let q : k ≡ column = (text_beq_iff k column).0 e in
      let r : lookup column d ≡ none = subst (λ c. lookup c d ≡ none) q h in
      rw (e, r) (sym (and_true (contains ids a)))
  | inr e ↦ rw e refl
]

passes-insert_merged :
    (column k a : Text) (ids : List Text) (d : Dict (List Text))
    → passes (lookup column (insert k (merged_ids (lookup k d) ids) d)) a
      ≡ (passes (lookup column d) a && limit column k ids a)
passes-insert_merged column k a ids d = elim (Bool-cases (text_beq k column)) [
  | inl e ↦
      let q : k ≡ column = (text_beq_iff k column).0 e in
      rw (lookup-insert column k (merged_ids (lookup k d) ids) d, e)
        (rw q (passes-merged_ids (lookup column d) ids a))
  | inr e ↦
      rw (lookup-insert column k (merged_ids (lookup k d) ids) d, e)
        (sym (and_true (passes (lookup column d) a)))
]

passes-merge_into :
    (column a : Text) (d scope : Dict (List Text))
    → IsDict scope
    → passes (lookup column (merge_into d scope)) a
      ≡ (passes (lookup column d) a && passes (lookup column scope) a)
unfolding merge_into
passes-merge_into column a d [] h = unfold lookup in sym (and_true (passes (lookup column d) a))
passes-merge_into column a d ((k, ids) ∷ rest) (fresh, h) =
    passes-merge_into column a (insert k (merged_ids (lookup k d) ids) d) rest h
    ∙ ap (λ x. x && passes (lookup column rest) a) (passes-insert_merged column k a ids d)
    ∙ and_assoc (passes (lookup column d) a) (limit column k ids a) (passes (lookup column rest) a)
    ∙ ap (λ x. passes (lookup column d) a && x) (sym (passes-lookup_cons column k a ids rest fresh))

admits-some_filter :
    (column a : Text) (d : Dict (List Text))
    → admits (some_filter d) column a ≡ passes (lookup column d) a
admits-some_filter column a [] = unfold lookup in refl
admits-some_filter column a (x ∷ xs) = refl

-- The merged filter lets through exactly the ids that both the caller's filter and the scope let through:
-- a caller can narrow a scope and never widen it. (The scope is a dict: its columns differ.)
pub admits-merge_dimension_filters :
    (user : Filter) (scope : Dict (List Text)) (column a : Text)
    → IsDict scope
    → admits (merge_dimension_filters user scope) column a
      ≡ (admits user column a && passes (lookup column scope) a)
unfolding merge_dimension_filters
admits-merge_dimension_filters user [] column a h =
    unfold lookup in sym (and_true (admits user column a))
admits-merge_dimension_filters none (x ∷ xs) column a h = refl
admits-merge_dimension_filters (some user) (x ∷ xs) column a h =
    admits-some_filter column a (merge_into user (x ∷ xs))
    ∙ passes-merge_into column a user (x ∷ xs) h

pub IsDict-insert :
    (k : Text) (v : List Text) (d : Dict (List Text)) → IsDict d → IsDict (insert k v d)
unfolding insert
IsDict-insert k v [] h = unfold lookup in (refl, tt)
IsDict-insert k v ((j, w) ∷ d) (fresh, h) = elim (Bool-cases (text_beq j k)) [
  | inl e ↦
      let q : j ≡ k = (text_beq_iff j k).0 e in rw e (subst (λ c. lookup c d ≡ none) q fresh, h)
  | inr e ↦ rw e (lookup-insert j k v d ∙ rw (other_key j k e, fresh) refl, IsDict-insert k v d h)
]
