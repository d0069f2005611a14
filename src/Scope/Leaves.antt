-- ===== src/Scope/Leaves.antt =====
-- The leaf sets of a scope (precis_mcp/engine/scope_enforcer.py), beside a description that does not
-- build them.
use precis_mcp.Common.{
  All, ◌≢◌, contains, Text, text_beq, text_beq_iff, text_eq, string_eq, nat_eq, if◌then◌else◌,
  Bool-cases, ◌≡◌, refl, sym, ap, subst, ◌∙◌, inl, inr, Bool, true, false, not, ◌&&◌, ◌||◌, Option,
  none, some, List, [], ◌∷◌, arith,
}
use precis_mcp.Common.Result.{>>=-eq-ok, Result, err, ok}
use precis_mcp.Common.Maps.{Dict, lookup, keys, lookup-insert}
use precis_mcp.Common.Sets.{union, contains-union, contains-difference}
use precis_mcp.Filters.{
  Catalogue, Members, Dimension, FilterError, Resolution, find_filter_target, leaves_of,
}
use precis_mcp.Filters.Targets.{leaf_of, leaves_of-leaf_of}
use precis_mcp.Scope.{
  DimensionScope, DomainScope, or_unresolved, set_or_empty, add_leaves, add_values, scope_members,
  resolve_side, all_leaf_ids, allowed_or_all, effective, leaf_sets_for, resolve_scope_leaf_sets,
}
use precis_mcp.Scope.{is_empty}
use precis_mcp.Scope.{resolve_sets}

-- A value of a side of a scope stands for members of the leaf dimension `key`.
abbrev pub stands_for : Text → Result FilterError (Text × List Text) → Bool
stands_for key (err e) = false
stands_for key (ok (k, leaves)) = text_beq k key

-- ... and `a` is one of them.
abbrev pub reaches : Text → Text → Result FilterError (Text × List Text) → Bool
reaches key a (err e) = false
reaches key a (ok (k, leaves)) = text_beq k key && contains leaves a

-- Some value of the side satisfies the test.
module _ (members : Members) (catalogue : Catalogue)
    (test : Result FilterError (Text × List Text) → Bool) where
  abbrev pub any_value : Dimension → Resolution → List Text → Bool
  any_value dim resolution [] = false
  any_value dim resolution (v ∷ vs) =
      test (leaves_of members dim resolution v) || any_value dim resolution vs

  abbrev pub any_of_target : Result FilterError (Dimension × Resolution) → List Text → Bool
  any_of_target (err e) values = false
  any_of_target (ok (dim, resolution)) values = any_value dim resolution values

  abbrev pub any_member : Dict (List Text) → Bool
  any_member [] = false
  any_member ((key, values) ∷ rest) =
      any_of_target (find_filter_target catalogue key) values || any_member rest

  abbrev pub any_of_side : Option (Dict (List Text)) → Bool
  any_of_side none = false
  any_of_side (some side) = any_member side

-- Some key of the side stands for the leaf dimension `key`, whatever its values.
module _ (catalogue : Catalogue) (key : Text) where
  abbrev pub is_target : Result FilterError (Dimension × Resolution) → Bool
  is_target (err e) = false
  is_target (ok (dim, resolution)) = text_beq (leaf_of dim resolution) key

  abbrev pub mentions : Dict (List Text) → Bool
  mentions [] = false
  mentions ((k, values) ∷ rest) = is_target (find_filter_target catalogue k) || mentions rest

  abbrev pub is_mentioned : Option (Dict (List Text)) → Bool
  is_mentioned none = false
  is_mentioned (some side) = mentions side

-- Every key of the side has a value, and so has the side.
abbrev AllFilled : Dict (List Text) → Type 0
AllFilled side = All (λ item. item.1 ≢ []) side

abbrev pub IsFilled : Option (Dict (List Text)) → Type 0
IsFilled none = Unit
IsFilled (some side) = (side ≢ []) × AllFilled side

abbrev pub is_there : Option (List Text) → Bool
is_there none = false
is_there (some s) = true

unresolved-eq-ok :
    {A : Type 0} (r : Result FilterError A) (a : A) → or_unresolved r ≡ ok a → r ≡ ok a
unresolved-eq-ok (err e) a h = absurd (cc h)
unresolved-eq-ok (ok b) a h = let q : b ≡ a = cc h in ap ok q

module _ (members : Members) (catalogue : Catalogue) (key : Text) where
  is_there-add_leaves :
      (k : Text) (leaves : List Text) (sets : Dict (List Text))
      → is_there (lookup key (add_leaves (k, leaves) sets))
        ≡ (is_there (lookup key sets) || text_beq k key)
  is_there-add_leaves k leaves sets =
      rw (lookup-insert key k (union (set_or_empty (lookup k sets)) leaves) sets) (ground arith)

  contains-add_leaves :
      (a k : Text) (leaves : List Text) (sets : Dict (List Text))
      → contains (set_or_empty (lookup key (add_leaves (k, leaves) sets))) a
        ≡ (contains (set_or_empty (lookup key sets)) a || (text_beq k key && contains leaves a))
  contains-add_leaves a k leaves sets = elim (Bool-cases (text_beq k key)) [
    | inl e ↦
        let q : k ≡ key = (text_beq_iff k key).0 e in
        rw (
          lookup-insert key k (union (set_or_empty (lookup k sets)) leaves) sets,
          e,
          contains-union (set_or_empty (lookup k sets)) leaves a,
          q,
        )
    | inr e ↦
        rw (lookup-insert key k (union (set_or_empty (lookup k sets)) leaves) sets, e)
          (ground arith)
  ]

  module _ (a : Text) where
    -- What the sets so far say of a key, with what the values that are still to come say.
    abbrev HasValues :
        Dimension → Resolution → List Text → Dict (List Text) → Dict (List Text) → Type 0
    HasValues dim resolution values sets sets' =
        (is_there (lookup key sets') ≡ (
          is_there (lookup key sets)
          || any_value members catalogue (stands_for key) dim resolution values))
        × (contains (set_or_empty (lookup key sets')) a ≡ (
            contains (set_or_empty (lookup key sets)) a
            || any_value members catalogue (reaches key a) dim resolution values))

    add_values-HasValues :
        (dim : Dimension) (resolution : Resolution) (values : List Text)
        (sets sets' : Dict (List Text))
        → add_values members catalogue dim resolution values sets ≡ ok sets'
        → HasValues dim resolution values sets sets'
    unfolding add_values
    add_values-HasValues dim resolution [] sets sets' h =
        let q : sets ≡ sets' = cc h in rw (← q) (ground arith, ground arith)
    add_values-HasValues dim resolution (v ∷ vs) sets sets' h =
        let ((k, leaves), found, more) =
          >>=-eq-ok (or_unresolved (leaves_of members dim resolution v)) _ h in
        let e = unresolved-eq-ok (leaves_of members dim resolution v) (k, leaves) found in
        let (there, has) =
          add_values-HasValues dim resolution vs (add_leaves (k, leaves) sets) sets' more in
        rw e (
          there ∙ rw (is_there-add_leaves k leaves sets) (ground arith),
          has ∙ rw (contains-add_leaves a k leaves sets) (ground arith),
        )

    abbrev HasMembers : Dict (List Text) → Dict (List Text) → Dict (List Text) → Type 0
    HasMembers side sets sets' =
        (is_there (lookup key sets')
          ≡ (is_there (lookup key sets) || any_member members catalogue (stands_for key) side))
        × (contains (set_or_empty (lookup key sets')) a ≡ (
            contains (set_or_empty (lookup key sets)) a
            || any_member members catalogue (reaches key a) side))

    scope_members-HasMembers :
        (side sets sets' : Dict (List Text))
        → scope_members members catalogue side sets ≡ ok sets'
        → HasMembers side sets sets'
    unfolding scope_members
    scope_members-HasMembers [] sets sets' h =
        let q : sets ≡ sets' = cc h in rw (← q) (ground arith, ground arith)
    scope_members-HasMembers ((k, values) ∷ rest) sets sets' h =
        let ((dim, resolution), found, more) =
          >>=-eq-ok (or_unresolved (find_filter_target catalogue k)) _ h in
        let e = unresolved-eq-ok (find_filter_target catalogue k) (dim, resolution) found in
        let (mid, added, last) =
          >>=-eq-ok (add_values members catalogue dim resolution values sets) _ more in
        let (there, has) = add_values-HasValues dim resolution values sets mid added in
        let (there', has') = scope_members-HasMembers rest mid sets' last in
        rw e (there' ∙ rw there (ground arith), has' ∙ rw has (ground arith))

    resolve_side-HasMembers :
        (side : Option (Dict (List Text))) (sets : Dict (List Text))
        → resolve_side members catalogue side ≡ ok sets
        → (is_there (lookup key sets) ≡ any_of_side members catalogue (stands_for key) side)
          × (contains (set_or_empty (lookup key sets)) a
              ≡ any_of_side members catalogue (reaches key a) side)
    unfolding lookup
    resolve_side-HasMembers none sets h = let q : [] ≡ sets = cc h in rw (← q) (refl, refl)
    resolve_side-HasMembers (some side) sets h = scope_members-HasMembers side [] sets h

module _ (members : Members) (catalogue : Catalogue) (key : Text) where
  abbrev has_any : List Text → Bool
  has_any [] = false
  has_any (v ∷ vs) = true

  -- Once all values resolve, they stand for the leaf dimension of their key.
  any_value-leaf_of :
      (dim : Dimension) (resolution : Resolution) (values : List Text)
      (sets sets' : Dict (List Text))
      → add_values members catalogue dim resolution values sets ≡ ok sets'
      → any_value members catalogue (stands_for key) dim resolution values
        ≡ (has_any values && text_beq (leaf_of dim resolution) key)
  unfolding add_values
  any_value-leaf_of dim resolution [] sets sets' h = refl
  any_value-leaf_of dim resolution (v ∷ vs) sets sets' h =
      let ((k, leaves), found, more) =
        >>=-eq-ok (or_unresolved (leaves_of members dim resolution v)) _ h in
      let e = unresolved-eq-ok (leaves_of members dim resolution v) (k, leaves) found in
      let same : k ≡ leaf_of dim resolution =
        leaves_of-leaf_of members dim resolution v k leaves e in
      rw (e, any_value-leaf_of dim resolution vs (add_leaves (k, leaves) sets) sets' more, same)
        (ground arith)

  filled_has : (values : List Text) → values ≢ [] → has_any values ≡ true
  filled_has [] ne = absurd (ne refl)
  filled_has (v ∷ vs) ne = refl

  any_member-mentions :
      (side sets sets' : Dict (List Text))
      → scope_members members catalogue side sets ≡ ok sets'
      → AllFilled side
      → any_member members catalogue (stands_for key) side ≡ mentions catalogue key side
  unfolding scope_members
  any_member-mentions [] sets sets' h filled = refl
  any_member-mentions ((k, values) ∷ rest) sets sets' h (full, filled) =
      let ((dim, resolution), found, more) =
        >>=-eq-ok (or_unresolved (find_filter_target catalogue k)) _ h in
      let e = unresolved-eq-ok (find_filter_target catalogue k) (dim, resolution) found in
      let (mid, added, last) =
        >>=-eq-ok (add_values members catalogue dim resolution values sets) _ more in
      rw
        (
          e,
          any_value-leaf_of dim resolution values sets mid added,
          any_member-mentions rest mid sets' last filled,
          filled_has values full,
        )
        refl

  any_of_side-is_mentioned :
      (side : Option (Dict (List Text))) (sets : Dict (List Text))
      → resolve_side members catalogue side ≡ ok sets
      → IsFilled side
      → any_of_side members catalogue (stands_for key) side ≡ is_mentioned catalogue key side
  any_of_side-is_mentioned none sets h filled = refl
  any_of_side-is_mentioned (some side) sets h (ne, filled) =
      any_member-mentions side [] sets h filled

contains-keys :
    (key : Text) (d : Dict (List Text)) → contains (keys d) key ≡ is_there (lookup key d)
unfolding lookup
contains-keys key [] = refl
contains-keys key ((k, v) ∷ d) = ground (arith, contains-keys key d)

module _ (members : Members) (catalogue : Catalogue) (key : Text)
    (allow deny : Dict (List Text)) where
  lookup-leaf_sets_for :
      (ks : List Text)
      → lookup key (leaf_sets_for members catalogue ks allow deny)
        ≡ (if contains ks key then some (effective members catalogue allow deny key) else none)
  unfolding lookup
  lookup-leaf_sets_for [] = refl
  lookup-leaf_sets_for (k ∷ ks) = elim (Bool-cases (text_beq k key)) [
    | inl e ↦ let q : k ≡ key = (text_beq_iff k key).0 e in rw e (rw q refl)
    | inr e ↦ rw e (lookup-leaf_sets_for ks)
  ]

  -- The members of the effective set, by the sets of the two sides.
  contains-effective :
      (a : Text)
      → contains (effective members catalogue allow deny key) a ≡ (
          (if is_there (lookup key allow)
            then contains (set_or_empty (lookup key allow)) a
            else contains (all_leaf_ids members catalogue key) a)
          && not (contains (set_or_empty (lookup key deny)) a))
  unfolding effective
  contains-effective a =
      contains-difference (allowed_or_all members catalogue key (lookup key allow))
        (set_or_empty (lookup key deny)) a
      ∙ by_allow (lookup key allow)
    where
      by_allow :
          (o : Option (List Text))
          → (contains (allowed_or_all members catalogue key o) a
              && not (contains (set_or_empty (lookup key deny)) a))
            ≡ ((if is_there o
                  then contains (set_or_empty o) a
                  else contains (all_leaf_ids members catalogue key) a)
                && not (contains (set_or_empty (lookup key deny)) a))
      by_allow none = refl
      by_allow (some s) = refl

-- What a scope's dimension clauses come to: for every leaf dimension and every id, without building sets.
-- A leaf dimension is restricted when a key of `allow` stands for it, or a value of `deny` for members of it.
pub record Describes (members : Members) (catalogue : Catalogue) (dims : DimensionScope)
    (sets : Dict (List Text)) (key a : Text) : Type 0 where
  pub restricted : is_there (lookup key sets) ≡ (
      is_mentioned catalogue key dims.allow
      || any_of_side members catalogue (stands_for key) dims.deny)
  pub permitted :
      is_there (lookup key sets) ≡ true
      → contains (set_or_empty (lookup key sets)) a ≡ (
          (if is_mentioned catalogue key dims.allow
            then any_of_side members catalogue (reaches key a) dims.allow
            else contains (all_leaf_ids members catalogue key) a)
          && not (any_of_side members catalogue (reaches key a) dims.deny))

is_there_if : (b : Bool) (s : List Text) → is_there (if b then some s else none) ≡ b
is_there_if true s = refl
is_there_if false s = refl

sides-Describes :
    (members : Members) (catalogue : Catalogue) (dims : DimensionScope)
    (allow deny : Dict (List Text)) (key a : Text)
    → resolve_side members catalogue dims.allow ≡ ok allow
    → resolve_side members catalogue dims.deny ≡ ok deny
    → IsFilled dims.allow
    → Describes members catalogue dims
        (leaf_sets_for members catalogue (union (keys allow) (keys deny)) allow deny)
        key
        a
sides-Describes members catalogue dims allow deny key a ha hd filled =
    let named = any_of_side-is_mentioned members catalogue key dims.allow allow ha filled in
    let (by_values, has) = resolve_side-HasMembers members catalogue key a dims.allow allow ha in
    let there = by_values ∙ named in
    let (there', has') = resolve_side-HasMembers members catalogue key a dims.deny deny hd in
    let mentioned : contains (union (keys allow) (keys deny)) key
        ≡ (is_there (lookup key allow) || is_there (lookup key deny)) =
      rw
        (
          contains-union (keys allow) (keys deny) key,
          contains-keys key allow,
          contains-keys key deny,
        )
        refl in
    let ks = union (keys allow) (keys deny) in
    let size : is_there (lookup key (leaf_sets_for members catalogue ks allow deny))
        ≡ contains ks key =
      rw (lookup-leaf_sets_for members catalogue key allow deny ks)
        (is_there_if (contains ks key) (effective members catalogue allow deny key)) in
    record {
      restricted = size ∙ rw (mentioned, there, there') refl;
      permitted = λ h.
          rw (lookup-leaf_sets_for members catalogue key allow deny ks, sym size ∙ h)
            (contains-effective members catalogue key allow deny a ∙ rw (has, has', there) refl);
    }

-- When a scope restricts dimensions and resolves, and neither `allow` nor any list of it is empty, then for
-- every leaf dimension: it is restricted exactly when a key of `allow` stands for it or a value of `deny`
-- for members of it; and an id is permitted exactly when `allow` names it (or, where `allow` does not
-- mention that dimension, the dimension has it) and `deny` does not: deny wins.
pub resolve_scope_leaf_sets-Describes :
    (members : Members) (catalogue : Catalogue) (dims : DimensionScope)
    (domains : Option DomainScope) (sets : Dict (List Text)) (key a : Text)
    → resolve_scope_leaf_sets members catalogue
        (some (record { dimensions = some dims; domains = domains }))
      ≡ ok (some sets)
    → IsFilled dims.allow
    → Describes members catalogue dims sets key a
unfolding resolve_scope_leaf_sets
resolve_scope_leaf_sets-Describes members catalogue dims domains sets key a h filled =
    elim (Bool-cases
      (is_empty members catalogue dims.allow && is_empty members catalogue dims.deny)) [
        | inl e ↦ absurd (cc (rw e at h))
        | inr e ↦
            let (found, sides, same) =
              >>=-eq-ok (resolve_sets members catalogue dims) _ (rw e at h) in
            let (allow, ha, more) = >>=-eq-ok (resolve_side members catalogue dims.allow) _ sides in
            let (deny, hd, last) = >>=-eq-ok (resolve_side members catalogue dims.deny) _ more in
            let q : leaf_sets_for members catalogue (union (keys allow) (keys deny)) allow deny
                ≡ sets =
              cc (last, same) in
            subst (λ s. Describes members catalogue dims s key a) q
              (sides-Describes members catalogue dims allow deny key a ha hd filled)
      ]
