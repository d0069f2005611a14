-- ===== src/Locks/Conditions.antt =====
-- What a lock condition locks.
use precis_mcp.Common.{
  contains, Text, codes, text_beq, text_beq_iff, text_eq, string_eq, nat_eq, Bool-cases,
  Option-cases, ◌≡◌, refl, ap, subst, ◌∙◌, inl, inr, Bool, false, not, ◌&&◌, ◌||◌, Option, none,
  some, List, [], ◌∷◌, arith,
}
use precis_mcp.Common.Result.{>>=-eq-ok, Result, err, ok}
use precis_mcp.Common.Maps.{lookup, lookup-insert}
use precis_mcp.Common.Sets.{union, set_of, contains-union, contains-set_of}
use precis_mcp.Period.{PeriodError, generate_monthly_range}
use precis_mcp.Filters.{
  Source, Dimension, Catalogue, Members, FilterError, Resolution, find_filter_target, leaves_of,
  some_leaves, resolve_single_value,
}
use precis_mcp.Filters.Targets.{leaf_of, leaves_of-leaf_of}
use precis_mcp.Locks.{
  LockValue, Condition, Resolved, or_lock_error, period_source, expand_from, expand_period_range,
  period_key, bound, is_special, ids_of, lock_leaves, resolve_periods, add_found, resolve_values,
  add_all_found, add_one, lock_value, lock_values, resolve_lock_condition, one, many,
}

abbrev leaf_if_known : Result FilterError (Dimension × Resolution) → Text
leaf_if_known (err e) = []
leaf_if_known (ok (dim, resolution)) = leaf_of dim resolution

some_leaves-eq_ok :
    (members : Members) (found : Text × List Text) (key : Text) (leaves : List Text)
    → some_leaves members found ≡ ok (key, leaves)
    → found ≡ (key, leaves)
some_leaves-eq_ok members (k, []) key leaves h = absurd (cc h)
some_leaves-eq_ok members (k, x ∷ xs) key leaves h = cc h

resolve_single_value-leaf :
    (members : Members) (catalogue : Catalogue) (key value leaf_key : Text) (leaves : List Text)
    → resolve_single_value members catalogue key value ≡ ok (leaf_key, leaves)
    → leaf_key ≡ leaf_if_known (find_filter_target catalogue key)
unfolding resolve_single_value
resolve_single_value-leaf members catalogue key value leaf_key leaves h =
    let ((dim, resolution), target, more) = >>=-eq-ok (find_filter_target catalogue key) _ h in
    let (found, made, e) =
      >>=-eq-ok (leaves_of members dim resolution value) (some_leaves members) more in
    rw target (
      leaves_of-leaf_of members dim resolution value leaf_key leaves
        (cc (made, some_leaves-eq_ok members found leaf_key leaves e)))

-- The keys that are no filters.
abbrev pub is_range_key : Text → Bool
is_range_key key =
    (text_beq (codes "period_from") key || text_beq (codes "period_to") key)
    || text_beq (codes "_type") key

-- A bound that is given as a text.
abbrev pub given_bound : Option LockValue → Text
given_bound none = []
given_bound (some (one t)) = t
given_bound (some (many ts)) = []

bound_lem : (o : Option LockValue) → bound o ≡ given_bound o
bound_lem none = refl
bound_lem (some (one t)) = refl
bound_lem (some (many ts)) = refl

-- A list of months that was generated has the month.
abbrev pub generated_has : Result PeriodError (Option (List Text)) → Text → Bool
generated_has (err e) a = false
generated_has (ok none) a = false
generated_has (ok (some periods)) a = contains periods a

abbrev pub locks : Resolved → Text → Text → Bool
locks resolved dim a = contains (ids_of (lookup dim resolved)) a

locks-lock_leaves :
    (key : Text) (leaves : List Text) (resolved : Resolved) (dim a : Text)
    → locks (lock_leaves key leaves resolved) dim a
      ≡ (locks resolved dim a || (text_beq key dim && contains leaves a))
locks-lock_leaves key leaves resolved dim a = elim (Option-cases (lookup key resolved)) [
  | inl e ↦ ground (
    arith,
    lookup-insert dim key (set_of leaves) resolved,
    contains-set_of leaves a,
    text_beq_iff key dim,
  )
  | inr (ids, e) ↦ ground (
    arith,
    lookup-insert dim key (union ids (set_of leaves)) resolved,
    contains-union ids (set_of leaves) a,
    contains-set_of leaves a,
    text_beq_iff key dim,
  )
]

or_assoc : (p q r : Bool) → ((p || q) || r) ≡ (p || (q || r))
or_assoc p q r = ground arith

module _ (members : Members) (catalogue : Catalogue)
    (period_rows : Source → Text → Text → List Text) where
  -- The value of a key has this leaf, in this dimension.
  abbrev pub names : Result FilterError (Text × List Text) → Text → Text → Bool
  names (err e) dim a = false
  names (ok (key, leaves)) dim a = text_beq key dim && contains leaves a

  abbrev pub any_names : Text → List Text → Text → Text → Bool
  any_names key [] dim a = false
  any_names key (v ∷ vs) dim a =
      names (resolve_single_value members catalogue key v) dim a || any_names key vs dim a

  abbrev pub value_names : Text → LockValue → Text → Text → Bool
  value_names key (one v) dim a = names (resolve_single_value members catalogue key v) dim a
  value_names key (many vs) dim a = any_names key vs dim a

  abbrev pub condition_names : Condition → Text → Text → Bool
  condition_names [] dim a = false
  condition_names ((key, value) ∷ condition) dim a =
      (not (is_range_key key) && value_names key value dim a) || condition_names condition dim a

  is_special_lem : (key : Text) → is_special key ≡ is_range_key key
  is_special_lem key = ground arith

  -- What the loop over values has found is in this dimension.
  abbrev IsIn : Text → Option Text × List Text → Type 0
  IsIn home (none, leaves) = leaves ≡ []
  IsIn home (some key, leaves) = key ≡ home

  IsIn-add_found :
      (home : Text) (found : Option Text × List Text) (r : Result FilterError (Text × List Text))
      → ((key : Text) (leaves : List Text) → r ≡ ok (key, leaves) → key ≡ home)
      → IsIn home found
      → IsIn home (add_found members catalogue period_rows found r)
  IsIn-add_found home found (err e) at_home h = h
  IsIn-add_found home (last, leaves) (ok (key, more)) at_home h = at_home key more refl

  contains-add_found :
      (home : Text) (found : Option Text × List Text) (r : Result FilterError (Text × List Text))
      (dim a : Text)
      → ((key : Text) (leaves : List Text) → r ≡ ok (key, leaves) → key ≡ home)
      → (text_beq home dim && contains (add_found members catalogue period_rows found r).1 a)
        ≡ ((text_beq home dim && contains found.1 a) || names r dim a)
  contains-add_found home found (err e) dim a at_home = ground arith
  contains-add_found home (last, leaves) (ok (key, more)) dim a at_home = ground (
    arith,
    contains-union leaves (set_of more) a,
    contains-set_of more a,
    ap (λ k. text_beq k dim) (at_home key more refl),
  )

  resolve_values_lem :
      (home key : Text) (vs : List Text) (found : Option Text × List Text) (dim a : Text)
      → ((v leaf_key : Text) (leaves : List Text)
          → resolve_single_value members catalogue key v ≡ ok (leaf_key, leaves)
          → leaf_key ≡ home)
      → IsIn home found
      → IsIn home (resolve_values members catalogue period_rows key vs found)
        × ((text_beq home dim
              && contains (resolve_values members catalogue period_rows key vs found).1 a)
            ≡ ((text_beq home dim && contains found.1 a) || any_names key vs dim a))
  unfolding resolve_values
  resolve_values_lem home key [] found dim a at_home h = (h, ground arith)
  resolve_values_lem home key (v ∷ vs) found dim a at_home h =
      let r = resolve_single_value members catalogue key v in
      let (kept, same) =
        resolve_values_lem home key vs (add_found members catalogue period_rows found r) dim a
          at_home (IsIn-add_found home found r (at_home v) h) in
      (kept, ground (arith, same, contains-add_found home found r dim a (at_home v)))

  locks-add_all_found :
      (home : Text) (found : Option Text × List Text) (resolved : Resolved) (dim a : Text)
      → IsIn home found
      → locks (add_all_found members catalogue period_rows found resolved) dim a
        ≡ (locks resolved dim a || (text_beq home dim && contains found.1 a))
  locks-add_all_found home (none, leaves) resolved dim a h = rw h (ground arith)
  locks-add_all_found home (some key, []) resolved dim a h = ground arith
  locks-add_all_found home (some key, x ∷ xs) resolved dim a h =
      subst
        (λ k.
          locks (lock_leaves key (x ∷ xs) resolved) dim a
          ≡ (locks resolved dim a || (text_beq k dim && contains (x ∷ xs) a)))
        h (locks-lock_leaves key (x ∷ xs) resolved dim a)

  locks-lock_value :
      (key : Text) (value : LockValue) (resolved : Resolved) (dim a : Text)
      → locks (lock_value members catalogue period_rows key value resolved) dim a
        ≡ (locks resolved dim a || value_names key value dim a)
  locks-lock_value key (one v) resolved dim a =
      one_case (resolve_single_value members catalogue key v)
    where
      one_case :
          (r : Result FilterError (Text × List Text))
          → locks (add_one members catalogue period_rows r resolved) dim a
            ≡ (locks resolved dim a || names r dim a)
      one_case (err e) = ground arith
      one_case (ok (k, leaves)) = locks-lock_leaves k leaves resolved dim a
  locks-lock_value key (many vs) resolved dim a =
      let home = leaf_if_known (find_filter_target catalogue key) in
      let (kept, same) =
        resolve_values_lem home key vs (none, []) dim a
          (resolve_single_value-leaf members catalogue key) refl in
      ground (
        arith,
        same,
        locks-add_all_found home (resolve_values members catalogue period_rows key vs (none, []))
            resolved dim a kept,
      )

  locks-lock_values :
      (condition : Condition) (resolved : Resolved) (dim a : Text)
      → locks (lock_values members catalogue period_rows condition resolved) dim a
        ≡ (locks resolved dim a || condition_names condition dim a)
  unfolding lock_values
  locks-lock_values [] resolved dim a = ground arith
  locks-lock_values ((key, value) ∷ condition) resolved dim a = elim (Bool-cases (is_special key)) [
    | inl e ↦ rw (← is_special_lem key, e) (locks-lock_values condition resolved dim a)
    | inr e ↦
        rw (← is_special_lem key, e)
          (locks-lock_values condition (lock_value members catalogue period_rows key value resolved)
              dim a
            ∙ ap (λ b. b || condition_names condition dim a)
                (locks-lock_value key value resolved dim a)
            ∙ or_assoc (locks resolved dim a) (value_names key value dim a)
                (condition_names condition dim a))
  ]

  -- The rows of the period table between two bounds, where the dimension `period` has a source; the
  -- calendar months from the one to the other, where it has none.
  abbrev pub period_listed : Option Source → Text → Text → Text → Bool
  period_listed (some source) start end a = contains (period_rows source start end) a
  period_listed none start end a = generated_has (generate_monthly_range start end) a

  -- The period is in the range of two bounds, of which an empty one is missing: no bound gives no period,
  -- and one bound only itself.
  abbrev pub in_range : Text → Text → Text → Bool
  in_range [] [] a = false
  in_range (c ∷ cs) [] a = text_beq (c ∷ cs) a
  in_range [] (d ∷ ds) a = text_beq (d ∷ ds) a
  in_range (c ∷ cs) (d ∷ ds) a =
      period_listed
        (elim (lookup period_key catalogue.dimensions) [ none ↦ none | some dim ↦ dim.source ])
        (c ∷ cs) (d ∷ ds) a

  locks_one :
      (p dim a : Text) (leaves : List Text)
      → locks ((p, leaves) ∷ []) dim a ≡ (text_beq p dim && contains leaves a)
  unfolding lookup
  locks_one p dim a leaves = elim (Bool-cases (text_beq p dim)) [
    | inl e ↦ rw e refl
    | inr e ↦ rw e refl
  ]

  locks_generated :
      (r : Result PeriodError (Option (List Text))) (periods : List Text) (dim a : Text)
      → or_lock_error r ≡ ok periods
      → locks ((period_key, set_of periods) ∷ []) dim a
        ≡ (text_beq period_key dim && generated_has r a)
  locks_generated (err e) periods dim a h = absurd (cc h)
  locks_generated (ok none) periods dim a h = absurd (cc h)
  locks_generated (ok (some listed)) periods dim a h =
      let same : listed ≡ periods = cc h in
      locks_one period_key dim a (set_of periods) ∙ rw (contains-set_of periods a, same) refl

  locks_listed :
      (source : Option Source) (start end : Text) (periods : List Text) (dim a : Text)
      → expand_from period_rows source start end ≡ ok periods
      → locks ((period_key, set_of periods) ∷ []) dim a
        ≡ (text_beq period_key dim && period_listed source start end a)
  locks_listed none start end periods dim a h =
      locks_generated (generate_monthly_range start end) periods dim a h
  locks_listed (some source) start end periods dim a h =
      let same : period_rows source start end ≡ periods = cc h in
      locks_one period_key dim a (set_of periods) ∙ rw (contains-set_of periods a, same) refl

  source_of_period :
      (o : Option Dimension) → period_source o ≡ elim o [ none ↦ none | some dim ↦ dim.source ]
  source_of_period none = refl
  source_of_period (some dim) = refl

  locks-resolve_periods :
      (from to : Text) (periods : Resolved) (dim a : Text)
      → resolve_periods members catalogue period_rows from to ≡ ok periods
      → locks periods dim a ≡ (text_beq period_key dim && in_range from to a)
  unfolding expand_period_range lookup
  locks-resolve_periods [] [] periods dim a h =
      let same : [] ≡ periods = cc h in rw (← same) (ground arith)
  locks-resolve_periods (c ∷ cs) [] periods dim a h =
      let same : (period_key, (c ∷ cs) ∷ []) ∷ [] ≡ periods = cc h in
      rw (← same) (locks_one period_key dim a ((c ∷ cs) ∷ []) ∙ ground arith)
  locks-resolve_periods [] (d ∷ ds) periods dim a h =
      let same : (period_key, (d ∷ ds) ∷ []) ∷ [] ≡ periods = cc h in
      rw (← same) (locks_one period_key dim a ((d ∷ ds) ∷ []) ∙ ground arith)
  locks-resolve_periods (c ∷ cs) (d ∷ ds) periods dim a h =
      let (listed, found, e) =
        >>=-eq-ok (expand_period_range members catalogue period_rows (c ∷ cs) (d ∷ ds))
          (λ ps. ok ((period_key, set_of ps) ∷ [])) h in
      let same : (period_key, set_of listed) ∷ [] ≡ periods = cc e in
      rw (← same, ← source_of_period (lookup period_key catalogue.dimensions))
        (locks_listed (period_source (lookup period_key catalogue.dimensions)) (c ∷ cs) (d ∷ ds)
          listed dim a found)

  -- A lock condition that resolves locks, in each leaf dimension, exactly these: in the dimension `period`,
  -- the periods of its range, which are those of the period table between the two bounds, or the calendar
  -- months where there is no table, or the one bound that is given; and the leaves of those of its values
  -- that resolve to the dimension.
  pub resolve_lock_condition-locks :
      (condition : Condition) (resolved : Resolved) (dim a : Text)
      → resolve_lock_condition members catalogue period_rows condition ≡ ok resolved
      → locks resolved dim a ≡ (
          (text_beq period_key dim
            && in_range
                (given_bound (lookup (codes "period_from") condition))
                (given_bound (lookup (codes "period_to") condition))
                a)
          || condition_names condition dim a)
  unfolding resolve_lock_condition
  resolve_lock_condition-locks condition resolved dim a h =
      let (periods, found, e) =
        >>=-eq-ok
          (resolve_periods members catalogue period_rows
            (bound (lookup (codes "period_from") condition))
            (bound (lookup (codes "period_to") condition)))
          (λ p. ok (lock_values members catalogue period_rows condition p)) h in
      let same : lock_values members catalogue period_rows condition periods ≡ resolved = cc e in
      subst (λ r. locks r dim a ≡ (locks periods dim a || condition_names condition dim a)) same
        (locks-lock_values condition periods dim a)
      ∙ ap (λ b. b || condition_names condition dim a)
          (rw
            (
              ← bound_lem (lookup (codes "period_from") condition),
              ← bound_lem (lookup (codes "period_to") condition),
            )
            (locks-resolve_periods (bound (lookup (codes "period_from") condition))
              (bound (lookup (codes "period_to") condition)) periods dim a found))
