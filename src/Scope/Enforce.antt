-- ===== src/Scope/Enforce.antt =====
-- The filters that a query over several scenarios runs with (precis_mcp/engine/scope_enforcer.py).
use precis_mcp.Common.{
  All, Text, text_beq, text_beq_iff, text_eq, string_eq, nat_eq, Bool-cases, ◌≡◌, refl, sym, ap,
  subst, ◌∙◌, inl, inr, true, ◌&&◌, Option, none, some, List, [], ◌∷◌, arith,
}
use precis_mcp.Common.Result.{>>=-eq-ok, ok}
use precis_mcp.Common.Maps.{Dict, lookup, lookup-sort_items}
use precis_mcp.Common.Sets.{sorted, contains-sorted}
use precis_mcp.Filters.{Catalogue, Members, Dimension, map_to_view_column}
use precis_mcp.Scope.{
  ScopeSpec, check_domain_access, resolve_dims_sets, reject_inline, add_column, scope_columns,
  columns_of, resolve_scope_filters, Filter, merge_dimension_filters, scenario_filter,
  scenario_filters, sort_values, normalise, texts_beq, items_beq, all_same, consistent,
  enforce_cross_scenario_scope,
}
use precis_mcp.Scope.Merge.{passes, admits, IsDict, admits-merge_dimension_filters, IsDict-insert}

sort_option : Option (List Text) → Option (List Text)
sort_option none = none
sort_option (some v) = some (sorted v)

lookup-sort_values :
    (column : Text) (d : Dict (List Text))
    → lookup column (sort_values d) ≡ sort_option (lookup column d)
unfolding lookup sort_option
lookup-sort_values column [] = refl
lookup-sort_values column ((k, v) ∷ d) = elim (Bool-cases (text_beq k column)) [
  | inl e ↦ rw e refl
  | inr e ↦ rw e (lookup-sort_values column d)
]

passes-sort_option : (o : Option (List Text)) (a : Text) → passes (sort_option o) a ≡ passes o a
unfolding sort_option
passes-sort_option none a = refl
passes-sort_option (some v) a = contains-sorted v a

-- A normalised filter lets the same ids through.
passes-normalise :
    (f : Filter) (column a : Text) → passes (lookup column (normalise f)) a ≡ admits f column a
unfolding normalise
passes-normalise none column a = unfold lookup in refl
passes-normalise (some f) column a =
    rw (lookup-sort_items column (sort_values f), lookup-sort_values column f)
      (passes-sort_option (lookup column f) a)

texts_beq-eq : (v w : List Text) → texts_beq v w ≡ true → v ≡ w
texts_beq-eq [] [] h = refl
texts_beq-eq [] (y ∷ ys) h = absurd (cc h)
texts_beq-eq (x ∷ xs) [] h = absurd (cc h)
texts_beq-eq (x ∷ xs) (y ∷ ys) h = ground (arith, text_beq_iff x y, texts_beq-eq xs ys)

items_beq-eq : (d e : Dict (List Text)) → items_beq d e ≡ true → d ≡ e
items_beq-eq [] [] h = refl
items_beq-eq [] (y ∷ ys) h = absurd (cc h)
items_beq-eq (x ∷ xs) [] h = absurd (cc h)
items_beq-eq ((k, v) ∷ xs) ((j, w) ∷ ys) h =
    ground (arith, text_beq_iff k j, texts_beq-eq v w, items_beq-eq xs ys)

scope_columns-IsDict :
    (members : Members) (catalogue : Catalogue) (domain : Text) (sets result : Dict (List Text))
    → IsDict result
    → IsDict (scope_columns members catalogue domain sets result)
unfolding scope_columns
scope_columns-IsDict members catalogue domain [] result h = h
scope_columns-IsDict members catalogue domain ((key, ids) ∷ sets) result h =
    scope_columns-IsDict members catalogue domain sets
      (add_column members catalogue domain ids key (lookup key catalogue.dimensions) result)
      (added (lookup key catalogue.dimensions))
  where
    added : (o : Option Dimension) → IsDict (add_column members catalogue domain ids key o result)
    added none = h
    added (some dim) = IsDict-insert (map_to_view_column dim catalogue domain) (sorted ids) result h

columns_of-IsDict :
    (members : Members) (catalogue : Catalogue) (domain : Text) (sets : Option (Dict (List Text)))
    → IsDict (columns_of members catalogue domain sets)
columns_of-IsDict members catalogue domain none = tt
columns_of-IsDict members catalogue domain (some sets) =
    scope_columns-IsDict members catalogue domain sets [] tt

resolve_scope_filters-IsDict :
    (members : Members) (catalogue : Catalogue) (scope : ScopeSpec) (domain : Text)
    (filters : Dict (List Text))
    → resolve_scope_filters members catalogue (some scope) domain ≡ ok filters
    → IsDict filters
unfolding resolve_scope_filters
resolve_scope_filters-IsDict members catalogue scope domain filters h =
    let (u, first, more) =
      >>=-eq-ok (reject_inline members catalogue (lookup domain catalogue.domains) scope.dimensions)
        _ h in
    let (sets, found, last) =
      >>=-eq-ok (resolve_dims_sets members catalogue scope.dimensions) _ more in
    let q : columns_of members catalogue domain sets ≡ filters = cc last in
    subst IsDict q (columns_of-IsDict members catalogue domain sets)

module _ (members : Members) (catalogue : Catalogue) (domain : Text) (user : Filter) where
  -- The query's filters are within the scope of one of its scenarios: the scope permits the domain, and the
  -- filters let through exactly the ids that the caller's filters and the scope's let through.
  abbrev pub Within : Option ScopeSpec → Filter → Type 0
  Within none f = (column a : Text) → admits f column a ≡ admits user column a
  Within (some scope) f =
      (check_domain_access (some scope) domain ≡ ok tt)
      × ((filters : Dict (List Text)) × (resolve_scope_filters members catalogue (some scope) domain
            ≡ ok filters)
          × ((column a : Text)
              → admits f column a ≡ (admits user column a && passes (lookup column filters) a)))

  same_tt : (u : Unit {0}) → u ≡ tt
  same_tt tt = refl

  scenario_filter-Within :
      (scope : Option ScopeSpec) (f : Filter)
      → scenario_filter members catalogue domain user scope ≡ ok f
      → Within scope f
  scenario_filter-Within none f h = let q : user ≡ f = cc h in rw (← q) (λ column a. refl)
  scenario_filter-Within (some scope) f h =
      let (u, permitted, more) = >>=-eq-ok (check_domain_access (some scope) domain) _ h in
      let (filters, resolved, last) =
        >>=-eq-ok (resolve_scope_filters members catalogue (some scope) domain) _ more in
      let q : merge_dimension_filters user filters ≡ f = cc last in
      (
        permitted ∙ ap ok (same_tt u),
        (
          filters,
          resolved,
          λ column a.
              subst
                (λ g.
                  admits g column a ≡ (admits user column a && passes (lookup column filters) a))
                q
                (admits-merge_dimension_filters user filters column a
                  (resolve_scope_filters-IsDict members catalogue scope domain filters resolved)),
        ),
      )

  -- Each scenario's own filters are within its scope.
  abbrev EachWithin : Dict (Option ScopeSpec) → Dict Filter → Type 0
  EachWithin [] fs = Unit
  EachWithin (x ∷ scopes) [] = ⊥
  EachWithin ((sid, scope) ∷ scopes) ((sid', f) ∷ fs) = Within scope f × EachWithin scopes fs

  scenario_filters-EachWithin :
      (scopes : Dict (Option ScopeSpec)) (fs : Dict Filter)
      → scenario_filters members catalogue domain user scopes ≡ ok fs
      → EachWithin scopes fs
  unfolding scenario_filters
  scenario_filters-EachWithin [] fs h = tt
  scenario_filters-EachWithin ((sid, scope) ∷ scopes) fs h =
      let (f, first, more) = >>=-eq-ok (scenario_filter members catalogue domain user scope) _ h in
      let (gs, others, last) =
        >>=-eq-ok (scenario_filters members catalogue domain user scopes) _ more in
      let q : ((sid, f) ∷ gs) ≡ fs = cc last in
      subst (λ k. EachWithin ((sid, scope) ∷ scopes) k) q
        (scenario_filter-Within scope f first, scenario_filters-EachWithin scopes gs others)

  -- The same ids get through.
  abbrev Same : Filter → Filter → Type 0
  Same f g = (column a : Text) → admits f column a ≡ admits g column a

  Same-normalise : (f g : Filter) → normalise f ≡ normalise g → Same f g
  Same-normalise f g h column a =
      sym (passes-normalise f column a) ∙ rw h refl ∙ passes-normalise g column a

  Within-Same :
      (scope : Option ScopeSpec) (f g : Filter) → Same f g → Within scope g → Within scope f
  Within-Same none f g same h = λ column a. same column a ∙ h column a
  Within-Same (some scope) f g same (permitted, (filters, resolved, h)) =
      (permitted, (filters, resolved, λ column a. same column a ∙ h column a))

  abbrev pub AllWithin : Filter → Dict (Option ScopeSpec) → Type 0
  AllWithin f scopes = All (λ (x : Text × Option ScopeSpec). Within x.1 f) scopes

  all_same-AllWithin :
      (f : Filter) (scopes : Dict (Option ScopeSpec)) (gs : Dict Filter)
      → all_same (normalise f) gs ≡ true
      → EachWithin scopes gs
      → AllWithin f scopes
  all_same-AllWithin f [] gs same h = tt
  all_same-AllWithin f (x ∷ scopes) [] same h = elim h [ ]
  all_same-AllWithin f ((sid, scope) ∷ scopes) ((sid', g) ∷ gs) same (h, hs) =
      let one : items_beq (normalise f) (normalise g) ≡ true = ground arith in
      let rest : all_same (normalise f) gs ≡ true = ground arith in
      (
        Within-Same scope f g (Same-normalise f g (items_beq-eq (normalise f) (normalise g) one)) h,
        all_same-AllWithin f scopes gs rest hs,
      )

  consistent-AllWithin :
      (scopes : Dict (Option ScopeSpec)) (fs : Dict Filter) (f : Filter)
      → consistent fs ≡ ok f
      → EachWithin scopes fs
      → AllWithin f scopes
  unfolding consistent
  consistent-AllWithin [] fs f h each = tt
  consistent-AllWithin (x ∷ scopes) [] f h each = elim each [ ]
  consistent-AllWithin ((sid, scope) ∷ scopes) ((sid', g) ∷ gs) f h (first, each) =
      elim (Bool-cases (all_same (normalise g) gs)) [
        | inl e ↦
            let q : g ≡ f = cc (rw e at h) in
            subst (λ k. AllWithin k ((sid, scope) ∷ scopes)) q
              (first, all_same-AllWithin g scopes gs e each)
        | inr e ↦ absurd (cc (rw e at h))
      ]

  -- When a query over several scenarios is let through, its filters are within the scope of every one of
  -- them: each restricted scenario permits the domain, its scope resolves, and the filters let through
  -- exactly the ids that both the caller's filters and that scope's filters let through; for a scenario
  -- with no scope they are the caller's filters.
  pub enforce_cross_scenario_scope-Within :
      (scopes : Dict (Option ScopeSpec)) (f : Filter)
      → enforce_cross_scenario_scope members catalogue domain user scopes ≡ ok f
      → AllWithin f scopes
  unfolding enforce_cross_scenario_scope
  enforce_cross_scenario_scope-Within scopes f h =
      let (fs, each, same) =
        >>=-eq-ok (scenario_filters members catalogue domain user scopes) _ h in
      consistent-AllWithin scopes fs f same (scenario_filters-EachWithin scopes fs each)
