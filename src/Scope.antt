-- ===== src/Scope.antt =====
-- Security scopes (precis_mcp/engine/scope_enforcer.py, and the scope records of precis_mcp/auth.py):
-- what a scope allows becomes dimension filters, which are merged with those of the caller.
pub mod Leaves
pub mod Merge
pub mod Enforce
use precis_mcp.Common.{
  length, get_elem?, take, drop, replicate, All, filterb, length-append, contains, Text, codes,
  text_beq, text_beq_iff, text_eq, string_eq, nat_eq, ◌==◌, beq_refl, Eq, ltb, leb, nat_beq,
  if◌then◌else◌, ltb→lt, leb→le, le→leb, nat_beq_iff, Bool-cases, Option-cases, ℕ, zero, suc, ◌+◌,
  ◌-◌, ◌*◌, ◌/◌, ◌%◌, ◌≤◌, ◌<◌, min, String, ◌≡◌, refl, sym, ap, subst, ◌∙◌, fun_ext, ◌≢◌, ◌↔◌, ◌⊎◌,
  inl, inr, Bool, true, false, not, ◌&&◌, ◌||◌, Option, none, some, List, [], ◌∷◌, ◌++◌, map,
  append_assoc, append-nil, arith,
}
use precis_mcp.Common.Result.{guard, ◌>>=◌, ◌>>◌, map_result, >>=-eq-ok, Result, err, ok}
use precis_mcp.Common.Maps.{Dict, lookup, insert, keys, sort_items}
use precis_mcp.Common.Sets.{sorted, set_of, intersection, difference, union}
use precis_mcp.Filters.{
  Source, Transitive, Dimension, CubeDimension, Catalogue, Members, FilterError, Resolution,
  find_filter_target, leaves_of, some_leaves, resolve_single_value, Collected, collect,
  collect_filters, map_to_view_column, intersect_all, column_of, filter_columns, resolve_filters,
  unknown_filter_key, no_strategy, no_transitive, no_leaf_dimension, zero_records, no_source, leaf,
  derived, ragged,
}

pub record DimensionScope : Type 0 where
  pub allow : Option (Dict (List Text))
  pub deny : Option (Dict (List Text))

pub record DomainScope : Type 0 where
  pub allow : Option (List Text)
  pub deny : Option (List Text)

pub record ScopeSpec : Type 0 where
  pub dimensions : Option DimensionScope
  pub domains : Option DomainScope

pub data ScopeError : Type 0 where
  domain_in_deny_list domain_not_allowed : ScopeError
  inline_dimension : ScopeError
  member_unresolved : FilterError → ScopeError
  inconsistent_scopes : ScopeError
  -- the StopIteration of `next` where no scenario is asked for
  no_scenario : ScopeError

-- `deny and domain in deny`
abbrev is_denied : Option (List Text) → Text → Bool
is_denied none domain = false
is_denied (some deny) domain = contains deny domain

-- `allow is not None and domain not in allow`
abbrev is_left_out : Option (List Text) → Text → Bool
is_left_out none domain = false
is_left_out (some allow) domain = not (contains allow domain)

abbrev check_domains : Option DomainScope → Text → Result ScopeError (Unit {0})
check_domains none domain = ok tt
check_domains (some doms) domain =
    if is_denied doms.deny domain
    then err domain_in_deny_list
    else if is_left_out doms.allow domain
    then err domain_not_allowed
    else ok tt

unfoldable pub check_domain_access : Option ScopeSpec → Text → Result ScopeError (Unit {0})
check_domain_access none domain = ok tt
check_domain_access (some scope) domain = check_domains scope.domains domain

abbrev pub or_unresolved {ℓ} : {A : Type ℓ} → Result FilterError A → Result ScopeError A
or_unresolved (err e) = err (member_unresolved e)
or_unresolved (ok a) = ok a

-- `leaf_sets.get(key, set())`
abbrev pub set_or_empty : Option (List Text) → List Text
set_or_empty none = []
set_or_empty (some s) = s

-- `leaf_sets[key].update(leaves)`
abbrev pub add_leaves : Text × List Text → Dict (List Text) → Dict (List Text)
add_leaves (key, leaves) sets = insert key (union (set_or_empty (lookup key sets)) leaves) sets

module _ (members : Members) (catalogue : Catalogue) where
  unfoldable pub add_values :
      Dimension → Resolution → List Text → Dict (List Text) → Result ScopeError (Dict (List Text))
  add_values dim resolution [] sets = ok sets
  add_values dim resolution (value ∷ values) sets = do
    found ← or_unresolved (leaves_of members dim resolution value)
    add_values dim resolution values (add_leaves found sets)

  -- `_resolve_scope_members`, on the sets so far
  unfoldable pub scope_members :
      Dict (List Text) → Dict (List Text) → Result ScopeError (Dict (List Text))
  scope_members [] sets = ok sets
  scope_members ((key, values) ∷ rest) sets = do
    (dim, resolution) ← or_unresolved (find_filter_target catalogue key)
    sets' ← add_values dim resolution values sets
    scope_members rest sets'

  -- `{}` where the side of the scope is absent or empty
  abbrev pub resolve_side : Option (Dict (List Text)) → Result ScopeError (Dict (List Text))
  resolve_side none = ok []
  resolve_side (some side) = scope_members side []

  abbrev rows_of : Option Source → List Text
  rows_of none = []
  rows_of (some s) = members.all_rows s

  abbrev rows_of_dimension : Option Dimension → List Text
  rows_of_dimension none = []
  rows_of_dimension (some dim) = rows_of dim.source

  unfoldable pub all_leaf_ids : Text → List Text
  all_leaf_ids key = rows_of_dimension (lookup key catalogue.dimensions)

  abbrev pub allowed_or_all : Text → Option (List Text) → List Text
  allowed_or_all key none = all_leaf_ids key
  allowed_or_all key (some s) = s

  -- `effective` of one leaf dimension
  unfoldable pub effective : Dict (List Text) → Dict (List Text) → Text → List Text
  effective allow deny key =
      difference (allowed_or_all key (lookup key allow)) (set_or_empty (lookup key deny))

  abbrev pub leaf_sets_for : List Text → Dict (List Text) → Dict (List Text) → Dict (List Text)
  leaf_sets_for [] allow deny = []
  leaf_sets_for (key ∷ ks) allow deny =
      (key, effective allow deny key) ∷ leaf_sets_for ks allow deny

  abbrev pub is_empty : Option (Dict (List Text)) → Bool
  is_empty none = true
  is_empty (some []) = true
  is_empty (some (x ∷ xs)) = false

  abbrev pub resolve_sets : DimensionScope → Result ScopeError (Dict (List Text))
  resolve_sets dims = do
    allow ← resolve_side dims.allow
    deny ← resolve_side dims.deny
    ok (leaf_sets_for (union (keys allow) (keys deny)) allow deny)

  abbrev pub resolve_dims_sets :
      Option DimensionScope → Result ScopeError (Option (Dict (List Text)))
  resolve_dims_sets none = ok none
  resolve_dims_sets (some dims) =
      if is_empty dims.allow && is_empty dims.deny
      then ok none
      else (do sets ← resolve_sets dims; ok (some sets))

  -- `resolve_scope_leaf_sets`; `none` where the scope restricts no dimension
  unfoldable pub resolve_scope_leaf_sets :
      Option ScopeSpec → Result ScopeError (Option (Dict (List Text)))
  resolve_scope_leaf_sets none = ok none
  resolve_scope_leaf_sets (some scope) = resolve_dims_sets scope.dimensions

  -- `cd.source_inline and not cd.filterable`
  abbrev is_inline : List CubeDimension → Text → Bool
  is_inline [] key = false
  is_inline (cd ∷ cds) key =
      (cd.key == key && (cd.source_inline && not cd.filterable)) || is_inline cds key

  abbrev mentions_inline : List CubeDimension → Option (Dict (List Text)) → Bool
  mentions_inline cds none = false
  mentions_inline cds (some []) = false
  mentions_inline cds (some ((k, v) ∷ rest)) = is_inline cds k || mentions_inline cds (some rest)

  abbrev pub reject_inline :
      Option (List CubeDimension) → Option DimensionScope → Result ScopeError (Unit {0})
  reject_inline none dims = ok tt
  reject_inline (some cds) none = ok tt
  reject_inline (some cds) (some dims) =
      if mentions_inline cds dims.allow || mentions_inline cds dims.deny
      then err inline_dimension
      else ok tt

  -- A leaf dimension that the catalogue does not know is passed over.
  abbrev pub add_column :
      Text → List Text → Text → Option Dimension → Dict (List Text) → Dict (List Text)
  add_column domain ids key none result = result
  add_column domain ids key (some dim) result =
      insert (map_to_view_column dim catalogue domain) (sorted ids) result

  -- The loop over the leaf dimensions.
  unfoldable pub scope_columns : Text → Dict (List Text) → Dict (List Text) → Dict (List Text)
  scope_columns domain [] result = result
  scope_columns domain ((key, ids) ∷ sets) result =
      scope_columns domain sets (add_column domain ids key (lookup key catalogue.dimensions) result)

  abbrev pub columns_of : Text → Option (Dict (List Text)) → Dict (List Text)
  columns_of domain none = []
  columns_of domain (some sets) = scope_columns domain sets []

  unfoldable pub resolve_scope_filters :
      Option ScopeSpec → Text → Result ScopeError (Dict (List Text))
  resolve_scope_filters none domain = ok []
  resolve_scope_filters (some scope) domain = do
    reject_inline (lookup domain catalogue.domains) scope.dimensions
    sets ← resolve_dims_sets scope.dimensions
    ok (columns_of domain sets)

-- Filters, or `None`
abbrev pub Filter : Type 0
Filter = Option (Dict (List Text))

abbrev pub merged_ids : Option (List Text) → List Text → List Text
merged_ids none scope_ids = scope_ids
merged_ids (some ids) scope_ids = sorted (intersection (set_of ids) (set_of scope_ids))

-- The loop over the filters of the scope.
unfoldable pub merge_into : Dict (List Text) → Dict (List Text) → Dict (List Text)
merge_into merged [] = merged
merge_into merged ((column, ids) ∷ rest) =
    merge_into (insert column (merged_ids (lookup column merged) ids) merged) rest

abbrev pub some_filter : Dict (List Text) → Filter
some_filter [] = none
some_filter (x ∷ xs) = some (x ∷ xs)

unfoldable pub merge_dimension_filters : Filter → Dict (List Text) → Filter
merge_dimension_filters user [] = user
merge_dimension_filters none (x ∷ xs) = some (x ∷ xs)
merge_dimension_filters (some user) (x ∷ xs) = some_filter (merge_into user (x ∷ xs))

-- The filters that one scenario's scope leaves.
abbrev pub scenario_filter :
    Members → Catalogue → Text → Filter → Option ScopeSpec → Result ScopeError Filter
scenario_filter members catalogue domain user none = ok user
scenario_filter members catalogue domain user (some scope) = do
  check_domain_access (some scope) domain
  filters ← resolve_scope_filters members catalogue (some scope) domain
  ok (merge_dimension_filters user filters)

unfoldable pub scenario_filters :
    Members → Catalogue → Text → Filter → Dict (Option ScopeSpec) → Result ScopeError (Dict Filter)
scenario_filters members catalogue domain user [] = ok []
scenario_filters members catalogue domain user ((sid, scope) ∷ rest) = do
  f ← scenario_filter members catalogue domain user scope
  fs ← scenario_filters members catalogue domain user rest
  ok ((sid, f) ∷ fs)

abbrev pub sort_values : Dict (List Text) → Dict (List Text)
sort_values [] = []
sort_values ((k, v) ∷ d) = (k, sorted v) ∷ sort_values d

-- `tuple(sorted(_normalise(f).items()))`
unfoldable pub normalise : Filter → Dict (List Text)
normalise none = []
normalise (some f) = sort_items (sort_values f)

abbrev pub texts_beq : List Text → List Text → Bool
texts_beq [] [] = true
texts_beq [] (y ∷ ys) = false
texts_beq (x ∷ xs) [] = false
texts_beq (x ∷ xs) (y ∷ ys) = text_beq x y && texts_beq xs ys

abbrev pub items_beq : Dict (List Text) → Dict (List Text) → Bool
items_beq [] [] = true
items_beq [] (y ∷ ys) = false
items_beq (x ∷ xs) [] = false
items_beq ((k, v) ∷ xs) ((j, w) ∷ ys) = text_beq k j && (texts_beq v w && items_beq xs ys)

-- `len(unique_filters) <= 1`
abbrev pub all_same : Dict (List Text) → Dict Filter → Bool
all_same n [] = true
all_same n ((sid, f) ∷ rest) = items_beq n (normalise f) && all_same n rest

unfoldable pub consistent : Dict Filter → Result ScopeError Filter
consistent [] = err no_scenario
consistent ((sid, f) ∷ rest) = if all_same (normalise f) rest then ok f else err inconsistent_scopes

unfoldable pub enforce_cross_scenario_scope :
    Members → Catalogue → Text → Filter → Dict (Option ScopeSpec) → Result ScopeError Filter
enforce_cross_scenario_scope members catalogue domain user scopes = do
  fs ← scenario_filters members catalogue domain user scopes
  consistent fs
