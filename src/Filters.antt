-- ===== src/Filters.antt =====
-- Dimension filters (precis_mcp/engine/filter_resolver.py): a filter key and value become the ids of the
-- members of a leaf dimension. What the warehouse answers to the lookups is the argument `Members`.
pub mod Targets
use precis_mcp.Common.{
  Text, codes, text_eq, string_eq, nat_eq, ◌==◌, if◌then◌else◌, Bool, true, false, ◌||◌, Option,
  none, some, List, [], ◌∷◌, ◌++◌,
}
use precis_mcp.Common.Result.{◌>>=◌, Result, err, ok}
use precis_mcp.Common.Maps.{Dict, lookup, insert}
use precis_mcp.Common.Sets.{sorted, set_of, intersection}

-- `DimensionSource`
pub record Source : Type 0 where
  pub table : Text
  pub key_column : Text

-- `TransitiveResolution`
pub record Transitive : Type 0 where
  pub leaf_dimension : Text
  pub leaf_key_column : Text
  pub source_table : Text
  pub filter_column : Text

-- `Dimension`, without what is only displayed
pub record Dimension : Type 0 where
  pub key : Text
  pub source : Option Source
  -- `derived_from is not None`
  pub derived : Bool
  pub ragged : Bool
  pub leaf_dimension : Text
  -- the table of a ragged source of type "provided"; empty where there is none
  pub provided_table : Text
  pub transitive : Dict Transitive

pub record CubeDimension : Type 0 where
  pub key : Text
  pub source : Text
  pub source_inline : Bool
  pub filterable : Bool

pub record Catalogue : Type 0 where
  pub dimensions : Dict Dimension
  -- the dimensions of each domain
  pub domains : Dict (List CubeDimension)

-- The rows of the queries; they do not fail.
pub record Members : Type 0 where
  pub leaf_rows : Source → Text → List Text
  pub derived_rows : Transitive → Text → List Text
  -- by view, leaf key column and node
  pub ragged_rows : Text → Text → Text → List Text
  pub all_rows : Source → List Text

pub data FilterError : Type 0 where
  unknown_filter_key no_strategy no_transitive no_leaf_dimension zero_records : FilterError
  -- an assertion that the loader of the catalogue rules out
  no_source : FilterError

pub data Resolution : Type 0 where
  leaf derived ragged : Resolution

abbrev resolution_of : Option Source → Bool → Bool → Result FilterError Resolution
resolution_of (some s) d r = ok leaf
resolution_of none true r = ok derived
resolution_of none false true = ok ragged
resolution_of none false false = err no_strategy

abbrev target_of : Option Dimension → Result FilterError (Dimension × Resolution)
target_of none = err unknown_filter_key
target_of (some dim) = do
  resolution ← resolution_of dim.source dim.derived dim.ragged
  ok (dim, resolution)

unfoldable pub find_filter_target : Catalogue → Text → Result FilterError (Dimension × Resolution)
find_filter_target catalogue key = target_of (lookup key catalogue.dimensions)

module _ (members : Members) where
  open members use {leaf_rows, derived_rows, ragged_rows}

  abbrev pub resolve_leaf_filter : Option Source → Text → Result FilterError (List Text)
  resolve_leaf_filter none value = err no_source
  resolve_leaf_filter (some source) value = ok (leaf_rows source value)

  -- `_resolve_derived_filter`, with the leaf dimension of the first transitive resolution
  abbrev pub resolve_derived_filter : Dict Transitive → Text → Result FilterError (Text × List Text)
  resolve_derived_filter [] value = err no_transitive
  resolve_derived_filter ((k, r) ∷ rest) value = ok (r.leaf_dimension, derived_rows r value)

  abbrev rollup_view : Dimension → Text
  rollup_view dim =
      if dim.provided_table == []
      then codes "semantic.dim_"
        ++ (dim.leaf_dimension ++ (codes "_" ++ (dim.key ++ codes "_rollup")))
      else dim.provided_table

  abbrev ragged_leaves : Dimension → Option Transitive → Text → Result FilterError (List Text)
  ragged_leaves dim none value = err no_transitive
  ragged_leaves dim (some r) value = ok (ragged_rows (rollup_view dim) r.leaf_key_column value)

  abbrev pub resolve_ragged_filter : Dimension → Text → Result FilterError (List Text)
  resolve_ragged_filter dim value =
      if dim.leaf_dimension == []
      then err no_leaf_dimension
      else ragged_leaves dim (lookup dim.leaf_dimension dim.transitive) value

  -- The chain of `if target.resolution_type == ...`: the leaf dimension and the leaf ids.
  unfoldable pub leaves_of : Dimension → Resolution → Text → Result FilterError (Text × List Text)
  leaves_of dim leaf value = do leaves ← resolve_leaf_filter dim.source value; ok (dim.key, leaves)
  leaves_of dim derived value = resolve_derived_filter dim.transitive value
  leaves_of dim ragged value = do
    leaves ← resolve_ragged_filter dim value
    ok (dim.leaf_dimension, leaves)

  -- `if not leaves: raise FilterResolutionError`
  abbrev pub some_leaves : Text × List Text → Result FilterError (Text × List Text)
  some_leaves (key, []) = err zero_records
  some_leaves (key, x ∷ xs) = ok (key, x ∷ xs)

  unfoldable pub resolve_single_value :
      Catalogue → Text → Text → Result FilterError (Text × List Text)
  resolve_single_value catalogue key value = do
    (dim, resolution) ← find_filter_target catalogue key
    found ← leaves_of dim resolution value
    some_leaves found

  -- The loop over the filters of `resolve_filters`: `leaf_sets` and `dim_for_mapping`.
  pub record Collected : Type 0 where
    pub leaf_sets : Dict (List (List Text))
    pub dim_for_mapping : Dict Dimension

  abbrev list_or_empty : Option (List (List Text)) → List (List Text)
  list_or_empty none = []
  list_or_empty (some sets) = sets

  abbrev keep_first : Text → Dimension → Option Dimension → Dict Dimension → Dict Dimension
  keep_first key dim none d = insert key dim d
  keep_first key dim (some old) d = d

  abbrev pub collect : Dimension → Text × List Text → Collected → Collected
  collect dim (key, leaves) c = record {
    leaf_sets =
        insert key (list_or_empty (lookup key c.leaf_sets) ++ set_of leaves ∷ []) c.leaf_sets;
    dim_for_mapping = keep_first key dim (lookup key c.dim_for_mapping) c.dim_for_mapping;
  }

  unfoldable pub collect_filters : Catalogue → Dict Text → Collected → Result FilterError Collected
  collect_filters catalogue [] c = ok c
  collect_filters catalogue ((key, value) ∷ filters) c = do
    (dim, resolution) ← find_filter_target catalogue key
    found ← leaves_of dim resolution value
    nonempty ← some_leaves found
    collect_filters catalogue filters (collect dim nonempty c)

abbrev transitive_leaf : Dimension → Dict Transitive → Text
transitive_leaf dim [] = if dim.ragged then dim.leaf_dimension else dim.key
transitive_leaf dim ((k, r) ∷ rest) = r.leaf_dimension

-- The dimension whose column a filter on this dimension uses.
abbrev column_dimension : Dimension → Option Source → Text
column_dimension dim (some s) = dim.key
column_dimension dim none =
    if dim.derived || dim.ragged then transitive_leaf dim dim.transitive else dim.key

-- The first of the domain's dimensions with this key.
abbrev find_column : List CubeDimension → Text → Option Text
find_column [] key = none
find_column (cd ∷ cds) key = if cd.key == key then some cd.source else find_column cds key

abbrev domain_dimensions : Option (List CubeDimension) → List CubeDimension
domain_dimensions none = []
domain_dimensions (some cds) = cds

abbrev source_column : Text → Option Source → Text
source_column key none = key
source_column key (some s) = s.key_column

abbrev fallback_column : Text → Option Dimension → Text
fallback_column key none = key
fallback_column key (some dim) = source_column key dim.source

abbrev column_or : Option Text → Text → Text
column_or none other = other
column_or (some column) other = column

unfoldable pub map_to_view_column : Dimension → Catalogue → Text → Text
map_to_view_column dim catalogue domain =
    let key = column_dimension dim dim.source in
    column_or (find_column (domain_dimensions (lookup domain catalogue.domains)) key)
      (fallback_column key (lookup key catalogue.dimensions))

-- `sets[0] & sets[1] & ...`
unfoldable pub intersect_all : List Text → List (List Text) → List Text
intersect_all first [] = first
intersect_all first (s ∷ sets) = intersect_all (intersection first s) sets

abbrev pub column_of : Option Dimension → Catalogue → Text → Text → Text
column_of none catalogue domain key = key
column_of (some dim) catalogue domain key = map_to_view_column dim catalogue domain

-- The loop over `leaf_sets`; each key of it is one of `dim_for_mapping`.
unfoldable pub filter_columns :
    Catalogue
    → Text
    → Dict Dimension
    → Dict (List (List Text))
    → Dict (List Text)
    → Dict (List Text)
filter_columns catalogue domain dims [] result = result
filter_columns catalogue domain dims ((key, []) ∷ rest) result =
    filter_columns catalogue domain dims rest result
filter_columns catalogue domain dims ((key, first ∷ sets) ∷ rest) result =
    filter_columns catalogue domain dims rest (
      insert (column_of (lookup key dims) catalogue domain key) (sorted (intersect_all first sets))
        result)

unfoldable pub resolve_filters :
    Members → Catalogue → Text → Dict Text → Result FilterError (Dict (List Text))
resolve_filters members catalogue domain filters = do
  c ← collect_filters members catalogue filters (record { leaf_sets = []; dim_for_mapping = [] })
  ok (filter_columns catalogue domain c.dim_for_mapping c.leaf_sets [])
