-- ===== src/Filters/Targets.antt =====
-- The leaf dimension that a filter key stands for (precis_mcp/engine/filter_resolver.py).
use precis_mcp.Common.{Text, ◌≡◌, [], ◌∷◌, List}
use precis_mcp.Common.Result.{>>=-eq-ok, ok}
use precis_mcp.Common.Maps.{Dict}
use precis_mcp.Filters.{
  Transitive, Dimension, Members, Resolution, resolve_leaf_filter, resolve_derived_filter,
  resolve_ragged_filter, leaves_of, leaf, derived, ragged,
}

-- The leaf dimension of the values of a filter key; it does not depend on the value.
abbrev leaf_of_transitive : Dict Transitive → Text
leaf_of_transitive [] = []
leaf_of_transitive ((k, r) ∷ rest) = r.leaf_dimension

abbrev pub leaf_of : Dimension → Resolution → Text
leaf_of dim leaf = dim.key
leaf_of dim derived = leaf_of_transitive dim.transitive
leaf_of dim ragged = dim.leaf_dimension

pub leaves_of-leaf_of :
    (members : Members) (dim : Dimension) (resolution : Resolution) (value key : Text)
    (leaves : List Text)
    → leaves_of members dim resolution value ≡ ok (key, leaves)
    → key ≡ leaf_of dim resolution
unfolding leaves_of
leaves_of-leaf_of members dim leaf value key leaves h =
    let (ids, found, e) =
      >>=-eq-ok (resolve_leaf_filter members dim.source value) (λ ids. ok (dim.key, ids)) h in
    cc e
leaves_of-leaf_of members dim derived value key leaves h = first dim.transitive h
  where
    first :
        (ts : Dict Transitive)
        → resolve_derived_filter members ts value ≡ ok (key, leaves)
        → key ≡ leaf_of_transitive ts
    first [] k = absurd (cc k)
    first ((j, r) ∷ ts) k = cc k
leaves_of-leaf_of members dim ragged value key leaves h =
    let (ids, found, e) =
      >>=-eq-ok (resolve_ragged_filter members dim value) (λ ids. ok (dim.leaf_dimension, ids)) h in
    cc e
