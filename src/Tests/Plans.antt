-- ===== src/Tests/Plans.antt =====
-- The topological sort of three keys.
use precis_mcp.Common.{
  contains, Text, codes, text_beq_iff, text_eq, string_eq, nat_eq, ◌≤◌, ◌≡◌, refl, ◌≢◌, true, none,
  some, List, [], ◌∷◌, arith,
}
use precis_mcp.Common.Maps.{Dict, lookup}
use precis_mcp.Common.Sets.{intersection, set_of, insert_sorted, sorted}
use precis_mcp.Planning.Sorting.{
  free, lower, freed, sort_loop, sort_keys, topological_sort, sort_out_of_fuel,
}
use precis_mcp.Planning.Sorting.Ends.{sort_keys-ne-sort_out_of_fuel}
use precis_mcp.Planning.Sorting.Order.{count, within, IsOrdered, topological_sort-IsOrdered}

abbrev all_keys : List Text
all_keys = codes "c" ∷ codes "b" ∷ codes "a" ∷ []

abbrev depends : Dict (List Text)
depends = (codes "c", codes "a" ∷ codes "b" ∷ []) ∷ (codes "b", codes "a" ∷ codes "z" ∷ []) ∷ []

abbrev deps : Text → List Text
deps key = elim (lookup key depends) [ none ↦ [] | some ds ↦ ds ]

abbrev in_order : List Text
in_order = codes "a" ∷ codes "b" ∷ codes "c" ∷ []

sorts : topological_sort all_keys deps ≡ some in_order
unfolding topological_sort sort_keys sort_loop free lower freed lookup sorted insert_sorted
    intersection set_of
sorts = refl

circular : topological_sort (codes "a" ∷ []) (λ key. key ∷ []) ≡ none
unfolding topological_sort sort_keys sort_loop free lower freed lookup sorted insert_sorted
    intersection set_of
circular = refl

sort_keys-ne-sort_out_of_fuel_example : sort_keys all_keys deps ≢ sort_out_of_fuel
sort_keys-ne-sort_out_of_fuel_example = sort_keys-ne-sort_out_of_fuel all_keys deps

all_different : (x : Text) → count x all_keys ≤ 1
all_different x =
    ground
      (arith, text_beq_iff (codes "a") x, text_beq_iff (codes "b") x, text_beq_iff (codes "c") x)

topological_sort-IsOrdered_example :
    IsOrdered (within all_keys deps) [] in_order
    × ((x : Text) → contains all_keys x ≡ true → contains in_order x ≡ true)
topological_sort-IsOrdered_example =
    topological_sort-IsOrdered all_keys deps in_order all_different sorts
