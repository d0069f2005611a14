-- ===== src/Planning/Sorting.antt =====
-- The topological sorts of precis_mcp/engine/resolver.py, which count the open dependencies of each key.
pub mod Ends
pub mod Order
use precis_mcp.Common.{
  length, get_elem?, take, drop, replicate, All, filterb, length-append, contains, Text, codes,
  text_beq, text_beq_iff, text_eq, string_eq, nat_eq, ◌==◌, beq_refl, Eq, ltb, leb, nat_beq,
  if◌then◌else◌, ltb→lt, leb→le, le→leb, nat_beq_iff, Bool-cases, Option-cases, ℕ, zero, suc, ◌+◌,
  ◌-◌, ◌*◌, ◌/◌, ◌%◌, ◌≤◌, ◌<◌, min, String, ◌≡◌, refl, sym, ap, subst, ◌∙◌, fun_ext, ◌≢◌, ◌↔◌, ◌⊎◌,
  inl, inr, Bool, true, false, not, ◌&&◌, ◌||◌, Option, none, some, List, [], ◌∷◌, ◌++◌, map,
  append_assoc, append-nil, arith,
}
use precis_mcp.Common.Sets.{
  intersection, difference, union, set_of, insert_sorted, sorted, contains-append, contains-filterb,
  contains-intersection, contains-difference, contains-union, contains-set_of, contains-sorted,
}

-- A key's line of `dep_graph` and `in_degree`: its dependencies within the keys, and how many are open.
pub record Row : Type 0 where
  pub key : Text
  pub deps : List Text
  pub degree : ℕ

abbrev pub row_of : List Text → (Text → List Text) → Text → Row
row_of all deps key =
    let within = intersection (set_of (deps key)) all in
    record { key = key; deps = within; degree = length within }

-- `[key for key, degree in in_degree.items() if degree == 0]`
unfoldable pub free : List Row → List Text
free [] = []
free (row ∷ rows) = let rest = free rows in if nat_beq row.degree 0 then row.key ∷ rest else rest

-- The loop over `dep_graph` once `node` is placed. Python's degrees may fall below 0, where nothing is
-- queued either.
unfoldable pub lower : Text → List Row → List Row
lower node [] = []
lower node (row ∷ rows) =
    (if contains row.deps node
      then record { key = row.key; deps = row.deps; degree = row.degree - 1 }
      else row)
    ∷ lower node rows

-- What this loop appends to the queue.
unfoldable pub freed : Text → List Row → List Text
freed node [] = []
freed node (row ∷ rows) =
    let rest = freed node rows in
    if contains row.deps node && nat_beq row.degree 1 then row.key ∷ rest else rest

pub data Outcome : Type 0 where
  sorted_keys : List Text → Outcome
  sort_out_of_fuel : Outcome

-- The `while` loop, on fuel.
unfoldable pub sort_loop : ℕ → List Row → List Text → List Text → Outcome
sort_loop fuel rows [] result = sorted_keys result
sort_loop zero rows (node ∷ queue) result = sort_out_of_fuel
sort_loop (suc fuel) rows (node ∷ queue) result =
    sort_loop fuel (lower node rows) (sorted (queue ++ freed node rows)) (result ++ node ∷ [])

abbrev pub rows_of : List Text → (Text → List Text) → List Row
rows_of keys deps = map (row_of keys deps) keys

unfoldable pub sort_keys : List Text → (Text → List Text) → Outcome
sort_keys keys deps =
    let rows = rows_of keys deps in sort_loop (length keys) rows (sorted (free rows)) []

-- A result that misses a key is refused.
abbrev pub complete : List Text → Outcome → Option (List Text)
complete keys (sorted_keys result) =
    if nat_beq (length result) (length keys) then some result else none
complete keys sort_out_of_fuel = none

-- `_topological_sort_dependencies`, for keys that are all different; `none` for a circular dependency
unfoldable pub topological_sort : List Text → (Text → List Text) → Option (List Text)
topological_sort keys deps = complete keys (sort_keys keys deps)
