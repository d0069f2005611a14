-- ===== src/Planning/Sorting/Ends.antt =====
-- The loop of the topological sort ends, and how many keys it has placed then.
use precis_mcp.Common.{
  length, length-append, Text, text_eq, string_eq, nat_eq, nat_beq, if◌then◌else◌, ℕ, zero, suc,
  ◌+◌, ◌≤◌, ◌≡◌, refl, ap, ◌≢◌, List, [], ◌∷◌, ◌++◌, map, arith,
}
use precis_mcp.Common.Sets.{insert_sorted, sorted}
use precis_mcp.Planning.Sorting.{
  Row, row_of, free, lower, freed, sort_loop, rows_of, sort_keys, sort_out_of_fuel,
}

-- The rows with an open dependency.
abbrev pub open_rows : List Row → ℕ
open_rows [] = 0
open_rows (row ∷ rows) = (if nat_beq row.degree 0 then 0 else 1) + open_rows rows

length-insert_sorted : (x : Text) (ys : List Text) → length (insert_sorted x ys) ≡ suc (length ys)
unfolding insert_sorted
length-insert_sorted x [] = refl
length-insert_sorted x (y ∷ ys) = ground (arith, length-insert_sorted x ys)

pub length-sorted : (xs : List Text) → length (sorted xs) ≡ length xs
unfolding sorted
length-sorted [] = refl
length-sorted (x ∷ xs) = rw (length-insert_sorted x (sorted xs), length-sorted xs)

open_rows-lower :
    (node : Text) (rows : List Row)
    → open_rows (lower node rows) + length (freed node rows) ≡ open_rows rows
unfolding lower freed
open_rows-lower node [] = refl
open_rows-lower node (row ∷ rows) = ground (arith, open_rows-lower node rows)

pub open_rows-free : (rows : List Row) → open_rows rows + length (free rows) ≡ length rows
unfolding free
open_rows-free [] = refl
open_rows-free (row ∷ rows) = ground (arith, open_rows-free rows)

-- What a round leaves: one key less in all.
pub round_work :
    (node : Text) (rows : List Row) (queue : List Text)
    → open_rows (lower node rows) + length (sorted (queue ++ freed node rows))
      ≡ open_rows rows + length queue
round_work node rows queue = ground (
  arith,
  length-sorted (queue ++ freed node rows),
  length-append queue (freed node rows),
  open_rows-lower node rows,
)

sort_loop_ends :
    (fuel : ℕ) (rows : List Row) (queue result : List Text)
    → open_rows rows + length queue ≤ fuel
    → sort_loop fuel rows queue result ≢ sort_out_of_fuel
unfolding sort_loop
sort_loop_ends fuel rows [] result h e = cc e
sort_loop_ends zero rows (node ∷ queue) result h e = absurd (omega arith)
sort_loop_ends (suc fuel) rows (node ∷ queue) result h e =
    sort_loop_ends fuel (lower node rows) (sorted (queue ++ freed node rows)) (result ++ node ∷ [])
      (omega (arith, round_work node rows queue)) e

pub length-rows_of :
    (all : List Text) (deps : Text → List Text) (keys : List Text)
    → length (map (row_of all deps) keys) ≡ length keys
length-rows_of all deps [] = refl
length-rows_of all deps (key ∷ keys) = ap suc (length-rows_of all deps keys)

-- The loop of the topological sort ends within as many rounds as there are keys.
pub sort_keys-ne-sort_out_of_fuel :
    (keys : List Text) (deps : Text → List Text) → sort_keys keys deps ≢ sort_out_of_fuel
unfolding sort_keys
sort_keys-ne-sort_out_of_fuel keys deps =
    let rows = rows_of keys deps in
    sort_loop_ends (length keys) rows (sorted (free rows)) []
      (omega (arith, length-sorted (free rows), open_rows-free rows, length-rows_of keys deps keys))
