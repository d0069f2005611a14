-- ===== src/Planning/Sorting/Order.antt =====
-- The order in which the topological sort places the keys.
use precis_mcp.Common.{
  length, All, filterb, length-append, contains, Text, text_beq, text_beq_iff, text_eq, string_eq,
  nat_eq, leb, nat_beq, if◌then◌else◌, Bool-cases, ℕ, zero, suc, ◌+◌, ◌≤◌, ◌≡◌, refl, sym, ap,
  subst, ◌∙◌, inl, inr, Bool, true, false, ◌&&◌, some, List, [], ◌∷◌, ◌++◌, map, append_assoc,
  append-nil, arith,
}
use precis_mcp.Common.Sets.{intersection, set_of, insert_sorted, sorted, contains-append}
use precis_mcp.Planning.Sorting.{
  Row, row_of, free, lower, freed, Outcome, sort_loop, rows_of, sort_keys, complete,
  topological_sort, sorted_keys, sort_out_of_fuel,
}
use precis_mcp.Planning.Sorting.Ends.{
  open_rows, length-sorted, open_rows-free, round_work, length-rows_of,
}

-- How often a text occurs.
abbrev pub count : Text → List Text → ℕ
count x [] = 0
count x (y ∷ ys) = (if text_beq y x then 1 else 0) + count x ys

-- How many of the dependencies the placed keys miss.
abbrev misses : List Text → List Text → ℕ
misses placed [] = 0
misses placed (d ∷ deps) = (if contains placed d then 0 else 1) + misses placed deps

-- How many rows of a key have no open dependency.
abbrev closed : Text → List Row → ℕ
closed x [] = 0
closed x (row ∷ rows) =
    (if text_beq row.key x && nat_beq row.degree 0 then 1 else 0) + closed x rows

abbrev row_keys : List Row → List Text
row_keys [] = []
row_keys (row ∷ rows) = row.key ∷ row_keys rows

count-append : (x : Text) (xs ys : List Text) → count x (xs ++ ys) ≡ count x xs + count x ys
count-append x [] ys = ground arith
count-append x (y ∷ xs) ys = ground (arith, count-append x xs ys)

count-insert_sorted :
    (x y : Text) (ys : List Text)
    → count x (insert_sorted y ys) ≡ (if text_beq y x then 1 else 0) + count x ys
unfolding insert_sorted
count-insert_sorted x y [] = refl
count-insert_sorted x y (z ∷ ys) = ground (arith, count-insert_sorted x y ys)

count-sorted : (x : Text) (ys : List Text) → count x (sorted ys) ≡ count x ys
unfolding sorted
count-sorted x [] = refl
count-sorted x (y ∷ ys) = rw (count-insert_sorted x y (sorted ys), count-sorted x ys)

closed-lower :
    (x node : Text) (rows : List Row)
    → closed x (lower node rows) ≡ closed x rows + count x (freed node rows)
unfolding lower freed
closed-lower x node [] = refl
closed-lower x node (row ∷ rows) = ground (arith, closed-lower x node rows)

closed-free : (x : Text) (rows : List Row) → closed x rows ≡ count x (free rows)
unfolding free
closed-free x [] = refl
closed-free x (row ∷ rows) = ground (arith, closed-free x rows)

closed-le : (x : Text) (rows : List Row) → closed x rows ≤ count x (row_keys rows)
closed-le x [] = ground arith
closed-le x (row ∷ rows) = ground (arith, closed-le x rows)

closed-all :
    (x : Text) (rows : List Row) → open_rows rows ≡ 0 → closed x rows ≡ count x (row_keys rows)
closed-all x [] h = refl
closed-all x (row ∷ rows) h = ground (arith, closed-all x rows)

row_keys-lower : (node : Text) (rows : List Row) → row_keys (lower node rows) ≡ row_keys rows
unfolding lower
row_keys-lower node [] = refl
row_keys-lower node (row ∷ rows) = ground (arith, row_keys-lower node rows)

contains-count : (xs : List Text) (x : Text) → contains xs x ≡ leb 1 (count x xs)
contains-count [] x = refl
contains-count (y ∷ xs) x = ground (arith, contains-count xs x)

-- One more placed key that was not placed before.
misses-snoc :
    (placed deps : List Text) (node : Text)
    → contains placed node ≡ false
    → misses (placed ++ node ∷ []) deps + count node deps ≡ misses placed deps
misses-snoc placed [] node h = refl
misses-snoc placed (d ∷ deps) node h = ground (
  arith,
  misses-snoc placed deps node h,
  contains-append placed (node ∷ []) d,
  text_beq_iff node d,
  text_beq_iff d node,
)

misses-zero :
    (placed deps : List Text) (x : Text)
    → misses placed deps ≡ 0
    → contains deps x ≡ true
    → contains placed x ≡ true
misses-zero placed [] x h k = cc k
misses-zero placed (d ∷ deps) x h k = ground (arith, misses-zero placed deps x, text_beq_iff d x)

-- The dependencies of a key among the keys.
abbrev pub within : List Text → (Text → List Text) → Text → List Text
within all deps key = intersection (set_of (deps key)) all

-- Each key stands after its dependencies, which are in `before` or earlier in the list.
abbrev pub IsOrdered : (Text → List Text) → List Text → List Text → Type 0
IsOrdered deps before [] = Unit
IsOrdered deps before (key ∷ more) =
    ((x : Text) → contains (deps key) x ≡ true → contains before x ≡ true)
    × IsOrdered deps (before ++ key ∷ []) more

IsOrdered-snoc :
    (deps : Text → List Text) (before xs : List Text) (key : Text)
    → IsOrdered deps before xs
    → ((x : Text) → contains (deps key) x ≡ true → contains (before ++ xs) x ≡ true)
    → IsOrdered deps before (xs ++ key ∷ [])
IsOrdered-snoc deps before [] key h k = ((λ x m. rw (append-nil before) at (k x m)), tt)
IsOrdered-snoc deps before (y ∷ xs) key (g, h) k = (
  g,
  IsOrdered-snoc deps (before ++ y ∷ []) xs key h
      (λ x m. rw (append_assoc before (y ∷ []) xs) (k x m)),
)

count-filterb_le :
    (p : Text → Bool) (x : Text) (xs : List Text) → count x (filterb p xs) ≤ count x xs
count-filterb_le p x [] = ground arith
count-filterb_le p x (y ∷ xs) = ground (arith, count-filterb_le p x xs)

count-set_of_le : (x : Text) (xs : List Text) → count x (set_of xs) ≤ 1
unfolding set_of
count-set_of_le x [] = ground arith
count-set_of_le x (y ∷ xs) = ground (
  arith,
  count-set_of_le x xs,
  text_beq_iff y x,
  contains-count (set_of xs) y,
  contains-count (set_of xs) x,
)

-- A key is a dependency at most once.
count-within_le :
    (all : List Text) (deps : Text → List Text) (key x : Text) → count x (within all deps key) ≤ 1
unfolding intersection
count-within_le all deps key x =
    ground
      (arith, count-filterb_le (contains all) x (set_of (deps key)), count-set_of_le x (deps key))

module _ (all : List Text) (deps : Text → List Text) where
  abbrev IsRight : List Text → Row → Type 0
  IsRight placed row = (row.deps ≡ within all deps row.key) × (row.degree ≡ misses placed row.deps)

  record IsConsistent (rows : List Row) (queue placed : List Text) : Type 0 where
    right : All (IsRight placed) rows
    counted : (x : Text) → count x queue + count x placed ≡ closed x rows
    kept : row_keys rows ≡ all

  IsRight-lower :
      (placed : List Text) (node : Text) (rows : List Row)
      → contains placed node ≡ false
      → All (IsRight placed) rows
      → All (IsRight (placed ++ node ∷ [])) (lower node rows)
  unfolding lower
  IsRight-lower placed node [] new all_right = tt
  IsRight-lower placed node (row ∷ rows) new ((same, degree), all_right) =
      let once : count node row.deps ≤ 1 = rw same (count-within_le all deps row.key node) in
      let fewer = misses-snoc placed row.deps node new in
      let rest = IsRight-lower placed node rows new all_right in
      elim (Bool-cases (contains row.deps node)) [
        | inl e ↦ rw e ((same, ground (arith, contains-count row.deps node)), rest)
        | inr e ↦ rw e ((same, ground (arith, contains-count row.deps node)), rest)
      ]

  closed-misses :
      (placed : List Text) (x : Text) (rows : List Row)
      → All (IsRight placed) rows
      → 1 ≤ closed x rows
      → misses placed (within all deps x) ≡ 0
  closed-misses placed x [] all_right h = absurd (omega arith)
  closed-misses placed x (row ∷ rows) ((same, degree), all_right) h =
      elim (Bool-cases (text_beq row.key x && nat_beq row.degree 0)) [
        | inl e ↦
            let named : row.key ≡ x = ground (arith, text_beq_iff row.key x) in
            let none_open : misses placed row.deps ≡ 0 = ground arith in
            subst (λ k. misses placed (within all deps k) ≡ 0) named (rw same at none_open)
        | inr e ↦ closed-misses placed x rows all_right (ground arith)
      ]

  module _ (unique : (x : Text) → count x all ≤ 1) where
    new_node :
        (rows : List Row) (node : Text) (queue placed : List Text)
        → IsConsistent rows (node ∷ queue) placed
        → contains placed node ≡ false
    new_node rows node queue placed c = ground (
      arith,
      c.counted node,
      closed-le node rows,
      unique node,
      ap (count node) c.kept,
      contains-count placed node,
      text_beq_iff node node,
    )

    IsConsistent-round :
        (rows : List Row) (node : Text) (queue placed : List Text)
        → IsConsistent rows (node ∷ queue) placed
        → IsConsistent (lower node rows) (sorted (queue ++ freed node rows)) (placed ++ node ∷ [])
    IsConsistent-round rows node queue placed c = record {
      right = IsRight-lower placed node rows (new_node rows node queue placed c) c.right;
      counted = λ x. ground (
        arith,
        c.counted x,
        count-sorted x (queue ++ freed node rows),
        count-append x queue (freed node rows),
        count-append x placed (node ∷ []),
        closed-lower x node rows,
      );
      kept = row_keys-lower node rows ∙ c.kept;
    }

    sort_loop-IsOrdered :
        (fuel : ℕ) (rows : List Row) (queue placed result : List Text)
        → IsConsistent rows queue placed
        → IsOrdered (within all deps) [] placed
        → sort_loop fuel rows queue placed ≡ sorted_keys result
        → IsOrdered (within all deps) [] result
          × (last : List Row) × IsConsistent last [] result
          × (open_rows last + length result ≡ open_rows rows + length queue + length placed)
    unfolding sort_loop
    sort_loop-IsOrdered fuel rows [] placed result c o h =
        let same : placed ≡ result = cc h in
        (
          subst (IsOrdered (within all deps) []) same o,
          rows,
          subst (IsConsistent rows []) same c,
          omega (arith, ap length same),
        )
    sort_loop-IsOrdered zero rows (node ∷ queue) placed result c o h = absurd (cc h)
    sort_loop-IsOrdered (suc fuel) rows (node ∷ queue) placed result c o h =
        let c' = IsConsistent-round rows node queue placed c in
        let free_now =
          closed-misses placed node rows c.right
            (ground (arith, c.counted node, text_beq_iff node node)) in
        let o' =
          IsOrdered-snoc (within all deps) [] placed node o
            (λ x. misses-zero placed (within all deps node) x free_now) in
        let (ordered, last, c_last, work) =
          sort_loop-IsOrdered fuel (lower node rows) (sorted (queue ++ freed node rows))
            (placed ++ node ∷ []) result c' o' h in
        (
          ordered,
          last,
          c_last,
          omega (arith, work, round_work node rows queue, length-append placed (node ∷ [])),
        )

misses-nil : (deps : List Text) → misses [] deps ≡ length deps
misses-nil [] = refl
misses-nil (d ∷ deps) = ground (arith, misses-nil deps)

IsConsistent-start :
    (all : List Text) (deps : Text → List Text)
    → IsConsistent all deps (rows_of all deps) (sorted (free (rows_of all deps))) []
IsConsistent-start all deps = record {
  right = right_rows all;
  counted = λ x.
      omega (arith, count-sorted x (free (rows_of all deps)), closed-free x (rows_of all deps));
  kept = kept_keys all;
}
  where
    right_rows : (keys : List Text) → All (IsRight all deps []) (map (row_of all deps) keys)
    right_rows [] = tt
    right_rows (key ∷ keys) = ((refl, sym (misses-nil (within all deps key))), right_rows keys)

    kept_keys : (keys : List Text) → row_keys (map (row_of all deps) keys) ≡ keys
    kept_keys [] = refl
    kept_keys (key ∷ keys) = ap (λ t. key ∷ t) (kept_keys keys)

complete-eq_some :
    (all : List Text) (o : Outcome) (result : List Text)
    → complete all o ≡ some result
    → (o ≡ sorted_keys result) × (length result ≡ length all)
complete-eq_some all (sorted_keys r) result h = (ground arith, ground arith)
complete-eq_some all sort_out_of_fuel result h = absurd (cc h)

-- When the topological sort of keys that are all different succeeds, every key is in the result, and each
-- key of the result stands after those of its dependencies that are keys.
pub topological_sort-IsOrdered :
    (all : List Text) (deps : Text → List Text) (result : List Text)
    → ((x : Text) → count x all ≤ 1)
    → topological_sort all deps ≡ some result
    → IsOrdered (within all deps) [] result
      × ((x : Text) → contains all x ≡ true → contains result x ≡ true)
unfolding topological_sort sort_keys
topological_sort-IsOrdered all deps result unique h =
    let rows = rows_of all deps in
    let (run, full) = complete-eq_some all (sort_keys all deps) result h in
    let (ordered, last, c, work) =
      sort_loop-IsOrdered all deps unique (length all) rows (sorted (free rows)) [] result
        (IsConsistent-start all deps) tt run in
    let none_open : open_rows last ≡ 0 = omega (
      arith,
      work,
      full,
      length-sorted (free rows),
      open_rows-free rows,
      length-rows_of all deps all,
    ) in
    (
      ordered,
      λ x m. ground (
        arith,
        m,
        contains-count all x,
        contains-count result x,
        c.counted x,
        closed-all x last none_open,
        ap (count x) c.kept,
      ),
    )
