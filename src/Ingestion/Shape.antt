-- ===== src/Ingestion/Shape.antt =====
-- The comparison of the columns of a live table and of its staging twin (precis_mcp/ingestion/validate.py).
pub mod Passed
use precis_mcp.Common.{
  length, get_elem?, take, drop, replicate, All, filterb, length-append, contains, Text, codes,
  text_beq, text_beq_iff, text_eq, string_eq, nat_eq, ◌==◌, beq_refl, Eq, ltb, leb, nat_beq,
  if◌then◌else◌, ltb→lt, leb→le, le→leb, nat_beq_iff, Bool-cases, Option-cases, ℕ, zero, suc, ◌+◌,
  ◌-◌, ◌*◌, ◌/◌, ◌%◌, ◌≤◌, ◌<◌, min, String, ◌≡◌, refl, sym, ap, subst, ◌∙◌, fun_ext, ◌≢◌, ◌↔◌, ◌⊎◌,
  inl, inr, Bool, true, false, not, ◌&&◌, ◌||◌, Option, none, some, List, [], ◌∷◌, ◌++◌, map,
  append_assoc, append-nil, arith,
}
use precis_mcp.Common.Result.{
  guard, ◌>>=◌, ◌>>◌, map_result, >>=-eq-ok, >>=-cong, >>=_assoc, Result, err, ok,
}
use precis_mcp.Common.Strings.{starts_with}
use precis_mcp.Common.Maps.{
  Dict, lookup, insert, keys, insert_item, sort_items, lookup-insert, lookup-sort_items,
}
use precis_mcp.Common.Spaces.{is_space}
use precis_mcp.Common.Sets.{
  intersection, difference, union, set_of, insert_sorted, sorted, contains-append, contains-filterb,
  contains-intersection, contains-difference, contains-union, contains-set_of, contains-sorted,
}

pub data ShapeError : Type 0 where
  not_live live_missing staging_missing : ShapeError

-- The rows of `system.columns` by database and table: name and type.
abbrev pub Columns : Type 0
Columns = Text → Text → List (Text × Text)

unfoldable pub dict_of : Dict Text → Dict Text → Dict Text
dict_of d [] = d
dict_of d ((name, kind) ∷ rows) = dict_of (insert name kind d) rows

abbrev pub shape_of : List (Text × Text) → Option (Dict Text)
shape_of [] = none
shape_of (row ∷ rows) = some (dict_of [] (row ∷ rows))

-- `_read_column_shape`
abbrev pub read_column_shape : Columns → Text → Text → Option (Dict Text)
read_column_shape columns database table = shape_of (columns database table)

-- `"".join(t.split())`
unfoldable pub normalise_type : Text → Text
normalise_type t = filterb (λ c. not (is_space c)) t

pub record ValidationResult : Type 0 where
  pub passed : Bool
  pub missing_in_staging : List Text
  pub extra_in_staging : List Text
  pub type_mismatches : List (Text × (Text × Text))

abbrev pub is_empty {ℓ} : {A : Type ℓ} → List A → Bool
is_empty [] = true
is_empty (x ∷ xs) = false

abbrev pub mismatch_of : Text → Option Text → Option Text → List (Text × (Text × Text))
mismatch_of col none _ = []
mismatch_of col (some live) none = []
mismatch_of col (some live) (some staging) =
    if text_beq (normalise_type live) (normalise_type staging)
    then []
    else (col, (live, staging)) ∷ []

-- The loop over the common columns.
unfoldable pub mismatches : Dict Text → Dict Text → List Text → List (Text × (Text × Text))
mismatches live staging [] = []
mismatches live staging (col ∷ cols) =
    mismatch_of col (lookup col live) (lookup col staging) ++ mismatches live staging cols

unfoldable pub compare_shapes : Dict Text → Dict Text → ValidationResult
compare_shapes live staging =
    let missing = sorted (difference (keys live) (keys staging)) in
    let extra = sorted (difference (keys staging) (keys live)) in
    let differing = mismatches live staging (sorted (intersection (keys live) (keys staging))) in
    record {
      passed = is_empty missing && (is_empty extra && is_empty differing);
      missing_in_staging = missing;
      extra_in_staging = extra;
      type_mismatches = differing;
    }

abbrev pub compare_known :
    Option (Dict Text) → Option (Dict Text) → Result ShapeError ValidationResult
compare_known none staging = err live_missing
compare_known (some live) none = err staging_missing
compare_known (some live) (some staging) = ok (compare_shapes live staging)

abbrev pub live_prefix : Text
live_prefix = codes "live."

unfoldable pub validate_staging_shape : Columns → Text → Result ShapeError ValidationResult
validate_staging_shape columns target =
    if starts_with live_prefix target
    then (let table = drop (length live_prefix) target in
        compare_known (read_column_shape columns (codes "live") table)
          (read_column_shape columns (codes "staging") table))
    else err not_live
