-- ===== src/Common/Sets.antt =====
-- Python's sets of texts, as lists of which only the members count.
use precis_mcp.Common.Tests.{if◌then◌else◌}
use precis_mcp.Common.Equality.{Text, text_beq, text_beq_iff, text_eq}
use precis_mcp.Common.Lists.{contains, filterb}
use precis_mcp.Common.Order.{text_ltb}
use mathlib.Core.Path.{◌≡◌, refl}
use mathlib.Core.Bool.{Bool, not, ◌&&◌, ◌||◌}
use mathlib.Core.List.{List, [], ◌∷◌, ◌++◌}
use native.Mathlib.Omega.{arith}

-- `a & b`
unfoldable pub intersection : List Text → List Text → List Text
intersection a b = filterb (contains b) a

-- `a - b`
unfoldable pub difference : List Text → List Text → List Text
difference a b = filterb (λ x. not (contains b x)) a

-- `a | b`
unfoldable pub union : List Text → List Text → List Text
union a b = a ++ difference b a

-- `set(xs)`
unfoldable pub set_of : List Text → List Text
set_of [] = []
set_of (x ∷ xs) = let rest = set_of xs in if contains rest x then rest else x ∷ rest

unfoldable pub insert_sorted : Text → List Text → List Text
insert_sorted x [] = x ∷ []
insert_sorted x (y ∷ ys) = if text_ltb y x then y ∷ insert_sorted x ys else x ∷ y ∷ ys

-- `sorted(xs)`
unfoldable pub sorted : List Text → List Text
sorted [] = []
sorted (x ∷ xs) = insert_sorted x (sorted xs)

pub contains-append :
    (xs ys : List Text) (a : Text) → contains (xs ++ ys) a ≡ (contains xs a || contains ys a)
contains-append [] ys a = refl
contains-append (x ∷ xs) ys a = ground (arith, contains-append xs ys a)

pub contains-filterb :
    (p : Text → Bool) (xs : List Text) (a : Text)
    → contains (filterb p xs) a ≡ (contains xs a && p a)
contains-filterb p [] a = refl
contains-filterb p (x ∷ xs) a = ground (arith, text_beq_iff x a, contains-filterb p xs a)

pub contains-intersection :
    (xs ys : List Text) (a : Text)
    → contains (intersection xs ys) a ≡ (contains xs a && contains ys a)
unfolding intersection
contains-intersection xs ys a = contains-filterb (contains ys) xs a

pub contains-difference :
    (xs ys : List Text) (a : Text)
    → contains (difference xs ys) a ≡ (contains xs a && not (contains ys a))
unfolding difference
contains-difference xs ys a = contains-filterb (λ x. not (contains ys x)) xs a

or_and_not : (p q : Bool) → (p || (q && not p)) ≡ (p || q)
or_and_not p q = ground arith

pub contains-union :
    (xs ys : List Text) (a : Text) → contains (union xs ys) a ≡ (contains xs a || contains ys a)
unfolding union
contains-union xs ys a = rw (
  contains-append xs (difference ys xs) a,
  contains-difference ys xs a,
  or_and_not (contains xs a) (contains ys a),
)

pub contains-set_of : (xs : List Text) (a : Text) → contains (set_of xs) a ≡ contains xs a
unfolding set_of
contains-set_of [] a = refl
contains-set_of (x ∷ xs) a =
    ground (arith, text_beq_iff x a, contains-set_of xs a, contains-set_of xs x)

contains-insert_sorted :
    (x : Text) (ys : List Text) (a : Text)
    → contains (insert_sorted x ys) a ≡ (text_beq x a || contains ys a)
unfolding insert_sorted
contains-insert_sorted x [] a = refl
contains-insert_sorted x (y ∷ ys) a = ground (arith, contains-insert_sorted x ys a)

pub contains-sorted : (xs : List Text) (a : Text) → contains (sorted xs) a ≡ contains xs a
unfolding sorted
contains-sorted [] a = refl
contains-sorted (x ∷ xs) a = rw (contains-insert_sorted x (sorted xs) a, contains-sorted xs a)
