-- ===== src/Common/Decimal.antt =====
-- Python's `int(text)`, `text.isdigit()` and `f"{n:0wd}"`.
use Prim.Native.Nat.{ℕ, zero, suc, ◌+◌, ◌-◌, ◌*◌, ◌/◌, ◌%◌, ◌<◌, ◌≤◌}
use mathlib.Core.Path.{◌≡◌, refl}
use mathlib.Core.Bool.{Bool, true, false, not, ◌&&◌, ◌||◌}
use mathlib.Core.Option.{Option, none, some}
use mathlib.Core.List.{List, [], ◌∷◌, ◌++◌}
use mathlib.Core.Logic.{inl, inr}
use native.Mathlib.Omega.{arith}
use precis_mcp.Common.Tests.{ltb, leb, Bool-cases, if◌then◌else◌}
use precis_mcp.Common.Equality.{Text}
use precis_mcp.Common.Lists.{length, replicate}

-- The zeros of the runs of ten decimal digits outside ASCII, in Unicode 15 (of Python 3.12).
abbrev pub decimal_zeros : List ℕ
decimal_zeros =
    1632 ∷ 1776 ∷ 1984 ∷ 2406 ∷ 2534 ∷ 2662 ∷ 2790 ∷ 2918 ∷ 3046 ∷ 3174 ∷ 3302 ∷ 3430 ∷ 3558 ∷ 3664
    ∷ 3792 ∷ 3872 ∷ 4160 ∷ 4240 ∷ 6112 ∷ 6160 ∷ 6470 ∷ 6608 ∷ 6784 ∷ 6800 ∷ 6992 ∷ 7088 ∷ 7232
    ∷ 7248 ∷ 42528 ∷ 43216 ∷ 43264 ∷ 43472 ∷ 43504 ∷ 43600 ∷ 44016 ∷ 65296 ∷ 66720 ∷ 68912 ∷ 69734
    ∷ 69872 ∷ 69942 ∷ 70096 ∷ 70384 ∷ 70736 ∷ 70864 ∷ 71248 ∷ 71360 ∷ 71472 ∷ 71904 ∷ 72016 ∷ 72784
    ∷ 73040 ∷ 73120 ∷ 73552 ∷ 92768 ∷ 92864 ∷ 93008 ∷ 120782 ∷ 120792 ∷ 120802 ∷ 120812 ∷ 120822
    ∷ 123200 ∷ 123632 ∷ 124144 ∷ 125264 ∷ 130032 ∷ []

-- The digits that are no decimal ones, such as superscripts, as the runs of their code points.
abbrev digit_runs : List (ℕ × ℕ)
digit_runs =
    (178, 179)
    ∷ (185, 185)
    ∷ (4969, 4977)
    ∷ (6618, 6618)
    ∷ (8304, 8304)
    ∷ (8308, 8313)
    ∷ (8320, 8329)
    ∷ (9312, 9320)
    ∷ (9332, 9340)
    ∷ (9352, 9360)
    ∷ (9450, 9450)
    ∷ (9461, 9469)
    ∷ (9471, 9471)
    ∷ (10102, 10110)
    ∷ (10112, 10120)
    ∷ (10122, 10130)
    ∷ (68160, 68163)
    ∷ (69216, 69224)
    ∷ (69714, 69722)
    ∷ (127232, 127242)
    ∷ []

unfoldable pub decimal_in : List ℕ → ℕ → Option ℕ
decimal_in [] c = none
decimal_in (z ∷ zs) c =
    let rest = decimal_in zs c in if leb z c && ltb c (z + 10) then some (c - z) else rest

unfoldable pub in_runs : List (ℕ × ℕ) → ℕ → Bool
in_runs [] c = false
in_runs ((a, b) ∷ runs) c = (leb a c && leb c b) || in_runs runs c

-- The value of a decimal digit outside ASCII.
unfoldable pub other_decimal : ℕ → Option ℕ
unfolding decimal_in
other_decimal c = decimal_in decimal_zeros c

unfoldable pub other_digit : ℕ → Bool
unfolding in_runs
other_digit c = in_runs digit_runs c

abbrev pub is_ascii_digit : ℕ → Bool
is_ascii_digit c = leb b'0' c && leb c b'9'

-- The value of a decimal digit, as `int` reads it.
abbrev pub decimal_value : ℕ → Option ℕ
decimal_value c =
    if ltb c 128 then (if is_ascii_digit c then some (c - b'0') else none) else other_decimal c

-- A decimal digit, as `\d` of a regular expression matches it.
abbrev pub is_digit : ℕ → Bool
is_digit c = elim (decimal_value c) [ none ↦ false | some d ↦ true ]

abbrev pub all_digits : Text → Bool
all_digits [] = true
all_digits (c ∷ cs) = is_digit c && all_digits cs

abbrev pub are_digits : Text → Bool
are_digits [] = true
are_digits (c ∷ cs) = (is_digit c || (not (ltb c 128) && other_digit c)) && are_digits cs

-- `text.isdigit()` is false on the empty text.
abbrev pub isdigit : Text → Bool
isdigit [] = false
isdigit (c ∷ cs) = are_digits (c ∷ cs)

abbrev pub value_of : ℕ → ℕ
value_of c = elim (decimal_value c) [ none ↦ 0 | some d ↦ d ]

abbrev pub int_from : ℕ → Text → ℕ
int_from acc [] = acc
int_from acc (c ∷ cs) = int_from (acc * 10 + value_of c) cs

-- `int(text)` where the text is decimal digits; `none` is the ValueError. (Python also reads signs,
-- surrounding spaces and underscores, which no period has.)
abbrev pub int? : Text → Option ℕ
int? [] = none
int? (c ∷ cs) = if all_digits (c ∷ cs) then some (int_from 0 (c ∷ cs)) else none

-- No run of ten digits meets the code points from `lo` to `hi`.
abbrev pub is_apart : List ℕ → ℕ → ℕ → Bool
is_apart [] lo hi = true
is_apart (z ∷ zs) lo hi = (leb (z + 10) lo || ltb hi z) && is_apart zs lo hi

decimal_in-none :
    (zs : List ℕ) (lo hi c : ℕ)
    → is_apart zs lo hi ≡ true
    → lo ≤ c
    → c ≤ hi
    → decimal_in zs c ≡ none
unfolding decimal_in
decimal_in-none [] lo hi c h low high = refl
decimal_in-none (z ∷ zs) lo hi c h low high =
    let outside : (leb z c && ltb c (z + 10)) ≡ false = ground arith in
    rw outside (decimal_in-none zs lo hi c (ground arith) low high)

pub other_decimal-none :
    (lo hi c : ℕ) → is_apart decimal_zeros lo hi ≡ true → lo ≤ c → c ≤ hi → other_decimal c ≡ none
unfolding other_decimal
other_decimal-none lo hi c h low high = decimal_in-none decimal_zeros lo hi c h low high

-- A decimal digit is worth less than ten.
decimal_in_lt : (zs : List ℕ) (c d : ℕ) → decimal_in zs c ≡ some d → d < 10
unfolding decimal_in
decimal_in_lt [] c d h = absurd (cc h)
decimal_in_lt (z ∷ zs) c d h = elim (Bool-cases (leb z c && ltb c (z + 10))) [
  | inl e ↦ ground arith
  | inr e ↦ decimal_in_lt zs c d (rw e at h)
]

other_decimal_lt : (c d : ℕ) → other_decimal c ≡ some d → d < 10
unfolding other_decimal
other_decimal_lt c d h = decimal_in_lt decimal_zeros c d h

pub decimal_value_lt : (c d : ℕ) → decimal_value c ≡ some d → d < 10
decimal_value_lt c d h = ground (arith, other_decimal_lt c d)

pub decimal_value_ascii : (c d : ℕ) → c < 128 → decimal_value c ≡ some d → c ≡ b'0' + d
decimal_value_ascii c d lt h = ground arith

-- The digits of `n`, most significant first, on fuel.
unfoldable pub digits : ℕ → ℕ → Text
digits zero n = []
digits (suc f) n =
    let rest = digits f (n / 10) in
    if ltb n 10 then (b'0' + n) ∷ [] else rest ++ (b'0' + n % 10) ∷ []

unfoldable pub decimal : ℕ → Text
unfolding digits
decimal n = digits (suc (suc (suc (suc n)))) n

-- `f"{n:0wd}"`
unfoldable pub pad : ℕ → ℕ → Text
unfolding decimal
pad w n = let d = decimal n in replicate (w - length d) b'0' ++ d

int_from-append :
    (acc : ℕ) (s : Text) (c : ℕ) → int_from acc (s ++ c ∷ []) ≡ int_from acc s * 10 + value_of c
int_from-append acc [] c = refl
int_from-append acc (x ∷ s) c = int_from-append (acc * 10 + value_of x) s c

int_from-digits : (f n : ℕ) → n < f → int_from 0 (digits f n) ≡ n
unfolding digits
int_from-digits zero n h = elim h [ ]
int_from-digits (suc f) n h =
    ground
      (arith, int_from-append 0 (digits f (n / 10)) (b'0' + n % 10), int_from-digits f (n / 10))

-- The fuel of `decimal` is enough: reading the digits back gives the number.
pub int_from-decimal : (n : ℕ) → int_from 0 (decimal n) ≡ n
unfolding decimal
int_from-decimal n = int_from-digits (suc (suc (suc (suc n)))) n (omega arith)

pub pad4_lem :
    (n : ℕ)
    → n < 10000
    → pad 4 n
      ≡ (b'0' + n / 1000) ∷ (b'0' + n / 100 % 10) ∷ (b'0' + n / 10 % 10) ∷ (b'0' + n % 10) ∷ []
unfolding pad
pad4_lem n h = ground arith

pub pad2_lem : (n : ℕ) → n < 100 → pad 2 n ≡ (b'0' + n / 10) ∷ (b'0' + n % 10) ∷ []
unfolding pad
pad2_lem n h = ground arith
