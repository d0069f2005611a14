-- ===== src/Period/Format.antt =====
-- Calendar periods as month numbers: printing and parsing are inverse, and shifting is addition.
use precis_mcp.Common.{
  All, take, drop, Option-cases, refl, some, length, Text, nat_eq, text_eq, string_eq, nat_beq,
  Bool-cases, ℕ, suc, ◌+◌, ◌*◌, ◌/◌, ◌%◌, ◌≤◌, ◌<◌, ◌≡◌, ◌∙◌, inl, inr, Bool, true, false, ◌&&◌, [],
  ◌∷◌, arith,
}
use precis_mcp.Common.Decimal.{
  int?, all_digits, is_digit, int_from, value_of, decimal_value, decimal_value_lt,
  decimal_value_ascii, pad4_lem, pad2_lem,
}
use precis_mcp.Common.Result.{>>=-eq-ok, ok}
use precis_mcp.Period.{
  format_period, has_calendar_shape, int_or_raise, parse_parts, parse_calendar_period,
}

-- A month of the years 0 to 9999.
abbrev pub IsMonth : ℕ → ℕ → Type 0
IsMonth year month = (year < 10000) × (1 ≤ month) × (month ≤ 12)

abbrev chars : ℕ → ℕ → ℕ → ℕ → ℕ → ℕ → Text
chars a b c d e f =
    (b'0' + a) ∷ (b'0' + b) ∷ (b'0' + c) ∷ (b'0' + d) ∷ b'-' ∷ (b'0' + e) ∷ (b'0' + f) ∷ []

parse_digits :
    (a b c d e f : ℕ)
    → a < 10
    → b < 10
    → c < 10
    → d < 10
    → e < 10
    → f < 10
    → 1 ≤ e * 10 + f
    → e * 10 + f ≤ 12
    → parse_calendar_period (chars a b c d e f) ≡ ok (((a * 10 + b) * 10 + c) * 10 + d, e * 10 + f)
unfolding parse_calendar_period has_calendar_shape
parse_digits a b c d e f ha hb hc hd he hf h1 h2 = ground arith

-- The text of a month, of a year below 10000, parses to that month.
pub parse-format_period :
    (year month : ℕ)
    → IsMonth year month
    → parse_calendar_period (format_period year month) ≡ ok (year, month)
unfolding format_period
parse-format_period year month (hy, h1, h2) =
    rw (pad4_lem year hy, pad2_lem month (omega arith))
      (parse_digits (year / 1000) (year / 100 % 10) (year / 10 % 10) (year % 10) (month / 10)
          (month % 10) (omega arith) (omega arith) (omega arith) (omega arith) (omega arith)
          (omega arith) (omega arith) (omega arith)
        ∙ ground arith)

-- The values of the two, and of the four digits of a number that `int` reads.
record Two (e f m : ℕ) : Type 0 where
  ve : ℕ
  vf : ℕ
  e_value : decimal_value e ≡ some ve
  f_value : decimal_value f ≡ some vf
  number : m ≡ ve * 10 + vf

record Four (a b c d y : ℕ) : Type 0 where
  va : ℕ
  vb : ℕ
  vc : ℕ
  vd : ℕ
  a_value : decimal_value a ≡ some va
  b_value : decimal_value b ≡ some vb
  c_value : decimal_value c ≡ some vc
  d_value : decimal_value d ≡ some vd
  number : y ≡ ((va * 10 + vb) * 10 + vc) * 10 + vd

two : (e f m : ℕ) → int_or_raise (e ∷ f ∷ []) ≡ ok m → Two e f m
two e f m h = elim (Option-cases (decimal_value e)) [
  | inl gone ↦
      absurd (cc (rw (int_or_raise, int?, all_digits, is_digit, int_from, value_of, gone) at h))
  | inr (ve, ee) ↦ elim (Option-cases (decimal_value f)) [
    | inl gone ↦
        absurd
          (cc (rw (int_or_raise, int?, all_digits, is_digit, int_from, value_of, ee, gone) at h))
    | inr (vf, ef) ↦ record {
      ve = ve;
      vf = vf;
      e_value = ee;
      f_value = ef;
      number =
          let n : (0 * 10 + ve) * 10 + vf ≡ m =
            cc (rw (int_or_raise, int?, all_digits, is_digit, int_from, value_of, ee, ef) at h) in
          omega arith;
    }
  ]
]

four : (a b c d y : ℕ) → int_or_raise (a ∷ b ∷ c ∷ d ∷ []) ≡ ok y → Four a b c d y
four a b c d y h = elim (Option-cases (decimal_value a)) [
  | inl gone ↦
      absurd (cc (rw (int_or_raise, int?, all_digits, is_digit, int_from, value_of, gone) at h))
  | inr (va, ea) ↦ elim (Option-cases (decimal_value b)) [
    | inl gone ↦
        absurd
          (cc (rw (int_or_raise, int?, all_digits, is_digit, int_from, value_of, ea, gone) at h))
    | inr (vb, eb) ↦ elim (Option-cases (decimal_value c)) [
      | inl gone ↦ absurd (
          cc (rw (int_or_raise, int?, all_digits, is_digit, int_from, value_of, ea, eb, gone) at h))
      | inr (vc, ec) ↦ elim (Option-cases (decimal_value d)) [
        | inl gone ↦ absurd (
            cc (
              rw (int_or_raise, int?, all_digits, is_digit, int_from, value_of, ea, eb, ec, gone) at
                h))
        | inr (vd, ed) ↦ record {
          va = va;
          vb = vb;
          vc = vc;
          vd = vd;
          a_value = ea;
          b_value = eb;
          c_value = ec;
          d_value = ed;
          number =
              let n : (((0 * 10 + va) * 10 + vb) * 10 + vc) * 10 + vd ≡ y = cc (
                rw (int_or_raise, int?, all_digits, is_digit, int_from, value_of, ea, eb, ec, ed) at
                  h) in
              omega arith;
        }
      ]
    ]
  ]
]

month_bound : (e f m : ℕ) → Two e f m → m < 100
month_bound e f m t =
    let g = decimal_value_lt e t.ve t.e_value in
    let h = decimal_value_lt f t.vf t.f_value in let n = t.number in omega arith

year_bound : (a b c d y : ℕ) → Four a b c d y → y < 10000
year_bound a b c d y t =
    let g = decimal_value_lt a t.va t.a_value in
    let h = decimal_value_lt b t.vb t.b_value in
    let j = decimal_value_lt c t.vc t.c_value in
    let k = decimal_value_lt d t.vd t.d_value in let n = t.number in omega arith

-- A text that parses: its characters, what `int` reads of its two parts, and the month that is checked.
record Shape (p : Text) (year month : ℕ) : Type 0 where
  a : ℕ
  b : ℕ
  c : ℕ
  d : ℕ
  e : ℕ
  f : ℕ
  text : p ≡ a ∷ b ∷ c ∷ d ∷ b'-' ∷ e ∷ f ∷ []
  years : int_or_raise (a ∷ b ∷ c ∷ d ∷ []) ≡ ok year
  months : int_or_raise (e ∷ f ∷ []) ≡ ok month
  low : 1 ≤ month
  high : month ≤ 12

parts :
    (y m : Text) (year month : ℕ)
    → parse_parts y m ≡ ok (year, month)
    → (int_or_raise y ≡ ok year) × (int_or_raise m ≡ ok month) × (1 ≤ month) × (month ≤ 12)
parts y m year month h =
    let (y', years, h1) = >>=-eq-ok (int_or_raise y) _ h in
    let (m', months, h2) = >>=-eq-ok (int_or_raise m) _ h1 in
    let checked : (y' ≡ year) × (m' ≡ month) × (1 ≤ m') × (m' ≤ 12) =
      (ground arith, ground arith, ground arith, ground arith) in
    let (same_year, same_month, low, high) = checked in
    (cc (years, same_year), cc (months, same_month), ground arith, ground arith)

dash : (s : ℕ) (rest : Bool) → (nat_beq s b'-' && rest) ≡ true → s ≡ b'-'
dash s rest h = ground arith

too_long : (n : ℕ) → nat_beq (suc (suc (suc (suc (suc (suc (suc (suc n)))))))) 7 ≡ false
too_long n = ground arith

and_false : (b c : Bool) → b ≡ false → (b && c) ≡ false
and_false b c h = ground arith

parts_of :
    (p : Text) (year month : ℕ)
    → has_calendar_shape p ≡ true
    → parse_parts (take 4 p) (drop 5 p) ≡ ok (year, month)
    → Shape p year month
unfolding has_calendar_shape
parts_of [] y m h k = absurd (ground arith)
parts_of (a ∷ []) y m h k = absurd (ground arith)
parts_of (a ∷ b ∷ []) y m h k = absurd (ground arith)
parts_of (a ∷ b ∷ c ∷ []) y m h k = absurd (ground arith)
parts_of (a ∷ b ∷ c ∷ d ∷ []) y m h k = absurd (ground arith)
parts_of (a ∷ b ∷ c ∷ d ∷ s ∷ []) y m h k = absurd (ground arith)
parts_of (a ∷ b ∷ c ∷ d ∷ s ∷ e ∷ []) y m h k = absurd (ground arith)
parts_of (a ∷ b ∷ c ∷ d ∷ s ∷ e ∷ f ∷ []) y m h k =
    let (years, months, low, high) = parts (a ∷ b ∷ c ∷ d ∷ []) (e ∷ f ∷ []) y m k in
    let hyphen : s ≡ b'-' = dash s _ h in
    record {
      a = a;
      b = b;
      c = c;
      d = d;
      e = e;
      f = f;
      text = rw hyphen refl;
      years = years;
      months = months;
      low = low;
      high = high;
    }
parts_of (a ∷ b ∷ c ∷ d ∷ s ∷ e ∷ f ∷ g ∷ r) y m h k =
    absurd (cc (and_false _ _ (too_long (length r)), h))

shape :
    (p : Text) (year month : ℕ) → parse_calendar_period p ≡ ok (year, month) → Shape p year month
unfolding parse_calendar_period
shape p y m h = elim (Bool-cases (has_calendar_shape p)) [
  | inl good ↦ parts_of p y m good (rw good at h)
  | inr bad ↦
      absurd (cc (rw (int_or_raise, int?, all_digits, is_digit, int_from, value_of, bad) at h))
]

-- A text that parses has a year below 10000 and a month between 1 and 12.
pub parse-IsMonth :
    (p : Text) (year month : ℕ) → parse_calendar_period p ≡ ok (year, month) → IsMonth year month
parse-IsMonth p year month h =
    let s = shape p year month h in
    (year_bound s.a s.b s.c s.d year (four s.a s.b s.c s.d year s.years), s.low, s.high)

-- The slices of the text that the engine reads give the same year and month.
pub parse-int_year :
    (p : Text) (year month : ℕ)
    → parse_calendar_period p ≡ ok (year, month)
    → int_or_raise (take 4 p) ≡ ok year
parse-int_year p year month h = let s = shape p year month h in rw s.text s.years

pub parse-int_month :
    (p : Text) (year month : ℕ)
    → parse_calendar_period p ≡ ok (year, month)
    → int_or_raise (take 2 (drop 5 p)) ≡ ok month
parse-int_month p year month h = let s = shape p year month h in rw s.text s.months

abbrev pub IsAscii : Text → Type 0
IsAscii p = All (λ c. c < 128) p

abbrev pub Parsed : Text → ℕ → ℕ → Type 0
Parsed p year month = IsMonth year month × (IsAscii p → p ≡ format_period year month)

ascii_canonical :
    (a b c d e f y m : ℕ)
    → Four a b c d y
    → Two e f m
    → IsAscii (a ∷ b ∷ c ∷ d ∷ b'-' ∷ e ∷ f ∷ [])
    → a ∷ b ∷ c ∷ d ∷ b'-' ∷ e ∷ f ∷ [] ≡ format_period y m
unfolding format_period
ascii_canonical a b c d e f y m s t (ha, (hb, (hc, (hd, (hs, (he, (hf, _))))))) =
    let a_is = decimal_value_ascii a s.va ha s.a_value in
    let b_is = decimal_value_ascii b s.vb hb s.b_value in
    let c_is = decimal_value_ascii c s.vc hc s.c_value in
    let d_is = decimal_value_ascii d s.vd hd s.d_value in
    let e_is = decimal_value_ascii e t.ve he t.e_value in
    let f_is = decimal_value_ascii f t.vf hf t.f_value in
    let a_lt = decimal_value_lt a s.va s.a_value in
    let b_lt = decimal_value_lt b s.vb s.b_value in
    let c_lt = decimal_value_lt c s.vc s.c_value in
    let d_lt = decimal_value_lt d s.vd s.d_value in
    let e_lt = decimal_value_lt e t.ve t.e_value in
    let f_lt = decimal_value_lt f t.vf t.f_value in
    let year = s.number in
    let month = t.number in
    let a1 : a ≡ b'0' + y / 1000 = omega arith in
    let b1 : b ≡ b'0' + y / 100 % 10 = omega arith in
    let c1 : c ≡ b'0' + y / 10 % 10 = omega arith in
    let d1 : d ≡ b'0' + y % 10 = omega arith in
    let e1 : e ≡ b'0' + m / 10 = omega arith in
    let f1 : f ≡ b'0' + m % 10 = omega arith in
    rw
      (
        pad4_lem y (year_bound a b c d y s),
        pad2_lem m (month_bound e f m t),
        a1,
        b1,
        c1,
        d1,
        e1,
        f1,
      )
      refl

-- A text that parses to a month has a year below 10000 and a month between 1 and 12; and when its
-- characters are ASCII, it is the one text that is printed for this month. (Decimal digits of other
-- scripts parse too.)
pub parse_canonical :
    (p : Text) (year month : ℕ) → parse_calendar_period p ≡ ok (year, month) → Parsed p year month
parse_canonical p y m h =
    let s = shape p y m h in
    (
      parse-IsMonth p y m h,
      λ ascii.
          s.text
          ∙ ascii_canonical s.a s.b s.c s.d s.e s.f y m (four s.a s.b s.c s.d y s.years)
              (two s.e s.f m s.months) (rw s.text at ascii),
    )
