-- ===== src/Period/Shift.antt =====
-- Months as numbers: month `i` is month `i % 12 + 1` of the year `i / 12`.
use precis_mcp.Common.{
  Text, nat_eq, text_eq, string_eq, nat_beq, ℕ, ◌+◌, ◌-◌, ◌*◌, ◌/◌, ◌%◌, ◌≤◌, ◌<◌, ◌≡◌, refl, sym,
  ap, ◌∙◌, false, arith,
}
use precis_mcp.Common.Int.{ℤ, ◌+ℤ◌, int_laws, pos, negsuc}
use precis_mcp.Common.Result.{◌>>=◌, ok}
use precis_mcp.Period.{
  format_period, format_year, parse_calendar_period, period_to_first_of_month, divmod12,
  format_total, shift_month, shift_period,
}
use precis_mcp.Period.Format.{
  IsMonth, parse-format_period, parse-IsMonth, parse-int_year, parse-int_month,
}

-- The months of the years 0 to 9999.
abbrev pub month_limit : ℕ
month_limit = 120000

abbrev pub month_number : ℕ → ℕ → ℕ
month_number year month = year * 12 + (month - 1)

pub month_text : ℕ → Text
month_text i = format_period (i / 12) (i % 12 + 1)

pub format_total-pos : (i : ℕ) → format_total (pos i) ≡ month_text i
unfolding format_total divmod12 format_year month_text format_period
format_total-pos i = refl

pub format_period-month_text :
    (year month : ℕ)
    → IsMonth year month
    → format_period year month ≡ month_text (month_number year month)
unfolding month_text
format_period-month_text year month (hy, h1, h2) =
    let e : month_number year month / 12 ≡ year = omega arith in
    let f : month_number year month % 12 + 1 ≡ month = omega arith in rw (e, f)

pub parse-month_text :
    (i : ℕ) → i < month_limit → parse_calendar_period (month_text i) ≡ ok (i / 12, i % 12 + 1)
unfolding month_text
parse-month_text i h = parse-format_period (i / 12) (i % 12 + 1) (omega arith)

pub parse_number :
    (p : Text) (year month : ℕ)
    → parse_calendar_period p ≡ ok (year, month)
    → month_number year month < month_limit
parse_number p year month h = let (hy, h1, h2) = parse-IsMonth p year month h in omega arith

number_of_parts : (i : ℕ) → month_number (i / 12) (i % 12 + 1) ≡ i
number_of_parts i = omega arith

pub shift_month-month_text :
    (i : ℕ) (delta : ℤ)
    → i < month_limit
    → shift_month (month_text i) delta ≡ ok (format_total (pos i +ℤ delta))
unfolding shift_month
shift_month-month_text i delta h = rw (parse-month_text i h, number_of_parts i)

-- A period that parses shifts as the printed text of its month does.
pub shift_month-parsed :
    (p : Text) (year month : ℕ) (delta : ℤ)
    → parse_calendar_period p ≡ ok (year, month)
    → shift_month p delta ≡ shift_month (month_text (month_number year month)) delta
shift_month-parsed p year month delta h =
    rw (shift_month-month_text (month_number year month) delta (parse_number p year month h))
      (unfold shift_month in rw h refl)

pub first-month_text :
    (i : ℕ) → 12 ≤ i → i < month_limit → period_to_first_of_month (month_text i) ≡ ok i
unfolding period_to_first_of_month
first-month_text i h1 h2 =
    let e : nat_beq (i / 12) 0 ≡ false = ground arith in
    rw (parse-month_text i h2, e, number_of_parts i)

pub +ℤ-assoc : (a b c : ℤ) → a +ℤ b +ℤ c ≡ a +ℤ (b +ℤ c)
+ℤ-assoc a b c = omega int_laws

-- Shifting a calendar period by `a` and then by `b` is shifting it by `a + b`, where the period between
-- has a year of four digits.
pub shift_month-shift_month :
    (p : Text) (year month : ℕ) (a b : ℤ) (j : ℕ)
    → parse_calendar_period p ≡ ok (year, month)
    → pos (month_number year month) +ℤ a ≡ pos j
    → j < month_limit
    → (shift_month p a >>= λ q. shift_month q b) ≡ shift_month p (a +ℤ b)
shift_month-shift_month p year month a b j h e lt =
    let bound = parse_number p year month h in
    let i = month_number year month in
    rw
      (
        shift_month-parsed p year month a h,
        shift_month-parsed p year month (a +ℤ b) h,
        shift_month-month_text i a bound,
        e,
        format_total-pos j,
        shift_month-month_text j b lt,
        shift_month-month_text i (a +ℤ b) bound,
      )
      (ap (λ t. ok (format_total t)) (ap (λ t. t +ℤ b) (sym e) ∙ +ℤ-assoc (pos i) a b))

less_one : (y m : ℕ) → 1 ≤ m → pos (y * 12 + m) +ℤ negsuc 0 ≡ pos (month_number y m)
less_one y m h = omega int_laws

-- The engine's `shift_period` and the ingestion's `shift_month` agree on every calendar period.
pub shift_period-eq-shift_month :
    (p : Text) (year month : ℕ) (delta : ℤ)
    → parse_calendar_period p ≡ ok (year, month)
    → shift_period p delta ≡ shift_month p delta
unfolding shift_period shift_month
shift_period-eq-shift_month p year month delta h =
    let (hy, h1, h2) = parse-IsMonth p year month h in
    rw (parse-int_year p year month h, parse-int_month p year month h, h, less_one year month h1)
