-- ===== src/Period/Order.antt =====
-- Python compares texts by their code points. On calendar periods that order is the order of months,
-- which `period_start > period_end`, `ORDER BY period` and the lock ranges rely on.
use precis_mcp.Common.{
  nat_eq, text_eq, string_eq, ltb, nat_beq, ℕ, ◌+◌, ◌*◌, ◌/◌, ◌%◌, ◌≤◌, ◌<◌, ◌≡◌, Bool, false, ◌&&◌,
  ◌||◌, arith,
}
use precis_mcp.Common.Order.{text_ltb}
use precis_mcp.Common.Decimal.{pad4_lem, pad2_lem}
use precis_mcp.Period.{format_period}
use precis_mcp.Period.Format.{IsMonth}
use precis_mcp.Period.Shift.{month_number}

abbrev digit_lt : ℕ → ℕ → Bool → Bool
digit_lt a b rest = ltb (b'0' + a) (b'0' + b) || (nat_beq (b'0' + a) (b'0' + b) && rest)

module _ (a b r s : ℕ) where
  by10 : r < 10 → s < 10 → digit_lt a b (ltb r s) ≡ ltb (a * 10 + r) (b * 10 + s)
  by10 h k = ground arith

  by100 : r < 100 → s < 100 → digit_lt a b (ltb r s) ≡ ltb (a * 100 + r) (b * 100 + s)
  by100 h k = ground arith

  by1000 : r < 1000 → s < 1000 → digit_lt a b (ltb r s) ≡ ltb (a * 1000 + r) (b * 1000 + s)
  by1000 h k = ground arith

  by10000 : r < 10000 → s < 10000 → digit_lt a b (ltb r s) ≡ ltb (a * 10000 + r) (b * 10000 + s)
  by10000 h k = ground arith

  by100000 :
      r < 100000 → s < 100000 → digit_lt a b (ltb r s) ≡ ltb (a * 100000 + r) (b * 100000 + s)
  by100000 h k = ground arith

last_digit : (a b : ℕ) → digit_lt a b false ≡ ltb a b
last_digit a b = ground arith

same_order :
    (y m z n : ℕ)
    → 1 ≤ m
    → m ≤ 12
    → 1 ≤ n
    → n ≤ 12
    → ltb (y * 100 + m) (z * 100 + n) ≡ ltb (month_number y m) (month_number z n)
same_order y m z n h1 h2 k1 k2 = ground arith

-- The texts of two months, of years below 10000, compare by their code points as the months do.
pub text_ltb-format_period :
    (y m z n : ℕ)
    → IsMonth y m
    → IsMonth z n
    → text_ltb (format_period y m) (format_period z n) ≡ ltb (month_number y m) (month_number z n)
unfolding format_period
text_ltb-format_period y m z n (hy, h1, h2) (hz, k1, k2) =
    let m' = m / 10 * 10 + m % 10 in
    let n' = n / 10 * 10 + n % 10 in
    let y1 = y % 10 * 100 + m' in
    let z1 = z % 10 * 100 + n' in
    let y2 = y / 10 % 10 * 1000 + y1 in
    let z2 = z / 10 % 10 * 1000 + z1 in
    let y3 = y / 100 % 10 * 10000 + y2 in
    let z3 = z / 100 % 10 * 10000 + z2 in
    let ey : y / 1000 * 100000 + y3 ≡ y * 100 + m = omega arith in
    let ez : z / 1000 * 100000 + z3 ≡ z * 100 + n = omega arith in
    rw
      (
        pad4_lem y hy,
        pad4_lem z hz,
        pad2_lem m (omega arith),
        pad2_lem n (omega arith),
        last_digit (m % 10) (n % 10),
        by10 (m / 10) (n / 10) (m % 10) (n % 10) (omega arith) (omega arith),
        by100 (y % 10) (z % 10) m' n' (omega arith) (omega arith),
        by1000 (y / 10 % 10) (z / 10 % 10) y1 z1 (omega arith) (omega arith),
        by10000 (y / 100 % 10) (z / 100 % 10) y2 z2 (omega arith) (omega arith),
        by100000 (y / 1000) (z / 1000) y3 z3 (omega arith) (omega arith),
        ey,
        ez,
      )
      (same_order y m z n h1 h2 k1 k2)
