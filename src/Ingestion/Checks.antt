-- ===== src/Ingestion/Checks.antt =====
-- The verdict of the data-quality checks (precis_mcp/ingestion/checks.py).
pub mod Gate
use precis_mcp.Common.{
  filterb, Text, text_beq, nat_eq, text_eq, string_eq, ltb, leb, nat_beq, if◌then◌else◌, ℕ, Bool,
  true, false, not, ◌&&◌, ◌||◌, Option, none, some, List, [], ◌∷◌,
}
use precis_mcp.Common.Result.{◌>>=◌, map_result, Result, ok, err}
use precis_mcp.Common.Decimal.{is_digit, int_from}

pub data Severity : Type 0 where
  error warning : Severity

pub data Verdict : Type 0 where
  passed succeeded_with_warnings failed_checks : Verdict

pub data Operator : Type 0 where
  gt lt ge le eq ne : Operator

-- `Check`, without the fields that only shape its SQL
pub record Check : Type 0 where
  pub name : Text
  pub severity : Severity
  pub is_reconcile : Bool
  pub threshold : Option Text

pub record CheckResult : Type 0 where
  pub name : Text
  pub severity : Severity
  pub passed : Bool
  pub failing : Option ℕ

-- The characters that `\s` matches in ASCII.
abbrev is_space : ℕ → Bool
is_space c = nat_beq c 32 || (leb 9 c && leb c 13) || (leb 28 c && leb c 31)

abbrev skip_spaces : Text → Text
skip_spaces [] = []
skip_spaces (c ∷ cs) = let rest = skip_spaces cs in if is_space c then rest else c ∷ cs

abbrev take_digits : Text → Text × Text
take_digits [] = ([], [])
take_digits (c ∷ cs) =
    let (ds, rest) = take_digits cs in if is_digit c then (c ∷ ds, rest) else ([], c ∷ cs)

-- `(>=|<=|!=|=|>|<)`, the first alternative that fits
abbrev take_operator : Text → Option (Operator × Text)
take_operator [] = none
take_operator (c ∷ []) =
    if nat_beq c b'='
    then some (eq, [])
    else if nat_beq c b'>'
    then some (gt, [])
    else if nat_beq c b'<'
    then some (lt, [])
    else none
take_operator (c ∷ d ∷ cs) =
    if nat_beq c b'>' && nat_beq d b'='
    then some (ge, cs)
    else if nat_beq c b'<' && nat_beq d b'='
    then some (le, cs)
    else if nat_beq c b'!' && nat_beq d b'='
    then some (ne, cs)
    else if nat_beq c b'='
    then some (eq, d ∷ cs)
    else if nat_beq c b'>'
    then some (gt, d ∷ cs)
    else if nat_beq c b'<'
    then some (lt, d ∷ cs)
    else none

abbrev threshold_number : Option (Operator × Text) → Option (Operator × ℕ)
threshold_number none = none
threshold_number (some (op, t)) =
    let (ds, rest) = take_digits (skip_spaces t) in
    if not (text_beq ds []) && text_beq (skip_spaces rest) []
    then some (op, int_from 0 ds)
    else none

-- `_THRESHOLD_RE.match(threshold)`
unfoldable pub parse_threshold : Text → Option (Operator × ℕ)
parse_threshold t = threshold_number (take_operator (skip_spaces t))

unfoldable pub compares : Operator → ℕ → ℕ → Bool
compares gt a b = ltb b a
compares lt a b = ltb a b
compares ge a b = leb b a
compares le a b = leb a b
compares eq a b = nat_beq a b
compares ne a b = not (nat_beq a b)

abbrev pub trips_parsed : ℕ → Option (Operator × ℕ) → Bool
trips_parsed failing none = ltb 0 failing
trips_parsed failing (some (op, n)) = compares op failing n

-- `_trips`: by default any failing row trips.
unfoldable pub trips : ℕ → Option Text → Bool
trips failing none = ltb 0 failing
trips failing (some t) = trips_parsed failing (parse_threshold t)

-- What counting a check's failing rows, or reconciling its totals, comes to.
pub data Counted : Type 0 where
  counted : ℕ → Counted
  -- `CheckError`, which is raised on
  check_error : Text → Counted
  -- any other exception, which counts as a trip
  other_error : Text → Counted

unfoldable pub check_result : Check → Counted → Result Text CheckResult
check_result c (counted failing) = ok (record {
  name = c.name;
  severity = c.severity;
  passed = not (trips failing c.threshold);
  failing = some failing;
})
check_result c (check_error e) = err e
check_result c (other_error e) =
    ok (record { name = c.name; severity = c.severity; passed = false; failing = none })

-- `any(not r.passed and r.severity == s for r in results)`
abbrev pub is_severity : Severity → Severity → Bool
is_severity error error = true
is_severity warning warning = true
is_severity error warning = false
is_severity warning error = false

unfoldable pub tripped : Severity → List CheckResult → Bool
tripped s [] = false
tripped s (r ∷ rs) = (not r.passed && is_severity r.severity s) || tripped s rs

unfoldable pub verdict_of : List CheckResult → Verdict
unfolding tripped
verdict_of results =
    if tripped error results
    then failed_checks
    else if tripped warning results
    then succeeded_with_warnings
    else passed

pub record CheckRun : Type 0 where
  pub verdict : Verdict
  pub results : List CheckResult

-- The loop of `run_checks`: a `CheckError` ends it.
unfoldable pub run_checks : (Check → Counted) → List Check → Result Text CheckRun
run_checks count checks = do
  results ← map_result (λ c. check_result c (count c)) checks
  ok (record { verdict = verdict_of results; results = results })

-- `CheckRunResult.blocked`
abbrev pub blocked : Verdict → Bool
blocked failed_checks = true
blocked passed = false
blocked succeeded_with_warnings = false

-- `reconcile_checks`
abbrev pub reconcile_checks : List Check → List Check
reconcile_checks checks = filterb (λ c. c.is_reconcile) checks
