-- ===== src/Ingestion/Checks/Gate.antt =====
-- When the data-quality checks (precis_mcp/ingestion/checks.py) let a load pass.
use precis_mcp.Common.{
  Text, ltb, leb, nat_beq, ℕ, Option, none, some, text_eq, string_eq, nat_eq, Bool, true, false,
  not, ◌&&◌, ◌||◌, List, [], ◌∷◌,
}
use precis_mcp.Common.Result.{Result}
use precis_mcp.Ingestion.Checks.{
  Severity, Operator, Check, parse_threshold, gt, lt, ge, le, eq, ne, Counted, is_severity, counted,
  check_error, other_error,
}

-- The number of failing rows is in the range that a threshold reports; without a threshold, or with one that
-- cannot be read, every number but zero is.
abbrev pub is_reported : ℕ → Option (Operator × ℕ) → Bool
is_reported n none = not (nat_beq n 0)
is_reported n (some (gt, k)) = not (leb n k)
is_reported n (some (lt, k)) = not (leb k n)
is_reported n (some (ge, k)) = not (ltb n k)
is_reported n (some (le, k)) = not (ltb k n)
is_reported n (some (eq, k)) = leb n k && leb k n
is_reported n (some (ne, k)) = ltb n k || ltb k n

abbrev pub threshold_of : Option Text → Option (Operator × ℕ)
threshold_of none = none
threshold_of (some t) = parse_threshold t

-- The check found too many failing rows, or could not be run.
abbrev pub trips_on : Check → Counted → Bool
trips_on c (counted n) = is_reported n (threshold_of c.threshold)
trips_on c (check_error e) = true
trips_on c (other_error e) = true

-- Some check of this severity trips.
abbrev pub some_trips : Severity → (Check → Counted) → List Check → Bool
some_trips s count [] = false
some_trips s count (c ∷ cs) =
    (trips_on c (count c) && is_severity c.severity s) || some_trips s count cs
