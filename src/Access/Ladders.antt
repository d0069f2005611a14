-- ===== src/Access/Ladders.antt =====
-- The two ladders of precis_mcp/auth.py: of patterns, by how specific they are, and of roles.
use precis_mcp.Common.{
  Text, codes, text_beq, text_beq_iff, text_eq, string_eq, nat_eq, leb, nat_beq, if◌then◌else◌,
  Bool-cases, ℕ, ◌≤◌, ◌≡◌, refl, sym, subst, ◌∙◌, inl, inr, not, ◌&&◌, ◌||◌, ◌==◌, Bool, false,
  Option, none, some, List, [], ◌∷◌, arith,
}
use precis_mcp.Common.Maps.{Dict}
use precis_mcp.Scope.{ScopeSpec}
use precis_mcp.Access.{
  category_members, category_rank, Role, ToolType, pattern_match_rank, Entry, Best, better,
  best_pattern, entry_of, resolve_profile_for_scenario, Blocks, block_of, analyst, planner, manager,
  read, write, plan_manager,
}

abbrev pub or_next {ℓ} : {A : Type ℓ} → Option A → Option A → Option A
or_next none b = b
or_next (some a) b = some a

-- A category's pattern matches the scenarios of this category.
abbrev pub is_category : Text → Text → Bool
is_category pattern kind =
    (text_beq pattern (codes "ACTUAL")
      || (text_beq pattern (codes "BUDGET") || text_beq pattern (codes "FORECAST")))
    && text_beq pattern kind

-- PLAN stands for the budgets and the forecasts.
abbrev pub is_plan : Text → Text → Bool
is_plan pattern kind =
    text_beq pattern (codes "PLAN")
    && (text_beq (codes "BUDGET") kind || text_beq (codes "FORECAST") kind)

-- How a pattern can match a scenario.
pub data Match : Type 0 where
  literal category plan wildcard : Match

-- A pattern that is the scenario's own id matches in that way only.
abbrev pub matches_as : Match → Text → Text → Text → Bool
matches_as literal pattern sid kind = text_beq pattern sid
matches_as category pattern sid kind = not (text_beq pattern sid) && is_category pattern kind
matches_as plan pattern sid kind = not (text_beq pattern sid) && is_plan pattern kind
matches_as wildcard pattern sid kind = not (text_beq pattern sid) && text_beq pattern (codes "*")

abbrev pub first_as : Match → Text → Text → Dict Entry → Option Entry
first_as way sid kind [] = none
first_as way sid kind ((pattern, entry) ∷ rest) =
    if matches_as way pattern sid kind then some entry else first_as way sid kind rest

-- The scenario's own id, then its category, then PLAN, then the wildcard.
abbrev pub most_specific : Text → Text → Dict Entry → Option Entry
most_specific sid kind patterns = or_next (first_as literal sid kind patterns) (
    or_next (first_as category sid kind patterns)
      (or_next (first_as plan sid kind patterns) (first_as wildcard sid kind patterns)))

-- A rank of the code, and the first entry whose pattern has it.
abbrev is_rank : ℕ → Option ℕ → Bool
is_rank n none = false
is_rank n (some r) = nat_beq r n

abbrev first_of_rank : ℕ → Text → Text → Dict Entry → Option Entry
first_of_rank n sid kind [] = none
first_of_rank n sid kind ((pattern, entry) ∷ rest) =
    if is_rank n (pattern_match_rank pattern sid kind)
    then some entry
    else first_of_rank n sid kind rest

rank_range :
    (pattern sid kind : Text) (r : ℕ)
    → pattern_match_rank pattern sid kind ≡ some r
    → (1 ≤ r) × (r ≤ 4)
unfolding pattern_match_rank
rank_range pattern sid kind r h = ground arith

-- The rungs above a rank.
abbrev above : ℕ → ℕ → Option Entry → Option Entry
above n b f = if leb n b then none else f

abbrev rungs : ℕ → Option Entry → Option Entry → Option Entry → Option Entry → Option Entry
rungs b f4 f3 f2 f1 =
    or_next (above 4 b f4) (or_next (above 3 b f3) (or_next (above 2 b f2) (above 1 b f1)))

abbrev put : ℕ → Option ℕ → Entry → Option Entry → Option Entry
put n r entry f = if is_rank n r then some entry else f

-- What the best entry so far and the rungs above it come to.
abbrev so_far : Best → Option Entry → Option Entry → Option Entry → Option Entry → Option Entry
so_far none f4 f3 f2 f1 = rungs 0 f4 f3 f2 f1
so_far (some (b, e)) f4 f3 f2 f1 = or_next (rungs b f4 f3 f2 f1) (some e)

or_next_assoc : (a b c : Option Entry) → or_next (or_next a b) c ≡ or_next a (or_next b c)
or_next_assoc none b c = refl
or_next_assoc (some a) b c = refl

step_first :
    (r : ℕ) (entry : Entry) (f4 f3 f2 f1 : Option Entry)
    → 1 ≤ r
    → r ≤ 4
    → so_far (better (some r) entry none) f4 f3 f2 f1
      ≡ so_far none
          (put 4 (some r) entry f4)
          (put 3 (some r) entry f3)
          (put 2 (some r) entry f2)
          (put 1 (some r) entry f1)
step_first r entry f4 f3 f2 f1 h k = ground arith

step_next :
    (r b : ℕ) (entry e : Entry) (f4 f3 f2 f1 : Option Entry)
    → 1 ≤ r
    → r ≤ 4
    → so_far (better (some r) entry (some (b, e))) f4 f3 f2 f1
      ≡ so_far
          (some (b, e))
          (put 4 (some r) entry f4)
          (put 3 (some r) entry f3)
          (put 2 (some r) entry f2)
          (put 1 (some r) entry f1)
step_next r b entry e f4 f3 f2 f1 h k = ground arith

absorb :
    (r : Option ℕ) (entry : Entry) (best : Best) (f4 f3 f2 f1 : Option Entry)
    → ((k : ℕ) → r ≡ some k → (1 ≤ k) × (k ≤ 4))
    → so_far (better r entry best) f4 f3 f2 f1
      ≡ so_far best (put 4 r entry f4) (put 3 r entry f3) (put 2 r entry f2) (put 1 r entry f1)
absorb none entry best f4 f3 f2 f1 range = refl
absorb (some r) entry none f4 f3 f2 f1 range =
    let (h, k) = range r refl in step_first r entry f4 f3 f2 f1 h k
absorb (some r) entry (some (b, e)) f4 f3 f2 f1 range =
    let (h, k) = range r refl in step_next r b entry e f4 f3 f2 f1 h k

so_far-none : (best : Best) → entry_of best ≡ so_far best none none none none
so_far-none none = refl
so_far-none (some (b, e)) = ground arith

module _ (sid kind : Text) where
  scan_lem :
      (patterns : Dict Entry) (best : Best)
      → entry_of (best_pattern sid kind patterns best)
        ≡ so_far best
            (first_of_rank 4 sid kind patterns)
            (first_of_rank 3 sid kind patterns)
            (first_of_rank 2 sid kind patterns)
            (first_of_rank 1 sid kind patterns)
  unfolding best_pattern
  scan_lem [] best = so_far-none best
  scan_lem ((pattern, entry) ∷ rest) best =
      scan_lem rest (better (pattern_match_rank pattern sid kind) entry best)
      ∙ absorb (pattern_match_rank pattern sid kind) entry best (first_of_rank 4 sid kind rest)
          (first_of_rank 3 sid kind rest) (first_of_rank 2 sid kind rest)
          (first_of_rank 1 sid kind rest) (rank_range pattern sid kind)

-- The rank of a pattern that is not the scenario's own id.
abbrev other_rank : Text → Text → Option ℕ
other_rank pattern kind =
    if pattern == codes "*" then some 1 else category_rank pattern kind (category_members pattern)

abbrev RanksAs : Text → Text → Type 0
RanksAs pattern kind =
    (is_rank 4 (other_rank pattern kind) ≡ false)
    × (is_rank 3 (other_rank pattern kind) ≡ is_category pattern kind)
    × (is_rank 2 (other_rank pattern kind) ≡ is_plan pattern kind)
    × (is_rank 1 (other_rank pattern kind) ≡ text_beq pattern (codes "*"))

star-RanksAs : (kind : Text) → RanksAs (codes "*") kind
star-RanksAs kind = (refl, refl, refl, refl)

actual-RanksAs : (kind : Text) → RanksAs (codes "ACTUAL") kind
actual-RanksAs kind = elim (Bool-cases (text_beq (codes "ACTUAL") kind)) [
  | inl e ↦ rw e (refl, refl, refl, refl)
  | inr e ↦ rw e (refl, refl, refl, refl)
]

budget-RanksAs : (kind : Text) → RanksAs (codes "BUDGET") kind
budget-RanksAs kind = elim (Bool-cases (text_beq (codes "BUDGET") kind)) [
  | inl e ↦ rw e (refl, refl, refl, refl)
  | inr e ↦ rw e (refl, refl, refl, refl)
]

forecast-RanksAs : (kind : Text) → RanksAs (codes "FORECAST") kind
forecast-RanksAs kind = elim (Bool-cases (text_beq (codes "FORECAST") kind)) [
  | inl e ↦ rw e (refl, refl, refl, refl)
  | inr e ↦ rw e (refl, refl, refl, refl)
]

plans-RanksAs : (kind : Text) → RanksAs (codes "PLAN") kind
plans-RanksAs kind = elim (Bool-cases (text_beq (codes "BUDGET") kind)) [
  | inl e ↦ rw e (refl, refl, refl, refl)
  | inr e ↦ elim (Bool-cases (text_beq (codes "FORECAST") kind)) [
    | inl f ↦ rw (e, f) (refl, refl, refl, refl)
    | inr f ↦ rw (e, f) (refl, refl, refl, refl)
  ]
]

other-RanksAs : (pattern kind : Text) → RanksAs pattern kind
other-RanksAs pattern kind = elim (Bool-cases (text_beq pattern (codes "*"))) [
  | inl e ↦
      subst (λ x. RanksAs x kind) (sym ((text_beq_iff pattern (codes "*")).0 e)) (star-RanksAs kind)
  | inr star ↦ elim (Bool-cases (text_beq pattern (codes "ACTUAL"))) [
    | inl e ↦
        subst (λ x. RanksAs x kind) (sym ((text_beq_iff pattern (codes "ACTUAL")).0 e))
          (actual-RanksAs kind)
    | inr actual ↦ elim (Bool-cases (text_beq pattern (codes "BUDGET"))) [
      | inl e ↦
          subst (λ x. RanksAs x kind) (sym ((text_beq_iff pattern (codes "BUDGET")).0 e))
            (budget-RanksAs kind)
      | inr budget ↦ elim (Bool-cases (text_beq pattern (codes "FORECAST"))) [
        | inl e ↦
            subst (λ x. RanksAs x kind) (sym ((text_beq_iff pattern (codes "FORECAST")).0 e))
              (forecast-RanksAs kind)
        | inr forecast ↦ elim (Bool-cases (text_beq pattern (codes "PLAN"))) [
          | inl e ↦
              subst (λ x. RanksAs x kind) (sym ((text_beq_iff pattern (codes "PLAN")).0 e))
                (plans-RanksAs kind)
          | inr plans ↦ rw (star, actual, budget, forecast, plans) (refl, refl, refl, refl)
        ]
      ]
    ]
  ]
]

rank_as :
    (pattern sid kind : Text)
    → (is_rank 4 (pattern_match_rank pattern sid kind) ≡ matches_as literal pattern sid kind)
      × (is_rank 3 (pattern_match_rank pattern sid kind) ≡ matches_as category pattern sid kind)
      × (is_rank 2 (pattern_match_rank pattern sid kind) ≡ matches_as plan pattern sid kind)
      × (is_rank 1 (pattern_match_rank pattern sid kind) ≡ matches_as wildcard pattern sid kind)
unfolding pattern_match_rank
rank_as pattern sid kind = elim (Bool-cases (text_beq pattern sid)) [
  | inl e ↦ rw e (refl, refl, refl, refl)
  | inr e ↦ rw e (other-RanksAs pattern kind)
]

first_of_rank-eq-first_as :
    (n : ℕ) (way : Match) (sid kind : Text)
    → ((pattern : Text)
        → is_rank n (pattern_match_rank pattern sid kind) ≡ matches_as way pattern sid kind)
    → (patterns : Dict Entry) → first_of_rank n sid kind patterns ≡ first_as way sid kind patterns
first_of_rank-eq-first_as n way sid kind h [] = refl
first_of_rank-eq-first_as n way sid kind h ((pattern, entry) ∷ rest) =
    rw (h pattern, first_of_rank-eq-first_as n way sid kind h rest) refl

-- The single pass over a profile's patterns returns the entry of the most specific kind of pattern that
-- matches the scenario: its literal id, else its category, else PLAN, else the wildcard; the first in the
-- profile's order where several of the same kind match, and nothing where none does.
pub resolve_profile_for_scenario-most_specific :
    (patterns : Dict Entry) (sid kind : Text)
    → resolve_profile_for_scenario patterns sid kind ≡ most_specific sid kind patterns
unfolding resolve_profile_for_scenario
resolve_profile_for_scenario-most_specific patterns sid kind =
    scan_lem sid kind patterns none
    ∙ rw
        (
          first_of_rank-eq-first_as 4 literal sid kind (λ p. (rank_as p sid kind).0) patterns,
          first_of_rank-eq-first_as 3 category sid kind (λ p. (rank_as p sid kind).1) patterns,
          first_of_rank-eq-first_as 2 plan sid kind (λ p. (rank_as p sid kind).2) patterns,
          first_of_rank-eq-first_as 1 wildcard sid kind (λ p. (rank_as p sid kind).3) patterns,
        )
        refl

-- The scope of the first of these roles that has a block.
abbrev pub first_block : List Role → Blocks → Option (Option ScopeSpec)
first_block [] blocks = none
first_block (r ∷ rs) blocks = elim (block_of r blocks) [
  | some scope ↦ some scope
  | none ↦ first_block rs blocks
]

abbrev pub qualifying : ToolType → List Role
qualifying read = analyst ∷ planner ∷ manager ∷ []
qualifying write = planner ∷ manager ∷ []
qualifying plan_manager = manager ∷ []
