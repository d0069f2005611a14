-- ===== src/Scenario/Registry.antt =====
-- What a registry that was built without an exception holds.
use precis_mcp.Common.{
  All, ◌==◌, Text, text_beq_iff, nat_eq, text_eq, string_eq, beq_refl, if◌then◌else◌, ◌≡◌, refl,
  ◌⊎◌, inl, inr, true, not, Option, none, some, List, [], ◌∷◌, ◌++◌, map, arith,
}
use precis_mcp.Common.Result.{>>=-eq-ok, ok}
use precis_mcp.Common.Strings.{is_some}
use precis_mcp.Scenario.{
  RealScenario, validate_alias, Registry, by_alias, by_id, add_scenario, add_all, Row,
  real_from_row, from_rows,
}

-- What the registry knows of a scenario that it holds.
pub record Entry (reg : Registry) (s : RealScenario) : Type 0 where
  pub keyed : s.key ≡ s.alias
  pub valid : validate_alias s.alias ≡ ok tt
  pub found : by_alias reg s.alias ≡ some s
  pub found_id : by_id reg s.scenario_id ≡ some s

abbrev pub IsWellFormed : Registry → Type 0
IsWellFormed reg =
    (key : Text) (s : RealScenario)
    → (by_alias reg key ≡ some s) ⊎ (by_id reg key ≡ some s)
    → Entry reg s

pub by_alias-eq_some :
    (reg : Registry) (key : Text) (s : RealScenario) → by_alias reg key ≡ some s → s.alias ≡ key
unfolding by_alias
by_alias-eq_some [] key s h = absurd (cc h)
by_alias-eq_some (t ∷ reg) key s h =
    ground (arith, text_beq_iff t.alias key, by_alias-eq_some reg key s)

pub by_id-eq_some :
    (reg : Registry) (key : Text) (s : RealScenario) → by_id reg key ≡ some s → s.scenario_id ≡ key
unfolding by_id
by_id-eq_some [] key s h = absurd (cc h)
by_id-eq_some (t ∷ reg) key s h =
    ground (arith, text_beq_iff t.scenario_id key, by_id-eq_some reg key s)

by_alias-snoc :
    (reg : Registry) (t : RealScenario) (key : Text)
    → by_alias (reg ++ t ∷ []) key
      ≡ elim (by_alias reg key) [ some s ↦ some s | none ↦ if t.alias == key then some t else none ]
unfolding by_alias
by_alias-snoc [] t key = refl
by_alias-snoc (u ∷ reg) t key = ground (arith, by_alias-snoc reg t key)

by_id-snoc :
    (reg : Registry) (t : RealScenario) (key : Text)
    → by_id (reg ++ t ∷ []) key ≡ elim (by_id reg key) [
      | some s ↦ some s
      | none ↦ if t.scenario_id == key then some t else none
    ]
unfolding by_id
by_id-snoc [] t key = refl
by_id-snoc (u ∷ reg) t key = ground (arith, by_id-snoc reg t key)

record Added (reg reg' : Registry) (t : RealScenario) : Type 0 where
  valid : validate_alias t.alias ≡ ok tt
  new_alias : by_alias reg t.alias ≡ none
  new_id : by_id reg t.scenario_id ≡ none
  result : reg' ≡ reg ++ t ∷ []

absent {ℓ} : {A : Type ℓ} (o : Option A) → not (is_some o) ≡ true → o ≡ none
absent none h = refl
absent (some a) h = absurd (cc h)

add_scenario-eq_ok :
    (reg reg' : Registry) (t : RealScenario) → add_scenario reg t ≡ ok reg' → Added reg reg' t
unfolding add_scenario
add_scenario-eq_ok reg reg' t h = record {
  valid = ground arith;
  new_alias = absent (by_alias reg t.alias) (ground arith);
  new_id = absent (by_id reg t.scenario_id) (ground arith);
  result = ground arith;
}

module _ (reg : Registry) (t : RealScenario) where
  Entry-snoc : (s : RealScenario) → Entry reg s → Entry (reg ++ t ∷ []) s
  Entry-snoc s e = record {
    keyed = e.keyed;
    valid = e.valid;
    found = rw (by_alias-snoc reg t s.alias, e.found);
    found_id = rw (by_id-snoc reg t s.scenario_id, e.found_id);
  }

  Entry-new :
      t.key ≡ t.alias
      → validate_alias t.alias ≡ ok tt
      → by_alias reg t.alias ≡ none
      → by_id reg t.scenario_id ≡ none
      → Entry (reg ++ t ∷ []) t
  Entry-new keyed valid no_alias no_id = record {
    keyed = keyed;
    valid = valid;
    found = rw (by_alias-snoc reg t t.alias, no_alias, beq_refl t.alias);
    found_id = rw (by_id-snoc reg t t.scenario_id, no_id, beq_refl t.scenario_id);
  }

  snoc_cases :
      (key : Text) (s : RealScenario)
      → (by_alias (reg ++ t ∷ []) key ≡ some s) ⊎ (by_id (reg ++ t ∷ []) key ≡ some s)
      → ((by_alias reg key ≡ some s) ⊎ (by_id reg key ≡ some s)) ⊎ (s ≡ t)
  snoc_cases key s (inl h) = ground (arith, by_alias-snoc reg t key)
  snoc_cases key s (inr h) = ground (arith, by_id-snoc reg t key)

add_scenario-IsWellFormed :
    (reg reg' : Registry) (t : RealScenario)
    → t.key ≡ t.alias
    → IsWellFormed reg
    → add_scenario reg t ≡ ok reg'
    → IsWellFormed reg'
add_scenario-IsWellFormed reg reg' t keyed wf h =
    let added = add_scenario-eq_ok reg reg' t h in
    rw added.result λ key s found. elim (snoc_cases reg t key s found) [
      | inl old ↦ Entry-snoc reg t s (wf key s old)
      | inr new ↦ rw new (Entry-new reg t keyed added.valid added.new_alias added.new_id)
    ]

pub add_all-IsWellFormed :
    (scenarios : List RealScenario) (reg reg' : Registry)
    → All (λ s. s.key ≡ s.alias) scenarios
    → IsWellFormed reg
    → add_all reg scenarios ≡ ok reg'
    → IsWellFormed reg'
unfolding add_all
add_all-IsWellFormed [] reg reg' keyed wf h = let e : reg ≡ reg' = cc h in rw e at wf
add_all-IsWellFormed (s ∷ rest) reg reg' (keyed, more) wf h =
    let (mid, first, last) = >>=-eq-ok (add_scenario reg s) (λ r. add_all r rest) h in
    add_all-IsWellFormed rest mid reg' more (add_scenario-IsWellFormed reg mid s keyed wf first)
      last

keyed_rows : (rows : List Row) → All (λ s. s.key ≡ s.alias) (map real_from_row rows)
unfolding real_from_row
keyed_rows [] = tt
keyed_rows (row ∷ rows) = (refl, keyed_rows rows)

IsWellFormed-empty : IsWellFormed []
unfolding by_alias by_id
IsWellFormed-empty key s (inl h) = absurd (cc h)
IsWellFormed-empty key s (inr h) = absurd (cc h)

-- Every scenario that a registry built from rows holds, under any alias or id, is keyed by its alias,
-- has an alias that the validation accepts, and is what its own alias and its own id look up.
pub from_rows-IsWellFormed :
    (rows : List Row) (reg : Registry) → from_rows rows ≡ ok reg → IsWellFormed reg
unfolding from_rows
from_rows-IsWellFormed rows reg h =
    add_all-IsWellFormed (map real_from_row rows) [] reg (keyed_rows rows) IsWellFormed-empty h
