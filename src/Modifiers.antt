-- ===== src/Modifiers.antt =====
-- The modifiers of a scenario reference, `base&key&key=value` (precis_mcp/engine/resolver.py).
pub mod Parse
use precis_mcp.Common.{
  length, get_elem?, take, drop, replicate, All, filterb, length-append, contains, Text, codes,
  text_beq, text_beq_iff, text_eq, string_eq, nat_eq, ◌==◌, beq_refl, Eq, ltb, leb, nat_beq,
  if◌then◌else◌, ltb→lt, leb→le, le→leb, nat_beq_iff, Bool-cases, Option-cases, ℕ, zero, suc, ◌+◌,
  ◌-◌, ◌*◌, ◌/◌, ◌%◌, ◌≤◌, ◌<◌, min, String, ◌≡◌, refl, sym, ap, subst, ◌∙◌, fun_ext, ◌≢◌, ◌↔◌, ◌⊎◌,
  inl, inr, Bool, true, false, not, ◌&&◌, ◌||◌, Option, none, some, List, [], ◌∷◌, ◌++◌, map,
  append_assoc, append-nil, arith,
}
use precis_mcp.Common.Result.{guard, ◌>>=◌, ◌>>◌, map_result, >>=-eq-ok, Result, err, ok}
use precis_mcp.Common.Maps.{
  Dict, lookup, insert, keys, insert_item, sort_items, lookup-insert, lookup-sort_items,
}

abbrev pub ampersand : ℕ
ampersand = 38

abbrev pub equals_sign : ℕ
equals_sign = 61

abbrev pub push_first : ℕ → List Text → List Text
push_first c [] = (c ∷ []) ∷ []
push_first c (t ∷ ts) = (c ∷ t) ∷ ts

-- `ref.split("&")`
unfoldable pub split_parts : Text → List Text
split_parts [] = [] ∷ []
split_parts (c ∷ cs) =
    let rest = split_parts cs in if nat_beq c ampersand then [] ∷ rest else push_first c rest

abbrev pub push_key : ℕ → Text × Text → Text × Text
push_key c (key, value) = (c ∷ key, value)

-- `part.split("=", 1)` where the part has the sign, else the part and the empty text
unfoldable pub split_value : Text → Text × Text
split_value [] = ([], [])
split_value (c ∷ cs) =
    let rest = split_value cs in if nat_beq c equals_sign then ([], cs) else push_key c rest

-- `_VALID_MODIFIERS`
abbrev pub valid_modifiers : List Text
valid_modifiers =
    codes "uncommitted"
    ∷ codes "uncommitted_delta"
    ∷ codes "commit"
    ∷ codes "commit_delta"
    ∷ codes "fork"
    ∷ []

pub data ModifierError : Type 0 where
  unknown_modifier : Text → ModifierError

abbrev pub add_modifier : Dict Text → Text × Text → Result ModifierError (Dict Text)
add_modifier modifiers (key, value) =
    if contains valid_modifiers key
    then ok (insert key value modifiers)
    else err (unknown_modifier key)

-- The loop over `parts[1:]`.
unfoldable pub add_modifiers : Dict Text → List Text → Result ModifierError (Dict Text)
add_modifiers modifiers [] = ok modifiers
add_modifiers modifiers (part ∷ parts) = do
  more ← add_modifier modifiers (split_value part)
  add_modifiers more parts

abbrev pub with_base : List Text → Result ModifierError (Text × Dict Text)
with_base [] = ok ([], [])
with_base (base ∷ parts) = do modifiers ← add_modifiers [] parts; ok (base, modifiers)

-- A reference without the sign is one part, which the loop leaves without modifiers.
unfoldable pub parse_scenario_modifiers : Text → Result ModifierError (Text × Dict Text)
parse_scenario_modifiers ref = with_base (split_parts ref)

-- `ref.split("&", 1)[0]`
unfoldable pub strip_scenario_modifiers : Text → Text
strip_scenario_modifiers [] = []
strip_scenario_modifiers (c ∷ cs) =
    let rest = strip_scenario_modifiers cs in if nat_beq c ampersand then [] else c ∷ rest
