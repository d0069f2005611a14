-- ===== src/Modifiers/Parse.antt =====
-- What parsing a scenario reference returns.
use precis_mcp.Common.{
  All, contains, Text, text_beq, text_beq_iff, text_eq, string_eq, nat_eq, nat_beq, Bool-cases, ℕ,
  ◌≡◌, refl, sym, ap, subst, ◌∙◌, inl, inr, true, false, List, [], ◌∷◌, ◌++◌, map, append_assoc,
  append-nil, arith,
}
use precis_mcp.Common.Result.{>>=-eq-ok, ok}
use precis_mcp.Common.Maps.{Dict, insert, keys}
use precis_mcp.Modifiers.{
  ampersand, equals_sign, push_first, split_parts, split_value, valid_modifiers, add_modifiers,
  with_base, parse_scenario_modifiers, strip_scenario_modifiers,
}

abbrev first_part : List Text → Text
first_part [] = []
first_part (t ∷ ts) = t

first_part-push_first : (c : ℕ) (ts : List Text) → first_part (push_first c ts) ≡ c ∷ first_part ts
first_part-push_first c [] = refl
first_part-push_first c (t ∷ ts) = refl

first_part-split_parts : (t : Text) → first_part (split_parts t) ≡ strip_scenario_modifiers t
unfolding split_parts strip_scenario_modifiers
first_part-split_parts [] = refl
first_part-split_parts (c ∷ cs) =
    ground (arith, first_part-split_parts cs, first_part-push_first c (split_parts cs))

parts_cases :
    (parts : List Text) (base : Text) (modifiers : Dict Text)
    → with_base parts ≡ ok (base, modifiers)
    → first_part parts ≡ base
parts_cases [] base modifiers h = cc h
parts_cases (b ∷ parts) base modifiers h =
    let (more, added, e) = >>=-eq-ok (add_modifiers [] parts) (λ m. ok (b, m)) h in cc e

-- The base that `parse_scenario_modifiers` returns is the text that `strip_scenario_modifiers` leaves.
pub parse_scenario_modifiers-strip :
    (ref base : Text) (modifiers : Dict Text)
    → parse_scenario_modifiers ref ≡ ok (base, modifiers)
    → strip_scenario_modifiers ref ≡ base
unfolding parse_scenario_modifiers
parse_scenario_modifiers-strip ref base modifiers h =
    sym (first_part-split_parts ref) ∙ parts_cases (split_parts ref) base modifiers h

-- A text in which a sign does not occur.
abbrev pub Lacks : ℕ → Text → Type 0
Lacks c t = All (λ d. nat_beq d c ≡ false) t

-- A modifier as it is written, with its value.
abbrev pub written : Text × Text → Text
written (key, value) = key ++ equals_sign ∷ value

abbrev pub joined : Dict Text → Text
joined [] = []
joined (m ∷ ms) = ampersand ∷ (written m ++ joined ms)

-- A modifier that can be written: a known key, and a value without the sign between modifiers.
abbrev pub IsWritable : Text × Text → Type 0
IsWritable (key, value) = (contains valid_modifiers key ≡ true) × Lacks ampersand value

-- After the modifiers `before`, no key stands twice.
abbrev pub IsDistinct : Dict Text → Dict Text → Type 0
IsDistinct before [] = Unit
IsDistinct before ((key, value) ∷ ms) =
    (contains (keys before) key ≡ false) × IsDistinct (before ++ (key, value) ∷ []) ms

split_parts-append :
    (t rest : Text) → Lacks ampersand t → split_parts (t ++ ampersand ∷ rest) ≡ t ∷ split_parts rest
unfolding split_parts
split_parts-append [] rest h = refl
split_parts-append (c ∷ t) rest (e, h) = rw (e, split_parts-append t rest h)

split_parts-Lacks : (t : Text) → Lacks ampersand t → split_parts t ≡ t ∷ []
unfolding split_parts
split_parts-Lacks [] h = refl
split_parts-Lacks (c ∷ t) (e, h) = rw (e, split_parts-Lacks t h)

split_value-written :
    (key value : Text)
    → Lacks equals_sign key
    → split_value (key ++ equals_sign ∷ value) ≡ (key, value)
unfolding split_value
split_value-written [] value h = refl
split_value-written (c ∷ key) value (e, h) = rw (e, split_value-written key value h)

contains-All {ℓ} :
    (P : Text → Type ℓ) (xs : List Text) (a : Text) → All P xs → contains xs a ≡ true → P a
contains-All P [] a all h = absurd (cc h)
contains-All P (x ∷ xs) a (p, all) h = elim (Bool-cases (text_beq x a)) [
  | inl e ↦ subst P ((text_beq_iff x a).0 e) p
  | inr e ↦ contains-All P xs a all (rw e at h)
]

abbrev IsName : Text → Type 0
IsName key = Lacks ampersand key × Lacks equals_sign key

Lacks-key : (key : Text) → contains valid_modifiers key ≡ true → IsName key
Lacks-key key h = contains-All IsName valid_modifiers key (ground arith) h

Lacks-append : (c : ℕ) (s t : Text) → Lacks c s → Lacks c t → Lacks c (s ++ t)
Lacks-append c [] t h k = k
Lacks-append c (d ∷ s) t (e, h) k = (e, Lacks-append c s t h k)

Lacks-written : (m : Text × Text) → IsWritable m → Lacks ampersand (written m)
Lacks-written (key, value) (valid, plain) =
    Lacks-append ampersand key (equals_sign ∷ value) (Lacks-key key valid).0 (refl, plain)

split_parts-joined :
    (t : Text) (ms : Dict Text)
    → Lacks ampersand t
    → All IsWritable ms
    → split_parts (t ++ joined ms) ≡ t ∷ map written ms
split_parts-joined t [] h all = rw (append-nil t) (split_parts-Lacks t h)
split_parts-joined t (m ∷ ms) h (w, all) =
    split_parts-append t (written m ++ joined ms) h
    ∙ ap (λ x. t ∷ x) (split_parts-joined (written m) ms (Lacks-written m w) all)

insert-new :
    (key value : Text) (d : Dict Text)
    → contains (keys d) key ≡ false
    → insert key value d ≡ d ++ (key, value) ∷ []
unfolding insert
insert-new key value [] h = refl
insert-new key value ((k, v) ∷ d) h = ground (arith, insert-new key value d)

add_modifiers-written :
    (before ms : Dict Text)
    → All IsWritable ms
    → IsDistinct before ms
    → add_modifiers before (map written ms) ≡ ok (before ++ ms)
unfolding add_modifiers
add_modifiers-written before [] all d = rw (append-nil before)
add_modifiers-written before ((key, value) ∷ ms) ((valid, plain), all) (new, d) = rw (
  split_value-written key value (Lacks-key key valid).1,
  valid,
  insert-new key value before new,
  add_modifiers-written (before ++ (key, value) ∷ []) ms all d,
  append_assoc before ((key, value) ∷ []) ms,
)

-- A base without `&`, followed by modifiers with known keys, each once, and values without `&`, is parsed
-- back to that base and those modifiers, in their order.
pub parse_scenario_modifiers-joined :
    (base : Text) (ms : Dict Text)
    → Lacks ampersand base
    → All IsWritable ms
    → IsDistinct [] ms
    → parse_scenario_modifiers (base ++ joined ms) ≡ ok (base, ms)
unfolding parse_scenario_modifiers
parse_scenario_modifiers-joined base ms h all d =
    rw (split_parts-joined base ms h all, add_modifiers-written [] ms all d)
