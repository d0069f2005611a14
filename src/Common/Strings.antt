-- ===== src/Common/Strings.antt =====
-- Python's text methods on lists of code points: `startswith`, `endswith` with the cut of the suffix,
-- `in`, and `split(sep, 1)`.
use precis_mcp.Common.Tests.{nat_beq, if◌then◌else◌, Bool-cases}
use precis_mcp.Common.Equality.{Text, text_beq, text_beq_iff, nat_eq, text_eq, string_eq}
use precis_mcp.Common.Lists.{length, drop, length-append}
use Prim.Native.Nat.{ℕ, suc, ◌+◌}
use mathlib.Core.Path.{◌≡◌, refl, ap, ◌∙◌}
use mathlib.Core.Logic.{inl, inr}
use mathlib.Core.Bool.{Bool, true, false, ◌&&◌}
use mathlib.Core.Option.{Option, none, some}
use mathlib.Core.List.{[], ◌∷◌, ◌++◌}
use native.Mathlib.Omega.{arith}

-- `text.startswith(prefix)`
abbrev pub starts_with : Text → Text → Bool
starts_with [] t = true
starts_with (p ∷ ps) [] = false
starts_with (p ∷ ps) (c ∷ cs) = nat_beq c p && starts_with ps cs

abbrev pub push : ℕ → Option Text → Option Text
push c none = none
push c (some t) = some (c ∷ t)

-- `text[:-len(suffix)]` if `text.endswith(suffix)`
unfoldable pub strip_suffix : Text → Text → Option Text
strip_suffix suffix [] = if text_beq suffix [] then some [] else none
strip_suffix suffix (c ∷ cs) =
    let rest = push c (strip_suffix suffix cs) in if text_beq suffix (c ∷ cs) then some [] else rest

abbrev pub push_left : ℕ → Option (Text × Text) → Option (Text × Text)
push_left c none = none
push_left c (some (l, r)) = some (c ∷ l, r)

-- `text.split(sep, 1)` at the first occurrence of a `sep` that is not empty
unfoldable pub split_first : Text → Text → Option (Text × Text)
split_first sep [] = none
split_first sep (c ∷ cs) =
    let rest = push_left c (split_first sep cs) in
    if starts_with sep (c ∷ cs) then some ([], drop (length sep) (c ∷ cs)) else rest

abbrev pub is_some {ℓ} : {A : Type ℓ} → Option A → Bool
is_some none = false
is_some (some a) = true

-- `text.endswith(suffix)`
unfoldable pub ends_with : Text → Text → Bool
ends_with suffix t = is_some (strip_suffix suffix t)

-- `sep in text`
unfoldable pub has_fragment : Text → Text → Bool
has_fragment sep t = is_some (split_first sep t)

text_beq_refl : (t : Text) → text_beq t t ≡ true
text_beq_refl t = (text_beq_iff t t).1 refl

push-eq_some :
    (c : ℕ) (o : Option Text) {p : Text}
    → push c o ≡ some p
    → (r : Text) × (o ≡ some r) × (p ≡ c ∷ r)
push-eq_some c none h = cc
push-eq_some c (some r) h = (r, refl, cc)

push_left-eq_some :
    (c : ℕ) (o : Option (Text × Text)) {l r : Text}
    → push_left c o ≡ some (l, r)
    → (k : Text) × (o ≡ some (k, r)) × (l ≡ c ∷ k)
push_left-eq_some c none h = cc
push_left-eq_some c (some (k, s)) h = (k, ground arith, ground arith)

-- A suffix that is cut was there.
pub strip_suffix-eq_some : (suffix t p : Text) → strip_suffix suffix t ≡ some p → t ≡ p ++ suffix
unfolding strip_suffix
strip_suffix-eq_some suffix [] p h = ground (arith, text_beq_iff suffix [])
strip_suffix-eq_some suffix (c ∷ cs) p h = elim (Bool-cases (text_beq suffix (c ∷ cs))) [
  | inl e ↦ ground (arith, text_beq_iff suffix (c ∷ cs))
  | inr e ↦
      let (r, rest, eq) = push-eq_some c (strip_suffix suffix cs) (rw e at h) in
      cc (strip_suffix-eq_some suffix cs r rest, eq)
]

no_longer : (n m : ℕ) → n ≡ suc (m + n) → ⊥
no_longer n m h = omega arith

longer : (s p : Text) (c : ℕ) → text_beq s (c ∷ p ++ s) ≡ false
longer s p c = elim (Bool-cases (text_beq s (c ∷ p ++ s))) [
  | inl e ↦ absurd (
      no_longer (length s) (length p)
        (ap length ((text_beq_iff s (c ∷ p ++ s)).0 e) ∙ ap suc (length-append p s)))
  | inr e ↦ e
]

strip_suffix_self : (s : Text) → strip_suffix s s ≡ some []
unfolding strip_suffix
strip_suffix_self [] = refl
strip_suffix_self (c ∷ s) = rw (text_beq_refl (c ∷ s))

-- A suffix that is there is cut.
pub strip_suffix-append : (p suffix : Text) → strip_suffix suffix (p ++ suffix) ≡ some p
unfolding strip_suffix
strip_suffix-append [] suffix = strip_suffix_self suffix
strip_suffix-append (c ∷ p) suffix = rw (longer suffix p c, strip_suffix-append p suffix)

pub starts_with-eq_true : (p t : Text) → starts_with p t ≡ true → t ≡ p ++ drop (length p) t
starts_with-eq_true [] t h = refl
starts_with-eq_true (p ∷ ps) [] h = cc
starts_with-eq_true (p ∷ ps) (c ∷ cs) h = ground (arith, starts_with-eq_true ps cs)

pub starts_with-append : (p t : Text) → starts_with p (p ++ t) ≡ true
starts_with-append [] t = refl
starts_with-append (c ∷ p) t = ground (arith, starts_with-append p t)

pub drop-append : (p t : Text) → drop (length p) (p ++ t) ≡ t
drop-append [] t = refl
drop-append (c ∷ p) t = drop-append p t

-- The parts of a text that is split, with the separator between them, are the text.
pub split_first-eq_some : (sep t l r : Text) → split_first sep t ≡ some (l, r) → t ≡ l ++ (sep ++ r)
unfolding split_first
split_first-eq_some sep [] l r h = cc
split_first-eq_some sep (c ∷ cs) l r h = elim (Bool-cases (starts_with sep (c ∷ cs))) [
  | inl e ↦
      let q : ◌≡◌ {A = Option (Text × Text)} (some ([], drop (length sep) (c ∷ cs))) (some (l, r)) =
        rw e at h in
      cc (starts_with-eq_true sep (c ∷ cs) e, q)
  | inr e ↦
      let (k, rest, eq) = push_left-eq_some c (split_first sep cs) (rw e at h) in
      cc (split_first-eq_some sep cs k r rest, eq)
]

-- Parts without the separator: it occurs neither in `l` nor across the end of `l`.
pub split_first-cons :
    (sep : Text) (c : ℕ) (cs l r : Text)
    → starts_with sep (c ∷ cs) ≡ false
    → split_first sep cs ≡ some (l, r)
    → split_first sep (c ∷ cs) ≡ some (c ∷ l, r)
unfolding split_first
split_first-cons sep c cs l r h k = rw (h, k)

pub split_first-none_tail :
    (sep : Text) (c : ℕ) (cs : Text)
    → has_fragment sep (c ∷ cs) ≡ false
    → (starts_with sep (c ∷ cs) ≡ false) × (has_fragment sep cs ≡ false)
unfolding has_fragment split_first
split_first-none_tail sep c cs h = (ground arith, ground arith)

pub ends_with_tail :
    (suffix : Text) (c : ℕ) (cs : Text)
    → ends_with suffix (c ∷ cs) ≡ false
    → (text_beq suffix (c ∷ cs) ≡ false) × (ends_with suffix cs ≡ false)
unfolding ends_with strip_suffix
ends_with_tail suffix c cs h = (ground arith, ground arith)
