-- ===== src/Common/Spaces.antt =====
-- White space, as `str.strip` and `str.split` take it.
use precis_mcp.Common.Tests.{leb, nat_beq, if◌then◌else◌}
use precis_mcp.Common.Equality.{Text}
use precis_mcp.Common.Lists.{All}
use Prim.Native.Nat.{ℕ}
use mathlib.Core.Path.{◌≡◌, refl}
use mathlib.Core.Bool.{Bool, true, false, ◌&&◌, ◌||◌}
use mathlib.Core.List.{[], ◌∷◌}

-- The white space that `str.split` splits at.
abbrev pub is_space : ℕ → Bool
is_space c =
    (leb 9 c && leb c 13)
    || ((leb 28 c && leb c 32)
        || (nat_beq c 133
            || (nat_beq c 160
                || (nat_beq c 5760
                    || ((leb 8192 c && leb c 8202)
                        || (nat_beq c 8232
                            || (nat_beq c 8233
                                || (nat_beq c 8239 || (nat_beq c 8287 || nat_beq c 12288)))))))))

abbrev pub drop_spaces : Text → Text
drop_spaces [] = []
drop_spaces (c ∷ cs) = let rest = drop_spaces cs in if is_space c then rest else c ∷ cs

abbrev pub is_blank : Text → Bool
is_blank [] = true
is_blank (c ∷ cs) = is_space c && is_blank cs

abbrev pub drop_last_spaces : Text → Text
drop_last_spaces [] = []
drop_last_spaces (c ∷ cs) =
    let rest = drop_last_spaces cs in if is_blank (c ∷ cs) then [] else c ∷ rest

-- `text.strip()`
unfoldable pub strip : Text → Text
strip t = drop_last_spaces (drop_spaces t)

-- No white space.
abbrev pub IsSolid : Text → Type 0
IsSolid t = All (λ c. is_space c ≡ false) t

drop_spaces-IsSolid : (t : Text) → IsSolid t → drop_spaces t ≡ t
drop_spaces-IsSolid [] h = refl
drop_spaces-IsSolid (c ∷ t) (e, h) = rw e refl

drop_last_spaces-IsSolid : (t : Text) → IsSolid t → drop_last_spaces t ≡ t
drop_last_spaces-IsSolid [] h = refl
drop_last_spaces-IsSolid (c ∷ t) (e, h) = rw (e, drop_last_spaces-IsSolid t h) refl

-- A text without white space is left as it is.
pub strip-IsSolid : (t : Text) → IsSolid t → strip t ≡ t
unfolding strip
strip-IsSolid t solid = rw (drop_spaces-IsSolid t solid) (drop_last_spaces-IsSolid t solid)
