-- ===== src/Common/Order.antt =====
-- Python compares texts by their code points; `sorted` on texts.
use precis_mcp.Common.Tests.{ltb, nat_beq}
use precis_mcp.Common.Equality.{Text}
use mathlib.Core.Path.{◌≡◌, refl}
use mathlib.Core.Bool.{Bool, true, false, ◌&&◌, ◌||◌}
use mathlib.Core.List.{[], ◌∷◌}
use native.Mathlib.Omega.{arith}

-- `s < t` for texts
abbrev pub text_ltb : Text → Text → Bool
text_ltb s [] = false
text_ltb [] (b ∷ bs) = true
text_ltb (a ∷ s) (b ∷ bs) = ltb a b || (nat_beq a b && text_ltb s bs)

pub text_ltb_irrefl : (s : Text) → text_ltb s s ≡ false
text_ltb_irrefl [] = refl
text_ltb_irrefl (a ∷ s) = ground (arith, text_ltb_irrefl s)
