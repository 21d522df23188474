-- ===== src/Base/Trim.antt =====
-- strings.TrimSpace on ASCII text.
use Prim.Native.Nat.{ℕ}
use mathlib.Core.Path.{◌≡◌, refl, ap, ◌∙◌}
use mathlib.Core.Bool.{Bool, ◌&&◌, ◌||◌}
use mathlib.Core.List.{[], ◌∷◌}
use native.Mathlib.Omega.{arith}
use aegis_claw.Base.Tests.{◌==◌, leb, if◌then◌else◌}
use aegis_claw.Base.Text.{Text, is_empty}

-- Tab, line feed, vertical tab, form feed, carriage return and blank.
unfoldable pub is_space : ℕ → Bool
is_space c = (leb 9 c && leb c 13) || c == 32

unfoldable pub trim_right : Text → Text
trim_right [] = []
trim_right (c ∷ s) = let r = trim_right s in if is_empty r && is_space c then [] else c ∷ r

unfoldable pub trim_left : Text → Text
trim_left [] = []
trim_left (c ∷ s) = let r = trim_left s in if is_space c then r else c ∷ s

unfoldable pub trim_space : Text → Text
unfolding trim_left trim_right
trim_space s = trim_left (trim_right s)

trim_right_idem : (s : Text) → trim_right (trim_right s) ≡ trim_right s
unfolding trim_right
trim_right_idem [] = refl
trim_right_idem (c ∷ s) = ground (arith, trim_right_idem s)

-- A text that has no space at its right end keeps none there when its left end is trimmed.
trim_right-trim_left : (s : Text) → trim_right s ≡ s → trim_right (trim_left s) ≡ trim_left s
unfolding trim_right trim_left
trim_right-trim_left [] h = refl
trim_right-trim_left (c ∷ s) h = ground (arith, trim_right-trim_left s)

trim_left_idem : (s : Text) → trim_left (trim_left s) ≡ trim_left s
unfolding trim_left
trim_left_idem [] = refl
trim_left_idem (c ∷ s) = ground (arith, trim_left_idem s)

pub trim_space_idem : (s : Text) → trim_space (trim_space s) ≡ trim_space s
unfolding trim_space
trim_space_idem s =
    ap trim_left (trim_right-trim_left (trim_right s) (trim_right_idem s))
    ∙ trim_left_idem (trim_right s)
