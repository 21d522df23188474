-- ===== src/Base/Text.antt =====
-- Go strings as lists of bytes, and the operations of package strings that the program calls.
-- Case mapping and white space are those of ASCII; bytes above 127 are left as they are.
use Prim.Native.Char.{code}
use Prim.Native.String.{String}
use Prim.Native.Nat.{ℕ, ◌+◌, ◌-◌}
use mathlib.Core.Path.{◌≡◌, refl}
use mathlib.Core.Logic.{◌↔◌}
use mathlib.Core.Bool.{Bool, true, false, ◌&&◌, ◌||◌}
use mathlib.Core.List.{List, [], ◌∷◌, ◌++◌}
use native.Mathlib.Omega.{arith}
use aegis_claw.Base.Tests.{◌==◌, leb, if◌then◌else◌}
use aegis_claw.Base.Lists.{length, take, any}

abbrev pub Text : Type 0
Text = List ℕ

-- The bytes of a literal, which is ASCII throughout.
abbrev pub text : String → Text
text String.[] = []
text (String.◌∷◌ c s) = code c ∷ text s

unfoldable pub same : Text → Text → Bool
same [] [] = true
same [] (d ∷ t) = false
same (c ∷ s) [] = false
same (c ∷ s) (d ∷ t) = c == d && same s t

pub same_refl : (s : Text) → same s s ≡ true
unfolding same
same_refl [] = refl
same_refl (c ∷ s) = ground (arith, same_refl s)

pub eq_of_same : (s t : Text) → same s t ≡ true → s ≡ t
unfolding same
eq_of_same [] [] h = refl
eq_of_same [] (d ∷ t) h = cc
eq_of_same (c ∷ s) [] h = cc
eq_of_same (c ∷ s) (d ∷ t) h = ground (arith, eq_of_same s t)

pub same_iff : (s t : Text) → (same s t ≡ true) ↔ (s ≡ t)
same_iff s t = (eq_of_same s t, λ e. rw e (same_refl t))

pub same_comm : (s t : Text) → same s t ≡ same t s
unfolding same
same_comm [] [] = refl
same_comm [] (d ∷ t) = refl
same_comm (c ∷ s) [] = refl
same_comm (c ∷ s) (d ∷ t) = ground (arith, same_comm s t)

abbrev pub is_empty : Text → Bool
is_empty [] = true
is_empty (c ∷ s) = false

-- strings.HasPrefix(s, p)
unfoldable pub has_prefix : Text → Text → Bool
has_prefix s [] = true
has_prefix [] (d ∷ p) = false
has_prefix (c ∷ s) (d ∷ p) = c == d && has_prefix s p

-- strings.HasSuffix(s, p)
unfoldable pub has_suffix : Text → Text → Bool
unfolding same
has_suffix [] p = same [] p
has_suffix (c ∷ s) p = same (c ∷ s) p || has_suffix s p

-- strings.TrimSuffix(s, p)
unfoldable pub trim_suffix : Text → Text → Text
unfolding has_suffix
trim_suffix s p = if has_suffix s p then take (length s - length p) s else s

-- strings.Contains(s, p)
unfoldable pub contains : Text → Text → Bool
unfolding has_prefix
contains [] p = has_prefix [] p
contains (c ∷ s) p = has_prefix (c ∷ s) p || contains s p

pub has_prefix-append : (p s : Text) → has_prefix (p ++ s) p ≡ true
unfolding has_prefix
has_prefix-append [] [] = refl
has_prefix-append [] (c ∷ s) = refl
has_prefix-append (d ∷ p) s = ground (arith, has_prefix-append p s)

-- A set of texts written as a list.
abbrev pub one_of : List Text → Text → Bool
one_of ts s = any (λ t. same s t) ts

is_upper : ℕ → Bool
is_upper c = leb b'A' c && leb c b'Z'

unfoldable pub lower_byte : ℕ → ℕ
unfolding is_upper
lower_byte c = if is_upper c then c + 32 else c

-- strings.ToLower(s)
unfoldable pub to_lower : Text → Text
unfolding lower_byte
to_lower [] = []
to_lower (c ∷ s) = lower_byte c ∷ to_lower s
