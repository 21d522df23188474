-- ===== src/Base/Affix.antt =====
-- What prefix and suffix tests on texts decide.
use aegis_claw.Base.Tests.{Bool-cases}
use aegis_claw.Base.Lists.{length, take, length-append}
use aegis_claw.Base.Text.{
  Text, same, same_refl, eq_of_same, has_prefix, has_prefix-append, has_suffix, trim_suffix,
}
use mathlib.Core.Path.{◌≡◌, refl, ap, ◌∙◌}
use mathlib.Core.Logic.{◌≢◌, inl, inr}
use mathlib.Core.Bool.{true, false}
use mathlib.Core.List.{[], ◌∷◌, ◌++◌}
use native.Mathlib.Omega.{arith}

pub has_prefix-split : (s p : Text) → has_prefix s p ≡ true → (r : Text) × (s ≡ p ++ r)
unfolding has_prefix
has_prefix-split s [] h = (s, refl)
has_prefix-split [] (d ∷ p) h = cc
has_prefix-split (c ∷ s) (d ∷ p) h =
    let (r, e) = has_prefix-split s p (ground arith) in (r, ground arith)

pub has_prefix_of_eq : (s p r : Text) → s ≡ p ++ r → has_prefix s p ≡ true
has_prefix_of_eq s p r e = rw e (has_prefix-append p r)

pub has_suffix_self : (s : Text) → has_suffix s s ≡ true
unfolding has_suffix
has_suffix_self [] = refl
has_suffix_self (c ∷ s) = ground (arith, same_refl (c ∷ s))

pub has_suffix-append : (p s : Text) → has_suffix (p ++ s) s ≡ true
unfolding has_suffix
has_suffix-append [] s = has_suffix_self s
has_suffix-append (c ∷ p) s = ground (arith, has_suffix-append p s)

take-append : (p s : Text) → take (length p) (p ++ s) ≡ p
take-append [] s = refl
take-append (c ∷ p) s = ap (λ r. c ∷ r) (take-append p s)

pub trim_suffix-append : (p s : Text) → trim_suffix (p ++ s) s ≡ p
unfolding trim_suffix
trim_suffix-append p s =
    rw (has_suffix-append p s)
      (ap (λ n. take n (p ++ s)) (omega (arith, length-append p s)) ∙ take-append p s)

-- A text that ends in `s` is some text followed by `s`.
pub has_suffix-split : (t s : Text) → has_suffix t s ≡ true → (p : Text) × (t ≡ p ++ s)
unfolding has_suffix
has_suffix-split [] s h = ([], eq_of_same [] s h)
has_suffix-split (c ∷ t) s h = elim (Bool-cases (same (c ∷ t) s)) [
  | inl e ↦ ([], eq_of_same (c ∷ t) s e)
  | inr ne ↦ let (p, e) = has_suffix-split t s (ground arith) in (c ∷ p, ap (λ r. c ∷ r) e)
]

pub same-false : (s t : Text) → s ≢ t → same s t ≡ false
same-false s t h = elim (Bool-cases (same s t)) [
  | inl e ↦ absurd (h (eq_of_same s t e))
  | inr e ↦ e
]

-- Two prefixes of one text, one of them no longer than the other.
pub has_prefix_trans :
    (s p q : Text) → has_prefix s p ≡ true → has_prefix p q ≡ true → has_prefix s q ≡ true
unfolding has_prefix
has_prefix_trans [] [] [] h k = refl
has_prefix_trans (c ∷ s) p [] h k = refl
has_prefix_trans [] (d ∷ p) q h k = cc
has_prefix_trans [] [] (e ∷ q) h k = cc
has_prefix_trans (c ∷ s) [] (e ∷ q) h k = cc
has_prefix_trans (c ∷ s) (d ∷ p) (e ∷ q) h k = ground (arith, has_prefix_trans s p q)
