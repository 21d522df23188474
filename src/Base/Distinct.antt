-- ===== src/Base/Distinct.antt =====
-- Lists whose entries have different keys, kept so by "remove the key, then append".
use aegis_claw.Base.Lists.{any, keep, any-append}
use mathlib.Core.Path.{◌≡◌, refl}
use mathlib.Core.Bool.{Bool, false, not}
use mathlib.Core.List.{List, [], ◌∷◌, ◌++◌}
use native.Mathlib.Omega.{arith}

module _ {ℓ} {A : Type ℓ} (p : A → A → Bool) where
  abbrev pub Distinct : List A → Type 0
  Distinct [] = Unit
  Distinct (x ∷ xs) = (any (p x) xs ≡ false) × Distinct xs

module _ {ℓ} {A : Type ℓ} (p : A → A → Bool) where
  any-keep-false : (q r : A → Bool) (xs : List A) → any q xs ≡ false → any q (keep r xs) ≡ false
  any-keep-false q r [] h = refl
  any-keep-false q r (x ∷ xs) h = ground (arith, any-keep-false q r xs)

  pub keep-Distinct : (r : A → Bool) (xs : List A) → Distinct p xs → Distinct p (keep r xs)
  keep-Distinct r [] d = tt
  keep-Distinct r (x ∷ xs) d = ground (arith, keep-Distinct r xs d.1, any-keep-false (p x) r xs d.0)

  pub append-Distinct :
      (xs : List A) (a : A)
      → any (λ x. p x a) xs ≡ false
      → Distinct p xs
      → Distinct p (xs ++ a ∷ [])
  append-Distinct [] a h d = (refl, tt)
  append-Distinct (x ∷ xs) a h d =
      ground (arith, any-append (p x) xs (a ∷ []), append-Distinct xs a _ d.1)

  removed :
      ((a b : A) → p a b ≡ p b a)
      → (a : A) (xs : List A) → any (λ x. p x a) (keep (λ x. not (p a x)) xs) ≡ false
  removed sym_p a [] = refl
  removed sym_p a (x ∷ xs) = ground (arith, removed sym_p a xs, sym_p a x)

  pub upsert-Distinct :
      ((a b : A) → p a b ≡ p b a)
      → (a : A) (xs : List A) → Distinct p xs
      → Distinct p (keep (λ x. not (p a x)) xs ++ a ∷ [])
  upsert-Distinct sym_p a xs d =
      append-Distinct _ a (removed sym_p a xs) (keep-Distinct (λ x. not (p a x)) xs d)
