-- ===== src/Base/Assoc.antt =====
-- Go maps as association lists: a read, an overwriting write, a delete.
use mathlib.Core.Path.{◌≡◌, refl}
use mathlib.Core.Bool.{Bool, true}
use mathlib.Core.List.{List, [], ◌∷◌}
use mathlib.Core.Option.{Option, none, some}
use native.Mathlib.Omega.{arith}
use aegis_claw.Base.Tests.{if◌then◌else◌}

-- What a key type offers: a Boolean equality that decides equality.
pub record Key {ℓ} (K : Type ℓ) : Type ℓ where
  pub beq : K → K → Bool
  pub beq_refl : (a : K) → beq a a ≡ true
  pub eq_of_beq : (a b : K) → beq a b ≡ true → a ≡ b

module _ {ℓ} {K : Type ℓ} (k : Key K) where
  pub beq_left : (a b c : K) → k.beq a b ≡ true → k.beq a c ≡ k.beq b c
  beq_left a b c h = rw (k.eq_of_beq a b h)

  pub beq_right : (a b c : K) → k.beq b c ≡ true → k.beq a b ≡ k.beq a c
  beq_right a b c h = rw (k.eq_of_beq b c h)

module _ {ℓ κ} {K : Type ℓ} {V : Type κ} (k : Key K) where
  unfoldable pub lookup : K → List (K × V) → Option V
  lookup a [] = none
  lookup a ((b, v) ∷ m) = if k.beq b a then some v else lookup a m

  -- The first entry of the key is overwritten, and a new key goes last.
  unfoldable pub insert : K → V → List (K × V) → List (K × V)
  insert a v [] = (a, v) ∷ []
  insert a v ((b, w) ∷ m) = if k.beq b a then (b, v) ∷ m else (b, w) ∷ insert a v m

  unfoldable pub delete : K → List (K × V) → List (K × V)
  delete a [] = []
  delete a ((b, w) ∷ m) = let rest = delete a m in if k.beq b a then rest else (b, w) ∷ rest

  pub lookup-insert :
      (a b : K) (v : V) (m : List (K × V))
      → lookup b (insert a v m) ≡ (if k.beq a b then some v else lookup b m)
  unfolding lookup insert
  lookup-insert a b v [] = refl
  lookup-insert a b v ((c, w) ∷ m) =
      ground (arith, lookup-insert a b v m, beq_left k c a b, beq_right k c a b)

  pub lookup-delete :
      (a b : K) (m : List (K × V))
      → lookup b (delete a m) ≡ (if k.beq a b then none else lookup b m)
  unfolding lookup delete
  lookup-delete a b [] = ground arith
  lookup-delete a b ((c, w) ∷ m) =
      ground (arith, lookup-delete a b m, beq_left k c a b, beq_right k c a b)
