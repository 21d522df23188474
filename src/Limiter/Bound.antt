-- ===== src/Limiter/Bound.antt =====
-- How many calls a bucket allows over a stretch of time.
use aegis_claw.Base.{
  ℕ, ◌+◌, ◌-◌, ◌*◌, ◌/◌, ◌≤◌, ◌≡◌, refl, ap, ◌∙◌, inl, inr, Bool, true, false, ◌&&◌, List, [], ◌∷◌,
  none, some, arith, ltb, leb, Bool-cases,
}
use mathlib.Core.Path.{subst₂}
use aegis_claw.Base.Text.{Text, same, same_refl, is_empty}
use aegis_claw.Base.Assoc.{lookup, lookup-insert}
use aegis_claw.Limiter.{
  text_key, Limit, Bucket, Buckets, limits, refill, take_token, new_bucket, bucket_of, bucket_name,
  allow,
}

-- Calls at the times of a list, none before the one in front of it and none after `until`.
abbrev pub InOrder : ℕ → ℕ → List ℕ → Type 0
InOrder from until [] = from ≤ until
InOrder from until (now ∷ times) = (from ≤ now) × InOrder now until times

abbrev pub count : Bool → ℕ
count true = 1
count false = 0

-- How many of the calls are allowed.
unfoldable pub allowed : Bucket → List ℕ → ℕ
allowed b [] = 0
allowed b (now ∷ times) =
    let (b', taken) = take_token (refill b now) in count taken + allowed b' times

-- A refill keeps the limits of the bucket and never puts more than `max` tokens in; where it moves
-- the time of the refill, a whole window has passed.
refill_effect :
    (b : Bucket) (now : ℕ)
    → b.tokens ≤ b.max
    → b.last_refill ≤ now
    → let b' = refill b now in
      (b'.tokens ≤ b.max) × (b'.max ≡ b.max) × (b'.window ≡ b.window) × (b'.last_refill ≤ now)
unfolding refill
refill_effect b now t l = ground arith

mul_mono : (a b c : ℕ) → a ≤ b → a * c ≤ b * c
mul_mono a b c h = grind arith

mul_mono_add : (m w x y : ℕ) → w + x ≤ y → m * w + m * x ≤ m * y
mul_mono_add m w x y h = grind (arith, mul_mono (w + x) y m h)

abbrev moves : Bucket → ℕ → Bool
moves b now = leb b.window (now - b.last_refill) && ltb 0 ((now - b.last_refill) / b.window)

-- tokens * window + max * (until - last_refill) does not grow when a bucket is refilled.
refill_potential :
    (b : Bucket) (now until : ℕ)
    → b.tokens ≤ b.max
    → b.last_refill ≤ now
    → now ≤ until
    → let b' = refill b now in
      b'.tokens * b.window + b.max * (until - b'.last_refill)
      ≤ b.tokens * b.window + b.max * (until - b.last_refill)
unfolding refill
refill_potential b now until t l u = elim (Bool-cases (moves b now)) [
  | inl m ↦ refilled m
  | inr m ↦ rw (unmoved m) (omega arith)
]
  where
    unmoved : moves b now ≡ false → refill b now ≡ b
    unmoved m = ground arith

    refilled :
        moves b now ≡ true
        → (refill b now).tokens * b.window + b.max * (until - (refill b now).last_refill)
          ≤ b.tokens * b.window + b.max * (until - b.last_refill)
    refilled m =
        let at : (refill b now).last_refill ≡ now = ground arith in
        let few : (refill b now).tokens ≤ b.max = (refill_effect b now t l).0 in
        let a = mul_mono (refill b now).tokens b.max b.window few in
        let c = mul_mono_add b.max b.window (until - now) (until - b.last_refill) (ground arith) in
        rw at (omega (arith, a, c))

-- A token that is taken is a call that is allowed.
take_token_effect :
    (b : Bucket)
    → let (b', taken) = take_token b in
      (count taken + b'.tokens ≡ b.tokens)
      × (b'.max ≡ b.max)
      × (b'.window ≡ b.window)
      × (b'.last_refill ≡ b.last_refill)
take_token_effect b = ground arith

from_until : (from until : ℕ) (times : List ℕ) → InOrder from until times → from ≤ until
from_until from until [] h = h
from_until from until (now ∷ times) h = omega (arith, h.0, from_until now until times h.1)

-- The bucket after one call.
abbrev after : Bucket → ℕ → Bucket
after b now = (take_token (refill b now)).0

abbrev taken : Bucket → ℕ → ℕ
taken b now = count (take_token (refill b now)).1

call_effect :
    (b : Bucket) (now until : ℕ)
    → b.tokens ≤ b.max
    → b.last_refill ≤ now
    → now ≤ until
    → let b' = after b now in
      (b'.tokens ≤ b'.max)
      × (b'.max ≡ b.max)
      × (b'.window ≡ b.window)
      × (b'.last_refill ≤ now)
      × ((taken b now + b'.tokens) * b.window + b.max * (until - b'.last_refill)
          ≤ b.tokens * b.window + b.max * (until - b.last_refill))
call_effect b now until t l u =
    let (few, max, window, last) = refill_effect b now t l in
    let (sum, max', window', last') = take_token_effect (refill b now) in
    (
      omega (arith, few, max, max', sum),
      max' ∙ max,
      window' ∙ window,
      omega (arith, last, last'),
      rw (sum, last') (refill_potential b now until t l u),
    )

-- From any bucket with no more than its tokens, the calls that are allowed up to a time, times the
-- window, are at most the tokens times the window plus the tokens that the time can bring.
allowed_bound :
    (b : Bucket) (from until : ℕ) (times : List ℕ)
    → b.tokens ≤ b.max
    → b.last_refill ≤ from
    → InOrder from until times
    → allowed b times * b.window ≤ b.tokens * b.window + b.max * (until - b.last_refill)
unfolding allowed
allowed_bound b from until [] t l h = omega arith
allowed_bound b from until (now ∷ times) t l h =
    let u = from_until now until times h.1 in
    let (few, max, window, last, potential) = call_effect b now until t (omega (arith, l, h.0)) u in
    let rest : allowed (after b now) times * b.window
        ≤ (after b now).tokens * b.window + b.max * (until - (after b now).last_refill) =
      subst₂
        (λ m w.
          allowed (after b now) times * w
          ≤ (after b now).tokens * w + m * (until - (after b now).last_refill))
        max window (allowed_bound (after b now) now until times few last h.1) in
    omega (arith, rest, potential)

-- The calls of one client in one category that Allow lets through.
unfoldable pub granted : Buckets → Text → Text → List ℕ → ℕ
granted buckets client_key cat [] = 0
granted buckets client_key cat (now ∷ times) =
    let (buckets', yes_or_no) = allow buckets client_key cat now in
    count yes_or_no + granted buckets' client_key cat times

module _ (client_key cat : Text) (cfg : Limit) (known : lookup text_key cat limits ≡ some cfg)
    (named : is_empty client_key ≡ false) where
  allow_effect :
      (buckets : Buckets) (now : ℕ)
      → let held = bucket_of cfg now (lookup text_key (bucket_name client_key cat) buckets) in
        let (buckets', ok) = allow buckets client_key cat now in
        (ok ≡ (take_token (refill held now)).1)
        × (lookup text_key (bucket_name client_key cat) buckets' ≡ some (after held now))
  unfolding allow lookup same
  allow_effect buckets now =
      let name = bucket_name client_key cat in
      let held = bucket_of cfg now (lookup text_key name buckets) in
      rw (known, named)
        (refl, lookup-insert text_key name name (after held now) buckets ∙ rw (same_refl name) refl)

  granted-allowed :
      (buckets : Buckets) (b : Bucket) (times : List ℕ)
      → lookup text_key (bucket_name client_key cat) buckets ≡ some b
      → granted buckets client_key cat times ≡ allowed b times
  unfolding granted allowed
  granted-allowed buckets b [] h = refl
  granted-allowed buckets b (now ∷ times) h =
      let (ok, next) = allow_effect buckets now in
      let held : bucket_of cfg now (lookup text_key (bucket_name client_key cat) buckets) ≡ b =
        rw h refl in
      let rest =
        granted-allowed (allow buckets client_key cat now).0 (after b now) times
          (next ∙ ap (λ x. some (after x now)) held) in
      rw (rest, ok, held) refl

-- A client that a limited category has no bucket for, and that calls at times from `from` to `until`,
-- none of which is before the one of the call in front of it (the clock is not set back), is let
-- through at most max times for a start and max more in each window: the calls let through, times the
-- window, are at most max times the window and the time that has passed.
pub granted_bound :
    (client_key cat : Text) (cfg : Limit) (buckets : Buckets) (from until : ℕ) (times : List ℕ)
    → lookup text_key cat limits ≡ some cfg
    → is_empty client_key ≡ false
    → lookup text_key (bucket_name client_key cat) buckets ≡ none
    → InOrder from until times
    → granted buckets client_key cat (from ∷ times) * cfg.window
      ≤ cfg.max * cfg.window + cfg.max * (until - from)
unfolding granted allowed
granted_bound client_key cat cfg buckets from until times known named absent h =
    let fresh = new_bucket cfg from in
    let (ok, next) = allow_effect client_key cat cfg known named buckets from in
    let held : bucket_of cfg from (lookup text_key (bucket_name client_key cat) buckets) ≡ fresh =
      rw absent refl in
    let rest =
      granted-allowed client_key cat cfg known named (allow buckets client_key cat from).0
        (after fresh from) times (next ∙ ap (λ x. some (after x from)) held) in
    let all : granted buckets client_key cat (from ∷ times) ≡ allowed fresh (from ∷ times) =
      rw (rest, ok, held) refl in
    let bound =
      allowed_bound fresh from until (from ∷ times) (omega arith) (omega arith) (omega arith, h) in
    rw all bound
