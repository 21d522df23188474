-- ===== src/Store/Panics/Bounded.antt =====
-- cmd/store/panic_audit.go: the deduper over any list of panics.
use aegis_claw.Base.{
  ℕ, zero, suc, ◌+◌, ◌≤◌, ◌<◌, ◌≡◌, refl, sym, ap, ◌∙◌, Bool, false, not, List, [], ◌∷◌, Option,
  none, some, if◌then◌else◌, any, take, length, inl, inr, Bool-cases, arith,
}
use aegis_claw.Base.Text.{Text, same, eq_of_same}
use aegis_claw.Base.Distinct.{Distinct, keep-Distinct}
use aegis_claw.Store.Panics.{
  Seen, Deduper, by_hash, others, seen_again, seen_first, observed, observe, observe_all,
  new_panic_deduper,
}

abbrev pub same_hash : Seen → Seen → Bool
same_hash a b = same a.hash b.hash

abbrev pub sum_counts : List Seen → ℕ
sum_counts [] = 0
sum_counts (e ∷ es) = e.count + sum_counts es

-- Each hash is in the list once, the list keeps its limit, and the counts do not exceed the total.
abbrev pub IsBounded : Deduper → Type 0
IsBounded d =
    Distinct same_hash d.lru × (0 < d.max) × (length d.lru ≤ d.max) × (sum_counts d.lru ≤ d.total)

by_hash-hash : (h : Text) (es : List Seen) (e : Seen) → by_hash h es ≡ some e → e.hash ≡ h
unfolding by_hash
by_hash-hash h [] e k = cc
by_hash-hash h (x ∷ xs) e k = elim (Bool-cases (same h x.hash)) [
  | inl y ↦
      let found : some x ≡ some e = ap (λ b. if b then some x else by_hash h xs) (sym y) ∙ k in
      let xe : x ≡ e = cc (found) in sym (ap (λ s. s.hash) xe) ∙ sym (eq_of_same h x.hash y)
  | inr n ↦ by_hash-hash h xs e (ap (λ b. if b then some x else by_hash h xs) (sym n) ∙ k)
]

removed_length :
    (h : Text) (es : List Seen) (e : Seen)
    → by_hash h es ≡ some e
    → suc (length (others h es)) ≤ length es
unfolding by_hash
removed_length h [] e k = cc
removed_length h (x ∷ xs) e k = ground (arith, removed_length h xs e, kept_length h xs)
  where
    kept_length : (h : Text) (xs : List Seen) → length (others h xs) ≤ length xs
    kept_length h [] = omega arith
    kept_length h (x ∷ xs) = ground (arith, kept_length h xs)

removed_sum :
    (h : Text) (es : List Seen) (e : Seen)
    → by_hash h es ≡ some e
    → e.count + sum_counts (others h es) ≤ sum_counts es
unfolding by_hash
removed_sum h [] e k = cc
removed_sum h (x ∷ xs) e k = ground (arith, removed_sum h xs e, kept_sum h xs)
  where
    kept_sum : (h : Text) (xs : List Seen) → sum_counts (others h xs) ≤ sum_counts xs
    kept_sum h [] = omega arith
    kept_sum h (x ∷ xs) = ground (arith, kept_sum h xs)

others_apart : (h : Text) (es : List Seen) → any (λ e. same h e.hash) (others h es) ≡ false
others_apart h [] = refl
others_apart h (x ∷ xs) = ground (arith, others_apart h xs)

absent_apart :
    (h : Text) (es : List Seen) → by_hash h es ≡ none → any (λ e. same h e.hash) es ≡ false
unfolding by_hash
absent_apart h [] k = refl
absent_apart h (x ∷ xs) k = elim (Bool-cases (same h x.hash)) [
  | inl y ↦
      let found : some x ≡ none = ap (λ b. if b then some x else by_hash h xs) (sym y) ∙ k in
      cc (found)
  | inr n ↦
      let rest : by_hash h xs ≡ none = ap (λ b. if b then some x else by_hash h xs) (sym n) ∙ k in
      ground (arith, n, absent_apart h xs rest)
]

any-take : (p : Seen → Bool) (n : ℕ) (xs : List Seen) → any p xs ≡ false → any p (take n xs) ≡ false
any-take p zero xs h = refl
any-take p (suc n) [] h = refl
any-take p (suc n) (x ∷ xs) h = ground (arith, h, any-take p n xs)

take-Distinct : (n : ℕ) (xs : List Seen) → Distinct same_hash xs → Distinct same_hash (take n xs)
take-Distinct zero xs d = tt
take-Distinct (suc n) [] d = tt
take-Distinct (suc n) (x ∷ xs) d = (any-take (same_hash x) n xs d.0, take-Distinct n xs d.1)

length-take : (n : ℕ) (xs : List Seen) → length (take n xs) ≤ n
length-take zero xs = omega arith
length-take (suc n) [] = omega arith
length-take (suc n) (x ∷ xs) = omega (arith, length-take n xs)

sum-take : (n : ℕ) (xs : List Seen) → sum_counts (take n xs) ≤ sum_counts xs
sum-take zero xs = omega arith
sum-take (suc n) [] = omega arith
sum-take (suc n) (x ∷ xs) = omega (arith, sum-take n xs)

seen_again-IsBounded :
    (h : Text) (now : ℕ) (d : Deduper) (e : Seen)
    → by_hash h d.lru ≡ some e
    → IsBounded d
    → IsBounded (seen_again now e d).0
seen_again-IsBounded h now d e k (distinct, some_room, room, counted) =
    let eh = by_hash-hash h d.lru e k in
    let k' : by_hash e.hash d.lru ≡ some e = ap (λ t. by_hash t d.lru) eh ∙ k in
    (
      (
        others_apart e.hash d.lru,
        keep-Distinct same_hash (λ x. not (same e.hash x.hash)) d.lru distinct,
      ),
      some_room,
      omega (arith, removed_length e.hash d.lru e k', room),
      omega (arith, removed_sum e.hash d.lru e k', counted),
    )

seen_first-IsBounded :
    (h : Text) (now : ℕ) (d : Deduper)
    → by_hash h d.lru ≡ none
    → IsBounded d
    → IsBounded (seen_first h now d).0
seen_first-IsBounded h now d k (distinct, some_room, room, counted) =
    let e : Seen = record {
      hash = h;
      count = 1;
      first_seen = now;
      last_seen = now;
      last_full = now;
    } in
    (
      take-Distinct d.max (e ∷ d.lru) (absent_apart h d.lru k, distinct),
      some_room,
      length-take d.max (e ∷ d.lru),
      omega (arith, sum-take d.max (e ∷ d.lru), counted),
    )

observe-IsBounded : (h : Text) (now : ℕ) (d : Deduper) → IsBounded d → IsBounded (observe h now d).0
unfolding observe
observe-IsBounded h now d b = by_entry (by_hash h d.lru) refl
  where
    by_entry : (o : Option Seen) → by_hash h d.lru ≡ o → IsBounded (observed h now d o).0
    by_entry none k = seen_first-IsBounded h now d k b
    by_entry (some e) k = seen_again-IsBounded h now d e k b

observe-total : (h : Text) (now : ℕ) (d : Deduper) → (observe h now d).0.total ≡ d.total + 1
unfolding observe
observe-total h now d = by_entry (by_hash h d.lru)
  where
    by_entry : (o : Option Seen) → (observed h now d o).0.total ≡ d.total + 1
    by_entry none = refl
    by_entry (some e) = refl

from-IsBounded :
    (panics : List (Text × ℕ)) (d : Deduper)
    → IsBounded d
    → IsBounded (observe_all d panics) × ((observe_all d panics).total ≡ d.total + length panics)
unfolding observe_all
from-IsBounded [] d b = (b, omega arith)
from-IsBounded ((h, now) ∷ rest) d b =
    let (bounded, total) = from-IsBounded rest (observe h now d).0 (observe-IsBounded h now d b) in
    (bounded, omega (arith, total, observe-total h now d))

-- Whatever panics a new deduper has counted at whatever times, it has at most its limit of hashes, each
-- once, and their counts add up to at most the total, which is the number of the panics.
pub observe_all-IsBounded :
    (max interval : ℕ) (panics : List (Text × ℕ))
    → let d = observe_all (new_panic_deduper max interval) panics in
      IsBounded d × (d.total ≡ length panics)
unfolding new_panic_deduper
observe_all-IsBounded max interval panics =
    let start : IsBounded (new_panic_deduper max interval) =
      (tt, ground arith, omega arith, omega arith) in
    let (bounded, total) = from-IsBounded panics (new_panic_deduper max interval) start in
    (bounded, omega (arith, total))
