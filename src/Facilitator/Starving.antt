-- ===== src/Facilitator/Starving.antt =====
-- internal/channelfacilitator/scheduler.go: whoever has waited longest gets the turn.
use aegis_claw.Base.{
  ℕ, zero, suc, ◌<◌, ◌≤◌, not, any, leb, ltb, ◌+◌, ◌-◌, ◌≡◌, refl, sym, ap, ◌∙◌, inl, inr, Bool,
  true, false, List, [], ◌∷◌, ◌++◌, Option, none, some, any-append, get_elem?, set, take, drop,
  length, ◌==◌, arith, Bool-cases,
}
use mathlib.Core.Path.{subst}
use aegis_claw.Base.Text.{Text, text, same, same_refl, eq_of_same, is_empty, one_of}
use aegis_claw.Base.Json.{ℤ, Fields, end, get}
use aegis_claw.Store.Members.{TurnSettings, default_turn_settings, member_role}
use aegis_claw.Facilitator.{
  dedupe_member_roles, swap, swapped, Round, boost_at, boost_from, longest_waiting, to_front,
  starve, boosted, turn_order, start_index, head_or_empty, select_from, select_next_recipient,
  or_default, int_from_member,
}
use aegis_claw.Channel.Sequence.{positive}

find_one : (xs : List Text) (b : Text) → one_of xs b ≡ true → (k : ℕ) × (get_elem? xs k ≡ some b)
find_one [] b h = cc
find_one (x ∷ xs) b h = elim (Bool-cases (same b x)) [
  | inl e ↦ (0, ap some (sym (eq_of_same b x e)))
  | inr n ↦ let (k, e) = find_one xs b (ground (arith, h, n)) in (suc k, e)
]

one_of_elem : (xs : List Text) (b : Text) (k : ℕ) → get_elem? xs k ≡ some b → one_of xs b ≡ true
one_of_elem [] b k h = cc
one_of_elem (x ∷ xs) b zero h = ground (arith, h, same_refl b)
one_of_elem (x ∷ xs) b (suc k) h = ground (arith, one_of_elem xs b k h)

get_elem?-set :
    (xs : List Text) (i k : ℕ) (v : Text)
    → (k == i) ≡ false
    → get_elem? (set xs i v) k ≡ get_elem? xs k
get_elem?-set [] i k v h = refl
get_elem?-set (x ∷ xs) zero zero v h = ground (arith, h)
get_elem?-set (x ∷ xs) zero (suc k) v h = refl
get_elem?-set (x ∷ xs) (suc i) zero v h = refl
get_elem?-set (x ∷ xs) (suc i) (suc k) v h = get_elem?-set xs i k v (ground (arith, h))

get_elem?-set_self :
    (xs : List Text) (i : ℕ) (a v : Text)
    → get_elem? xs i ≡ some a
    → get_elem? (set xs i v) i ≡ some v
get_elem?-set_self [] i a v h = cc
get_elem?-set_self (x ∷ xs) zero a v h = refl
get_elem?-set_self (x ∷ xs) (suc i) a v h = get_elem?-set_self xs i a v h

eq_index : (i k : ℕ) → (k == i) ≡ true → k ≡ i
eq_index i k h = ground (arith, h)

swapped-one_of :
    (i j : ℕ) (oa oc : Option Text) (xs : List Text) (b : Text)
    → get_elem? xs i ≡ oa
    → get_elem? xs j ≡ oc
    → one_of xs b ≡ true
    → one_of (swapped i j oa oc xs) b ≡ true
swapped-one_of i j none oc xs b hi hj h = h
swapped-one_of i j (some a) none xs b hi hj h = h
swapped-one_of i j (some a) (some c) xs b hi hj h =
    let (k, e) = find_one xs b h in
    let ys = set xs i c in
    elim (Bool-cases (k == j)) [
      | inl kj ↦
          let bc : b ≡ c = cc (e, ap (get_elem? xs) (eq_index j k kj), hj) in
          elim (Bool-cases (i == j)) [
            | inl ij ↦
                let ab : a ≡ b = cc (bc, hi, ap (get_elem? xs) (eq_index j i ij), hj) in
                one_of_elem (set ys j a) b j (
                  get_elem?-set_self ys j c a (
                    subst (λ n. get_elem? ys n ≡ some c) (eq_index j i ij)
                      (get_elem?-set_self xs i a c hi))
                  ∙ ap some ab)
            | inr nij ↦
                one_of_elem (set ys j a) b i
                  (get_elem?-set ys j i a nij ∙ (get_elem?-set_self xs i a c hi ∙ ap some (sym bc)))
          ]
      | inr nkj ↦ elim (Bool-cases (k == i)) [
        | inl ki ↦
            let ab : a ≡ b = cc (e, ap (get_elem? xs) (eq_index i k ki), hi) in
            let nji : (j == i) ≡ false = ground (arith, ki, nkj) in
            one_of_elem (set ys j a) b j
              (get_elem?-set_self ys j c a (get_elem?-set xs i j c nji ∙ hj) ∙ ap some ab)
        | inr nki ↦
            one_of_elem (set ys j a) b k
              (get_elem?-set ys j k a nkj ∙ (get_elem?-set xs i k c nki ∙ e))
      ]
    ]

boost_at-one_of :
    (boost : ℕ) (lifts : Text → Bool) (i : ℕ) (o : Option Text) (s : Round) (b : Text)
    → one_of s.rotated b ≡ true
    → one_of (boost_at boost lifts i o s).rotated b ≡ true
unfolding boost_at swap
boost_at-one_of boost lifts i none s b h = h
boost_at-one_of boost lifts i (some role) s b h = ground (
  arith,
  h,
  swapped-one_of i (i - boost) (get_elem? s.rotated i) (get_elem? s.rotated (i - boost)) s.rotated b
      refl refl h,
)

boost_from-one_of :
    (boost : ℕ) (lifts : Text → Bool) (i left : ℕ) (s : Round) (b : Text)
    → one_of s.rotated b ≡ true
    → one_of (boost_from boost lifts i left s).rotated b ≡ true
unfolding boost_from
boost_from-one_of boost lifts i zero s b h = h
boost_from-one_of boost lifts i (suc left) s b h =
    boost_from-one_of boost lifts (i + 1) left _ b
      (boost_at-one_of boost lifts i (get_elem? s.rotated i) s b h)

rotated-one_of :
    (i : ℕ) (xs : List Text) (b : Text)
    → one_of xs b ≡ true
    → one_of (drop i xs ++ take i xs) b ≡ true
rotated-one_of zero xs b h = any-append (λ t. same b t) xs [] ∙ ground (arith, h)
rotated-one_of (suc i) [] b h = cc
rotated-one_of (suc i) (x ∷ xs) b h =
    let split = any-append (λ t. same b t) (drop i xs) (take i xs) in
    any-append (λ t. same b t) (drop i xs) (x ∷ take i xs)
    ∙ ground (arith, h, split, rotated-one_of i xs b)

to_front-head :
    (b : Text) (cycles : ℕ) (xs : List Text) (boosts : Fields)
    → one_of xs b ≡ true
    → head_or_empty (to_front b cycles xs boosts).rotated ≡ b
unfolding to_front
to_front-head b cycles [] boosts h = cc
to_front-head b cycles (x ∷ xs) boosts h = elim (Bool-cases (one_of xs b)) [
  | inl y ↦ rw y refl
  | inr n ↦ rw n (sym (eq_of_same b x (ground (arith, h, n))))
]

starve-head :
    (starvation : ℕ) (members : List Fields) (s : Round)
    → let best = (longest_waiting starvation ([], 0) members).0 in
      is_empty best ≡ false
      → one_of s.rotated best ≡ true
      → head_or_empty (starve starvation members s).rotated ≡ best
unfolding starve
starve-head starvation members s e h =
    let w = longest_waiting starvation ([], 0) members in
    ground (arith, e, to_front-head w.0 w.1 s.rotated s.boosts h)

-- The first of the members that have waited longest, from the limit of the settings on.
abbrev pub starving : List Fields → TurnSettings → Text
starving members settings =
    (longest_waiting (or_default settings.starvation_cycles 3) ([], 0) members).0

boosted-one_of :
    (members : List Fields) (roles : List Text) (i : ℕ) (content : Text) (settings : TurnSettings)
    (b : Text)
    → one_of roles b ≡ true
    → one_of (boosted members roles i content settings).rotated b ≡ true
unfolding boosted
boosted-one_of members roles i content settings b h =
    boost_from-one_of _ _ 0 (length (drop i roles ++ take i roles))
      (record { rotated = drop i roles ++ take i roles; boosts = end }) b
      (rotated-one_of i roles b h)

from_roles :
    (members : List Fields) (rr : ℤ) (content : Text) (settings : TurnSettings) (roles : List Text)
    → is_empty (starving members settings) ≡ false
    → one_of roles (starving members settings) ≡ true
    → (select_from members rr content settings roles).recipient ≡ starving members settings
unfolding turn_order default_turn_settings
from_roles members rr content settings [] e k = cc
from_roles members rr content settings (r ∷ rs) e k =
    let i = start_index rr (length (r ∷ rs)) in
    starve-head (or_default settings.starvation_cycles 3) members
      (boosted members (r ∷ rs) i content settings) e
      (boosted-one_of members (r ∷ rs) i content settings (starving members settings) k)

-- The cycles that a member has waited, as the loop reads them.
abbrev pub waited : Fields → ℕ
waited m = positive (int_from_member (get m (text "cycles_since_turn")))

-- Nobody of the list has waited as long as `n`, or longer than `n`.
abbrev pub all_less : ℕ → List Fields → Bool
all_less n members = not (any (λ k. leb n (waited k)) members)

abbrev pub none_longer : ℕ → List Fields → Bool
none_longer n members = not (any (λ k. ltb n (waited k)) members)

longest_waiting-after :
    (limit : ℕ) (role : Text) (n : ℕ) (after : List Fields)
    → none_longer n after ≡ true
    → longest_waiting limit (role, n) after ≡ (role, n)
unfolding longest_waiting
longest_waiting-after limit role n [] h = refl
longest_waiting-after limit role n (k ∷ after) h =
    ground (arith, longest_waiting-after limit role n after)

longest_waiting-before :
    (limit : ℕ) (role : Text) (n : ℕ) (before after : List Fields) (m : Fields)
    → n < waited m
    → limit ≤ waited m
    → all_less (waited m) before ≡ true
    → longest_waiting limit (role, n) (before ++ m ∷ after)
      ≡ longest_waiting limit (member_role m, waited m) after
unfolding longest_waiting
longest_waiting-before limit role n [] after m h l b = ground (arith, h, l)
longest_waiting-before limit role n (k ∷ before) after m h l b = ground (
  arith,
  h,
  l,
  b,
  longest_waiting-before limit role n before after m,
  longest_waiting-before limit (member_role k) (waited k) before after m,
)

-- The limit of the settings, or 3 where they have none.
abbrev pub limit_of : TurnSettings → ℕ
limit_of settings = or_default settings.starvation_cycles 3

starving-first :
    (before after : List Fields) (m : Fields) (settings : TurnSettings)
    → limit_of settings ≤ waited m
    → all_less (waited m) before ≡ true
    → none_longer (waited m) after ≡ true
    → starving (before ++ m ∷ after) settings ≡ member_role m
starving-first before after m settings l b a =
    ap (λ x. x.0)
      (longest_waiting-before (limit_of settings) [] 0 before after m (ground (arith, l)) l b
        ∙ longest_waiting-after (limit_of settings) (member_role m) (waited m) after a)

-- Of the members that have waited for the limit of cycles or more, the one that has waited longest, and
-- the first of these where there are several, gets the next turn, if its role is not empty and has a
-- slot, whoever is mentioned and whose turn it is.
pub select_next_recipient-starving :
    (before after : List Fields) (m : Fields) (rr : ℤ) (content : Text) (settings : TurnSettings)
    → limit_of settings ≤ waited m
    → all_less (waited m) before ≡ true
    → none_longer (waited m) after ≡ true
    → is_empty (member_role m) ≡ false
    → one_of (dedupe_member_roles (before ++ m ∷ after)) (member_role m) ≡ true
    → (select_next_recipient (before ++ m ∷ after) rr content settings).recipient ≡ member_role m
unfolding select_next_recipient
select_next_recipient-starving before after m rr content settings l b a e h =
    let members = before ++ m ∷ after in
    let q = starving-first before after m settings l b a in
    from_roles members rr content settings (dedupe_member_roles members) (ap is_empty q ∙ e)
      (ap (one_of (dedupe_member_roles members)) q ∙ h)
    ∙ q
