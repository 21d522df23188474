-- ===== src/Facilitator/Rounds.antt =====
-- internal/channelfacilitator/scheduler.go: turns where nobody is mentioned and nobody starves.
use aegis_claw.Base.{
  ℕ, zero, suc, ◌+◌, ◌%◌, ◌<◌, ◌≡◌, refl, ap, ◌∙◌, inl, inr, Bool, true, false, ◌&&◌, List, [], ◌∷◌,
  ◌++◌, Option, none, some, any, any-append, leb-false, get_elem?, take, drop, length, arith,
  Bool-cases,
}
use mathlib.Core.Path.{subst}
use aegis_claw.Base.Text.{Text, same, same_refl, eq_of_same, is_empty, one_of}
use aegis_claw.Base.Distinct.{Distinct}
use aegis_claw.Base.Json.{pos, Fields, end}
use aegis_claw.Collab.Mention.{is_mentioned}
use aegis_claw.Store.Members.{TurnSettings, default_turn_settings, member_role}
use aegis_claw.Facilitator.{
  slots_after, slot_key, dedupe_member_roles, Round, boost_at, boost_from, longest_waiting, starve,
  boosted, turn_order, index_after, start_index, head_or_empty, select_from, select_next_recipient,
  or_default,
}
use aegis_claw.Facilitator.Starving.{starving}

-- A role whose key was seen gets no slot.
seen_out :
    (seen : List Text) (ms : List Fields) (r : Text)
    → one_of seen (slot_key r) ≡ true
    → any (λ x. same r x) (slots_after seen ms) ≡ false
unfolding slots_after
seen_out seen [] r h = refl
seen_out seen (m ∷ ms) r h =
    let q = member_role m in
    elim (Bool-cases (same r q)) [
      | inl e ↦
          let k : one_of seen (slot_key q) ≡ true =
            subst (λ t. one_of seen (slot_key t) ≡ true) (eq_of_same r q e) h in
          ground (arith, k, seen_out seen ms r h)
      | inr n ↦
          ground
            (arith, n, seen_out seen ms r h, seen_out (slot_key q ∷ seen) ms r (ground (arith, h)))
    ]

slots-Distinct : (seen : List Text) (ms : List Fields) → Distinct same (slots_after seen ms)
unfolding slots_after
slots-Distinct seen [] = tt
slots-Distinct seen (m ∷ ms) =
    let q = member_role m in
    ground (
      arith,
      slots-Distinct seen ms,
      slots-Distinct (slot_key q ∷ seen) ms,
      seen_out (slot_key q ∷ seen) ms q (ground (arith, same_refl (slot_key q))),
    )

elem_any :
    (p : Text → Bool) (xs : List Text) (k : ℕ) (b : Text)
    → get_elem? xs k ≡ some b
    → any p xs ≡ false
    → p b ≡ false
elem_any p [] k b h n = cc
elem_any p (x ∷ xs) zero b h n =
    let e : x ≡ b = cc (h) in subst (λ t. p t ≡ false) e (ground (arith, n))
elem_any p (x ∷ xs) (suc k) b h n = elem_any p xs k b h (ground (arith, n))

-- Where nobody in the order is lifted, the boosts leave it.
boost_from-calm :
    (boost : ℕ) (lifts : Text → Bool) (i left : ℕ) (s : Round)
    → any lifts s.rotated ≡ false
    → boost_from boost lifts i left s ≡ s
unfolding boost_from
boost_from-calm boost lifts i zero s h = refl
boost_from-calm boost lifts i (suc left) s h =
    let stays : boost_at boost lifts i (get_elem? s.rotated i) s ≡ s =
      at (get_elem? s.rotated i) refl in
    ap (boost_from boost lifts (i + 1) left) stays ∙ boost_from-calm boost lifts (i + 1) left s h
  where
    at : (o : Option Text) → get_elem? s.rotated i ≡ o → boost_at boost lifts i o s ≡ s
    at none e = refl
    at (some role) e = rw (elem_any lifts s.rotated i role e h) refl

index_after-elem :
    (n i : ℕ) (xs : List Text) (k : ℕ) (t : Text)
    → Distinct same xs
    → get_elem? xs k ≡ some t
    → index_after n i t xs ≡ (i + k + 1) % n
unfolding index_after
index_after-elem n i [] k t d h = cc
index_after-elem n i (x ∷ xs) zero t d h =
    let e : x ≡ t = cc (h) in
    let y : same x t ≡ true = rw e (same_refl t) in rw y (ap (λ m. m % n) (omega arith))
index_after-elem n i (x ∷ xs) (suc k) t d h =
    let no : same x t ≡ false = elem_any (λ y. same x y) xs k t h d.0 in
    rw no (index_after-elem n (i + 1) xs k t d.1 h ∙ ap (λ m. m % n) (omega arith))

head-drop :
    (i : ℕ) (xs ys : List Text) (t : Text)
    → get_elem? xs i ≡ some t
    → head_or_empty (drop i xs ++ ys) ≡ t
head-drop i [] ys t h = cc
head-drop zero (x ∷ xs) ys t h = cc (h)
head-drop (suc i) (x ∷ xs) ys t h = head-drop i xs ys t h

elem_below : (xs : List Text) (i : ℕ) (t : Text) → get_elem? xs i ≡ some t → i < length xs
elem_below [] i t h = cc
elem_below (x ∷ xs) zero t h = omega arith
elem_below (x ∷ xs) (suc i) t h = omega (arith, elem_below xs i t h)

rotated-any :
    (p : Text → Bool) (i : ℕ) (xs : List Text)
    → any p xs ≡ false
    → any p (drop i xs ++ take i xs) ≡ false
rotated-any p zero xs h = any-append p xs [] ∙ ground (arith, h)
rotated-any p (suc i) [] h = refl
rotated-any p (suc i) (x ∷ xs) h =
    let split = any-append p (drop i xs) (take i xs) in
    any-append p (drop i xs) (x ∷ take i xs) ∙ ground (arith, h, split, rotated-any p i xs)

any_and : (p q : Text → Bool) (xs : List Text) → any q xs ≡ false → any (λ x. p x && q x) xs ≡ false
any_and p q [] h = refl
any_and p q (x ∷ xs) h = ground (arith, h, any_and p q xs)

boosted-calm :
    (members : List Fields) (roles : List Text) (i : ℕ) (content : Text) (settings : TurnSettings)
    → any (λ role. is_mentioned role content) roles ≡ false
    → (boosted members roles i content settings).rotated ≡ drop i roles ++ take i roles
unfolding boosted
boosted-calm members roles i content settings h =
    ap (λ s. s.rotated)
      (boost_from-calm _ _ 0 (length (drop i roles ++ take i roles))
        (record { rotated = drop i roles ++ take i roles; boosts = end })
        (any_and _ (λ role. is_mentioned role content) (drop i roles ++ take i roles)
          (rotated-any (λ role. is_mentioned role content) i roles h)))

start_index-below : (i n : ℕ) → i < n → start_index (pos i) n ≡ i
start_index-below i n h = rw (leb-false n i h) refl

starve-calm :
    (starvation : ℕ) (members : List Fields) (s : Round)
    → is_empty (longest_waiting starvation ([], 0) members).0 ≡ true
    → starve starvation members s ≡ s
unfolding starve
starve-calm starvation members s e = rw e refl

turn_order-calm :
    (members : List Fields) (roles : List Text) (i : ℕ) (content : Text) (settings : TurnSettings)
    → i < length roles
    → any (λ r. is_mentioned r content) roles ≡ false
    → is_empty (starving members settings) ≡ true
    → (turn_order members roles (pos i) content settings).rotated ≡ drop i roles ++ take i roles
unfolding turn_order default_turn_settings
turn_order-calm members roles i content settings h m e =
    let b = start_index (pos i) (length roles) in
    ap (λ s. s.rotated)
      (starve-calm (or_default settings.starvation_cycles 3) members
        (boosted members roles b content settings) e)
    ∙ (boosted-calm members roles b content settings m
        ∙ ap (λ j. drop j roles ++ take j roles) (start_index-below i (length roles) h))

calm_turn :
    (members : List Fields) (roles : List Text) (i : ℕ) (role content : Text)
    (settings : TurnSettings)
    → Distinct same roles
    → get_elem? roles i ≡ some role
    → any (λ r. is_mentioned r content) roles ≡ false
    → is_empty (starving members settings) ≡ true
    → let s = select_from members (pos i) content settings roles in
      (s.recipient ≡ role) × (s.new_index ≡ pos ((i + 1) % length roles))
calm_turn members [] i role content settings d k n e = cc
calm_turn members (r ∷ rs) i role content settings d k n e =
    let roles = r ∷ rs in
    let first : head_or_empty (turn_order members roles (pos i) content settings).rotated ≡ role =
      ap head_or_empty
        (turn_order-calm members roles i content settings (elem_below roles i role k) n e)
      ∙ head-drop i roles (take i roles) role k in
    (
      first,
      ap (λ t. pos (index_after (length roles) 0 t roles)) first
          ∙ (ap pos (index_after-elem (length roles) 0 roles i role d k)
              ∙ ap (λ j. pos (j % length roles)) (omega arith)),
    )

-- Where nobody with a slot is mentioned and nobody starves, the turn goes to the slot at the index, and the
-- next index is that of the slot behind it, round and round.
pub select_next_recipient-calm :
    (members : List Fields) (i : ℕ) (role content : Text) (settings : TurnSettings)
    → get_elem? (dedupe_member_roles members) i ≡ some role
    → any (λ r. is_mentioned r content) (dedupe_member_roles members) ≡ false
    → is_empty (starving members settings) ≡ true
    → let s = select_next_recipient members (pos i) content settings in
      (s.recipient ≡ role) × (s.new_index ≡ pos ((i + 1) % length (dedupe_member_roles members)))
unfolding select_next_recipient dedupe_member_roles
select_next_recipient-calm members i role content settings h m e =
    calm_turn members (dedupe_member_roles members) i role content settings
      (slots-Distinct [] members) h m e
