-- ===== src/Facilitator/Fair.antt =====
-- internal/channelfacilitator/scheduler.go: turns one after another.
use aegis_claw.Base.{
  ℕ, zero, suc, ◌+◌, ◌-◌, ◌%◌, ◌<◌, ◌≡◌, refl, sym, ap, ◌∙◌, true, false, List, [], ◌∷◌, some, any,
  get_elem?, length, arith,
}
use native.Mathlib.Nat.{mod-lt, mod-eq_of_lt, mod-add-mod, add-mod-mod, add-mod_left}
use aegis_claw.Base.Text.{Text, is_empty}
use aegis_claw.Base.Json.{ℤ, pos, Fields}
use aegis_claw.Collab.Mention.{is_mentioned}
use aegis_claw.Store.Members.{TurnSettings}
use aegis_claw.Facilitator.{dedupe_member_roles, select_next_recipient}
use aegis_claw.Facilitator.Starving.{starving}
use aegis_claw.Facilitator.Rounds.{select_next_recipient-calm}

-- The index after a number of selections.
unfoldable pub turns : List Fields → Text → TurnSettings → ℕ → ℤ → ℤ
turns members content settings zero rr = rr
turns members content settings (suc k) rr =
    turns members content settings k (select_next_recipient members rr content settings).new_index

elem_there : (xs : List Text) (i : ℕ) → i < length xs → (t : Text) × (get_elem? xs i ≡ some t)
elem_there [] i h = absurd (omega (arith, h))
elem_there (x ∷ xs) zero h = (x, refl)
elem_there (x ∷ xs) (suc i) h = elem_there xs i (omega (arith, h))

module _ (members : List Fields) (content : Text) (settings : TurnSettings)
    (quiet : any (λ r. is_mentioned r content) (dedupe_member_roles members) ≡ false)
    (fed : is_empty (starving members settings) ≡ true) where
  turns-index :
      (k i : ℕ)
      → i < length (dedupe_member_roles members)
      → turns members content settings k (pos i)
        ≡ pos ((i + k) % length (dedupe_member_roles members))
  unfolding turns
  turns-index zero i h =
      ap pos
        (sym (mod-eq_of_lt h) ∙ ap (λ m. m % length (dedupe_member_roles members)) (omega arith))
  turns-index (suc k) i h =
      let n = length (dedupe_member_roles members) in
      let (role, e) = elem_there (dedupe_member_roles members) i h in
      let next = (select_next_recipient-calm members i role content settings e quiet fed).1 in
      ap (turns members content settings k) next
      ∙ (turns-index k ((i + 1) % n) (mod-lt (i + 1) (omega (arith, h)))
          ∙ ap pos (mod-add-mod (i + 1) n k ∙ ap (λ m. m % n) (omega arith)))

  -- While nobody with a slot is mentioned and nobody starves, every slot gets its turn: from any index of a
  -- slot, the role of any slot is selected after less turns than there are slots.
  pub turns_reach :
      (i j : ℕ) (role : Text)
      → i < length (dedupe_member_roles members)
      → j < length (dedupe_member_roles members)
      → get_elem? (dedupe_member_roles members) j ≡ some role
      → (k : ℕ) × (k < length (dedupe_member_roles members))
        × ((select_next_recipient members
              (turns members content settings k (pos i))
              content
              settings).recipient
            ≡ role)
  turns_reach i j role hi hj e =
      let n = length (dedupe_member_roles members) in
      let k = (n - i + j) % n in
      let at : turns members content settings k (pos i) ≡ pos j =
        turns-index k i hi
        ∙ ap pos (
            add-mod-mod i (n - i + j) n
            ∙ (ap (λ m. m % n) (omega (arith, hi)) ∙ (add-mod_left n j ∙ mod-eq_of_lt hj))) in
      (
        k,
        mod-lt (n - i + j) (omega (arith, hi)),
        ap (λ rr. (select_next_recipient members rr content settings).recipient) at
            ∙ (select_next_recipient-calm members j role content settings e quiet fed).0,
      )
