-- ===== src/Facilitator/Examples.antt =====
-- A channel with three members, one of which waits.
use aegis_claw.Facilitator.{int_from_member, longest_waiting}
use aegis_claw.Base.Json.{get}
use aegis_claw.Base.Text.{has_prefix, same}
use aegis_claw.Store.Members.{member_role}
use aegis_claw.Base.Trim.{is_space}
use aegis_claw.Base.{
  ℕ, ◌<◌, ◌≤◌, ◌++◌, ◌≡◌, refl, true, false, List, [], ◌∷◌, some, any, get_elem?, length, arith,
}
use aegis_claw.Base.Text.{Text, text, is_empty, one_of}
use aegis_claw.Base.Json.{pos, int, str, Fields, end, field}
use aegis_claw.Collab.Mention.{is_mentioned}
use aegis_claw.Store.Members.{default_turn_settings}
use aegis_claw.Facilitator.{dedupe_member_roles, select_next_recipient}
use aegis_claw.Facilitator.Starving.{
  starving, waited, limit_of, all_less, none_longer, select_next_recipient-starving,
}
use aegis_claw.Facilitator.Fair.{turns, turns_reach}

abbrev member : Text → ℕ → Fields
member role cycles =
    field (text "role") (str role) (field (text "cycles_since_turn") (int (pos cycles)) end)

abbrev calm_members : List Fields
calm_members =
    member (text "project-manager") 0 ∷ member (text "coder") 1 ∷ member (text "tester") 2 ∷ []

abbrev manager_member : Fields
manager_member = member (text "project-manager") 0

abbrev coder_member : Fields
coder_member = member (text "coder") 4

abbrev tester_member : Fields
tester_member = member (text "tester") 3

coder_waits : limit_of default_turn_settings ≤ waited coder_member
unfolding default_turn_settings int_from_member get same
coder_waits = omega arith

manager_less : all_less (waited coder_member) (manager_member ∷ []) ≡ true
unfolding int_from_member get same
manager_less = refl

tester_no_longer : none_longer (waited coder_member) (tester_member ∷ []) ≡ true
unfolding int_from_member get same
tester_no_longer = refl

coder_named : is_empty (member_role coder_member) ≡ false
unfolding member_role get same is_space
coder_named = refl

coder_has_slot :
    one_of
      (dedupe_member_roles ((manager_member ∷ []) ++ coder_member ∷ tester_member ∷ []))
      (member_role coder_member)
    ≡ true
unfolding dedupe_member_roles member_role get same is_space has_prefix
coder_has_slot = refl

select_next_recipient-starving_example :
    (select_next_recipient
      ((manager_member ∷ []) ++ coder_member ∷ tester_member ∷ [])
      (pos 2)
      (text "@tester hello")
      default_turn_settings).recipient
    ≡ member_role coder_member
select_next_recipient-starving_example =
    select_next_recipient-starving (manager_member ∷ []) (tester_member ∷ []) coder_member (pos 2)
      (text "@tester hello") default_turn_settings coder_waits manager_less tester_no_longer
      coder_named coder_has_slot

nobody_mentioned :
    any (λ r. is_mentioned r (text "hello")) (dedupe_member_roles calm_members) ≡ false
unfolding dedupe_member_roles member_role get same is_space is_mentioned
nobody_mentioned = refl

nobody_starves : is_empty (starving calm_members default_turn_settings) ≡ true
unfolding longest_waiting default_turn_settings int_from_member get same
nobody_starves = refl

three_slots : length (dedupe_member_roles calm_members) ≡ 3
unfolding dedupe_member_roles member_role get same is_space has_prefix
three_slots = refl

coder_second : get_elem? (dedupe_member_roles calm_members) 1 ≡ some (text "coder")
unfolding dedupe_member_roles member_role get same is_space has_prefix
coder_second = refl

turns_reach_example :
    (k : ℕ) × (k < length (dedupe_member_roles calm_members))
    × ((select_next_recipient calm_members
          (turns calm_members (text "hello") default_turn_settings k (pos 2))
          (text "hello")
          default_turn_settings).recipient
        ≡ text "coder")
turns_reach_example =
    turns_reach calm_members (text "hello") default_turn_settings nobody_mentioned nobody_starves 2
      1 (text "coder") (omega (arith, three_slots)) (omega (arith, three_slots)) coder_second
