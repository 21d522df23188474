-- ===== src/Facilitator.antt =====
-- internal/channelfacilitator/scheduler.go: who gets the next turn in a channel. Settings are not
-- negative; a boost's position and index are native numbers.
pub mod Starving
pub mod Rounds
pub mod Fair
pub mod Examples
use aegis_claw.Base.{
  ℕ, zero, suc, ◌+◌, ◌-◌, ◌%◌, Bool, true, not, ◌&&◌, ◌||◌, List, [], ◌∷◌, ◌++◌, Option, none, some,
  if◌then◌else◌, any, length, get_elem?, set, take, drop, ltb, leb, ◌==◌,
}
use aegis_claw.Base.Text.{Text, text, same, is_empty, one_of, has_prefix}
use aegis_claw.Base.Json.{
  ℤ, pos, Json, boolean, int, float64, fraction, obj, Fields, end, field, get, put,
}
use aegis_claw.Channel.Sequence.{as_int, or_zero, positive}
use aegis_claw.Collab.Mention.{is_mentioned}
use aegis_claw.Store.Members.{TurnSettings, default_turn_settings, member_role}

abbrev pub slot_key : Text → Text
slot_key r =
    if same r (text "project-manager") || has_prefix r (text "project-manager-")
    then text "project-manager"
    else r

-- The roles that have a slot, after the keys that were seen.
unfoldable pub slots_after : List Text → List Fields → List Text
slots_after seen [] = []
slots_after seen (m ∷ ms) =
    let r = member_role m in
    let others = slots_after seen ms in
    let next = slots_after (slot_key r ∷ seen) ms in
    if is_empty r then others else if one_of seen (slot_key r) then others else r ∷ next

unfoldable pub dedupe_member_roles : List Fields → List Text
unfolding slots_after
dedupe_member_roles members = slots_after [] members

unfoldable pub int_from_member : Json → ℤ
int_from_member v = or_zero (as_int v)

abbrev pub or_default : ℕ → ℕ → ℕ
or_default n default = if n == 0 then default else n

-- int(left), where left is 0 unless the field is a float64.
abbrev boosts_left : Json → ℕ
boosts_left (float64 n) = positive n
boosts_left (fraction n) = positive n
boosts_left _ = 0

-- Some row of the role is under the cap.
abbrev eligible : ℕ → List Fields → Text → Bool
eligible max members role =
    any
      (λ m. same (member_role m) role && ltb (boosts_left (get m (text "mention_boosts_left"))) max)
      members

abbrev pub swapped : ℕ → ℕ → Option Text → Option Text → List Text → List Text
swapped i j (some a) (some b) xs = set (set xs i b) j a
swapped i j _ _ xs = xs

-- rotated[i], rotated[j] = rotated[j], rotated[i]
unfoldable pub swap : ℕ → ℕ → List Text → List Text
swap i j xs = swapped i j (get_elem? xs i) (get_elem? xs j) xs

pub record Round : Type 0 where
  pub rotated : List Text
  pub boosts : Fields

abbrev boost_note : ℕ → Json
boost_note positions =
    obj (field (text "applied") (boolean true) (field (text "positions") (int (pos positions)) end))

-- What the loop over mentions does at index i, with the role there.
unfoldable pub boost_at : ℕ → (Text → Bool) → ℕ → Option Text → Round → Round
unfolding swap
boost_at boost lifts i none s = s
boost_at boost lifts i (some role) s =
    if lifts role && not (i - boost == i)
    then record {
      rotated = swap i (i - boost) s.rotated;
      boosts = put s.boosts role (boost_note boost);
    }
    else s

-- That loop from index i on, for `left` indices.
unfoldable pub boost_from : ℕ → (Text → Bool) → ℕ → ℕ → Round → Round
unfolding boost_at
boost_from boost lifts i zero s = s
boost_from boost lifts i (suc left) s =
    boost_from boost lifts (i + 1) left (boost_at boost lifts i (get_elem? s.rotated i) s)

-- The first member of those that have waited longest, from the starvation limit on, with its cycles.
unfoldable pub longest_waiting : ℕ → Text × ℕ → List Fields → Text × ℕ
longest_waiting starvation best [] = best
longest_waiting starvation (role, cycles) (m ∷ ms) =
    let c = positive (int_from_member (get m (text "cycles_since_turn"))) in
    longest_waiting starvation
      (if leb starvation c && ltb cycles c then (member_role m, c) else (role, cycles)) ms

-- The list without the first element that is the text.
unfoldable pub remove_first : Text → List Text → List Text
remove_first b [] = []
remove_first b (x ∷ xs) = let rest = remove_first b xs in if same x b then xs else x ∷ rest

abbrev starving_note : ℕ → Json
starving_note cycles =
    obj (field (text "starvation") (boolean true) (field (text "cycles") (int (pos cycles)) end))

-- The role is moved to the front, where it stands behind it.
unfoldable pub to_front : Text → ℕ → List Text → Fields → Round
to_front best cycles [] boosts = record { rotated = []; boosts = boosts }
to_front best cycles (x ∷ xs) boosts =
    if one_of xs best
    then record {
      rotated = best ∷ x ∷ remove_first best xs;
      boosts = put boosts best (starving_note cycles);
    }
    else record { rotated = x ∷ xs; boosts = boosts }

unfoldable pub starve : ℕ → List Fields → Round → Round
unfolding longest_waiting to_front
starve starvation members s =
    let (best, cycles) = longest_waiting starvation ([], 0) members in
    if is_empty best then s else to_front best cycles s.rotated s.boosts

-- (i + 1) % n for the first index i of the text, and 0 where there is none.
unfoldable pub index_after : ℕ → ℕ → Text → List Text → ℕ
index_after n i t [] = 0
index_after n i t (x ∷ xs) =
    let rest = index_after n (i + 1) t xs in if same x t then (i + 1) % n else rest

pub record Selection : Type 0 where
  pub recipient : Text
  pub new_index : ℤ
  pub boosts : Option Fields

abbrev pub start_index : ℤ → ℕ → ℕ
start_index rr n = if leb n (positive rr) then 0 else positive rr

abbrev pub head_or_empty : List Text → Text
head_or_empty [] = []
head_or_empty (x ∷ xs) = x

-- The order of the turns once the boosts are applied, from the index on.
unfoldable pub boosted : List Fields → List Text → ℕ → Text → TurnSettings → Round
unfolding boost_from default_turn_settings is_mentioned
boosted members roles i content settings =
    let boost =
      or_default settings.mention_boost_positions default_turn_settings.mention_boost_positions in
    let max =
      or_default settings.max_mention_boosts_per_cycle
        default_turn_settings.max_mention_boosts_per_cycle in
    let rotated = drop i roles ++ take i roles in
    boost_from boost (λ role. eligible max members role && is_mentioned role content) 0
      (length rotated) (record { rotated = rotated; boosts = end })

-- And the starving member put first.
unfoldable pub turn_order : List Fields → List Text → ℤ → Text → TurnSettings → Round
unfolding boosted starve default_turn_settings
turn_order members roles rr content settings =
    starve (or_default settings.starvation_cycles default_turn_settings.starvation_cycles) members
      (boosted members roles (start_index rr (length roles)) content settings)

abbrev pub select_from : List Fields → ℤ → Text → TurnSettings → List Text → Selection
select_from members rr content settings [] = record {
  recipient = [];
  new_index = rr;
  boosts = none;
}
select_from members rr content settings (r ∷ rs) =
    let s = turn_order members (r ∷ rs) rr content settings in
    let recipient = head_or_empty s.rotated in
    record {
      recipient = recipient;
      new_index = pos (index_after (length (r ∷ rs)) 0 recipient (r ∷ rs));
      boosts = some s.boosts;
    }

unfoldable pub select_next_recipient : List Fields → ℤ → Text → TurnSettings → Selection
unfolding dedupe_member_roles turn_order index_after
select_next_recipient members rr content settings =
    select_from members rr content settings (dedupe_member_roles members)
