-- ===== src/Ids/Examples.antt =====
-- The id theorems at concrete roles and channels.
use aegis_claw.Base.{◌≡◌, refl, true, false, none, some}
use aegis_claw.Base.Text.{Text, text, same, has_prefix, has_suffix, contains, to_lower}
use aegis_claw.Ids.VmId.{validate_vm_id, matches_strict, is_letter, is_id_char, all_id_chars}
use aegis_claw.Ids.ChannelId.{validate_channel_id, role_allowed}
use aegis_claw.Ids.Reserved.{
  reserved_prefix, compose_role_agent_id, check_role_agent_id, host_only_vm_id, not_allowed,
}
use aegis_claw.Ids.Families.{in_family}
use aegis_claw.Ids.HubReserved.{reserved_id_reason, host_prefix}
use aegis_claw.Ids.Gate.{check_role_agent_id_accepts}
use aegis_claw.Ids.Lowered.{check_role_agent_id_sound}

abbrev plan : Text
plan = text "plan-7"

plan_valid : validate_channel_id plan ≡ true
unfolding validate_channel_id matches_strict is_letter is_id_char all_id_chars has_suffix contains
    has_prefix same
plan_valid = refl

efficiency_allowed : role_allowed (text "efficiency") ≡ true
unfolding role_allowed same
efficiency_allowed = refl

coder_dash_refused :
    check_role_agent_id (text "coder-1") plan ≡ (text "coder-1-plan-7", some not_allowed)
unfolding check_role_agent_id same reserved_prefix has_prefix to_lower role_allowed
coder_dash_refused = refl

look_alike_refused : reserved_id_reason (text "daemon-tempest") false ≡ some host_prefix
unfolding reserved_id_reason same has_prefix in_family
look_alike_refused = refl

check_role_agent_id_sound_example :
    (text "efficiency-plan-7" ≡ compose_role_agent_id (text "efficiency") plan)
    × (role_allowed (text "efficiency") ≡ true)
    × (validate_vm_id (text "efficiency-plan-7") ≡ none)
    × (reserved_prefix (text "efficiency-plan-7") ≡ none)
    × (host_only_vm_id (text "efficiency-plan-7") ≡ false)
unfolding same
check_role_agent_id_sound_example =
    check_role_agent_id_sound (text "efficiency") plan (text "efficiency-plan-7") refl refl
      (check_role_agent_id_accepts (text "efficiency") plan efficiency_allowed plan_valid).0
