-- ===== src/Ids/ChannelId.antt =====
-- internal/channelid/channelid.go: the roles of ensure_role and the channel id rule.
use aegis_claw.Base.{ℕ, ◌-◌, Bool, not, ◌||◌, List, [], ◌∷◌, if◌then◌else◌, length, ltb}
use aegis_claw.Base.Text.{Text, text, is_empty, one_of, has_suffix, contains}
use aegis_claw.Ids.VmId.{matches_strict}

abbrev pub vm_id_max_len : ℕ
vm_id_max_len = 64

-- The map allowedEnsureRoles, in the order of the source.
abbrev pub allowed_ensure_roles : List Text
allowed_ensure_roles =
    text "coder"
    ∷ text "tester"
    ∷ text "ciso"
    ∷ text "security-architect"
    ∷ text "architect"
    ∷ text "efficiency"
    ∷ text "user-advocate"
    ∷ text "project-manager"
    ∷ text "researcher"
    ∷ []

abbrev pub longest_from : ℕ → List Text → ℕ
longest_from longest [] = longest
longest_from longest (role ∷ roles) =
    longest_from (if ltb longest (length role) then length role else longest) roles

abbrev pub max_channel_id_len : ℕ
max_channel_id_len = vm_id_max_len - longest_from 0 allowed_ensure_roles - 1

-- true is the nil error. The pattern is that of ValidateVMID.
unfoldable pub validate_channel_id : Text → Bool
validate_channel_id id = not (
    is_empty id
    || (ltb max_channel_id_len (length id)
        || (not (matches_strict id) || (has_suffix id (text "-") || contains id (text "--")))))

unfoldable pub role_allowed : Text → Bool
role_allowed role_type = one_of allowed_ensure_roles role_type
