-- ===== src/Ids/Gate.antt =====
-- The gate of ensure_role: what it lets through, and what the other components make of those ids.
use aegis_claw.Base.{◌≡◌, refl, true, false, not, List, [], ◌∷◌, ◌++◌, none, arith, All}
use aegis_claw.Base.Text.{Text, text, same, is_empty, one_of, has_prefix, to_lower}
use aegis_claw.Ids.Families.{in_family}
use aegis_claw.Ids.VmId.{validate_vm_id}
use aegis_claw.Ids.ChannelId.{allowed_ensure_roles, validate_channel_id, role_allowed}
use aegis_claw.Ids.Reserved.{reserved_prefix, check_generic, check_role_agent_id}
use aegis_claw.Ids.HubReserved.{reserved_id_reason}
use aegis_claw.Ids.Compose.{compose-validate, one_of-All, well_formed_of_channel}
use aegis_claw.Permissions.Source.{is_micro_vm_source, role_vm_prefixes}

-- The roles whose VM ids are not microVM sources for the permission model.
abbrev pub unlisted_roles : List Text
unlisted_roles = text "security-architect" ∷ text "efficiency" ∷ text "user-advocate" ∷ []

abbrev RoleFacts : Text → Type 0
RoleFacts role =
    (ch : Text)
    → (same role (text "agent") ≡ false)
      × (is_empty role ≡ false)
      × (reserved_prefix (role ++ (text "-" ++ ch)) ≡ none)
      × (reserved_prefix role ≡ none)
      × (reserved_id_reason (role ++ (text "-" ++ ch)) true ≡ none)
      × (reserved_id_reason (role ++ (text "-" ++ ch)) false ≡ none)
      × (is_micro_vm_source (role ++ (text "-" ++ ch)) ≡ not (one_of unlisted_roles role))

roles_facts : All RoleFacts allowed_ensure_roles
unfolding same reserved_prefix has_prefix to_lower reserved_id_reason in_family is_micro_vm_source
    role_vm_prefixes
roles_facts = (
  (λ ch. (refl, refl, refl, refl, refl, refl, refl)),
  (
    (λ ch. (refl, refl, refl, refl, refl, refl, refl)),
    (
      (λ ch. (refl, refl, refl, refl, refl, refl, refl)),
      (
        (λ ch. (refl, refl, refl, refl, refl, refl, refl)),
        (
          (λ ch. (refl, refl, refl, refl, refl, refl, refl)),
          (
            (λ ch. (refl, refl, refl, refl, refl, refl, refl)),
            (
              (λ ch. (refl, refl, refl, refl, refl, refl, refl)),
              (
                (λ ch. (refl, refl, refl, refl, refl, refl, refl)),
                ((λ ch. (refl, refl, refl, refl, refl, refl, refl)), tt),
              ),
            ),
          ),
        ),
      ),
    ),
  ),
)

facts_of : (role : Text) → role_allowed role ≡ true → RoleFacts role
unfolding role_allowed
facts_of role h = one_of-All RoleFacts allowed_ensure_roles role roles_facts h

check_generic_accepts :
    (role id : Text)
    → reserved_prefix id ≡ none
    → reserved_prefix role ≡ none
    → role_allowed role ≡ true
    → validate_vm_id id ≡ none
    → check_generic role id ≡ (id, none)
check_generic_accepts role id free role_free allowed valid = ground arith

pub check_generic_sound :
    (role id : Text) (out : Text)
    → check_generic role id ≡ (out, none)
    → (out ≡ id)
      × (reserved_prefix id ≡ none)
      × (role_allowed role ≡ true)
      × (validate_vm_id id ≡ none)
check_generic_sound role id out h = ground arith

-- For every allowed role and every valid channel id the gate of ensure_role gives the composed id
-- and no error, and the hub registers that id on either transport.
pub check_role_agent_id_accepts :
    (role ch : Text)
    → role_allowed role ≡ true
    → validate_channel_id ch ≡ true
    → let id = role ++ (text "-" ++ ch) in
      (check_role_agent_id role ch ≡ (id, none))
      × (reserved_id_reason id true ≡ none)
      × (reserved_id_reason id false ≡ none)
unfolding check_role_agent_id
check_role_agent_id_accepts role ch hr hc =
    let (no_agent, full, free, role_free, vsock, unix, _) = facts_of role hr ch in
    let (_, _, cfull) = well_formed_of_channel ch hc in
    let valid : validate_vm_id (role ++ (text "-" ++ ch)) ≡ none =
      rw cfull at (compose-validate role ch hr hc) in
    (
      rw (no_agent, full, cfull)
          (check_generic_accepts role (role ++ (text "-" ++ ch)) free role_free hr valid),
      vsock,
      unix,
    )

-- The composed id is a microVM source for the permission model unless the role is
-- security-architect, efficiency or user-advocate.
pub is_micro_vm_source-compose :
    (role ch : Text)
    → role_allowed role ≡ true
    → is_micro_vm_source (role ++ (text "-" ++ ch)) ≡ not (one_of unlisted_roles role)
is_micro_vm_source-compose role ch hr =
    let (_, _, _, _, _, _, source) = facts_of role hr ch in source
