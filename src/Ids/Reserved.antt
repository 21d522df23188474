-- ===== src/Ids/Reserved.antt =====
-- internal/runtime/reserved_id.go: reserved VM ids and the gate of ensure_role.
use aegis_claw.Base.{
  ℕ, Bool, true, not, ◌&&◌, ◌||◌, List, [], ◌∷◌, ◌++◌, Option, none, some, if◌then◌else◌, any,
  length, ltb, leb, ◌==◌,
}
use aegis_claw.Base.Text.{Text, text, same, is_empty, has_prefix, has_suffix, contains, to_lower}
use aegis_claw.Ids.Families.{host_client_families}
use aegis_claw.Ids.VmId.{VmIdError, validate_vm_id}
use aegis_claw.Ids.ChannelId.{role_allowed}

abbrev pub max_vm_id_bytes : ℕ
max_vm_id_bytes = 128

unfoldable pub reserved_vm_id_prefixes : List Text
reserved_vm_id_prefixes =
    (text "store"
      ∷ text "court"
      ∷ text "network-boundary"
      ∷ text "web-portal"
      ∷ text "builder"
      ∷ text "memory"
      ∷ text "agent"
      ∷ text "hub"
      ∷ text "aegishub"
      ∷ text "hub-perm-fetch"
      ∷ [])
    ++ host_client_families

-- lower == p, or lower starts with p+"-".
abbrev pub takes_prefix : Text → Text → Bool
takes_prefix lower p = same lower p || has_prefix lower (p ++ text "-")

-- The loop of reservedPrefix: the longest prefix that matches, "" for none.
unfoldable pub longest_match : Text → Text → List Text → Text
longest_match lower matched [] = matched
longest_match lower matched (p ∷ ps) =
    longest_match lower
      (if takes_prefix lower p && ltb (length matched) (length p) then p else matched) ps

unfoldable pub reserved_prefix : Text → Option Text
unfolding reserved_vm_id_prefixes longest_match
reserved_prefix id =
    let matched = longest_match (to_lower id) [] reserved_vm_id_prefixes in
    if is_empty matched then none else some matched

unfoldable pub vm_id_chars_ok : Text → Bool
vm_id_chars_ok [] = true
vm_id_chars_ok (c ∷ s) =
    ((leb b'a' c && leb c b'z')
      || ((leb b'A' c && leb c b'Z')
          || ((leb b'0' c && leb c b'9') || (c == b'.' || (c == b'_' || c == b'-')))))
    && vm_id_chars_ok s

-- An empty part of strings.Split(id, "-"): at the front, at the end, or between two dashes.
unfoldable pub has_empty_id_segment : Text → Bool
has_empty_id_segment id =
    is_empty id
    || (has_prefix id (text "-") || (has_suffix id (text "-") || contains id (text "--")))

pub data ReservedReason : Type 0 where
  empty_id long_id invalid_characters empty_segment : ReservedReason
  prefix : Text → ReservedReason

unfoldable pub reserved_vm_id_reason : Text → Option ReservedReason
unfolding vm_id_chars_ok has_empty_id_segment
reserved_vm_id_reason id =
    if is_empty id
    then some empty_id
    else if ltb max_vm_id_bytes (length id)
    then some long_id
    else if not (vm_id_chars_ok id)
    then some invalid_characters
    else if has_empty_id_segment id
    then some empty_segment
    else elim (reserved_prefix id) [ none ↦ none | some p ↦ some (prefix p) ]

unfoldable pub host_only_vm_id : Text → Bool
host_only_vm_id id =
    (same id (text "hub")
      || (same id (text "hub-perm-fetch") || has_prefix id (text "hub-perm-fetch-")))
    || any (λ fam. takes_prefix id fam) host_client_families

pub data GateError : Type 0 where
  reserved : Text → GateError
  not_allowed : GateError
  invalid : VmIdError → GateError

abbrev pub compose_role_agent_id : Text → Text → Text
compose_role_agent_id role_type channel_hint =
    if is_empty channel_hint then role_type else role_type ++ (text "-" ++ channel_hint)

-- The loop over the two ids of the pair: the first that fails is returned with its error.
abbrev pub check_pair : Text → Text × Option GateError
check_pair sid = elim (validate_vm_id (text "agent-" ++ sid)) [
  | some e ↦ (text "agent-" ++ sid, some (invalid e))
  | none ↦ elim (validate_vm_id (text "memory-" ++ sid)) [
    | some e ↦ (text "memory-" ++ sid, some (invalid e))
    | none ↦ ([], none)
  ]
]

abbrev pub check_generic : Text → Text → Text × Option GateError
check_generic role_type id = elim (reserved_prefix id) [
  | some p ↦ (id, some (reserved p))
  | none ↦ elim (reserved_prefix role_type) [
    | some p ↦ (id, some (reserved p))
    | none ↦
        if not (role_allowed role_type)
        then (id, some not_allowed)
        else elim (validate_vm_id id) [ some e ↦ (id, some (invalid e)) | none ↦ (id, none) ]
  ]
]

-- The id to launch and no error; ("", nil) sends the caller to the paired path.
unfoldable pub check_role_agent_id : Text → Text → Text × Option GateError
check_role_agent_id role_type channel_hint =
    if same role_type (text "agent") || is_empty role_type
    then check_pair (if is_empty channel_hint then text "temp-" ++ role_type else channel_hint)
    else check_generic role_type (compose_role_agent_id role_type channel_hint)
