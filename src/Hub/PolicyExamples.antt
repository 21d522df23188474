-- ===== src/Hub/PolicyExamples.antt =====
-- The permission check, the access rules and the CID commands on the same hub.
use aegis_claw.Base.{ℕ, ◌≡◌, refl, ◌≢◌, true, false, not, ◌&&◌, ◌||◌, [], ◌∷◌, none, some}
use aegis_claw.Base.Text.{Text, text, same, one_of, has_prefix, has_suffix, trim_suffix}
use aegis_claw.Base.Json.{pos, float64, str, obj, end, field}
use aegis_claw.Lease.{unlease_cid, reset, store_lease}
use aegis_claw.Permissions.Types.{new_state, State}
use aegis_claw.Permissions.Match.{subject_matches, prefix_matches}
use aegis_claw.Permissions.Source.{is_micro_vm_source, role_vm_prefixes}
use aegis_claw.Permissions.Grants.{grant_capability}
use aegis_claw.Permissions.Filter.{has_grant, build_snapshot}
use aegis_claw.Permissions.Capability.{is_capability_command}
use aegis_claw.Hub.Wire.{Message}
use aegis_claw.Hub.Snapshots.{fetch_permission_snapshot, check_hub_permission, invalidated}
use aegis_claw.Hub.CidCommand.{
  CidEnv, CidState, ok, unauthorized, parse_cid_unlease_payload, handle_cid_lease_command,
}
use aegis_claw.Hub.Freshness.{check_hub_permission_fetched, grant_invalidates}
use aegis_claw.Hub.CidGuard.{is_daemon, cid_command_guarded}
use aegis_claw.Hub.Fixture.{open_crypto, hub, frame, raw}

abbrev coder_grant : State
coder_grant =
    (grant_capability new_state (text "agent*") (text "chat.save") (text "daemon") [] []).0

check_hub_permission_fetched_example :
    check_hub_permission new_state
      (fetch_permission_snapshot []
        (text "agent-7")
        (some (build_snapshot coder_grant (text "agent-7") [] [])))
      none
      (text "agent-7")
      (text "chat.save")
    ≡ (not (is_capability_command (text "chat.save"))
        || (not (is_micro_vm_source (text "agent-7"))
            || has_grant (some coder_grant) (text "agent-7") (text "chat.save")))
check_hub_permission_fetched_example =
    check_hub_permission_fetched new_state coder_grant [] none (text "agent-7") []
      (text "chat.save") []

agent_is_micro_vm : is_micro_vm_source (text "agent-7") ≡ true
unfolding is_micro_vm_source role_vm_prefixes has_prefix same
agent_is_micro_vm = refl

agent_registered : one_of (text "store" ∷ text "agent-7" ∷ []) (text "agent-7") ≡ true
unfolding same
agent_registered = refl

grant_changes :
    has_grant (some coder_grant) (text "agent-7") (text "chat.save")
    ≢ has_grant (some new_state) (text "agent-7") (text "chat.save")
unfolding has_grant grant_capability is_micro_vm_source subject_matches prefix_matches
    role_vm_prefixes new_state same has_prefix has_suffix trim_suffix
grant_changes e = cc

grant_invalidates_example :
    one_of (invalidated (text "store" ∷ text "agent-7" ∷ []) (text "agent*")) (text "agent-7")
    ≡ true
grant_invalidates_example =
    grant_invalidates new_state (text "store" ∷ text "agent-7" ∷ []) (text "agent*")
      (text "chat.save") (text "daemon") [] [] (text "agent-7") (text "chat.save") agent_is_micro_vm
      agent_registered grant_changes

plain_pattern :
    has_suffix (text "agent*") (text "*") && same (text "agent*") (text "agent-7") ≡ false
unfolding has_suffix same
plain_pattern = refl

abbrev cid_env : CidEnv
cid_env = record {
  crypto = open_crypto;
  parse_uint = λ s. none;
  is_vsock = false;
  path = text "/keys";
  writable = true;
}

abbrev cid_state : CidState
cid_state = record { leases = store_lease reset 3 (text "key"); file = none }

abbrev unlease_frame : Message
unlease_frame = record (frame (text "daemon") (text "hub") (text "cid.unlease")) {
  payload =
      obj (field (text "cid") (float64 (pos 3)) (field (text "public_key") (str (text "key")) end));
}

cid_command_guarded_example :
    let out = handle_cid_lease_command cid_env hub cid_state unlease_frame raw (text "daemon") in
    ((cid_env.is_vsock
          || (not (is_daemon cid_env.crypto hub (text "daemon") raw unlease_frame)
              || same unlease_frame.command (text "cid.lease")))
        ≡ true
      → out ≡ (cid_state, unauthorized))
    × (out.1 ≡ ok
        → (cid : ℕ) × (key : Text) × (parse_cid_unlease_payload cid_env.parse_uint
              unlease_frame.payload
            ≡ some (cid, key))
          × ((unlease_cid cid_state.leases cid key).1 ≡ true)
          × (out.0.leases ≡ (unlease_cid cid_state.leases cid key).0))
    × (out.1 ≢ ok → out.0.leases ≡ cid_state.leases)
cid_command_guarded_example =
    cid_command_guarded cid_env hub cid_state unlease_frame raw (text "daemon")
