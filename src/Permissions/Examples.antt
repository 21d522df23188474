-- ===== src/Permissions/Examples.antt =====
-- Runs of the permission commands, and the theorems at concrete states.
use aegis_claw.Base.{
  ◌≡◌, refl, true, not, ◌&&◌, ◌||◌, List, [], ◌∷◌, none, some, if◌then◌else◌, length,
}
use aegis_claw.Base.Text.{Text, text, same, has_prefix, one_of}
use aegis_claw.Base.Distinct.{Distinct}
use aegis_claw.Base.Json.{Fields, end, str, boolean, get}
use aegis_claw.Base.Json
use aegis_claw.Permissions.Types.{State, new_state}
use aegis_claw.Permissions.Match.{subject_matches}
use aegis_claw.Permissions.Source.{
  is_micro_vm_source, is_ciso_source, role_vm_prefixes, allows_ciso_delegation,
}
use aegis_claw.Permissions.Grants.{self_grant_error, record_request, grant_capability}
use aegis_claw.Permissions.Grants.Effect.{is_self_grant, grant_capability_effect}
use aegis_claw.Permissions.Grants.Consistent.{new_state-IsConsistent, same_pair, same_rule, same_id}
use aegis_claw.Permissions.Filter.{build_filter, has_grant, level_of}
use aegis_claw.Permissions.Filter.Visible.{is_shown, is_offered, build_filter_tools}
use aegis_claw.Permissions.World.{World, Call, may_not_mutate}
use aegis_claw.Permissions.Dispatch.{
  Command, dispatch, run, dispatch_command, parse_command, on_grant, on_discover,
}
use aegis_claw.Permissions.Dispatch.History.{run_keeps_Distinct}
use aegis_claw.Permissions.Dispatch.Guard.{SamePolicy, run-SamePolicy, delegation_allows_self_grant}
use aegis_claw.Permissions.Dispatch.Record.{Logged, IsSaved, run-IsSaved, dispatch-Logged}

abbrev now : Text
now = text "t0"

abbrev pair : Text → Text → Fields
pair s c = Json.field (text "subject") (str s) (Json.field (text "capability") (str c) end)

abbrev call : Text → Fields → Call
call source payload = record {
  source = source;
  payload = payload;
  ts = now;
  now = now;
  writable = true;
}

abbrev grant_coder : Call
grant_coder = call (text "daemon") (pair (text "coder*") (text "llm.call"))

abbrev grant_all_to_star : Call
grant_all_to_star = call (text "ciso-main") (pair (text "*") (text "secrets.push"))

abbrev from_agent : Call
from_agent = call (text "agent-7") (pair (text "agent-7") (text "secrets.push"))

abbrev enable_delegation : Call
enable_delegation = call (text "daemon") (Json.field (text "enabled") (boolean true) end)

abbrev start : World
start = record { state = new_state; audit = some []; disk = some new_state }

abbrev history : List (Text × Call)
history =
    (text "permission.grant", grant_coder)
    ∷ (text "permission.grant", from_agent)
    ∷ (text "tool.registry.discover", from_agent)
    ∷ []

-- The daemon's grant is made, the agent's is refused, and the agent's discovery is recorded.
history_runs :
    (length (run start history).state.grants ≡ 1)
    × (length (run start history).state.requests ≡ 1)
    × ((run start history).state.version ≡ 2)
unfolding run dispatch_command dispatch parse_command same on_grant on_discover grant_capability
    record_request is_micro_vm_source role_vm_prefixes has_prefix has_grant may_not_mutate get
    new_state is_ciso_source allows_ciso_delegation
history_runs = (refl, refl, refl)

grant_capability_effect_example :
    let (s, failure) =
      grant_capability new_state (text "coder*") (text "llm.call") (text "daemon") (text "r") now in
    (failure
      ≡ (if is_self_grant (text "daemon") (text "coder*") then some self_grant_error else none))
    × (has_grant (some s) (text "coder-1") (text "llm.call") ≡ (
        not (is_self_grant (text "daemon") (text "coder*"))
          && (same (text "llm.call") (text "llm.call")
              && subject_matches (text "coder-1") (text "coder*"))
        || has_grant (some new_state) (text "coder-1") (text "llm.call")))
grant_capability_effect_example =
    grant_capability_effect new_state (text "coder*") (text "llm.call") (text "daemon") (text "r")
      now (text "coder-1") (text "llm.call")

abbrev granted_state : State
granted_state =
    (grant_capability new_state (text "coder*") (text "llm.call") (text "daemon") (text "r") now).0

run_keeps_Distinct_example :
    let s = (run start history).state in
    Distinct same_pair s.grants × Distinct same_rule s.visibility × Distinct same_id s.requests
run_keeps_Distinct_example = run_keeps_Distinct start history new_state-IsConsistent

abbrev agent_history : List (Text × Call)
agent_history = (text "permission.grant", from_agent) ∷ (text "visibility.set", from_agent) ∷ []

run-SamePolicy_example : SamePolicy (run start agent_history).state start.state
unfolding is_micro_vm_source role_vm_prefixes is_ciso_source has_prefix same
run-SamePolicy_example = run-SamePolicy start agent_history ((refl, refl), ((refl, refl), tt))

delegation_allows_self_grant_example :
    has_grant
      (some
        (run start (
          (text "ciso.delegation.set", enable_delegation)
          ∷ (text "permission.grant", grant_all_to_star)
          ∷ [])).state)
      (text "ciso-main")
      (text "secrets.push")
    ≡ true
unfolding is_ciso_source has_prefix same get
delegation_allows_self_grant_example =
    delegation_allows_self_grant start enable_delegation grant_all_to_star refl refl refl refl refl

run-IsSaved_example : IsSaved (run start history)
run-IsSaved_example = run-IsSaved start history (refl, (refl, (refl, tt))) refl

dispatch-Logged_example : Logged grant_coder start (dispatch Command.grant grant_coder start).0 []
dispatch-Logged_example = dispatch-Logged Command.grant grant_coder start [] refl

build_filter_tools_example :
    let f = build_filter (some granted_state) (text "coder-1") (text "llm.call" ∷ []) in
    let allowed = has_grant (some granted_state) (text "coder-1") (text "llm.call") in
    (one_of f.allowed_tools (text "llm.call") ≡ allowed)
    × (one_of f.visible_tools (text "llm.call") ≡ (
        one_of (text "llm.call" ∷ []) (text "llm.call")
        && is_shown (level_of granted_state (text "coder-1") (text "llm.call")) allowed))
    × (one_of f.requestable_tools (text "llm.call") ≡ (
        one_of (text "llm.call" ∷ []) (text "llm.call")
        && is_offered (level_of granted_state (text "coder-1") (text "llm.call")) allowed))
    × (f.can_discover
        ≡ has_grant (some granted_state) (text "coder-1") (text "tool.registry.discover"))
build_filter_tools_example =
    build_filter_tools granted_state (text "coder-1") (text "llm.call" ∷ []) (text "llm.call")
