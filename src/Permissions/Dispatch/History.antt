-- ===== src/Permissions/Dispatch/History.antt =====
-- Histories of commands, and the well-formedness of the state.
use aegis_claw.Base.{List, [], ◌∷◌, arith}
use aegis_claw.Base.Text.{Text, text}
use aegis_claw.Base.Distinct.{Distinct}
use aegis_claw.Permissions.Grants.Consistent.{
  IsConsistent, grant_capability-IsConsistent, revoke_capability-IsConsistent,
  set_visibility-IsConsistent, record_request-IsConsistent, requests-Distinct, same_pair, same_rule,
  same_id,
}
use aegis_claw.Permissions.World.{World, Call, field, subject_of, capability_of}
use aegis_claw.Permissions.Dispatch.{
  Command, on_grant, on_revoke, on_request, on_visibility_set, on_discover, on_delegation_set,
  parse_command, dispatch, dispatch_command, run,
}

module _ (c : Call) (w : World) (v : IsConsistent w.state) where
  on_grant-IsConsistent : IsConsistent (on_grant c w).0.state
  unfolding on_grant
  on_grant-IsConsistent = ground (
    arith,
    grant_capability-IsConsistent w.state (subject_of c) (capability_of c) c.source
        (field c.payload (text "reason")) c.now v,
  )

  on_revoke-IsConsistent : IsConsistent (on_revoke c w).0.state
  unfolding on_revoke
  on_revoke-IsConsistent =
      ground (arith, revoke_capability-IsConsistent w.state (subject_of c) (capability_of c) v)

  on_visibility_set-IsConsistent : IsConsistent (on_visibility_set c w).0.state
  unfolding on_visibility_set
  on_visibility_set-IsConsistent = ground (
    arith,
    set_visibility-IsConsistent w.state (subject_of c) (capability_of c)
        (field c.payload (text "level")) c.source (field c.payload (text "reason")) c.now v,
  )

  on_discover-IsConsistent : IsConsistent (on_discover c w).0.state
  unfolding on_discover
  on_discover-IsConsistent = ground (
    arith,
    record_request-IsConsistent w.state c.source (text "tool.registry.discover")
        (text "registry discover without grant") c.now v,
  )

  on_delegation_set-IsConsistent : IsConsistent (on_delegation_set c w).0.state
  unfolding on_delegation_set
  on_delegation_set-IsConsistent = ground arith

dispatch-IsConsistent :
    (k : Command) (c : Call) (w : World)
    → IsConsistent w.state
    → IsConsistent (dispatch k c w).0.state
unfolding dispatch on_request
dispatch-IsConsistent Command.grant c w v = on_grant-IsConsistent c w v
dispatch-IsConsistent Command.revoke c w v = on_revoke-IsConsistent c w v
dispatch-IsConsistent Command.visibility_set c w v = on_visibility_set-IsConsistent c w v
dispatch-IsConsistent Command.discover c w v = on_discover-IsConsistent c w v
dispatch-IsConsistent Command.delegation_set c w v = on_delegation_set-IsConsistent c w v
dispatch-IsConsistent Command.request c w v =
    record_request-IsConsistent w.state (subject_of c) (capability_of c)
      (field c.payload (text "context")) c.now v
dispatch-IsConsistent _ c w v = v

run-IsConsistent :
    (w : World) (calls : List (Text × Call))
    → IsConsistent w.state
    → IsConsistent (run w calls).state
unfolding run dispatch_command
run-IsConsistent w [] v = v
run-IsConsistent w ((command, c) ∷ rest) v =
    run-IsConsistent (dispatch (parse_command command) c w).0 rest
      (dispatch-IsConsistent (parse_command command) c w v)

-- From a policy that is consistent (at most one grant and one visibility rule for each pair of subject
-- and capability, and requests numbered in order), after any history of commands, from any sources and
-- with any payloads, each pair of subject and capability has at most one grant and at most one
-- visibility rule, and no two requests share an id.
pub run_keeps_Distinct :
    (w : World) (calls : List (Text × Call))
    → IsConsistent w.state
    → let s = (run w calls).state in
      Distinct same_pair s.grants × Distinct same_rule s.visibility × Distinct same_id s.requests
run_keeps_Distinct w calls v =
    let u = run-IsConsistent w calls v in
    (u.grants_distinct, u.rules_distinct, requests-Distinct 0 _ u.requests_numbered)
