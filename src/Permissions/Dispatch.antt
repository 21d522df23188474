-- ===== src/Permissions/Dispatch.antt =====
-- internal/permissions/dispatch.go: DispatchCommand, one handler for each case of its switch.
pub mod History
pub mod Guard
pub mod Record
use aegis_claw.Base.{
  Bool, ◌&&◌, ◌||◌, List, [], ◌∷◌, ◌++◌, none, some, if◌then◌else◌, keep, length, ltb,
}
use aegis_claw.Base.Text.{Text, text, same, is_empty, has_prefix}
use aegis_claw.Base.Json.{get, as_bool}
use aegis_claw.Permissions.Match.{subject_matches}
use aegis_claw.Permissions.Source.{is_ciso_source}
use aegis_claw.Permissions.Grants.{
  grant_capability, revoke_capability, set_visibility, record_request, list_grants_for_subject,
  list_requests_for_subject,
}
use aegis_claw.Permissions.Filter.{build_snapshot, has_grant}
use aegis_claw.Permissions.Capability.{known_capabilities, save_state}
use aegis_claw.Permissions.World.{
  World, Call, Body, Answer, reply, refused, broken, unhandled, may_not_mutate, field, subject_of,
  capability_of, commit, pair_detail, append_permission_audit,
}

abbrev error : Text → Answer
error m = reply (text "error") (Body.message m)

unfoldable pub on_grant : Call → World → World × Answer
unfolding append_permission_audit save_state
on_grant c w =
    if is_empty (subject_of c) || is_empty (capability_of c)
    then (w, error (text "subject and capability required"))
    else if may_not_mutate w.state c.source
    then (w, refused (text "ERR_PERMISSION_DENIED: microVMs cannot grant permissions"))
    else let (s, failure) =
        grant_capability w.state (subject_of c) (capability_of c) c.source
          (field c.payload (text "reason")) c.now in
      elim failure [
        | some e ↦ (record w { state = s }, error e)
        | none ↦ (
          commit c w s (text "permission.grant") (pair_detail c),
          reply (text "permission.granted")
              (Body.granted (subject_of c) (capability_of c) s.version),
        )
      ]

unfoldable pub on_revoke : Call → World → World × Answer
unfolding append_permission_audit save_state
on_revoke c w =
    if may_not_mutate w.state c.source
    then (w, refused (text "ERR_PERMISSION_DENIED: microVMs cannot revoke permissions"))
    else let (s, found) = revoke_capability w.state (subject_of c) (capability_of c) in
      (
        if found
            then commit c w s (text "permission.revoke") (pair_detail c)
            else record w { state = s },
        reply (text "permission.revoked") (Body.revoked found (subject_of c) (capability_of c)),
      )

abbrev on_list : Call → World → World × Answer
on_list c w = (
  w,
  reply (text "permission.list") (
      Body.grant_list (
        if is_empty (subject_of c)
        then w.state.grants
        else list_grants_for_subject w.state (subject_of c))),
)

abbrev on_check : Call → World → World × Answer
on_check c w = (
  w,
  reply (text "permission.check") (
      Body.check (has_grant (some w.state) (subject_of c) (capability_of c)) (subject_of c)
        (capability_of c)),
)

-- The subject of a snapshot or a panel defaults to the source.
abbrev subject_or_source : Call → Text
subject_or_source c = if is_empty (subject_of c) then c.source else subject_of c

abbrev on_snapshot : Call → World → World × Answer
on_snapshot c w = (
  w,
  reply (text "permission.snapshot")
      (Body.snapshot (build_snapshot w.state (subject_or_source c) known_capabilities c.now)),
)

abbrev on_panel : Call → World → World × Answer
on_panel c w =
    let subject = subject_or_source c in
    (
      w,
      reply (text "permission.panel") (
          Body.panel subject (list_grants_for_subject w.state subject)
            (list_requests_for_subject w.state subject)
            (keep (λ r. subject_matches subject r.subject) w.state.visibility)
            (build_snapshot w.state subject known_capabilities c.now)),
    )

unfoldable pub on_request : Call → World → World × Answer
unfolding append_permission_audit save_state
on_request c w =
    let (s, req) =
      record_request w.state (subject_of c) (capability_of c) (field c.payload (text "context"))
        c.now in
    (
      commit c w s (text "permission.request") (pair_detail c),
      reply (text "permission.request") (Body.request req),
    )

abbrev on_requests_list : Call → World → World × Answer
on_requests_list c w = (
  w,
  reply (text "permission.requests.list") (
      Body.request_list (
        if is_empty (subject_of c)
        then w.state.requests
        else list_requests_for_subject w.state (subject_of c))),
)

unfoldable pub on_visibility_set : Call → World → World × Answer
unfolding append_permission_audit save_state
on_visibility_set c w =
    let level = field c.payload (text "level") in
    if may_not_mutate w.state c.source
    then (w, refused (text "ERR_PERMISSION_DENIED: microVMs cannot set visibility"))
    else let s =
        set_visibility w.state (subject_of c) (capability_of c) level c.source
          (field c.payload (text "reason")) c.now in
      (
        commit c w s (text "visibility.set") (pair_detail c ++ (text "=" ++ level)),
        reply (text "visibility.set") (Body.level_set (subject_of c) (capability_of c) level),
      )

abbrev on_visibility_list : Call → World → World × Answer
on_visibility_list c w = (
  w,
  reply (text "visibility.list") (
      Body.rule_list (
        keep (λ r. is_empty (subject_of c) || subject_matches (subject_of c) r.subject)
          w.state.visibility)),
)

unfoldable pub on_discover : Call → World → World × Answer
unfolding save_state
on_discover c w =
    if has_grant (some w.state) c.source (text "tool.registry.discover")
    then (
      w,
      reply (text "tool.registry.discover") (
          Body.discover c.source
            (build_snapshot w.state c.source known_capabilities c.now).can_discover),
    )
    else let (s, req) =
        record_request w.state c.source (text "tool.registry.discover")
          (text "registry discover without grant") c.now in
      (
        record w { state = s; disk = save_state c.writable s w.disk },
        reply (text "error") (Body.discover_denied req.id),
      )

unfoldable pub on_delegation_set : Call → World → World × Answer
unfolding append_permission_audit save_state
on_delegation_set c w =
    if is_ciso_source c.source
    then (w, refused (text "ERR_PERMISSION_DENIED: ciso sources cannot set the delegation flag"))
    else let enabled = as_bool (get c.payload (text "enabled")) in
      let s = record (w.state) { ciso_delegation_enabled = enabled } in
      (
        commit c w s (text "ciso.delegation.set")
            (text "enabled=" ++ (if enabled then text "true" else text "false")),
        reply (text "ciso.delegation.set") (Body.delegation enabled),
      )

abbrev on_audit_list : World → World × Answer
on_audit_list w =
    (w, reply (text "audit.list") (Body.audit_list (elim w.audit [ none ↦ [] | some log ↦ log ])))

-- The strings of the switch. `other true` is an unknown command of the permission families.
pub data Command : Type 0 where
  grant revoke list check snapshot panel request requests_list : Command
  visibility_set visibility_list discover delegation_get delegation_set audit_list : Command
  other : Bool → Command

unfoldable pub parse_command : Text → Command
parse_command t =
    if same t (text "permission.grant")
    then grant
    else if same t (text "permission.revoke")
    then revoke
    else if same t (text "permission.list")
    then list
    else if same t (text "permission.check")
    then check
    else if same t (text "permission.snapshot")
    then snapshot
    else if same t (text "permission.panel")
    then panel
    else if same t (text "permission.request")
    then request
    else if same t (text "permission.requests.list")
    then requests_list
    else if same t (text "visibility.set")
    then visibility_set
    else if same t (text "visibility.list")
    then visibility_list
    else if same t (text "tool.registry.discover")
    then discover
    else if same t (text "ciso.delegation.get")
    then delegation_get
    else if same t (text "ciso.delegation.set")
    then delegation_set
    else if same t (text "audit.list")
    then audit_list
    else other (
        ltb 11 (length t)
        && (has_prefix t (text "permission.")
            || (has_prefix t (text "visibility.") || has_prefix t (text "ciso."))))

unfoldable pub dispatch : Command → Call → World → World × Answer
dispatch grant c w = on_grant c w
dispatch revoke c w = on_revoke c w
dispatch list c w = on_list c w
dispatch check c w = on_check c w
dispatch snapshot c w = on_snapshot c w
dispatch panel c w = on_panel c w
dispatch request c w = on_request c w
dispatch requests_list c w = on_requests_list c w
dispatch visibility_set c w = on_visibility_set c w
dispatch visibility_list c w = on_visibility_list c w
dispatch discover c w = on_discover c w
dispatch delegation_get c w =
    (w, reply (text "ciso.delegation.get") (Body.delegation w.state.ciso_delegation_enabled))
dispatch delegation_set c w = on_delegation_set c w
dispatch audit_list c w = on_audit_list w
dispatch (other unknown) c w =
    (w, if unknown then error (text "unknown permission command") else unhandled)

-- DispatchCommand on a state that is not nil.
unfoldable pub dispatch_command : Text → Call → World → World × Answer
dispatch_command command c w = dispatch (parse_command command) c w

-- A history of commands, each with its call.
unfoldable pub run : World → List (Text × Call) → World
run w [] = w
run w ((command, c) ∷ rest) = run (dispatch_command command c w).0 rest

-- DispatchCommand on the nil state.
abbrev pub dispatch_nil : Answer
dispatch_nil = broken (text "ERR_PERMISSION_DENIED: nil permission state")
