-- ===== src/Store/Policy.antt =====
-- cmd/store/permissions.go: the commands of the permission dispatcher and the last check, on the Store's
-- policy and audit log.
use aegis_claw.Base.{
  Bool, not, ◌&&◌, ◌||◌, List, [], ◌∷◌, ◌++◌, Option, none, some, if◌then◌else◌, any, drop, ◌==◌,
}
use aegis_claw.Base.Text.{Text, text, same, one_of}
use aegis_claw.Base.Json.{Json, str, arr, obj, Items, nil, cons, Fields, end, field, get}
use aegis_claw.Channel.Sequence.{is_null}
use aegis_claw.Permissions.Types.{Snapshot}
use aegis_claw.Permissions.Grants.{record_request}
use aegis_claw.Permissions.Filter.{build_snapshot, has_grant}
use aegis_claw.Permissions.Capability.{known_capabilities, save_state, is_capability_command}
use aegis_claw.Permissions
use aegis_claw.Permissions.World.{Call, AuditEntry, Answer}
use aegis_claw.Permissions.Dispatch.{dispatch_command}
use aegis_claw.Store.Payload.{payload_map}
use aegis_claw.Store.World.{Request, Response, World, permission, reply, error, append_item}

-- The keys of a map that are not among the texts.
unfoldable pub new_keys : List Text → Fields → List Text
new_keys seen end = []
new_keys seen (field k v m) = let rest = new_keys seen m in if one_of seen k then rest else k ∷ rest

unfoldable pub all_capabilities : Fields → List Text
unfolding known_capabilities
all_capabilities skills = known_capabilities ++ new_keys known_capabilities skills

-- An entry of appendPermissionAudit, as the map that it is.
unfoldable pub audit_map : AuditEntry → Json
audit_map e = obj (
    field (text "ts") (str e.ts) (
      field (text "command") (str e.command) (
        field (text "source") (str e.source)
          (field (text "detail") (str e.detail) (field (text "domain") (str e.domain) end)))))

unfoldable pub append_entries : Items → List AuditEntry → Items
append_entries log [] = log
append_entries log (e ∷ es) = append_entries (append_item log (audit_map e)) es

abbrev pub entries : Option (List AuditEntry) → List AuditEntry
entries none = []
entries (some es) = es

-- The part of the world that the dispatcher works on, with the entries that it adds.
abbrev pub policy_of : World → Permissions.World.World
policy_of w = record { state = w.permissions; audit = some []; disk = w.permissions_file }

abbrev pub with_policy : World → Permissions.World.World → World
with_policy w p = record w {
  permissions = p.state;
  permissions_file = p.disk;
  audit_log = append_entries w.audit_log (entries p.audit);
}

abbrev pub call_of : Request → Call
call_of r = record {
  source = r.source;
  payload = payload_map r.payload;
  ts = r.timestamp;
  now = r.env.now;
  writable = r.env.writable;
}

abbrev pub is_shown : Snapshot → Text → Bool
is_shown snap id = one_of snap.visible_tools id || one_of snap.allowed_tools id

unfoldable pub shown_skills : Snapshot → Fields → Items
shown_skills snap end = nil
shown_skills snap (field id skill m) =
    let rest = shown_skills snap m in if is_shown snap id then cons skill rest else rest

abbrev pub capability_tool : Text → Json
capability_tool cap =
    obj (field (text "name") (str cap) (field (text "description") (str (text "capability")) end))

unfoldable pub with_capabilities : Snapshot → Fields → List Text → Items → Items
with_capabilities snap skills [] tools = tools
with_capabilities snap skills (cap ∷ caps) tools = with_capabilities snap skills caps (
    if is_shown snap cap && is_null (get skills cap)
    then append_item tools (capability_tool cap)
    else tools)

unfoldable pub discovered : Request → World → Response
unfolding all_capabilities build_snapshot shown_skills with_capabilities
discovered r w =
    let caps = all_capabilities w.skills in
    let snap = build_snapshot w.permissions r.source caps r.env.now in
    reply (text "tool.registry.discover") (
      obj (
        field (text "tools")
          (arr (with_capabilities snap w.skills caps (shown_skills snap w.skills)))
          (field (text "subject") (str r.source) end)))

-- (true, command, payload), or not handled.
abbrev pub answered : Request → World → Answer → Option Response
answered r w Answer.unhandled = none
answered r w (Answer.refused e) = some (error e)
answered r w (Answer.broken e) = some (error e)
answered r w (Answer.reply command body) = some (
    if same r.command (text "tool.registry.discover")
    then discovered r w
    else record { command = command; payload = permission body })

unfoldable pub handle_permission_command : Request → World → World × Option Response
unfolding discovered append_entries
handle_permission_command r w =
    let (p, answer) = dispatch_command r.command (call_of r) (policy_of w) in
    let w' = with_policy w p in (w', answered r w' answer)

-- strings.LastIndex(subjectID, "-") + 1 bytes, 0 where there is no dash.
unfoldable pub upto_last_dash : Text → Text
upto_last_dash [] = []
upto_last_dash (c ∷ s) =
    let rest = upto_last_dash s in
    if any (λ d. d == b'-') s then c ∷ rest else if c == b'-' then c ∷ [] else []

-- The dash at index 0 does not count.
unfoldable pub persona_pattern : Text → Text
unfolding upto_last_dash
persona_pattern id = if any (λ c. c == b'-') (drop 1 id) then upto_last_dash id ++ text "*" else id

-- The error message, if the command is denied.
unfoldable pub permission_check_at_store : Request → World → World × Option Text
permission_check_at_store r w =
    let (s, req) =
      record_request w.permissions r.source r.command (text "denied at store enforcement")
        r.env.now in
    if not (is_capability_command r.command)
    then (w, none)
    else if has_grant (some w.permissions) r.source r.command
    then (w, none)
    else if has_grant (some w.permissions) (persona_pattern r.source) r.command
    then (w, none)
    else (
      record w {
        permissions = s;
        permissions_file = save_state r.env.writable s w.permissions_file;
      },
      some (text "ERR_PERMISSION_DENIED"),
    )

abbrev checked : World × Option Text → World × Response
checked (w, some e) = (w, error e)
checked (w, none) = (w, error (text "unknown command"))

abbrev pub fallen : Request → World × Option Response → World × Response
fallen r (w, some response) = (w, response)
fallen r (w, none) = checked (permission_check_at_store r w)

-- The default case of dispatchStoreCommand.
unfoldable pub on_other : Request → World → World × Response
unfolding handle_permission_command permission_check_at_store
on_other r w = fallen r (handle_permission_command r w)
