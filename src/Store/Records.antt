-- ===== src/Store/Records.antt =====
-- cmd/store/store_dispatch.go: the cases on pull requests, skills, teams, memories and the audit log, and
-- builder.destroy of git_rpc.go.
use aegis_claw.Base.{[], ◌∷◌, none, some, if◌then◌else◌}
use aegis_claw.Base.Text.{Text, text, is_empty}
use aegis_claw.Base.Json.{
  Json, str, arr, obj, Items, nil, cons, Fields, end, field, get, put, has_key,
}
use aegis_claw.Channel.Sequence.{object_of}
use aegis_claw.Store.Payload.{must_payload, must_string, payload_map, payload_string}
use aegis_claw.Store.World.{
  Env, Request, Response, World, reply, error, okay, or_error, one, send, save_to_file, written,
  values_of, merge_fields, append_item,
}
use aegis_claw.Store.Proposals.{keep_skill}

abbrev keep_pr : Text → Fields → World → World
keep_pr id pr w =
    let prs = put w.prs id (obj pr) in save_to_file (text "prs.json") prs (record w { prs = prs })

-- The payload and its string under a key, or the error reply.
abbrev pub with_string :
    Request → Text → World → (Fields → Text → World × Response) → World × Response
with_string r key w f =
    or_error w (must_payload r.command r.payload)
      (λ payload. or_error w (must_string r.command payload key) (λ s. f payload s))

unfoldable pub on_pr_create : Request → World → World × Response
on_pr_create r w =
    with_string r (text "id") w (λ payload id. (keep_pr id payload w, okay (text "pr.created")))

unfoldable pub on_pr_update : Request → World → World × Response
on_pr_update r w = with_string r (text "id") w (λ payload id. elim (object_of (get w.prs id)) [
  | some p ↦ (keep_pr id (merge_fields payload p) w, okay (text "pr.updated"))
  | none ↦ (w, error (text "pr not found"))
])

unfoldable pub on_pr_get : Request → World → World × Response
on_pr_get r w =
    with_string r (text "id") w (λ payload id. (w, reply (text "pr.data") (get w.prs id)))

unfoldable pub builder_stop_id : Json → Text
builder_stop_id raw =
    let id = payload_string (payload_map raw) (text "id" ∷ text "builder_id" ∷ text "vm_id" ∷ []) in
    if is_empty id then text "builder" else id

-- wipeBuilderLeftovers removes files of the working directory that are not in `World`.
unfoldable pub on_builder_destroy : Request → World → World × Response
on_builder_destroy r w =
    let id = str (builder_stop_id r.payload) in
    (
      send (text "daemon-orchestrator") (text "orchestrator.stop_vm")
          (obj (field (text "id") id (field (text "builder_id") id end))) r.timestamp w,
      okay (text "builder.destroyed"),
    )

unfoldable pub on_skill_register : Request → World → World × Response
on_skill_register r w =
    with_string r (text "id") w
      (λ payload id. (keep_skill id payload w, okay (text "skill.registered")))

unfoldable pub on_skill_get : Request → World → World × Response
on_skill_get r w =
    with_string r (text "id") w (λ payload id. (w, reply (text "skill.data") (get w.skills id)))

unfoldable pub on_skill_list : World → World × Response
on_skill_list w = (w, reply (text "skill.list") (arr (values_of w.skills)))

abbrev keep_team : Text → Fields → World → World
keep_team id team w =
    let teams = put w.teams id (obj team) in
    save_to_file (text "teams.json") teams (record w { teams = teams })

-- m[key] = v where the key is missing
abbrev pub put_missing : Text → Json → Fields → Fields
put_missing key v m = if has_key m key then m else put m key v

unfoldable pub on_team_create : Request → World → World × Response
on_team_create r w = with_string r (text "id") w (λ payload id.
    let dated = put_missing (text "created_at") (str r.timestamp) payload in
    let peopled = put dated (text "members") (get dated (text "members")) in
    (
      keep_team id (put peopled (text "messages") (arr nil)) w,
      reply (text "team.created") (obj (one (text "id") (str id))),
    ))

unfoldable pub on_team_list : World → World × Response
on_team_list w = (w, reply (text "team.list") (arr (values_of w.teams)))

unfoldable pub on_team_get : Request → World → World × Response
on_team_get r w =
    with_string r (text "id") w (λ payload id. (w, reply (text "team.data") (get w.teams id)))

abbrev team_entry : Request → Fields → Json
team_entry r payload = obj (
    field (text "ts") (str r.timestamp) (
      field (text "from") (get payload (text "from")) (
        field (text "to") (get payload (text "to"))
          (field (text "content") (get payload (text "content")) end))))

abbrev with_entry : Json → Fields → Json → Fields
with_entry entry t (arr msgs) = put t (text "messages") (arr (append_item msgs entry))
with_entry entry t _ = t

unfoldable pub on_team_message : Request → World → World × Response
on_team_message r w = with_string r (text "team_id") w (λ payload id. (
  elim (object_of (get w.teams id)) [
    | some t ↦ keep_team id (with_entry (team_entry r payload) t (get t (text "messages"))) w
    | none ↦ w
  ],
  okay (text "team.message.sent"),
))

unfoldable pub on_memory_store : Request → World → World × Response
on_memory_store r w = with_string r (text "content") w (λ payload content.
    let memories = put w.memories content (obj payload) in
    (
      save_to_file (text "memories.json") memories (record w { memories = memories }),
      okay (text "memory.stored"),
    ))

unfoldable pub on_memory_query : World → World × Response
on_memory_query w = (w, reply (text "memory.results") (arr nil))

unfoldable pub compute_merkle_root : Env → Items → Text
compute_merkle_root env nil = []
compute_merkle_root env (cons x xs) = env.hash (cons x xs)

-- saveAuditToFile("audit.json", auditLog)
abbrev pub save_audit : Items → World → World
save_audit log w = record w {
  audit_log = log;
  saved = written w (text "audit.json") (arr log) w.saved;
}

unfoldable pub on_audit_append : Request → World → World × Response
on_audit_append r w =
    (save_audit (append_item w.audit_log r.payload) w, okay (text "audit.appended"))

unfoldable pub on_audit_get_root : Request → World → World × Response
unfolding compute_merkle_root
on_audit_get_root r w = (w, reply (text "audit.root") (str (compute_merkle_root r.env w.audit_log)))

unfoldable pub on_audit_list : World → World × Response
on_audit_list w = (w, reply (text "audit.list") (arr w.audit_log))
