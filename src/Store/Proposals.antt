-- ===== src/Store/Proposals.antt =====
-- cmd/store: proposal.create with its gate (main.go), and the proposal and build cases of
-- dispatchStoreCommand (store_dispatch.go).
use aegis_claw.Base.{Bool, false, ◌||◌, List, [], ◌∷◌, ◌++◌, Option, none, some, if◌then◌else◌, any}
use aegis_claw.Base.Text.{Text, text, same, is_empty, one_of, has_prefix, contains}
use aegis_claw.Base.Json.{Json, str, arr, obj, Items, nil, cons, Fields, end, field, get, put}
use aegis_claw.Channel.Sequence.{object_of}
use aegis_claw.Store.Payload.{must, must_payload, must_string, opt_string}
use aegis_claw.Store.World.{
  Request, Response, World, proposal_at, reply, error, okay, or_error, one, send, save_to_file,
  values_of, merge_fields,
}

abbrev privileged : Text → Bool
privileged source =
    same source (text "daemon-internal")
    || (has_prefix source (text "aegis-cli-internal")
        || (same source (text "client")
            || (same source (text "store")
                || (same source (text "web-portal")
                    || (has_prefix source (text "web-portal")
                        || (has_prefix source (text "daemon-orchestrator")
                            || has_prefix source (text "aegis-daemon")))))))

abbrev proposing_scopes : List Text
proposing_scopes = text "proposal.create" ∷ text "skills.propose" ∷ text "*" ∷ text "proposals" ∷ []

abbrev is_proposing : Json → Bool
is_proposing (str s) = one_of proposing_scopes s
is_proposing _ = false

unfoldable pub any_item : (Json → Bool) → Items → Bool
any_item p nil = false
any_item p (cons x xs) = p x || any_item p xs

abbrev scopes_allow : Json → Bool
scopes_allow (arr scopes) = any_item is_proposing scopes
scopes_allow _ = false

abbrev allowed_allows : Json → Bool
allowed_allows (str s) = contains s (text "proposal") || contains s (text "*")
allowed_allows _ = false

abbrev grant_allows : Option Fields → Bool
grant_allows none = false
grant_allows (some g) =
    scopes_allow (get g (text "scopes")) || allowed_allows (get g (text "allowed"))

-- canCreateProposal on the grants of grants.json: the error, if there is one.
unfoldable pub can_create_proposal : Fields → Text → Option Text
can_create_proposal grants source =
    if is_empty source
    then some (text "ERR_PERMISSION_DENIED: empty source")
    else if privileged source
    then none
    else if any (λ key. grant_allows (object_of (get grants key)))
        (source ∷ text "proposal" ∷ text "skills.propose" ∷ text "proposals" ∷ text "*" ∷ [])
    then none
    else some (
        text "ERR_PERMISSION_DENIED: source "
        ++ (source ++ text " lacks grant for proposal.create (microVMs/agents cannot self-grant)"))

-- loadGrants, loadBackgroundWork, loadTimers: a file that is missing or has no map reads as empty.
abbrev pub file_map : Json → Fields
file_map (obj m) = m
file_map _ = end

abbrev pub load_grants : World → Fields
load_grants w = file_map (get w.files (text "grants.json"))

abbrev save_proposals : Fields → World → World
save_proposals ps w = save_to_file (text "proposals.json") ps (record w { proposals = ps })

-- The new entry of a proposal, saved.
abbrev pub keep_proposal : Text → Fields → World → World
keep_proposal id p w = save_proposals (put w.proposals id (obj p)) w

abbrev pub pending : Fields → Fields
pending payload = put (put payload (text "state") (str (text "pending"))) (text "reviews") (obj end)

unfoldable pub perform_proposal_create : Text → Fields → Text → World → World × Json
perform_proposal_create id payload ts w = (
  send (text "court-scribe") (text "scribe.notify_review") (obj (one (text "proposal_id") (str id)))
      ts (keep_proposal id (pending payload) w),
  obj (one (text "proposal_id") (str id)),
)

abbrev bad_create_payload : Text
bad_create_payload = text "ERR_BAD_PAYLOAD: proposal.create expects object payload with id"

abbrev pub create_with_id : Request → Fields → Json → World → World × Response
create_with_id r payload (str id) w =
    if is_empty id
    then (w, error (text "ERR_BAD_PAYLOAD: proposal.create requires non-empty string id"))
    else let (w', body) = perform_proposal_create id payload r.timestamp w in
      (w', reply (text "proposal.created") body)
create_with_id r payload _ w =
    (w, error (text "ERR_BAD_PAYLOAD: proposal.create requires non-empty string id"))

abbrev pub create_from : Request → Json → World → World × Response
create_from r (obj payload) w = elim (can_create_proposal (load_grants w) r.source) [
  | some e ↦ (w, error e)
  | none ↦ create_with_id r payload (get payload (text "id")) w
]
create_from r _ w = (w, error bad_create_payload)

unfoldable pub handle_proposal_create : Request → World → World × Response
handle_proposal_create r w = create_from r r.payload w

abbrev pub get_from : Request → Json → World → World × Response
get_from r (obj payload) w = or_error w (must r.command (opt_string payload (text "id"))) (λ id. (
  w,
  if is_empty id
      then error (text "ERR_BAD_PAYLOAD: proposal.get requires non-empty id")
      else record { command = text "proposal.data"; payload = proposal_at id },
))
get_from r _ w = (w, error (text "ERR_BAD_PAYLOAD"))

unfoldable pub on_proposal_get : Request → World → World × Response
on_proposal_get r w = get_from r r.payload w

unfoldable pub on_proposal_list : World → World × Response
on_proposal_list w = (w, reply (text "proposal.list") (arr (values_of w.proposals)))

abbrev not_found : Response
not_found = error (text "proposal not found")

unfoldable pub on_proposal_update : Request → World → World × Response
on_proposal_update r w = or_error w (must_payload r.command r.payload) (λ payload.
    or_error w (must_string r.command payload (text "id")) (λ id.
      elim (object_of (get w.proposals id)) [
        | some p ↦ (keep_proposal id (merge_fields payload p) w, okay (text "proposal.updated"))
        | none ↦ (w, not_found)
      ]))

abbrev pub built : Fields → Fields
built p =
    put (put p (text "state") (str (text "built"))) (text "build_status") (str (text "success"))

abbrev pub built_skill : Text → Fields → Fields
built_skill id p = field (text "id") (str id) (
    field (text "name") (str (text "Skill from " ++ id))
      (field (text "description") (get p (text "description")) end))

abbrev pub keep_skill : Text → Fields → World → World
keep_skill id skill w =
    let skills = put w.skills id (obj skill) in
    save_to_file (text "skills.json") skills (record w { skills = skills })

unfoldable pub on_build_complete : Request → World → World × Response
on_build_complete r w = or_error w (must_payload r.command r.payload) (λ payload.
    or_error w (must_string r.command payload (text "proposal_id")) (λ id. (
      elim (object_of (get w.proposals id)) [
        | some p ↦ keep_skill id (built_skill id p) (keep_proposal id (built p) w)
        | none ↦ w
      ],
      okay (text "build.recorded"),
    )))

abbrev pub build_failed : Json → Fields → Fields
build_failed report p =
    put (put p (text "state") (str (text "build_failed"))) (text "build_report") report

unfoldable pub on_build_failed : Request → World → World × Response
on_build_failed r w = or_error w (must_payload r.command r.payload) (λ payload.
    or_error w (must_string r.command payload (text "proposal_id")) (λ id. (
      elim (object_of (get w.proposals id)) [
        | some p ↦ keep_proposal id (build_failed (get payload (text "report")) p) w
        | none ↦ w
      ],
      okay (text "build.recorded"),
    )))
