-- ===== src/Store/Court.antt =====
-- cmd/store/store_dispatch.go: court.review_complete, court.get_reviews, court.record_enforcement.
use aegis_claw.Base.{Bool, true, false, ◌++◌, Option, none, some, if◌then◌else◌}
use aegis_claw.Base.Text.{Text, text}
use aegis_claw.Base.Json.{Json, null, boolean, str, arr, obj, Items, Fields, end, field, get, put}
use aegis_claw.Channel.Sequence.{object_of, is_null}
use aegis_claw.Store.Payload.{
  Opt, present, missing, must, must_payload, must_string, must_opt_string, req_object, opt_array,
}
use aegis_claw.Store.World.{
  Request, Response, World, reply, error, untouched, okay, or_error, one, send,
}
use aegis_claw.Store.Merge.{court_decision_signed}
use aegis_claw.Store.Proposals.{keep_proposal}

-- a, ok := payload["approved"].(bool)
abbrev pub bool_at : Json → Option Bool
bool_at (boolean b) = some b
bool_at _ = none

-- The proposal with the votes, and with the decision if that is signed.
abbrev pub reviewed : Bool → Fields → Fields → Fields → Fields
reviewed signed payload votes p =
    let p1 = put p (text "reviews") (obj votes) in
    if signed then put p1 (text "court_decision") (obj payload) else p1

-- The state that the verdict gives it.
abbrev pub judged : Bool → Option Bool → Fields → Fields
judged signed none p = p
judged signed (some true) p = if signed then put p (text "state") (str (text "approved")) else p
judged signed (some false) p = put p (text "state") (str (text "rejected"))

abbrev request_build : Text → Request → Bool → Option Bool → World → World
request_build id r signed (some true) w =
    if signed
    then send (text "builder") (text "builder.build_proposal")
        (obj (one (text "proposal_id") (str id))) r.timestamp w
    else w
request_build id r signed _ w = w

unfoldable pub record_review : Text → Request → Fields → Fields → Fields → World → World
record_review id r payload votes p w =
    let signed = court_decision_signed r.env payload in
    let verdict = bool_at (get payload (text "approved")) in
    keep_proposal id (judged signed verdict (reviewed signed payload votes p))
      (request_build id r signed verdict w)

unfoldable pub on_review_complete : Request → World → World × Response
on_review_complete r w = or_error w (must_payload r.command r.payload) (λ payload.
    or_error w (must_string r.command payload (text "proposal_id")) (λ id.
      or_error w (must r.command (req_object payload (text "votes"))) (λ votes.
        elim (object_of (get w.proposals id)) [
          | some p ↦ (record_review id r payload votes p w, okay (text "court.review_recorded"))
          | none ↦ (w, untouched)
        ])))

unfoldable pub on_get_reviews : Request → World → World × Response
on_get_reviews r w = or_error w (must_payload r.command r.payload) (λ payload.
    or_error w (must_string r.command payload (text "id")) (λ id. (
      w,
      elim (object_of (get w.proposals id)) [
        | some p ↦ reply (text "court.reviews") (
            if is_null (get p (text "court_decision"))
            then get p (text "reviews")
            else get p (text "court_decision"))
        | none ↦ error (text "proposal not found")
      ],
    )))

-- The array, or the nil slice, which is encoded as null.
abbrev array_or_null : Opt Items → Json
array_or_null (present items) = arr items
array_or_null missing = null

abbrev enforcement_of : Text → Text → Json → Text → Text → Fields
enforcement_of proposal_id action scopes agent_id ts =
    field (text "proposal_id") (str proposal_id) (
      field (text "action") (str action) (
        field (text "revoked_scopes") scopes
          (field (text "agent_id") (str agent_id) (field (text "timestamp") (str ts) end))))

unfoldable pub on_record_enforcement : Request → World → World × Response
on_record_enforcement r w = or_error w (must_payload r.command r.payload) (λ payload.
    or_error w (must_opt_string r.command payload (text "proposal_id")) (λ proposal_id.
      or_error w (must_opt_string r.command payload (text "agent_id")) (λ agent_id.
        or_error w (must r.command (opt_array payload (text "revoked_scopes"))) (λ scopes.
          let action = r.env.sprint (get payload (text "action")) in
          let e = enforcement_of proposal_id action (array_or_null scopes) agent_id r.timestamp in
          (
            record w {
              revocations = put w.revocations (proposal_id ++ (text "-" ++ action)) (obj e);
            },
            reply (text "court.enforcement_recorded") (obj e),
          )))))
