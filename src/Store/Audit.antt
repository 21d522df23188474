-- ===== src/Store/Audit.antt =====
-- cmd/store/main.go: the audit entry of a change of state, and the root that its reply gets. The payload
-- of proposal.get is the stored proposal, so the root is written into that.
use aegis_claw.Base.{Bool, not, ◌&&◌, ◌||◌, [], ◌∷◌, none, some, if◌then◌else◌}
use aegis_claw.Base.Text.{Text, text, same, one_of, has_prefix}
use aegis_claw.Base.Json.{Json, str, obj, end, field, get, put}
use aegis_claw.Channel.Sequence.{object_of}
use aegis_claw.Store.World.{
  Request, Response, World, Payload, fresh, proposal_at, permission, rooted, append_item,
}
use aegis_claw.Store.Records.{compute_merkle_root, save_audit}

unfoldable pub is_permission_audit_read_command : Text → Bool
is_permission_audit_read_command command =
    one_of
      (text "permission.list"
        ∷ text "permission.snapshot"
        ∷ text "permission.panel"
        ∷ text "permission.check"
        ∷ text "permission.requests.list"
        ∷ text "visibility.list"
        ∷ text "visibility.get"
        ∷ text "ciso.delegation.get"
        ∷ text "tool.registry.discover"
        ∷ text "audit.list"
        ∷ [])
      command

-- The command gets an entry.
unfoldable pub is_audited : Text → Bool
unfolding is_permission_audit_read_command has_prefix same
is_audited command =
    not (is_permission_audit_read_command command)
    && (has_prefix command (text "proposal.")
        || (same command (text "court.review_complete")
            || (same command (text "pr.create")
                || (same command (text "skill.register")
                    || (same command (text "memory.store")
                        || (has_prefix command (text "permission.")
                            || has_prefix command (text "visibility.")))))))

abbrev pub audit_entry : Request → Json
audit_entry r = obj (
    field (text "ts") (str r.timestamp)
      (field (text "command") (str r.command) (field (text "source") (str r.source) end)))

abbrev beside : Text → Json → Text → Json
beside command v root =
    if not (same command (text "proposal.list")) && not (same command (text "proposal.get"))
    then obj (field (text "result") v (field (text "merkle_root") (str root) end))
    else v

-- The payload that the reply gets.
abbrev attach : Text → Text → Payload → Payload
attach command root (fresh (obj m)) = fresh (obj (put m (text "merkle_root") (str root)))
attach command root (fresh v) = fresh (beside command v root)
attach command root (proposal_at id) = proposal_at id
attach command root (permission body) = rooted body root
attach command root (rooted body old) = rooted body root

abbrev pub rooted_proposal : Text → Text → World → World
rooted_proposal id root w = elim (object_of (get w.proposals id)) [
  | some p ↦ record w {
    proposals = put w.proposals id (obj (put p (text "merkle_root") (str root)));
  }
  | none ↦ w
]

-- What the root changes in the world.
abbrev pub attached : Text → Payload → World → World
attached root (proposal_at id) w = rooted_proposal id root w
attached root (fresh v) w = w
attached root (permission body) w = w
attached root (rooted body old) w = w

unfoldable pub append_audit_for_state_change_if_needed :
    Request → World → Response → World × Response
unfolding is_audited compute_merkle_root
append_audit_for_state_change_if_needed r w response =
    let log = append_item w.audit_log (audit_entry r) in
    let root = compute_merkle_root r.env log in
    if not (is_audited r.command) then (w, response) else (
      save_audit log (attached root response.payload w),
      record response { payload = attach r.command root response.payload },
    )
