-- ===== src/Store/Refusal.antt =====
-- cmd/store: payloads that are no object.
use aegis_claw.Base.{Bool, true, false}
use aegis_claw.Base.Text.{Text}
use aegis_claw.Base.Json.{Json, int, obj}
use aegis_claw.Store.Payload.{must_payload}
use aegis_claw.Store.World.{World}
use aegis_claw.Store.Proposals.{on_proposal_update, on_build_complete, on_build_failed}
use aegis_claw.Store.Court.{on_review_complete}
use aegis_claw.Store.Commands.{Command}
use aegis_claw.Base.Json.{int}
use aegis_claw.Store.Payload.{must_payload}
use aegis_claw.Store.Proposals.{on_proposal_update, on_build_complete, on_build_failed}
use aegis_claw.Store.Court.{on_review_complete}

abbrev pub is_object : Json → Bool
is_object (obj m) = true
is_object _ = false

-- The commands whose case begins with mustPayload, alone or for its first field. The others take any
-- payload, or read what they can of it: pr.rollback, builder.destroy and proposal.create are among them.
abbrev pub begins_with_payload : Command → Bool
begins_with_payload Command.timer_schedule = true
begins_with_payload Command.timer_cancel = true
begins_with_payload Command.autonomy_grant = true
begins_with_payload Command.grant_get = true
begins_with_payload Command.proposal_update = true
begins_with_payload Command.review_complete = true
begins_with_payload Command.get_reviews = true
begins_with_payload Command.record_enforcement = true
begins_with_payload Command.pr_create = true
begins_with_payload Command.pr_update = true
begins_with_payload Command.pr_get = true
begins_with_payload Command.secrets_push = true
begins_with_payload Command.team_create = true
begins_with_payload Command.team_get = true
begins_with_payload Command.team_message = true
begins_with_payload Command.channel_get = true
begins_with_payload Command.channel_join = true
begins_with_payload Command.channel_post = true
begins_with_payload Command.channel_archive = true
begins_with_payload Command.add_member = true
begins_with_payload Command.remove_member = true
begins_with_payload Command.member_turn_update = true
begins_with_payload Command.turn_state = true
begins_with_payload Command.get_messages = true
begins_with_payload Command.get_relevant_since = true
begins_with_payload Command.skill_register = true
begins_with_payload Command.skill_get = true
begins_with_payload Command.build_complete = true
begins_with_payload Command.build_failed = true
begins_with_payload Command.memory_store = true
begins_with_payload _ = false
