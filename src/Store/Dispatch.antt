-- ===== src/Store/Dispatch.antt =====
-- cmd/store/store_dispatch.go: dispatchStoreCommand, and a turn of the loop of runStore (main.go). The
-- commands of the chat sessions and of the LLM usage log, and store.security_stats, are answered by
-- `Env.outside`: their state is none of `World`.
use aegis_claw.Base.{ℕ, suc, not, ◌==◌, List, [], ◌∷◌, Option, none, some, if◌then◌else◌, length}
use aegis_claw.Base.Text.{Text, text}
use aegis_claw.Base.Json.{pos, Json, int, str, obj, Fields, end, field, put}
use aegis_claw.Store.Payload.{Opt, present, missing, must, must_payload, opt_object}
use aegis_claw.Store.World.{
  Request, Response, World, reply, error, untouched, okay, or_error, one, send,
}
use aegis_claw.Store.Git.{
  handle_git_clone_rpc, handle_git_create_rpc, handle_git_push_rpc, handle_skill_create_rpc,
}
use aegis_claw.Store.Merge.{handle_pr_merge_rpc, handle_pr_rollback_rpc}
use aegis_claw.Store.Proposals.{
  handle_proposal_create, on_proposal_get, on_proposal_list, on_proposal_update, on_build_complete,
  on_build_failed,
}
use aegis_claw.Store.Court.{on_review_complete, on_get_reviews, on_record_enforcement}
use aegis_claw.Store.Records.{
  on_pr_create, on_pr_update, on_pr_get, on_builder_destroy, on_skill_register, on_skill_get,
  on_skill_list, on_team_create, on_team_list, on_team_get, on_team_message, on_memory_store,
  on_memory_query, on_audit_append, on_audit_get_root, on_audit_list,
}
use aegis_claw.Store.Timers.{
  on_reconcile, on_timer_schedule, on_timer_cancel, on_timer_list, on_autonomy_grant, on_grant_list,
  on_grant_get, on_tick,
}
use aegis_claw.Store.Channels.{
  handle_channel_create, on_channel_list, on_channel_get, on_channel_post, on_channel_archive,
}
use aegis_claw.Store.Membership.{on_channel_join, on_add_member, on_remove_member}
use aegis_claw.Store.Turns.{on_member_turn_update, on_turn_state}
use aegis_claw.Store.Reads.{on_get_messages, on_get_relevant_since}
use aegis_claw.Store.Policy.{on_other}
use aegis_claw.Store.Commands.{Command, parse_command}
use aegis_claw.Store.Audit.{append_audit_for_state_change_if_needed}

abbrev with_secret : Text → Json → Fields → Fields
with_secret k (str s) m = put m k (str s)
with_secret k _ m = m

-- The entries that are strings.
unfoldable pub string_entries : Fields → Fields → Fields
string_entries end m = m
string_entries (field k v rest) m = string_entries rest (with_secret k v m)

unfoldable pub count_fields : Fields → ℕ
count_fields end = 0
count_fields (field k v m) = suc (count_fields m)

abbrev secrets_of : Opt Fields → Fields
secrets_of missing = end
secrets_of (present m) = string_entries m end

unfoldable pub on_secrets_push : Request → World → World × Response
unfolding string_entries count_fields
on_secrets_push r w = or_error w (must_payload r.command r.payload) (λ payload.
    or_error w (must r.command (opt_object payload (text "secrets"))) (λ given.
      let secrets = secrets_of given in
      if not (length r.env.sym_key == 32)
      then (
        w,
        error (text "AEGIS_SECRETS_SYMMETRIC_KEY missing or invalid (must be 32-byte base64)"),
      )
      else or_error w (r.env.build_blob secrets r.env.sym_key) (λ blob. (
        send (text "network-boundary") (text "secrets.update") blob r.env.now w,
        reply (text "secrets.pushed") (
            obj (
              field (text "status") (str (text "encrypted blob sent"))
                (field (text "skills") (int (pos (count_fields secrets))) end))),
      ))))

-- The cases that have a reply.
unfoldable pub answer : Command → Request → World → World × Response
answer Command.reconcile r w = on_reconcile r w
answer Command.timer_schedule r w = on_timer_schedule r w
answer Command.timer_cancel r w = on_timer_cancel r w
answer Command.timer_list r w = on_timer_list w
answer Command.autonomy_grant r w = on_autonomy_grant r w
answer Command.grant_list r w = on_grant_list w
answer Command.grant_get r w = on_grant_get r w
answer Command.proposal_create r w = handle_proposal_create r w
answer Command.proposal_get r w = on_proposal_get r w
answer Command.proposal_list r w = on_proposal_list w
answer Command.proposal_update r w = on_proposal_update r w
answer Command.review_complete r w = on_review_complete r w
answer Command.get_reviews r w = on_get_reviews r w
answer Command.record_enforcement r w = on_record_enforcement r w
answer Command.git_clone r w = (w, handle_git_clone_rpc r)
answer Command.git_create r w = (w, handle_git_create_rpc r)
answer Command.git_push r w = (w, handle_git_push_rpc r)
answer Command.skill_create r w = handle_skill_create_rpc r w
answer Command.pr_merge r w = handle_pr_merge_rpc r w
answer Command.pr_rollback r w = handle_pr_rollback_rpc r w
answer Command.builder_destroy r w = on_builder_destroy r w
answer Command.pr_create r w = on_pr_create r w
answer Command.pr_update r w = on_pr_update r w
answer Command.pr_get r w = on_pr_get r w
answer Command.secrets_push r w = on_secrets_push r w
answer Command.team_create r w = on_team_create r w
answer Command.team_list r w = on_team_list w
answer Command.team_get r w = on_team_get r w
answer Command.team_message r w = on_team_message r w
answer Command.channel_create r w = handle_channel_create r w
answer Command.channel_list r w = on_channel_list w
answer Command.channel_get r w = on_channel_get r w
answer Command.channel_join r w = on_channel_join r w
answer Command.channel_post r w = on_channel_post r w
answer Command.channel_archive r w = on_channel_archive r w
answer Command.add_member r w = on_add_member r w
answer Command.remove_member r w = on_remove_member r w
answer Command.member_turn_update r w = on_member_turn_update r w
answer Command.turn_state r w = on_turn_state r w
answer Command.get_messages r w = on_get_messages r w
answer Command.get_relevant_since r w = on_get_relevant_since r w
answer Command.skill_register r w = on_skill_register r w
answer Command.skill_get r w = on_skill_get r w
answer Command.build_complete r w = on_build_complete r w
answer Command.build_failed r w = on_build_failed r w
answer Command.skill_list r w = on_skill_list w
answer Command.memory_store r w = on_memory_store r w
answer Command.memory_query r w = on_memory_query w
answer Command.audit_append r w = on_audit_append r w
answer Command.audit_get_root r w = on_audit_get_root r w
answer Command.audit_list r w = on_audit_list w
answer Command.tool_list r w = (w, reply (text "tool.list") (obj w.skills))
answer Command.ping r w = (w, okay (text "pong"))
answer Command.version r w =
    (w, reply (text "version") (obj (one (text "version") (str r.env.version))))
answer Command.other r w = on_other r w
answer _ r w = (w, untouched)

-- No response is skipReply.
abbrev pub replying : World × Response → World × Option Response
replying (w, response) = (w, some response)

abbrev pub dispatch_command : Command → Request → World → World × Option Response
dispatch_command Command.frame r w = (w, none)
dispatch_command Command.elsewhere r w = (w, r.env.outside)
dispatch_command c r w = replying (answer c r w)

unfoldable pub dispatch_store_command : Request → World → World × Option Response
unfolding parse_command answer
dispatch_store_command r w = dispatch_command (parse_command r.command) r w

abbrev pub ticked : Request → World → World
ticked r w = if r.tick then on_tick r w else w

abbrev audited : World × Response → World × Option Response
audited (w, response) = (w, some response)

abbrev pub finish : Request → World × Option Response → World × Option Response
finish r (w, none) = (w, none)
finish r (w, some response) =
    audited (append_audit_for_state_change_if_needed r (ticked r w) response)

-- A turn of the loop: the world after a message, and the reply that is signed and encoded.
unfoldable pub step : Request → World → World × Option Response
unfolding dispatch_store_command
step r w = finish r (dispatch_store_command r w)

-- The world after a list of messages.
unfoldable pub run : World → List Request → World
unfolding step
run w [] = w
run w (r ∷ rs) = run (step r w).0 rs
