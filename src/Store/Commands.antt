-- ===== src/Store/Commands.antt =====
-- cmd/store/store_dispatch.go: the strings of the switch of dispatchStoreCommand.
use aegis_claw.Base.{List, [], ◌∷◌, if◌then◌else◌}
use aegis_claw.Base.Text.{Text, text, same}

-- The cases of the switch. `frame` is a correlation frame or an empty command.
pub data Command : Type 0 where
  frame reconcile timer_schedule timer_cancel timer_list autonomy_grant : Command
  grant_list grant_get proposal_create proposal_get proposal_list : Command
  proposal_update review_complete get_reviews record_enforcement : Command
  git_clone git_create git_push skill_create pr_merge pr_rollback : Command
  builder_destroy pr_create pr_update pr_get secrets_push team_create : Command
  team_list team_get team_message channel_create channel_list channel_get : Command
  channel_join channel_post channel_archive add_member remove_member : Command
  member_turn_update turn_state get_messages get_relevant_since : Command
  skill_register skill_get build_complete build_failed skill_list : Command
  memory_store memory_query audit_append audit_get_root audit_list : Command
  tool_list ping version elsewhere other : Command

abbrev commands : List (Text × Command)
commands =
    (text "response", frame)
    ∷ (text "ack", frame)
    ∷ (text "error", frame)
    ∷ ([], frame)
    ∷ (text "reconcile.expired_grants", reconcile)
    ∷ (text "timer.schedule", timer_schedule)
    ∷ (text "timer.cancel", timer_cancel)
    ∷ (text "timer.list", timer_list)
    ∷ (text "autonomy.grant", autonomy_grant)
    ∷ (text "grant.list", grant_list)
    ∷ (text "grant.get", grant_get)
    ∷ (text "proposal.create", proposal_create)
    ∷ (text "proposal.get", proposal_get)
    ∷ (text "proposal.list", proposal_list)
    ∷ (text "proposal.update", proposal_update)
    ∷ (text "court.review_complete", review_complete)
    ∷ (text "court.get_reviews", get_reviews)
    ∷ (text "court.record_enforcement", record_enforcement)
    ∷ (text "git.clone", git_clone)
    ∷ (text "git.create", git_create)
    ∷ (text "git.push", git_push)
    ∷ (text "skill.create", skill_create)
    ∷ (text "pr.merge", pr_merge)
    ∷ (text "pr.rollback", pr_rollback)
    ∷ (text "builder.destroy", builder_destroy)
    ∷ (text "builder.destroyed", builder_destroy)
    ∷ (text "destroy.builder", builder_destroy)
    ∷ (text "builder.wipe", builder_destroy)
    ∷ (text "vm.destroy", builder_destroy)
    ∷ (text "sandbox.destroy", builder_destroy)
    ∷ (text "pr.create", pr_create)
    ∷ (text "pr.update", pr_update)
    ∷ (text "pr.get", pr_get)
    ∷ (text "secrets.push", secrets_push)
    ∷ (text "team.create", team_create)
    ∷ (text "team.list", team_list)
    ∷ (text "team.get", team_get)
    ∷ (text "team.message", team_message)
    ∷ (text "channel.create", channel_create)
    ∷ (text "channel.list", channel_list)
    ∷ (text "channel.get", channel_get)
    ∷ (text "channel.join", channel_join)
    ∷ (text "channel.post", channel_post)
    ∷ (text "channel.archive", channel_archive)
    ∷ (text "channel.add_member", add_member)
    ∷ (text "channel.remove_member", remove_member)
    ∷ (text "channel.member_turn_update", member_turn_update)
    ∷ (text "channel.turn_state", turn_state)
    ∷ (text "channel.get_messages", get_messages)
    ∷ (text "channel.get_relevant_since", get_relevant_since)
    ∷ (text "sessions.list", elsewhere)
    ∷ (text "sessions.create", elsewhere)
    ∷ (text "sessions.history", elsewhere)
    ∷ (text "sessions.get", elsewhere)
    ∷ (text "sessions.save", elsewhere)
    ∷ (text "skill.register", skill_register)
    ∷ (text "skill.get", skill_get)
    ∷ (text "build.complete", build_complete)
    ∷ (text "build.failed", build_failed)
    ∷ (text "llm.usage.record", elsewhere)
    ∷ (text "llm.usage.summary", elsewhere)
    ∷ (text "llm.usage.recent", elsewhere)
    ∷ (text "skill.list", skill_list)
    ∷ (text "memory.store", memory_store)
    ∷ (text "memory.query", memory_query)
    ∷ (text "audit.append", audit_append)
    ∷ (text "audit.get_root", audit_get_root)
    ∷ (text "audit.list", audit_list)
    ∷ (text "tool.list", tool_list)
    ∷ (text "store.security_stats", elsewhere)
    ∷ (text "ping", ping)
    ∷ (text "version", version)
    ∷ (text "get-version", version)
    ∷ []

unfoldable pub lookup_command : List (Text × Command) → Text → Command
lookup_command [] t = other
lookup_command ((name, c) ∷ cases) t =
    let rest = lookup_command cases t in if same t name then c else rest

unfoldable pub parse_command : Text → Command
unfolding lookup_command
parse_command t = lookup_command commands t
