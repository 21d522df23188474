-- ===== src/Permissions/Capability.antt =====
-- internal/permissions/persist.go: the file of the state, the registry of capabilities, and which
-- commands are capabilities at all. Whether os.WriteFile succeeds is an argument.
use aegis_claw.Base.{
  Bool, true, false, not, ◌&&◌, ◌||◌, List, [], ◌∷◌, Option, none, some, if◌then◌else◌, length, ltb,
  ◌==◌,
}
use aegis_claw.Base.Text.{Text, text, is_empty, one_of, has_prefix}
use aegis_claw.Permissions.Types.{State}

-- os.WriteFile of the marshalled state over what the file held.
unfoldable pub save_state : Bool → State → Option State → Option State
save_state writable s disk = if writable then some s else disk

-- The file as it is read back; json.Unmarshal gives the state that was saved. `bootstrap` is
-- DefaultBootstrap(), for a file that is missing or corrupt.
unfoldable pub load_state : State → Option State → State
load_state bootstrap none = bootstrap
load_state bootstrap (some s) = s

unfoldable pub known_capabilities : List Text
known_capabilities =
    text "tool.list"
    ∷ text "tool.search"
    ∷ text "tool.registry.discover"
    ∷ text "channel.create"
    ∷ text "channel.list"
    ∷ text "channel.get"
    ∷ text "channel.join"
    ∷ text "channel.post"
    ∷ text "channel.add_member"
    ∷ text "channel.get_relevant_since"
    ∷ text "channel.get_messages"
    ∷ text "memory.store"
    ∷ text "memory.query"
    ∷ text "memory.get_context"
    ∷ text "llm.call"
    ∷ text "proposal.create"
    ∷ text "proposal.submit"
    ∷ text "proposal.list"
    ∷ text "permission.grant"
    ∷ text "permission.revoke"
    ∷ text "permission.list"
    ∷ text "permission.check"
    ∷ text "visibility.set"
    ∷ text "visibility.get"
    ∷ text "visibility.list"
    ∷ text "court.review"
    ∷ text "secrets.push"
    ∷ text "discord_monitor.send_message"
    ∷ text "discord_monitor.get_recent"
    ∷ text "web_research.search"
    ∷ text "web_research.summarize_url"
    ∷ []

abbrev pub control_commands : List Text
control_commands =
    text "register"
    ∷ text "response"
    ∷ text "ack"
    ∷ text "version"
    ∷ text "get-version"
    ∷ text "ping"
    ∷ text "pong"
    ∷ []

abbrev pub routing_commands : List Text
routing_commands =
    text "channel.activity"
    ∷ text "channel.member_notify"
    ∷ text "channel.updated"
    ∷ text "channel.relay_activity"
    ∷ text "channel.fanout"
    ∷ text "channel.posted"
    ∷ text "channel.turn_result"
    ∷ text "chat.message"
    ∷ text "chat.tool_events"
    ∷ text "chat.thought_events"
    ∷ text "chat.stream_progress"
    ∷ text "user.goal"
    ∷ text "user.turn"
    ∷ text "ensure.role"
    ∷ text "orchestrator.ensure_role"
    ∷ []

-- The loop that looks for the first dot: it must not be the first or the last character.
unfoldable pub noun_verb : Bool → Text → Bool
noun_verb first [] = false
noun_verb first (c ∷ s) =
    let rest = noun_verb false s in if c == b'.' then not first && not (is_empty s) else rest

unfoldable pub is_capability_command : Text → Bool
unfolding noun_verb
is_capability_command cmd =
    if is_empty cmd || one_of control_commands cmd
    then false
    else if one_of (text "tool.list" ∷ text "tool.search" ∷ []) cmd
    then false
    else if one_of routing_commands cmd
    then false
    else if ltb 11 (length cmd)
        && (has_prefix cmd (text "permission.") || has_prefix cmd (text "visibility."))
    then false
    else noun_verb true cmd
