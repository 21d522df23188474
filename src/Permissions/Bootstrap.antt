-- ===== src/Permissions/Bootstrap.antt =====
-- DefaultBootstrap of internal/permissions/state.go: the state of a first start.
pub mod Minimal
use aegis_claw.Base.{List, [], ◌∷◌}
use aegis_claw.Base.Text.{Text, text}
use aegis_claw.Permissions.Types.{State, new_state, hidden, granted_only}
use aegis_claw.Permissions.Grants.{grant_capability, set_visibility}

-- The loop that grants each capability to one subject pattern; errors are ignored.
unfoldable pub grant_all : Text → State → Text → List Text → Text → State
grant_all now s pattern [] reason = s
grant_all now s pattern (cap ∷ caps) reason =
    grant_all now (grant_capability s pattern cap (text "bootstrap") reason now).0 pattern caps
      reason

abbrev hide : Text → State → Text → Text → State
hide now s pattern cap =
    set_visibility s pattern cap hidden (text "bootstrap") (text "anti-fingerprinting default") now

unfoldable pub hide_all : Text → State → List Text → State
hide_all now s [] = s
hide_all now s (cap ∷ caps) =
    hide_all now
      (hide now (hide now (hide now s (text "agent*") cap) (text "coder*") cap)
        (text "project-manager*") cap)
      caps

abbrev pm_tools : List Text
pm_tools =
    text "channel.create"
    ∷ text "channel.list"
    ∷ text "channel.get"
    ∷ text "channel.join"
    ∷ text "channel.post"
    ∷ text "channel.add_member"
    ∷ text "channel.get_relevant_since"
    ∷ text "channel.get_messages"
    ∷ text "llm.call"
    ∷ text "memory.store"
    ∷ text "memory.query"
    ∷ text "tool.list"
    ∷ text "tool.search"
    ∷ []

abbrev agent_tools : List Text
agent_tools =
    text "channel.list"
    ∷ text "channel.get"
    ∷ text "channel.post"
    ∷ text "channel.get_relevant_since"
    ∷ text "channel.get_messages"
    ∷ text "llm.call"
    ∷ text "memory.store"
    ∷ text "memory.query"
    ∷ text "tool.list"
    ∷ text "tool.search"
    ∷ []

abbrev coder_tools : List Text
coder_tools =
    text "channel.list"
    ∷ text "channel.get"
    ∷ text "channel.post"
    ∷ text "channel.get_relevant_since"
    ∷ text "channel.get_messages"
    ∷ text "llm.call"
    ∷ text "memory.store"
    ∷ text "tool.list"
    ∷ text "tool.search"
    ∷ []

abbrev role_tools : List Text
role_tools =
    text "channel.list"
    ∷ text "channel.get"
    ∷ text "channel.post"
    ∷ text "channel.get_relevant_since"
    ∷ text "channel.get_messages"
    ∷ text "llm.call"
    ∷ text "tool.list"
    ∷ text "tool.search"
    ∷ []

abbrev hidden_tools : List Text
hidden_tools =
    text "court.review"
    ∷ text "permission.grant"
    ∷ text "permission.revoke"
    ∷ text "visibility.set"
    ∷ text "secrets.push"
    ∷ text "proposal.create"
    ∷ []

unfoldable pub grant_roles : Text → State → List Text → State
unfolding grant_all
grant_roles now s [] = s
grant_roles now s (pattern ∷ patterns) =
    grant_roles now (grant_all now s pattern role_tools (text "on-demand role bootstrap")) patterns

unfoldable pub default_bootstrap : Text → State
unfolding grant_all grant_roles hide_all grant_capability set_visibility new_state
default_bootstrap now =
    let pm =
      grant_all now new_state (text "project-manager*") pm_tools (text "minimal PM bootstrap") in
    let agents = grant_all now pm (text "agent*") agent_tools (text "minimal agent bootstrap") in
    let coders =
      grant_all now agents (text "coder*") coder_tools (text "minimal coder bootstrap") in
    let roles =
      grant_roles now coders
        (text "tester*" ∷ text "researcher*" ∷ text "architect*" ∷ text "ciso*" ∷ []) in
    let court =
      grant_all now roles (text "court-persona*") role_tools (text "court persona bootstrap") in
    set_visibility (hide_all now court hidden_tools) (text "*") (text "tool.registry.discover")
      granted_only (text "bootstrap") (text "broad discovery is grant-gated") now
