-- ===== src/Hub/Wire.antt =====
-- cmd/aegishub/main.go and internal/transport/hubclient/types.go: messages, and the commands that
-- are pushed or answered one way.
use aegis_claw.Base.{Bool, true, false, ◌||◌, [], ◌∷◌, if◌then◌else◌}
use aegis_claw.Base.Text.{Text, text, same, one_of, has_suffix}
use aegis_claw.Base.Json.{Json}

pub record Message : Type 0 where
  pub source : Text
  pub destination : Text
  pub command : Text
  pub payload : Json
  pub timestamp : Text
  pub signature : Text

unfoldable pub is_unsolicited_command : Text → Bool
is_unsolicited_command command =
    one_of
      (text "channel.turn"
        ∷ text "channel.activity"
        ∷ text "channel.member_notify"
        ∷ text "channel.updated"
        ∷ text "channel.relay_activity"
        ∷ text "user.goal"
        ∷ text "user.turn"
        ∷ text "chat.message"
        ∷ text "version"
        ∷ text "get-version"
        ∷ text "permission.snapshot"
        ∷ text "permission.granted"
        ∷ text "permission.revoked"
        ∷ text "visibility.set"
        ∷ [])
      command

unfoldable pub is_one_way_hub_push : Text → Bool
is_one_way_hub_push command =
    one_of
      (text "channel.turn"
        ∷ text "channel.activity"
        ∷ text "channel.member_notify"
        ∷ text "llm.usage.record"
        ∷ [])
      command

unfoldable pub is_one_way_hub_reply : Text → Bool
is_one_way_hub_reply command =
    if is_unsolicited_command command
    then false
    else if same command (text "response") || same command (text "ack")
    then true
    else if has_suffix command (text ".response")
    then true
    else one_of
        (text "channel.posted"
          ∷ text "channel.data"
          ∷ text "channel.created"
          ∷ text "channel.joined"
          ∷ text "channel.archived"
          ∷ text "channel.list"
          ∷ text "channel.member_added"
          ∷ text "memory.context"
          ∷ text "memory.response"
          ∷ [])
        command
