-- ===== src/Store/Membership.antt =====
-- cmd/store/store_dispatch.go: channel.join, channel.add_member and channel.remove_member.
use aegis_claw.Base.{Bool, false, Option, none, some, if◌then◌else◌, any}
use aegis_claw.Base.Text.{Text, text, same}
use aegis_claw.Base.Json.{Json, str, arr, obj, Items, nil, cons, Fields, end, field, get, put}
use aegis_claw.Channel.Sequence.{object_of}
use aegis_claw.Collab.{normalize_member_role}
use aegis_claw.Store.Payload.{must_opt_string, must_stored_array}
use aegis_claw.Store.World.{Request, Response, World, or_error, append_item}
use aegis_claw.Store.Records.{with_string}
use aegis_claw.Store.Members.{ensure_member_defaults, objects, member_role}
use aegis_claw.Store.Channels.{channel_reply, keep_channel, on_stored, with_channel}

abbrev joining : Request → Fields → Fields
joining r payload = ensure_member_defaults (
    field (text "role") (get payload (text "role")) (
      field (text "agent_id") (get payload (text "agent_id"))
        (field (text "joined_at") (str r.timestamp) end)))

unfoldable pub on_channel_join : Request → World → World × Response
on_channel_join r w = with_string r (text "channel_id") w (λ payload id.
    let done = channel_reply (text "channel.joined") id in
    on_stored id w
      (λ ch. or_error w (must_stored_array ch (text "members")) (λ members. (
        keep_channel id
            (put ch (text "members") (arr (append_item members (obj (joining r payload))))) w,
        done,
      )))
      done)

-- A member with the role, which is normalized.
abbrev adding : Request → Fields → Text → Fields
adding r payload role = ensure_member_defaults (
    field (text "role") (str role) (
      field (text "agent_id") (get payload (text "agent_id"))
        (field (text "added_at") (str r.timestamp) end)))

abbrev pub has_role : Text → Items → Bool
has_role role members = any (λ m. same (member_role m) role) (objects members)

unfoldable pub on_add_member : Request → World → World × Response
on_add_member r w = with_channel r w (λ payload id.
    or_error w (must_opt_string r.command payload (text "role")) (λ raw.
      let role = normalize_member_role raw in
      let done = channel_reply (text "channel.member_added") id in
      on_stored id w
        (λ ch. or_error w (must_stored_array ch (text "members")) (λ members. (
          if has_role role members
              then w
              else keep_channel id
                  (put ch (text "members")
                    (arr (append_item members (obj (adding r payload role)))))
                  w,
          done,
        )))
        done))

abbrev role_is : Text → Json → Bool
role_is role (str s) = same s role
role_is role _ = false

abbrev pub holds_role : Text → Option Fields → Bool
holds_role role none = false
holds_role role (some m) = role_is role (get m (text "role"))

unfoldable pub without_role : Text → Items → Items
without_role role nil = nil
without_role role (cons item rest) =
    let others = without_role role rest in
    if holds_role role (object_of item) then others else cons item others

unfoldable pub on_remove_member : Request → World → World × Response
unfolding without_role
on_remove_member r w = with_channel r w (λ payload id.
    or_error w (must_opt_string r.command payload (text "role")) (λ role.
      let done = channel_reply (text "channel.member_removed") id in
      on_stored id w
        (λ ch. or_error w (must_stored_array ch (text "members")) (λ members.
          (keep_channel id (put ch (text "members") (arr (without_role role members))) w, done)))
        done))
