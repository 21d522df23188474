-- ===== src/Store/Turns.antt =====
-- cmd/store/store_dispatch.go: the turn state of members.
use aegis_claw.Base.{List, [], ◌∷◌, if◌then◌else◌}
use aegis_claw.Base.Text.{Text, text, same}
use aegis_claw.Base.Json.{
  Json, int, str, arr, obj, Items, nil, cons, Fields, end, field, get, put, has_key,
}
use aegis_claw.Store.Payload.{must_opt_string, must_stored_array}
use aegis_claw.Store.World.{Request, Response, World, reply, or_error, one}
use aegis_claw.Store.Members.{
  int_from_payload, member_role, member_last_seen_seq, members_slice, prepare_channel_record,
  members_to_interface, effective_turn_settings, turn_settings_as_map,
}
use aegis_claw.Store.Channels.{with_channel, on_stored, keep_channel}

-- if v, ok := payload[key]; ok { m[key] = intFromPayload(v) }
abbrev copy_int : Fields → Text → Fields → Fields
copy_int payload key m =
    if has_key payload key then put m key (int (int_from_payload (get payload key))) else m

abbrev copy_value : Fields → Text → Fields → Fields
copy_value payload key m = if has_key payload key then put m key (get payload key) else m

unfoldable pub turn_updated : Fields → Fields → Fields
turn_updated payload m = copy_value payload (text "pending") (
    copy_value payload (text "last_activity") (
      copy_value payload (text "last_error") (
        copy_value payload (text "last_outcome") (
          copy_int payload (text "mention_boosts_left") (
            copy_int payload (text "cycles_since_turn")
              (copy_int payload (text "last_seen_seq") m))))))

-- The first member of the role is updated.
unfoldable pub update_first : Text → Fields → List Fields → List Fields
update_first role payload [] = []
update_first role payload (m ∷ ms) =
    let rest = update_first role payload ms in
    if same (member_role m) role then turn_updated payload m ∷ ms else m ∷ rest

unfoldable pub on_member_turn_update : Request → World → World × Response
on_member_turn_update r w = with_channel r w (λ payload id.
    or_error w (must_opt_string r.command payload (text "role")) (λ role.
      let done =
        reply (text "channel.member_turn_updated")
          (obj (field (text "channel_id") (str id) (field (text "role") (str role) end))) in
      on_stored id w
        (λ ch. or_error w (must_stored_array ch (text "members")) (λ members.
          let ch' = copy_int payload (text "round_robin_index") ch in
          let updated = update_first role payload (members_slice ch') in
          (
            keep_channel id (put ch' (text "members") (arr (members_to_interface updated))) w,
            done,
          )))
        done))

abbrev turn_fields : Fields → Json
turn_fields m = obj (
    field (text "role") (str (member_role m)) (
      field (text "last_seen_seq") (int (member_last_seen_seq m)) (
        field (text "cycles_since_turn") (get m (text "cycles_since_turn")) (
          field (text "mention_boosts_left") (get m (text "mention_boosts_left")) (
            field (text "last_outcome") (get m (text "last_outcome")) (
              field (text "last_error") (get m (text "last_error")) (
                field (text "last_activity") (get m (text "last_activity"))
                  (field (text "pending") (get m (text "pending")) end))))))))

unfoldable pub turn_items : List Fields → Items
turn_items [] = nil
turn_items (m ∷ ms) = cons (turn_fields m) (turn_items ms)

-- The prepared channel stays in memory.
abbrev pub keep_prepared : Text → Fields → World → World
keep_prepared id ch w = record w { channels = put w.channels id (obj ch) }

unfoldable pub on_turn_state : Request → World → World × Response
unfolding turn_items
on_turn_state r w = with_channel r w (λ payload id.
    let base = one (text "channel_id") (str id) in
    on_stored id w
      (λ stored.
        let ch = prepare_channel_record stored in
        (
          keep_prepared id ch w,
          reply (text "channel.turn_state.data") (
              obj (
                put
                  (put (put base (text "round_robin_index") (get ch (text "round_robin_index")))
                    (text "turn_settings")
                    (obj (turn_settings_as_map (effective_turn_settings ch))))
                  (text "members") (arr (turn_items (members_slice ch))))),
        ))
      (reply (text "channel.turn_state.data") (obj base)))
