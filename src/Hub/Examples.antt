-- ===== src/Hub/Examples.antt =====
-- The hub theorems at a concrete registry, with the Store, an agent and the daemon on it.
use aegis_claw.Base.{◌≡◌, refl, true, false, ◌&&◌, [], ◌∷◌, none, some, if◌then◌else◌, any}
use aegis_claw.Base.Text.{Text, text, same, has_prefix}
use aegis_claw.Base.Assoc.{lookup}
use aegis_claw.Ids.Families.{in_family, is_ephemeral_client}
use aegis_claw.Hub.Wire.{Message, is_one_way_hub_push, is_unsolicited_command}
use aegis_claw.Hub.Registry.{Component, id_key, component}
use aegis_claw.Hub.Pending.{Waiters, deliver_pending_rpc, finish_rpc}
use aegis_claw.Hub.Route.{passes_acl, signature_error, forward_hub_rpc, route, route_ephemeral}
use aegis_claw.Hub.Mediation.{
  is_forward, all_honest, stamp, permits, route_mediated, route_ephemeral_mediated,
}
use aegis_claw.Hub.Delivery.{
  waiter, waiter_for, answers, takes, filled, deliver_pending_rpc_effect, rpc_roundtrip,
}
use aegis_claw.Hub.Presence.{run, no_registry, conn_of, run-IsAgreed}
use aegis_claw.Hub.Fixture.{events, hub, policy, frame, raw}

-- The agent claims to be the Store.
abbrev forged : Message
forged = frame (text "store") (text "store") (text "chat.save")

route_mediated_example :
    let effects = (route policy hub [] [] (text "agent-7") forged raw).1 in
    (all_honest hub (stamp (text "agent-7") forged) effects ≡ true)
    × (any is_forward effects ≡ true
        → (c : Component) × (component hub (text "agent-7") ≡ some c)
          × (signature_error policy c forged raw ≡ none)
          × (passes_acl policy (stamp (text "agent-7") forged) ≡ true)
          × (permits policy (stamp (text "agent-7") forged) ≡ true))
route_mediated_example = route_mediated policy hub [] [] (text "agent-7") forged raw

route_ephemeral_mediated_example :
    let effects = (route_ephemeral policy hub [] (text "daemon-temp-1") forged).1 in
    (all_honest hub (stamp (text "daemon-temp-1") forged) effects ≡ true)
    × (any is_forward effects ≡ true
        → passes_acl policy (stamp (text "daemon-temp-1") forged) ≡ true)
route_ephemeral_mediated_example =
    route_ephemeral_mediated policy hub [] (text "daemon-temp-1") forged

temp_is_ephemeral : is_ephemeral_client (text "daemon-temp-1") ≡ true
unfolding is_ephemeral_client in_family has_prefix same
temp_is_ephemeral = refl

abbrev asked : Message
asked = frame (text "agent-7") (text "store") (text "chat.save")

abbrev said : Message
said = frame (text "store") (text "agent-7") (text "response")

abbrev pushed : Message
pushed = frame (text "store") (text "agent-7") (text "channel.turn")

abbrev waiting : Waiters
waiting = (text "agent-7", waiter_for asked) ∷ []

deliver_pending_rpc_effect_example :
    let (ws', delivered) = deliver_pending_rpc waiting said in
    let w = waiter waiting said.destination in
    (delivered ≡ takes w said)
    × ((id : Text)
        → waiter ws' id
          ≡ (if delivered && same said.destination id then filled w said else waiter waiting id))
deliver_pending_rpc_effect_example = deliver_pending_rpc_effect waiting said

push_unanswered : answers (waiter_for asked) pushed ≡ false
unfolding is_unsolicited_command same
push_unanswered = refl

reply_answers : answers (waiter_for asked) said ≡ true
unfolding is_unsolicited_command same
reply_answers = refl

rpc_roundtrip_example :
    let ws1 = (forward_hub_rpc hub [] asked.source asked).0 in
    let ws2 = (deliver_pending_rpc ws1 pushed).0 in
    let (ws3, delivered) = deliver_pending_rpc ws2 said in
    (delivered ≡ true)
    × ((finish_rpc ws3 asked.source).1 ≡ said)
    × (waiter (finish_rpc ws3 asked.source).0 asked.source ≡ none)
unfolding is_one_way_hub_push same lookup
rpc_roundtrip_example =
    rpc_roundtrip hub [] asked pushed said refl refl push_unanswered reply_answers refl

run-IsAgreed_example :
    lookup id_key (text "store") (run no_registry events).conns
    ≡ conn_of (lookup id_key (text "store") (run no_registry events).registered)
run-IsAgreed_example = run-IsAgreed events (text "store")
