-- ===== src/Hub/Route.antt =====
-- cmd/aegishub/main.go: what the hub does with one frame of a registered connection, and with one
-- of an ephemeral connection. Which frames go to whom is the result, as a list of effects.
use aegis_claw.Base.{Bool, not, ◌&&◌, ◌||◌, List, [], ◌∷◌, Option, none, some, if◌then◌else◌}
use aegis_claw.Base.Text.{Text, text, same}
use aegis_claw.Base.Json.{Json, str, obj, end, field}
use aegis_claw.Permissions.Types.{State, Snapshot}
use aegis_claw.Hub.Acl.{AclRule, check_acl}
use aegis_claw.Hub.Wire.{Message, is_one_way_hub_push, is_one_way_hub_reply}
use aegis_claw.Hub.Verify.{Crypto, WireMessage, verify_wire_signature}
use aegis_claw.Hub.Registry.{Registry, Component, component, is_registered}
use aegis_claw.Hub.Pending.{Waiters, register_pending_rpc, deliver_pending_rpc}
use aegis_claw.Hub.Snapshots.{Cache, changes_policy, check_hub_permission}
use aegis_claw.Hub.CidCommand.{no_signature}

-- What is sent: a frame to the registered component of an id, or an answer on the connection that
-- the frame came in by: an error, {"status": "accepted"}, the answer of handleCIDLeaseCommand, the
-- ids and versions of component.list, or {"status": "ok"} with the payload that came in. `request` is the
-- hub's own permission.request for a subject and a capability, which goes to the Store.
pub data Effect : Type 0 where
  forward : Text → Message → Effect
  answer_error : Text → Effect
  accepted : Effect
  answer_cid : Message → Effect
  answer_components : List (Text × Text) → Effect
  answer_echo : Json → Effect
  invalidate : Message → Effect
  request : Text → Text → Effect

-- What the decisions read: the rules, the cached snapshots, the Store's answer for this source, and
-- whether AEGIS_DEV_MODE is 1.
pub record Policy : Type 0 where
  pub crypto : Crypto
  pub rules : List AclRule
  pub bootstrap : State
  pub cache : Cache
  pub store_answer : Option Snapshot
  pub dev_mode : Bool

abbrev pub is_cid_command : Message → Bool
is_cid_command msg =
    same msg.destination (text "hub")
    && (same msg.command (text "cid.unlease") || same msg.command (text "cid.lease"))

-- What the test before the routing asks: a get-version passes without the ACL, all else by the ACL.
abbrev pub passes_acl : Policy → Message → Bool
passes_acl p msg =
    same msg.command (text "get-version")
    || check_acl p.rules msg.source msg.destination msg.command

-- The signature's error, if there is one.
abbrev pub signature_error : Policy → Component → Message → WireMessage → Option Text
signature_error p c msg wire =
    if no_signature msg.signature
    then (if p.dev_mode then none else some (text "ERR_SIGNATURE_REQUIRED"))
    else if verify_wire_signature p.crypto wire c.public_key
    then none
    else some (text "ERR_INVALID_SIGNATURE")

-- forwardHubRPC up to the wait: the frame goes out and, unless it is a push, a waiter stands.
unfoldable pub forward_hub_rpc : Registry → Waiters → Text → Message → Waiters × List Effect
forward_hub_rpc r ws requester msg =
    if not (is_registered r msg.destination)
    then (ws, answer_error (text "ERR_DESTINATION_NOT_FOUND") ∷ [])
    else if is_one_way_hub_push msg.command
    then (ws, forward msg.destination msg ∷ accepted ∷ [])
    else (
      register_pending_rpc ws requester msg.destination msg.command,
      forward msg.destination msg ∷ [],
    )

abbrev ack_of : Message → Text → Message
ack_of msg now = record {
  source = text "hub";
  destination = msg.source;
  command = text "ack";
  payload = obj (field (text "status") (str (text "delivered")) end);
  timestamp = now;
  signature = [];
}

-- A reply whose waiter takes it is acknowledged to its sender; any other goes to its destination.
unfoldable pub forward_reply_to_requester :
    Registry → Waiters → Text → Message → Waiters × List Effect
forward_reply_to_requester r ws now msg =
    let (ws', delivered) = deliver_pending_rpc ws msg in
    if not (is_registered r msg.destination)
    then (ws, [])
    else if delivered
    then (ws', if is_registered r msg.source then forward msg.source (ack_of msg now) ∷ [] else [])
    else (ws', forward msg.destination msg ∷ [])

-- channel.relay_activity and channel.updated of the Store, which nobody answers.
abbrev pub is_store_relay : Message → Bool
is_store_relay msg =
    same msg.source (text "store")
    && (same msg.command (text "channel.relay_activity")
        || same msg.command (text "channel.updated"))

-- The part below the checks for a frame whose destination is not the hub.
unfoldable pub route_out : Registry → Waiters → Text → Text → Message → Waiters × List Effect
route_out r ws now component_id msg =
    let (ws', delivered) = deliver_pending_rpc ws msg in
    if delivered
    then (ws', [])
    else if is_one_way_hub_reply msg.command
    then forward_reply_to_requester r ws now msg
    else if is_store_relay msg
    then (ws, if is_registered r msg.destination then forward msg.destination msg ∷ [] else [])
    else if same component_id (text "store") && same msg.source (text "store")
    then (ws, [])
    else forward_hub_rpc r ws component_id msg

-- Every component but the daemon, with its version.
abbrev pub listed : List (Text × Component) → List (Text × Text)
listed [] = []
listed ((id, c) ∷ rest) =
    let others = listed rest in if same id (text "daemon") then others else (id, c.version) ∷ others

-- tool.list is asked of the Store, whose answer is the next frame of the connection; the hub answers
-- the other commands that are sent to it.
abbrev pub route_hub : Registry → Waiters → Message → Waiters × List Effect
route_hub r ws msg =
    if same msg.command (text "component.list")
    then (ws, answer_components (listed r.registered) ∷ [])
    else if same msg.command (text "tool.list")
    then (
      ws,
      if is_registered r (text "store")
          then forward (text "store") (record msg { destination = text "store" }) ∷ []
          else answer_error (text "store not available") ∷ [],
    )
    else (ws, answer_echo msg.payload ∷ [])

-- emitPermissionRequest, where the Store is registered.
abbrev pub permission_request : Bool → Text → Text → List Effect → List Effect
permission_request there subject capability effects =
    if there then request subject capability ∷ effects else effects

abbrev invalidations : Message → List Effect → List Effect
invalidations msg effects = if changes_policy msg.command then invalidate msg ∷ effects else effects

-- maybeInvalidatePermissionsFromReply, on the reply that a waiter has got.
abbrev pub reply_invalidations : Message → List Effect
reply_invalidations reply = invalidations reply []

-- The part of the loop below the signature check; the source is the connection's id by then.
unfoldable pub admit : Policy → Registry → Waiters → Text → Text → Message → Waiters × List Effect
admit p r ws now component_id msg =
    if is_cid_command msg
    then (ws, answer_cid msg ∷ [])
    else if not (passes_acl p msg)
    then (ws, answer_error (text "ERR_ACL_VIOLATION") ∷ [])
    else if not (check_hub_permission p.bootstrap p.cache p.store_answer msg.source msg.command)
    then (
      ws,
      permission_request (is_registered r (text "store")) msg.source msg.command
          (answer_error (text "ERR_PERMISSION_DENIED") ∷ []),
    )
    else let (ws', effects) =
        if same msg.destination (text "hub")
        then route_hub r ws msg
        else route_out r ws now component_id msg in
      (ws', invalidations msg effects)

-- The loop of handleConnection below the look-up of the connection's component, and below the
-- check of the signature.
abbrev pub route_signed :
    Policy → Registry → Waiters → Text → Text → Message → Option Text → Waiters × List Effect
route_signed p r ws now component_id msg (some err) = (ws, answer_error err ∷ [])
route_signed p r ws now component_id msg none =
    admit p r ws now component_id (record msg { source = component_id })

abbrev pub route_component :
    Policy
    → Registry
    → Waiters
    → Text
    → Text
    → Message
    → WireMessage
    → Option Component
    → Waiters × List Effect
route_component p r ws now component_id msg wire none =
    (ws, answer_error (text "ERR_UNAUTHORIZED") ∷ [])
route_component p r ws now component_id msg wire (some c) =
    route_signed p r ws now component_id msg (signature_error p c msg wire)

-- One frame in the loop of handleConnection.
unfoldable pub route :
    Policy → Registry → Waiters → Text → Text → Message → WireMessage → Waiters × List Effect
unfolding admit
route p r ws now component_id msg wire =
    route_component p r ws now component_id msg wire (component r component_id)

-- One frame in ephemeralHubRPCLoop.
unfoldable pub route_ephemeral :
    Policy → Registry → Waiters → Text → Message → Waiters × List Effect
route_ephemeral p r ws requester given =
    let msg = record given { source = requester } in
    if is_cid_command msg
    then (ws, answer_cid msg ∷ [])
    else if not (passes_acl p msg)
    then (ws, answer_error (text "ERR_ACL_VIOLATION") ∷ [])
    else forward_hub_rpc r ws requester msg
