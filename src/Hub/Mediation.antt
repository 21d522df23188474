-- ===== src/Hub/Mediation.antt =====
-- Which frames leave the hub: the checks that each one has passed, and whom it names as its source.
use aegis_claw.Base.{
  ◌≡◌, refl, inl, inr, Bool, true, false, ◌&&◌, ◌||◌, List, [], ◌∷◌, Option, none, some, arith,
  Bool-cases, if◌then◌else◌, any,
}
use aegis_claw.Base.Text.{Text, text, same, same_refl}
use aegis_claw.Hub.Wire.{Message, is_one_way_hub_reply}
use aegis_claw.Hub.Verify.{WireMessage}
use aegis_claw.Hub.Registry.{Registry, Component, component, is_registered}
use aegis_claw.Hub.Pending.{Waiters, deliver_pending_rpc}
use aegis_claw.Hub.Snapshots.{check_hub_permission, changes_policy}
use aegis_claw.Hub.Route.{
  Effect, forward, answer_error, invalidate, permission_request, Policy, passes_acl,
  signature_error, route_signed, route_component, forward_hub_rpc, forward_reply_to_requester,
  route_out, route_hub, admit, route, route_ephemeral, is_cid_command, is_store_relay,
}

abbrev pub is_forward : Effect → Bool
is_forward (forward d m) = true
is_forward _ = false

-- The id that the frame names as its destination, or the Store for a tool.list to the hub.
abbrev pub goes_where : Message → Text → Bool
goes_where msg d =
    same d msg.destination
    || (same msg.destination (text "hub")
        && (same msg.command (text "tool.list") && same d (text "store")))

-- A frame with the source and the command of the message that goes to a registered component, the
-- one that the message names.
abbrev pub is_honest : Registry → Message → Effect → Bool
is_honest r msg (forward d m) =
    is_registered r d
    && (goes_where msg d && (same m.source msg.source && same m.command msg.command))
is_honest r msg _ = true

abbrev pub every : (Effect → Bool) → List Effect → Bool
every p [] = true
every p (e ∷ es) = p e && every p es

abbrev pub all_honest : Registry → Message → List Effect → Bool
all_honest r msg effects = every (is_honest r msg) effects

pub forward_hub_rpc-honest :
    (r : Registry) (ws : Waiters) (requester : Text) (msg : Message)
    → all_honest r msg (forward_hub_rpc r ws requester msg).1 ≡ true
unfolding forward_hub_rpc
forward_hub_rpc-honest r ws requester msg =
    ground (arith, same_refl msg.source, same_refl msg.command, same_refl msg.destination)

-- A reply that no waiter takes goes on as it is.
forward_reply-honest :
    (r : Registry) (ws : Waiters) (now : Text) (msg : Message)
    → (deliver_pending_rpc ws msg).1 ≡ false
    → all_honest r msg (forward_reply_to_requester r ws now msg).1 ≡ true
unfolding forward_reply_to_requester
forward_reply-honest r ws now msg h =
    ground (arith, same_refl msg.source, same_refl msg.command, same_refl msg.destination)

relay-honest :
    (r : Registry) (msg : Message)
    → all_honest r msg
        (if is_registered r msg.destination then forward msg.destination msg ∷ [] else [])
      ≡ true
relay-honest r msg =
    ground (arith, same_refl msg.source, same_refl msg.command, same_refl msg.destination)

pub route_out-honest :
    (r : Registry) (ws : Waiters) (now id : Text) (msg : Message)
    → all_honest r msg (route_out r ws now id msg).1 ≡ true
unfolding route_out
route_out-honest r ws now id msg = elim (Bool-cases (deliver_pending_rpc ws msg).1) [
  | inl d ↦ rw d refl
  | inr d ↦ rw d (undelivered d)
]
  where
    undelivered :
        (deliver_pending_rpc ws msg).1 ≡ false
        → all_honest r msg
            (if is_one_way_hub_reply msg.command
              then forward_reply_to_requester r ws now msg
              else if is_store_relay msg
              then (
                ws,
                if is_registered r msg.destination then forward msg.destination msg ∷ [] else [],
              )
              else if same id (text "store") && same msg.source (text "store")
              then (ws, [])
              else forward_hub_rpc r ws id msg).1
          ≡ true
    undelivered d = elim (Bool-cases (is_one_way_hub_reply msg.command)) [
      | inl e ↦ rw e (forward_reply-honest r ws now msg d)
      | inr e ↦ elim (Bool-cases (is_store_relay msg)) [
        | inl k ↦ rw (e, k) (relay-honest r msg)
        | inr k ↦ elim (Bool-cases (same id (text "store") && same msg.source (text "store"))) [
          | inl o ↦ rw (e, k, o) refl
          | inr o ↦ rw (e, k, o) (forward_hub_rpc-honest r ws id msg)
        ]
      ]
    ]

route_hub-honest :
    (r : Registry) (ws : Waiters) (msg : Message)
    → same msg.destination (text "hub") ≡ true
    → all_honest r msg (route_hub r ws msg).1 ≡ true
unfolding same
route_hub-honest r ws msg h = ground (
  arith,
  h,
  same_refl (text "store"),
  same_refl msg.source,
  same_refl msg.command,
  same_refl msg.destination,
)

-- The source that the hub writes into a frame is the connection's id.
abbrev pub stamp : Text → Message → Message
stamp id msg = record msg { source = id }

abbrev pub permits : Policy → Message → Bool
permits p msg = check_hub_permission p.bootstrap p.cache p.store_answer msg.source msg.command

abbrev pub IsAdmitted : Policy → Registry → Message → List Effect → Type 0
IsAdmitted p r msg effects =
    (all_honest r msg effects ≡ true)
    × (any is_forward effects ≡ true → (passes_acl p msg ≡ true) × (permits p msg ≡ true))

abbrev routed : Registry → Waiters → Text → Text → Message → Waiters × List Effect
routed r ws now id msg =
    if same msg.destination (text "hub") then route_hub r ws msg else route_out r ws now id msg

routed-honest :
    (r : Registry) (ws : Waiters) (now id : Text) (msg : Message)
    → all_honest r msg (routed r ws now id msg).1 ≡ true
routed-honest r ws now id msg = elim (Bool-cases (same msg.destination (text "hub"))) [
  | inl e ↦ rw e (route_hub-honest r ws msg e)
  | inr e ↦ rw e (route_out-honest r ws now id msg)
]

with_invalidation :
    (r : Registry) (msg : Message) (effects : List Effect)
    → all_honest r msg effects ≡ true
    → all_honest r msg (if changes_policy msg.command then invalidate msg ∷ effects else effects)
      ≡ true
with_invalidation r msg effects h = ground (arith, h)

-- Neither the answer nor the request that a denial sends forwards anything.
denied-IsSilent :
    (r : Registry) (msg : Message) (there : Bool) {A : Type 0}
    → let effects =
        permission_request there msg.source msg.command
          (answer_error (text "ERR_PERMISSION_DENIED") ∷ []) in
      (all_honest r msg effects ≡ true) × (any is_forward effects ≡ true → A)
denied-IsSilent r msg true = (refl, λ f. cc)
denied-IsSilent r msg false = (refl, λ f. cc)

admit-IsAdmitted :
    (p : Policy) (r : Registry) (ws : Waiters) (now id : Text) (msg : Message)
    → IsAdmitted p r msg (admit p r ws now id msg).1
unfolding admit
admit-IsAdmitted p r ws now id msg = elim (Bool-cases (is_cid_command msg)) [
  | inl e ↦ rw e (refl, λ f. cc)
  | inr e ↦ elim (Bool-cases (passes_acl p msg)) [
    | inr a ↦ rw (e, a) (refl, λ f. cc)
    | inl a ↦ elim (Bool-cases (permits p msg)) [
      | inr k ↦ rw (e, a, k) (denied-IsSilent r msg (is_registered r (text "store")))
      | inl k ↦
          rw (e, a, k)
            (
              with_invalidation r msg (routed r ws now id msg).1 (routed-honest r ws now id msg),
              λ f. (refl, refl),
            )
    ]
  ]
]

abbrev IsMediated :
    Policy → Registry → Text → Message → WireMessage → Option Component → List Effect → Type 0
IsMediated p r id msg wire o effects =
    (all_honest r (stamp id msg) effects ≡ true)
    × (any is_forward effects ≡ true
        → (c : Component) × (o ≡ some c)
          × (signature_error p c msg wire ≡ none)
          × (passes_acl p (stamp id msg) ≡ true)
          × (permits p (stamp id msg) ≡ true))

route_signed-IsMediated :
    (p : Policy) (r : Registry) (ws : Waiters) (now id : Text) (msg : Message) (wire : WireMessage)
    (c : Component) (e : Option Text)
    → signature_error p c msg wire ≡ e
    → IsMediated p r id msg wire (some c) (route_signed p r ws now id msg e).1
route_signed-IsMediated p r ws now id msg wire c (some err) k = (refl, λ f. cc)
route_signed-IsMediated p r ws now id msg wire c none k =
    let (honest, checked) = admit-IsAdmitted p r ws now id (stamp id msg) in
    (honest, λ f. let (acl, perm) = checked f in (c, refl, k, acl, perm))

route_component-IsMediated :
    (p : Policy) (r : Registry) (ws : Waiters) (now id : Text) (msg : Message) (wire : WireMessage)
    (o : Option Component)
    → IsMediated p r id msg wire o (route_component p r ws now id msg wire o).1
route_component-IsMediated p r ws now id msg wire none = (refl, λ f. cc)
route_component-IsMediated p r ws now id msg wire (some c) =
    route_signed-IsMediated p r ws now id msg wire c (signature_error p c msg wire) refl

-- A frame that the loop of a registered connection sends on goes to the component that it names (a
-- tool.list for the hub goes to the Store), which is registered, with the connection's id as its source
-- and the command that was sent; and then the connection's id is registered, the signature has been
-- verified with its key (or is empty or a dummy, in developer mode), the ACL allows that id to send the
-- command to the destination that the frame names (or the command is get-version, which is not asked of
-- the ACL), and the permission check has passed.
pub route_mediated :
    (p : Policy) (r : Registry) (ws : Waiters) (now id : Text) (msg : Message) (wire : WireMessage)
    → let effects = (route p r ws now id msg wire).1 in
      (all_honest r (stamp id msg) effects ≡ true)
      × (any is_forward effects ≡ true
          → (c : Component) × (component r id ≡ some c)
            × (signature_error p c msg wire ≡ none)
            × (passes_acl p (stamp id msg) ≡ true)
            × (permits p (stamp id msg) ≡ true))
unfolding route
route_mediated p r ws now id msg wire =
    route_component-IsMediated p r ws now id msg wire (component r id)

-- A frame that an ephemeral connection sends on goes to the component that it names, which is
-- registered, with the connection's id as its source and the command that was sent; and the ACL allows
-- that id to send the command there, or the command is get-version, which is not asked of the ACL.
pub route_ephemeral_mediated :
    (p : Policy) (r : Registry) (ws : Waiters) (id : Text) (msg : Message)
    → let effects = (route_ephemeral p r ws id msg).1 in
      (all_honest r (stamp id msg) effects ≡ true)
      × (any is_forward effects ≡ true → passes_acl p (stamp id msg) ≡ true)
unfolding route_ephemeral
route_ephemeral_mediated p r ws id given = elim (Bool-cases (is_cid_command msg)) [
  | inl e ↦ rw e (refl, λ f. cc)
  | inr e ↦ elim (Bool-cases (passes_acl p msg)) [
    | inr a ↦ rw (e, a) (refl, λ f. cc)
    | inl a ↦ rw (e, a) (forward_hub_rpc-honest r ws id msg, λ f. refl)
  ]
]
  where
    msg : Message
    msg = stamp id given
