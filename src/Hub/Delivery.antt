-- ===== src/Hub/Delivery.antt =====
-- What completes a waiter, and how often.
use aegis_claw.Base.{
  ◌≡◌, refl, sym, ap, ◌∙◌, inl, inr, Bool, true, false, not, ◌&&◌, ◌||◌, Option, none, some, arith,
  Bool-cases, if◌then◌else◌,
}
use aegis_claw.Base.Text.{Text, text, same, same_refl, eq_of_same, is_empty}
use aegis_claw.Base.Assoc.{lookup, lookup-insert, lookup-delete}
use aegis_claw.Hub.Wire.{Message, is_unsolicited_command, is_one_way_hub_push}
use aegis_claw.Hub.Registry.{Registry, id_key, is_registered}
use aegis_claw.Hub.Pending.{
  Waiter, Waiters, register_pending_rpc, clear_pending_rpc, deliver_pending_rpc, admits, offer,
  finish_rpc, reply_of,
}
use aegis_claw.Hub.Route.{forward_hub_rpc}

abbrev pub waiter : Waiters → Text → Option Waiter
waiter ws id = lookup id_key id ws

-- The message comes from the callee or the hub, and a push is the very command that was asked.
abbrev pub answers : Waiter → Message → Bool
answers w msg =
    (is_empty w.dest || (same msg.source w.dest || same msg.source (text "hub")))
    && (not (is_unsolicited_command msg.command) || same msg.command w.command)

admits-answers : (w : Waiter) (msg : Message) → admits w msg ≡ answers w msg
unfolding admits
admits-answers w msg = ground arith

abbrev has_room : Option Message → Bool
has_room none = true
has_room (some m) = false

abbrev pub takes : Option Waiter → Message → Bool
takes none msg = false
takes (some w) msg = answers w msg && has_room w.arrived

abbrev pub filled : Option Waiter → Message → Option Waiter
filled none msg = none
filled (some w) msg = some (record w { arrived = some msg })

abbrev DeliveryLaw : Waiters → Message → Waiters × Bool → Option Waiter → Type 0
DeliveryLaw ws msg out o =
    (out.1 ≡ takes o msg)
    × ((id : Text)
        → waiter out.0 id
          ≡ (if out.1 && same msg.destination id then filled o msg else waiter ws id))

offer-DeliveryLaw :
    (ws : Waiters) (w : Waiter) (msg : Message)
    → DeliveryLaw ws msg (if admits w msg then offer ws w msg else (ws, false)) (some w)
offer-DeliveryLaw ws w msg = (
  ground (arith, admits-answers w msg),
  λ id. ground (
    arith,
    admits-answers w msg,
    lookup-insert id_key msg.destination id (record w { arrived = some msg }) ws,
  ),
)

deliver-DeliveryLaw :
    (ws : Waiters) (msg : Message) (o : Option Waiter)
    → DeliveryLaw ws msg
        (elim o [
          | none ↦ (ws, false)
          | some w ↦ if admits w msg then offer ws w msg else (ws, false)
        ])
        o
deliver-DeliveryLaw ws msg none = (refl, λ id. refl)
deliver-DeliveryLaw ws msg (some w) = offer-DeliveryLaw ws w msg

-- A message completes the waiter of its destination exactly if there is one, it is still without an
-- answer, the message comes from the waiter's callee or from the hub, and, where the command is one
-- that is pushed, it is the command that was asked; then that waiter holds the message, and no other
-- waiter changes.
pub deliver_pending_rpc_effect :
    (ws : Waiters) (msg : Message)
    → let (ws', delivered) = deliver_pending_rpc ws msg in
      let w = waiter ws msg.destination in
      (delivered ≡ takes w msg)
      × ((id : Text)
          → waiter ws' id
            ≡ (if delivered && same msg.destination id then filled w msg else waiter ws id))
unfolding deliver_pending_rpc
deliver_pending_rpc_effect ws msg = deliver-DeliveryLaw ws msg (waiter ws msg.destination)

abbrev pub waiter_for : Message → Waiter
waiter_for msg = record { dest = msg.destination; command = msg.command; arrived = none }

-- A message that does not answer a waiter leaves it as it is.
unanswered :
    (ws : Waiters) (other : Message) (id : Text) (w : Waiter)
    → waiter ws id ≡ some w
    → answers w other ≡ false
    → waiter (deliver_pending_rpc ws other).0 id ≡ some w
unanswered ws other id w here h =
    let (took, law) = deliver_pending_rpc_effect ws other in
    law id ∙ elim (Bool-cases (same other.destination id)) [
      | inr ne ↦ ground (arith, ne, here)
      | inl e ↦
          let at : waiter ws other.destination ≡ some w =
            ap (waiter ws) (eq_of_same other.destination id e) ∙ here in
          let refused : takes (waiter ws other.destination) other ≡ false = rw (at, h) refl in
          ground (arith, took, refused, here)
    ]

-- A message that answers a waiter with room is taken by it.
answered :
    (ws : Waiters) (reply : Message) (w : Waiter)
    → waiter ws reply.destination ≡ some w
    → answers w reply ≡ true
    → has_room w.arrived ≡ true
    → ((deliver_pending_rpc ws reply).1 ≡ true)
      × (waiter (deliver_pending_rpc ws reply).0 reply.destination
          ≡ some (record w { arrived = some reply }))
answered ws reply w here h room =
    let (took, law) = deliver_pending_rpc_effect ws reply in
    let done : (deliver_pending_rpc ws reply).1 ≡ true = took ∙ rw (here, h, room) refl in
    (done, law reply.destination ∙ rw (done, same_refl reply.destination, here) refl)

-- An RPC of a registered callee whose reply comes in, after any message that does not answer it,
-- ends with that reply, and its waiter is gone.
pub rpc_roundtrip :
    (r : Registry) (ws : Waiters) (msg other reply : Message)
    → is_registered r msg.destination ≡ true
    → is_one_way_hub_push msg.command ≡ false
    → answers (waiter_for msg) other ≡ false
    → answers (waiter_for msg) reply ≡ true
    → reply.destination ≡ msg.source
    → let ws1 = (forward_hub_rpc r ws msg.source msg).0 in
      let ws2 = (deliver_pending_rpc ws1 other).0 in
      let (ws3, delivered) = deliver_pending_rpc ws2 reply in
      (delivered ≡ true)
      × ((finish_rpc ws3 msg.source).1 ≡ reply)
      × (waiter (finish_rpc ws3 msg.source).0 msg.source ≡ none)
unfolding finish_rpc forward_hub_rpc register_pending_rpc clear_pending_rpc
rpc_roundtrip r ws msg other reply known no_push no_answer answer back =
    let (delivered, held) = answered ws2 reply (waiter_for msg) still answer refl in
    (delivered, ap reply_of (ap (waiter ws3) (sym back) ∙ held), gone)
  where
    ws1 : Waiters
    ws1 = (forward_hub_rpc r ws msg.source msg).0

    ws2 : Waiters
    ws2 = (deliver_pending_rpc ws1 other).0

    ws3 : Waiters
    ws3 = (deliver_pending_rpc ws2 reply).0

    waiting : waiter ws1 msg.source ≡ some (waiter_for msg)
    waiting = ground (
      arith,
      known,
      no_push,
      lookup-insert id_key msg.source msg.source (waiter_for msg) ws,
      same_refl msg.source,
    )

    still : waiter ws2 reply.destination ≡ some (waiter_for msg)
    still =
        ap (waiter ws2) back ∙ unanswered ws1 other msg.source (waiter_for msg) waiting no_answer

    gone : waiter (finish_rpc ws3 msg.source).0 msg.source ≡ none
    gone = lookup-delete id_key msg.source msg.source ws3 ∙ rw (same_refl msg.source) refl
