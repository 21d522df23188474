-- ===== src/Hub/Pending.antt =====
-- cmd/aegishub/main.go: the waiters of synchronous RPCs. A waiter's channel holds one message.
use aegis_claw.Base.{Bool, true, false, not, ◌&&◌, List, [], Option, none, some, if◌then◌else◌}
use aegis_claw.Base.Text.{Text, text, same, is_empty}
use aegis_claw.Base.Json.{str}
use aegis_claw.Base.Assoc.{lookup, insert, delete}
use aegis_claw.Hub.Wire.{Message, is_unsolicited_command}
use aegis_claw.Hub.Registry.{id_key}

pub record Waiter : Type 0 where
  pub dest : Text
  pub command : Text
  pub arrived : Option Message

abbrev pub Waiters : Type 0
Waiters = List (Text × Waiter)

unfoldable pub register_pending_rpc : Waiters → Text → Text → Text → Waiters
register_pending_rpc w requester dest command =
    insert id_key requester (record { dest = dest; command = command; arrived = none }) w

unfoldable pub clear_pending_rpc : Waiters → Text → Waiters
clear_pending_rpc w requester = delete id_key requester w

-- The tests of deliverPendingRPC on the waiter that it found.
unfoldable pub admits : Waiter → Message → Bool
admits w msg =
    if not (is_empty w.dest) && (not (same msg.source w.dest) && not (same msg.source (text "hub")))
    then false
    else if is_unsolicited_command msg.command && not (same msg.command w.command)
    then false
    else true

-- The send on the channel, which never blocks.
abbrev pub offer : Waiters → Waiter → Message → Waiters × Bool
offer ws w msg = elim w.arrived [
  | some m ↦ (ws, false)
  | none ↦ (insert id_key msg.destination (record w { arrived = some msg }) ws, true)
]

unfoldable pub deliver_pending_rpc : Waiters → Message → Waiters × Bool
unfolding admits
deliver_pending_rpc ws msg = elim (lookup id_key msg.destination ws) [
  | none ↦ (ws, false)
  | some w ↦ if admits w msg then offer ws w msg else (ws, false)
]

abbrev pub timeout_reply : Message
timeout_reply = record {
  source = [];
  destination = [];
  command = text "error";
  payload = str (text "ERR_RPC_TIMEOUT");
  timestamp = [];
  signature = [];
}

-- What the select of forwardHubRPC returns once it stops waiting: the message on the channel, or
-- the timeout. The waiter goes in either case.
abbrev pub reply_of : Option Waiter → Message
reply_of none = timeout_reply
reply_of (some w) = elim w.arrived [ none ↦ timeout_reply | some reply ↦ reply ]

-- The wait of forwardHubRPC is over: the waiter goes, and its reply or the timeout is the answer. What the
-- reply makes stale is Hub.Route.reply_invalidations.
unfoldable pub finish_rpc : Waiters → Text → Waiters × Message
unfolding clear_pending_rpc
finish_rpc ws requester = (clear_pending_rpc ws requester, reply_of (lookup id_key requester ws))
