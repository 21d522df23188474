-- ===== src/Hub/CidCommand.antt =====
-- cmd/aegishub/main.go: cid.lease and cid.unlease, the hub's commands on CID leases.
use Prim.Native.Nat.{◌^◌}
use aegis_claw.Base.{
  ℕ, Bool, true, false, not, ◌&&◌, ◌||◌, Option, none, some, if◌then◌else◌, ltb, ◌==◌,
}
use aegis_claw.Base.Text.{Text, text, same, is_empty}
use aegis_claw.Base.Trim.{trim_space}
use aegis_claw.Base.Json.{pos, negsuc, Json, str, float64, obj, Fields, end, field, get, as_string}
use aegis_claw.Lease.{Leases, load_lease, unlease_cid}
use aegis_claw.Lease.File.{Rows, delete_cid_key_if}
use aegis_claw.Hub.Wire.{Message}
use aegis_claw.Hub.Verify.{Crypto, WireMessage, verify_signature, verify_wire_signature}
use aegis_claw.Hub.Registry.{Registry, Component, component}

abbrev pub no_signature : Text → Bool
no_signature signature = is_empty signature || same signature (text "dummy")

-- The daemon's key decides for a connection that is not the daemon's own.
abbrev pub signed_by_daemon : Crypto → Option Component → WireMessage → Message → Bool
signed_by_daemon c none wire msg = false
signed_by_daemon c (some d) wire msg =
    if is_empty d.public_key
    then false
    else if no_signature msg.signature
    then false
    else if verify_wire_signature c wire d.public_key
    then true
    else verify_signature c msg d.public_key

unfoldable pub daemon_may_unlease_cid : Crypto → Registry → Text → WireMessage → Message → Bool
daemon_may_unlease_cid c r assigned_id wire msg =
    if same assigned_id (text "git-remote-hub") || same msg.source (text "git-remote-hub")
    then false
    else if same assigned_id (text "daemon")
    then true
    else signed_by_daemon c (component r (text "daemon")) wire msg

-- A CID is a uint32.
abbrev pub uint32_bound : ℕ
uint32_bound = 2 ^ 32

-- The conversion of payload["cid"], which a fraction does not pass; `parse_uint` is strconv.ParseUint
-- with base 10 and 32 bits.
abbrev pub cid_of : (Text → Option ℕ) → Json → Option ℕ
cid_of parse_uint (float64 (pos n)) = if (n == 0) || not (ltb n uint32_bound) then none else some n
cid_of parse_uint (float64 (negsuc n)) = none
cid_of parse_uint (str s) = elim (parse_uint (trim_space s)) [
  | none ↦ none
  | some u ↦ if u == 0 then none else some u
]
cid_of parse_uint _ = none

abbrev pub pub_of : Fields → Text
pub_of m =
    let named = as_string (get m (text "public_key")) in
    trim_space (if is_empty (trim_space named) then as_string (get m (text "pub")) else named)

unfoldable pub parse_cid_unlease_payload : (Text → Option ℕ) → Json → Option (ℕ × Text)
parse_cid_unlease_payload parse_uint (obj m) = elim (cid_of parse_uint (get m (text "cid"))) [
  | none ↦ none
  | some cid ↦ if (cid == 0) || is_empty (pub_of m) then none else some (cid, pub_of m)
]
parse_cid_unlease_payload parse_uint _ = none

-- The payloads of the answers: deny, {"status": "noop"} and {"status": "ok"}.
pub data CidReply : Type 0 where
  unauthorized invalid_payload noop ok : CidReply

abbrev pub payload_of : CidReply → Json
payload_of unauthorized = str (text "ERR_UNAUTHORIZED")
payload_of invalid_payload = str (text "ERR_INVALID_PAYLOAD")
payload_of noop = obj (field (text "status") (str (text "noop")) end)
payload_of ok = obj (field (text "status") (str (text "ok")) end)

-- The leases and the file of CID keys.
pub record CidState : Type 0 where
  pub leases : Leases
  pub file : Option Rows

-- What the handler reads outside: the library calls, the clock, whether the connection is a vsock one,
-- $AEGIS_GIT_CID_KEYS, and whether the file can be written.
pub record CidEnv : Type 0 where
  pub crypto : Crypto
  pub parse_uint : Text → Option ℕ
  pub is_vsock : Bool
  pub path : Text
  pub writable : Bool

-- The work on a CID and key that the payload names.
abbrev pub unlease : CidEnv → CidState → ℕ → Text → CidState × CidReply
unlease env s cid key =
    let live = load_lease s.leases cid in
    let (leases, unleased) = unlease_cid s.leases cid key in
    let path = trim_space env.path in
    let file =
      if (unleased || elim live [ none ↦ true | some v ↦ false ]) && not (is_empty path)
      then (delete_cid_key_if env.writable path cid key s.file).0
      else s.file in
    (record { leases = leases; file = file }, if unleased then ok else noop)

unfoldable pub handle_cid_unlease :
    CidEnv → Registry → CidState → Message → WireMessage → Text → CidState × CidReply
handle_cid_unlease env r s msg wire conn_id =
    if env.is_vsock
    then (s, unauthorized)
    else if not (daemon_may_unlease_cid env.crypto r conn_id wire msg)
    then (s, unauthorized)
    else elim (parse_cid_unlease_payload env.parse_uint msg.payload) [
      | none ↦ (s, invalid_payload)
      | some p ↦ unlease env s p.0 p.1
    ]

-- cid.lease is never granted over the wire.
unfoldable pub handle_cid_lease_command :
    CidEnv → Registry → CidState → Message → WireMessage → Text → CidState × CidReply
handle_cid_lease_command env r s msg wire conn_id =
    if same msg.command (text "cid.lease")
    then (s, unauthorized)
    else handle_cid_unlease env r s msg wire conn_id
