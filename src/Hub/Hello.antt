-- ===== src/Hub/Hello.antt =====
-- cmd/aegishub/main.go: the checks of a new connection and of its first line, up to registration.
use aegis_claw.Base.{
  ℕ, Bool, true, false, not, ◌&&◌, ◌||◌, List, [], Option, none, some, if◌then◌else◌, length, ◌==◌,
}
use aegis_claw.Base.Text.{Text, text, same, is_empty, has_prefix}
use aegis_claw.Base.Trim.{trim_space}
use aegis_claw.Base.Json.{Json, str, obj, Fields, get}
use aegis_claw.Base.Assoc.{lookup}
use aegis_claw.Ids.HubReserved.{reserved_id_reason}
use aegis_claw.Hub.Wire.{Message}
use aegis_claw.Hub.Verify.{Crypto, WireMessage, verify_signature, verify_wire_signature}
use aegis_claw.Hub.Registry.{Component, id_key}
use aegis_claw.Hub.CidCommand.{no_signature}

-- What the handler reads of the connection and of the process. The uid of the invoking user is none
-- where it cannot be looked up; `identities` is the file of git identities, none where there is no
-- such file; `unix_git` is the build's unixGitAllowed.
pub record HelloEnv : Type 0 where
  pub crypto : Crypto
  pub conn : ℕ
  pub is_unix : Bool
  pub is_vsock : Bool
  pub peer_uid : Option ℕ
  pub self_uid : ℕ
  pub original_uid : Option ℕ
  pub unix_git : Bool
  pub identities : Option (List (Text × Text))

-- The first line, and what json.Unmarshal makes of it as a message and as a wireMessage.
pub record FirstLine : Type 0 where
  pub raw : Text
  pub message : Option Message
  pub wire : Option WireMessage

-- What becomes of the connection: it is closed without an answer, or with the line "deny no git
-- identity", or with an error, or it serves
-- git for a tenant, or it registers as the source that it claims.
pub data Outcome : Type 0 where
  closed : Outcome
  denied : Outcome
  rejected : Text → Outcome
  serves_git : Text → Outcome
  registers : Text → Component → Outcome

abbrev equals : Option ℕ → ℕ → Bool
equals none uid = false
equals (some n) uid = uid == n

-- peerOK is that the uid is there.
unfoldable pub authorize_hub_peer : Option ℕ → ℕ → Option ℕ → Bool
authorize_hub_peer none self_uid original_uid = false
authorize_hub_peer (some peer) self_uid original_uid =
    if (peer == 0) || (peer == self_uid) then true else equals original_uid peer

abbrev pub wire_verifies : Crypto → Option WireMessage → Text → Bool
wire_verifies c none key = false
wire_verifies c (some wire) key = verify_wire_signature c wire key

unfoldable pub verify_git_register_signature : Crypto → FirstLine → Message → Text → Bool
verify_git_register_signature c line msg key =
    if no_signature msg.signature
    then false
    else if wire_verifies c line.wire key
    then true
    else verify_signature c msg key

-- m[pub] of the file, trimmed.
abbrev identity : Option (List (Text × Text)) → Text → Text
identity none key = []
identity (some m) key = elim (lookup id_key key m) [ none ↦ [] | some tenant ↦ trim_space tenant ]

unfoldable pub lookup_peer_tenant : Option (List (Text × Text)) → Text → Text
lookup_peer_tenant identities given =
    let key = trim_space given in if is_empty key then [] else identity identities key

-- none is ERR_UNKNOWN_PEER.
unfoldable pub tenant_for_git : HelloEnv → Text → Option Text
unfolding lookup_peer_tenant
tenant_for_git env given =
    let verified = trim_space given in
    let tenant = lookup_peer_tenant env.identities verified in
    if is_empty verified
    then none
    else if not env.unix_git
    then none
    else if is_empty tenant
    then none
    else some tenant

abbrev pub git_outcome : Option Text → Outcome
git_outcome none = rejected (text "ERR_UNKNOWN_PEER")
git_outcome (some tenant) = serves_git tenant

abbrev pub version_of : Json → Text
version_of (str v) = v
version_of _ = text "unknown"

-- ed25519.PublicKeySize
abbrev pub public_key_size : ℕ
public_key_size = 32

-- The public key is there: a git helper proves that it holds the private one, others register.
abbrev pub with_key : HelloEnv → FirstLine → Message → Fields → Text → Text → Outcome
with_key env line msg payload encoded key =
    if same msg.source (text "git-remote-hub")
    then (if not (verify_git_register_signature env.crypto line msg key)
        then rejected (text "ERR_INVALID_SIGNATURE")
        else git_outcome (tenant_for_git env encoded))
    else registers msg.source (record {
      public_key = key;
      conn = env.conn;
      version = version_of (get payload (text "version"));
    })

abbrev pub decoded_key : HelloEnv → FirstLine → Message → Fields → Text → Option Text → Outcome
decoded_key env line msg payload encoded none = rejected (text "ERR_INVALID_PUBLIC_KEY")
decoded_key env line msg payload encoded (some key) =
    if not (length key == public_key_size)
    then rejected (text "ERR_INVALID_PUBLIC_KEY")
    else with_key env line msg payload encoded key

abbrev pub encoded_key : HelloEnv → FirstLine → Message → Fields → Json → Outcome
encoded_key env line msg payload (str encoded) =
    decoded_key env line msg payload encoded (env.crypto.decode_string encoded)
encoded_key env line msg payload _ = rejected (text "ERR_MISSING_PUBLIC_KEY")

abbrev pub with_payload : HelloEnv → FirstLine → Message → Json → Outcome
with_payload env line msg (obj m) = encoded_key env line msg m (get m (text "public_key"))
with_payload env line msg _ = rejected (text "ERR_INVALID_PAYLOAD")

abbrev pub is_reserved : Text → Bool → Bool
is_reserved id vm = elim (reserved_id_reason id vm) [ none ↦ false | some r ↦ true ]

-- `vm` is isVMHubTransport.
abbrev pub from_transport : HelloEnv → FirstLine → Message → Bool → Outcome
from_transport env line msg true = rejected (text "ERR_UNAUTHORIZED_PEER")
from_transport env line msg false =
    if is_reserved msg.source false
    then rejected (text "ERR_RESERVED_ID")
    else with_payload env line msg msg.payload

abbrev pub with_message : HelloEnv → FirstLine → Option Message → Outcome
with_message env line none = closed
with_message env line (some msg) =
    if not (same msg.destination (text "hub")) || not (same msg.command (text "register"))
    then rejected (text "ERR_INVALID_HANDSHAKE")
    else from_transport env line msg env.is_vsock

-- handleConnection up to the registration; none is a first line that cannot be read.
unfoldable pub hello : HelloEnv → Option FirstLine → Outcome
unfolding authorize_hub_peer verify_git_register_signature tenant_for_git
hello env first =
    if env.is_unix && not (authorize_hub_peer env.peer_uid env.self_uid env.original_uid)
    then rejected (text "ERR_UNAUTHORIZED_PEER")
    else elim first [
      | none ↦ closed
      | some line ↦
          if has_prefix (trim_space line.raw) (text "git-connect")
          then denied
          else with_message env line line.message
    ]
