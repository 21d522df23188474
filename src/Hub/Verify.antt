-- ===== src/Hub/Verify.antt =====
-- cmd/aegishub/main.go: the signature of a frame. json.Marshal, base64 and ed25519 are parameters.
use aegis_claw.Base.{Bool, false, [], Option, none, some}
use aegis_claw.Base.Text.{Text}
use aegis_claw.Hub.Wire.{Message}

-- A frame as it came in: the payload is its raw bytes.
pub record WireMessage : Type 0 where
  pub source : Text
  pub destination : Text
  pub command : Text
  pub payload : Text
  pub timestamp : Text
  pub signature : Text

-- The library calls: ed25519_verify key data signature.
pub record Crypto : Type 0 where
  pub marshal_message : Message → Option Text
  pub marshal_wire : WireMessage → Option Text
  pub decode_string : Text → Option Text
  pub ed25519_verify : Text → Text → Text → Bool

abbrev signed : Crypto → Text → Option Text → Option Text → Bool
signed c key (some bytes) (some sig) = c.ed25519_verify key bytes sig
signed c key none sig = false
signed c key (some bytes) none = false

unfoldable pub verify_signature : Crypto → Message → Text → Bool
verify_signature c msg key =
    signed c key (c.marshal_message (record msg { signature = [] })) (c.decode_string msg.signature)

unfoldable pub verify_wire_signature : Crypto → WireMessage → Text → Bool
verify_wire_signature c wire key =
    signed c key (c.marshal_wire (record wire { signature = [] })) (c.decode_string wire.signature)
