-- ===== src/Hub/Fixture.antt =====
-- A hub with the Store, an agent and the daemon on it, for the runs of the theorems.
use aegis_claw.Base.{ℕ, true, false, List, [], ◌∷◌, none, some}
use aegis_claw.Base.Text.{Text, text}
use aegis_claw.Base.Json.{null}
use aegis_claw.Permissions.Types.{new_state}
use aegis_claw.Hub.Acl.{AclRule}
use aegis_claw.Hub.Wire.{Message}
use aegis_claw.Hub.Verify.{Crypto, WireMessage}
use aegis_claw.Hub.Registry.{Registry, Component}
use aegis_claw.Hub.Route.{Policy}
use aegis_claw.Hub.Presence.{Event, hello}

-- Every key verifies every text.
abbrev pub open_crypto : Crypto
open_crypto = record {
  marshal_message = λ m. some [];
  marshal_wire = λ w. some [];
  decode_string = λ s. some s;
  ed25519_verify = λ key bytes sig. true;
}

abbrev pub entry : ℕ → Component
entry conn = record { public_key = text "key"; conn = conn; version = text "1" }

abbrev pub events : List Event
events =
    hello (text "store") (entry 1)
    ∷ hello (text "agent-7") (entry 2)
    ∷ hello (text "daemon") (entry 3)
    ∷ []

abbrev pub hub : Registry
hub = record {
  registered = (text "store", entry 1) ∷ (text "agent-7", entry 2) ∷ (text "daemon", entry 3) ∷ [];
  conns = (text "store", 1) ∷ (text "agent-7", 2) ∷ (text "daemon", 3) ∷ [];
  temp_conn_counter = 0;
  shut = [];
}

abbrev pub rules : List AclRule
rules =
    record { source = text "agent*"; destination = text "store"; commands = text "chat.*" ∷ [] }
    ∷ []

abbrev pub policy : Policy
policy = record {
  crypto = open_crypto;
  rules = rules;
  bootstrap = new_state;
  cache = [];
  store_answer = none;
  dev_mode = false;
}

abbrev pub frame : Text → Text → Text → Message
frame source destination command = record {
  source = source;
  destination = destination;
  command = command;
  payload = null;
  timestamp = [];
  signature = text "sig";
}

abbrev pub raw : WireMessage
raw = record {
  source = [];
  destination = [];
  command = [];
  payload = [];
  timestamp = [];
  signature = text "sig";
}
