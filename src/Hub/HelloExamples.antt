-- ===== src/Hub/HelloExamples.antt =====
-- An agent that registers, and a git helper whose tenant is known.
use aegis_claw.Base.{◌≡◌, refl, true, false, not, ◌&&◌, [], ◌∷◌, some, none, length, ◌==◌}
use aegis_claw.Base.Text.{Text, text, same, is_empty, has_prefix}
use aegis_claw.Base.Trim.{trim_space, trim_left, trim_right, is_space}
use aegis_claw.Base.Json.{str, obj, end, field, get}
use aegis_claw.Base.Assoc.{lookup}
use aegis_claw.Ids.Families.{in_family}
use aegis_claw.Ids.HubReserved.{reserved_id_reason}
use aegis_claw.Hub.Wire.{Message}
use aegis_claw.Hub.Verify.{verify_signature}
use aegis_claw.Hub.Registry.{Component}
use aegis_claw.Hub.CidCommand.{no_signature}
use aegis_claw.Hub.Hello.{
  HelloEnv, FirstLine, registers, serves_git, authorize_hub_peer, verify_git_register_signature,
  tenant_for_git, lookup_peer_tenant, is_reserved, public_key_size, hello,
}
use aegis_claw.Hub.Fixture.{open_crypto}
use aegis_claw.Hub.HelloGuard.{IsKeyed, hello_registers, hello_serves_git}

abbrev key : Text
key = text "0123456789abcdef0123456789abcdef"

abbrev env : HelloEnv
env = record {
  crypto = open_crypto;
  conn = 4;
  is_unix = true;
  is_vsock = false;
  peer_uid = some 1000;
  self_uid = 0;
  original_uid = some 1000;
  unix_git = true;
  identities = some ((key, text "tenant-a") ∷ []);
}

abbrev hello_from : Text → Message
hello_from source = record {
  source = source;
  destination = text "hub";
  command = text "register";
  payload = obj (field (text "public_key") (str key) end);
  timestamp = [];
  signature = text "sig";
}

abbrev line_from : Text → FirstLine
line_from source = record { raw = []; message = some (hello_from source); wire = none }

abbrev agent : Component
agent = record { public_key = key; conn = 4; version = text "unknown" }

agent_registers : hello env (some (line_from (text "agent-7"))) ≡ registers (text "agent-7") agent
unfolding hello authorize_hub_peer has_prefix trim_space trim_left trim_right same get
    reserved_id_reason in_family
agent_registers = refl

hello_registers_example :
    (env.is_unix && not (authorize_hub_peer env.peer_uid env.self_uid env.original_uid) ≡ false)
    × (env.is_vsock ≡ false)
    × (is_reserved (text "agent-7") false ≡ false)
    × (same (text "agent-7") (text "git-remote-hub") ≡ false)
    × (length agent.public_key == public_key_size ≡ true)
    × (msg : Message) × ((line_from (text "agent-7")).message ≡ some msg)
    × (same msg.destination (text "hub") && same msg.command (text "register") ≡ true)
    × (text "agent-7" ≡ msg.source)
hello_registers_example =
    hello_registers env (line_from (text "agent-7")) (text "agent-7") agent agent_registers

helper_serves : hello env (some (line_from (text "git-remote-hub"))) ≡ serves_git (text "tenant-a")
unfolding hello authorize_hub_peer has_prefix trim_space trim_left trim_right is_space same get
    reserved_id_reason in_family verify_git_register_signature verify_signature tenant_for_git
    lookup_peer_tenant lookup
helper_serves = refl

hello_serves_git_example :
    (env.is_unix && not (authorize_hub_peer env.peer_uid env.self_uid env.original_uid) ≡ false)
    × (env.is_vsock ≡ false)
    × (env.unix_git ≡ true)
    × (is_empty (text "tenant-a") ≡ false)
    × (msg : Message) × ((line_from (text "git-remote-hub")).message ≡ some msg)
    × (same msg.source (text "git-remote-hub") ≡ true)
    × (no_signature msg.signature ≡ false)
    × IsKeyed env (line_from (text "git-remote-hub")) msg (text "tenant-a")
hello_serves_git_example =
    hello_serves_git env (line_from (text "git-remote-hub")) (text "tenant-a") helper_serves
