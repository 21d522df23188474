-- ===== src/Hub/HelloGuard.antt =====
-- What a connection has shown once it is registered, or once it serves git.
use aegis_claw.Base.{
  ◌≡◌, refl, inl, inr, Bool, true, false, not, ◌&&◌, ◌||◌, Option, none, some, arith, Bool-cases,
  length, ◌==◌,
}
use mathlib.Core.Path.{subst}
use aegis_claw.Base.Text.{Text, text, same, is_empty, has_prefix}
use aegis_claw.Base.Trim.{trim_space}
use aegis_claw.Base.Json.{Json, str, obj, Fields, get}
use aegis_claw.Hub.Wire.{Message}
use aegis_claw.Hub.Registry.{Component}
use aegis_claw.Hub.CidCommand.{no_signature}
use aegis_claw.Hub.Hello.{
  HelloEnv, FirstLine, Outcome, closed, denied, rejected, serves_git, registers, authorize_hub_peer,
  verify_git_register_signature, tenant_for_git, lookup_peer_tenant, git_outcome, with_key,
  decoded_key, encoded_key, with_payload, is_reserved, from_transport, with_message, hello,
  public_key_size,
}

-- The payload's public_key decodes to 32 bytes that verify the signature, and the file of identities
-- has the tenant under that public_key.
abbrev pub IsKeyed : HelloEnv → FirstLine → Message → Text → Type 0
IsKeyed env line msg tenant =
    (m : Fields) × (encoded : Text) × (key : Text) × (msg.payload ≡ obj m)
    × (get m (text "public_key") ≡ str encoded)
    × (env.crypto.decode_string encoded ≡ some key)
    × (length key == public_key_size ≡ true)
    × (verify_git_register_signature env.crypto line msg key ≡ true)
    × (tenant ≡ lookup_peer_tenant env.identities (trim_space encoded))

-- What the message has to show for each outcome.
abbrev Shown : HelloEnv → FirstLine → Message → Outcome → Type 0
Shown env line msg closed = Unit
Shown env line msg denied = Unit
Shown env line msg (rejected e) = Unit
Shown env line msg (serves_git tenant) =
    (same msg.source (text "git-remote-hub") ≡ true)
    × IsKeyed env line msg tenant
    × (env.unix_git ≡ true)
    × (is_empty tenant ≡ false)
Shown env line msg (registers id c) =
    (id ≡ msg.source)
    × (same id (text "git-remote-hub") ≡ false)
    × (c.conn ≡ env.conn)
    × (length c.public_key == public_key_size ≡ true)

tenant_for_git-identity :
    (env : HelloEnv) (encoded tenant : Text)
    → tenant_for_git env encoded ≡ some tenant
    → (env.unix_git ≡ true)
      × (is_empty tenant ≡ false)
      × (tenant ≡ lookup_peer_tenant env.identities (trim_space encoded))
unfolding tenant_for_git
tenant_for_git-identity env encoded tenant e =
    (ground (arith, e), ground (arith, e), ground (arith, e))

-- The payload names the key.
abbrev IsNamed : HelloEnv → Message → Fields → Text → Text → Type 0
IsNamed env msg m encoded key =
    (msg.payload ≡ obj m)
    × (get m (text "public_key") ≡ str encoded)
    × (env.crypto.decode_string encoded ≡ some key)

git_outcome-Shown :
    (env : HelloEnv) (line : FirstLine) (msg : Message) (m : Fields) (encoded key : Text)
    (o : Option Text)
    → IsNamed env msg m encoded key
    → same msg.source (text "git-remote-hub") ≡ true
    → verify_git_register_signature env.crypto line msg key ≡ true
    → length key == public_key_size ≡ true
    → tenant_for_git env encoded ≡ o
    → Shown env line msg (git_outcome o)
git_outcome-Shown env line msg m encoded key none n g v k e = tt
git_outcome-Shown env line msg m encoded key (some tenant) (p, q, d) g v k e =
    let (unix, full, identity) = tenant_for_git-identity env encoded tenant e in
    (g, (m, encoded, key, p, q, d, k, v, identity), unix, full)

with_key-Shown :
    (env : HelloEnv) (line : FirstLine) (msg : Message) (m : Fields) (encoded key : Text)
    → IsNamed env msg m encoded key
    → length key == public_key_size ≡ true
    → Shown env line msg (with_key env line msg m encoded key)
with_key-Shown env line msg m encoded key n k =
    elim (Bool-cases (same msg.source (text "git-remote-hub"))) [
      | inr g ↦ rw g (refl, g, refl, k)
      | inl g ↦ elim (Bool-cases (verify_git_register_signature env.crypto line msg key)) [
        | inr v ↦ rw (g, v) tt
        | inl v ↦
            rw (g, v)
              (git_outcome-Shown env line msg m encoded key (tenant_for_git env encoded) n g v k
                refl)
      ]
    ]

decoded_key-Shown :
    (env : HelloEnv) (line : FirstLine) (msg : Message) (m : Fields) (encoded : Text)
    (o : Option Text)
    → msg.payload ≡ obj m
    → get m (text "public_key") ≡ str encoded
    → env.crypto.decode_string encoded ≡ o
    → Shown env line msg (decoded_key env line msg m encoded o)
decoded_key-Shown env line msg m encoded none p q d = tt
decoded_key-Shown env line msg m encoded (some key) p q d =
    elim (Bool-cases (length key == public_key_size)) [
      | inl k ↦ rw k (with_key-Shown env line msg m encoded key (p, q, d) k)
      | inr k ↦ rw k tt
    ]

encoded_key-Shown :
    (env : HelloEnv) (line : FirstLine) (msg : Message) (m : Fields) (j : Json)
    → msg.payload ≡ obj m
    → get m (text "public_key") ≡ j
    → Shown env line msg (encoded_key env line msg m j)
encoded_key-Shown env line msg m (str encoded) p q =
    decoded_key-Shown env line msg m encoded (env.crypto.decode_string encoded) p q refl
encoded_key-Shown env line msg m j p q = tt

with_payload-Shown :
    (env : HelloEnv) (line : FirstLine) (msg : Message) (j : Json)
    → msg.payload ≡ j
    → Shown env line msg (with_payload env line msg j)
with_payload-Shown env line msg (obj m) p =
    encoded_key-Shown env line msg m (get m (text "public_key")) p refl
with_payload-Shown env line msg j p = tt

-- A hello that goes further than an answer or a close, and its message.
abbrev is_served : Outcome → Bool
is_served closed = false
is_served denied = false
is_served (rejected e) = false
is_served (serves_git tenant) = true
is_served (registers id c) = true

abbrev Checked : HelloEnv → FirstLine → Option Message → Outcome → Type 0
Checked env line o out =
    (msg : Message) × (o ≡ some msg)
    × (same msg.destination (text "hub") && same msg.command (text "register") ≡ true)
    × (env.is_vsock ≡ false)
    × (is_reserved msg.source false ≡ false)
    × Shown env line msg out

from_transport-Checked :
    (env : HelloEnv) (line : FirstLine) (msg : Message) (vm : Bool)
    → env.is_vsock ≡ vm
    → same msg.destination (text "hub") && same msg.command (text "register") ≡ true
    → is_served (from_transport env line msg vm) ≡ true
    → Checked env line (some msg) (from_transport env line msg vm)
from_transport-Checked env line msg true v w = λ h. cc
from_transport-Checked env line msg false v w = elim (Bool-cases (is_reserved msg.source false)) [
  | inl r ↦ rw r (λ h. cc)
  | inr r ↦ rw r (λ h. (msg, refl, w, v, r, with_payload-Shown env line msg msg.payload refl))
]

with_message-Checked :
    (env : HelloEnv) (line : FirstLine) (o : Option Message)
    → is_served (with_message env line o) ≡ true
    → Checked env line o (with_message env line o)
with_message-Checked env line none = λ h. cc
with_message-Checked env line (some msg) =
    elim (Bool-cases
      (not (same msg.destination (text "hub")) || not (same msg.command (text "register")))) [
        | inl w ↦ rw w (λ h. cc)
        | inr w ↦ rw w (from_transport-Checked env line msg env.is_vsock refl (ground (arith, w)))
      ]

abbrev is_refused_peer : HelloEnv → Bool
is_refused_peer env =
    env.is_unix && not (authorize_hub_peer env.peer_uid env.self_uid env.original_uid)

hello-Checked :
    (env : HelloEnv) (line : FirstLine)
    → is_served (hello env (some line)) ≡ true
    → (is_refused_peer env ≡ false) × Checked env line line.message (hello env (some line))
unfolding hello
hello-Checked env line = elim (Bool-cases (is_refused_peer env)) [
  | inl p ↦ rw p (λ h. cc)
  | inr p ↦ elim (Bool-cases (has_prefix (trim_space line.raw) (text "git-connect"))) [
    | inl g ↦ rw (p, g) (λ h. cc)
    | inr g ↦ rw (p, g) (λ h. (refl, with_message-Checked env line line.message h))
  ]
]

-- A connection that registers as an id is, on a UNIX socket, one of root, of the hub's own user or
-- of the invoking user; it is no vsock peer; its first line is a register message for the hub from
-- that id, which is neither reserved nor git-remote-hub; and its public key has 32 bytes.
pub hello_registers :
    (env : HelloEnv) (line : FirstLine) (id : Text) (c : Component)
    → hello env (some line) ≡ registers id c
    → (env.is_unix && not (authorize_hub_peer env.peer_uid env.self_uid env.original_uid) ≡ false)
      × (env.is_vsock ≡ false)
      × (is_reserved id false ≡ false)
      × (same id (text "git-remote-hub") ≡ false)
      × (length c.public_key == public_key_size ≡ true)
      × (msg : Message) × (line.message ≡ some msg)
      × (same msg.destination (text "hub") && same msg.command (text "register") ≡ true)
      × (id ≡ msg.source)
hello_registers env line id c e =
    let (peer, checked) = hello-Checked env line (rw e refl) in
    let (msg, at, form, vsock, free, shown) = checked in
    let (is, plain, conn, size) = subst (λ out. Shown env line msg out) e shown in
    (peer, vsock, rw is free, plain, size, msg, at, form, is)

real_signature :
    (env : HelloEnv) (line : FirstLine) (msg : Message) (key : Text)
    → verify_git_register_signature env.crypto line msg key ≡ true
    → no_signature msg.signature ≡ false
unfolding verify_git_register_signature
real_signature env line msg key v = ground (arith, v)

-- A connection that serves git is, on a UNIX socket, one of root, of the hub's own user or of the
-- invoking user; it is no vsock peer; the build allows git on this socket; its first line claims to be
-- git-remote-hub and carries a signature, which is not empty and no dummy, that verifies with the key of
-- 32 bytes that its payload's public_key decodes to; and the tenant, which is not empty, is the one that
-- the file of identities has under that public_key.
pub hello_serves_git :
    (env : HelloEnv) (line : FirstLine) (tenant : Text)
    → hello env (some line) ≡ serves_git tenant
    → (env.is_unix && not (authorize_hub_peer env.peer_uid env.self_uid env.original_uid) ≡ false)
      × (env.is_vsock ≡ false)
      × (env.unix_git ≡ true)
      × (is_empty tenant ≡ false)
      × (msg : Message) × (line.message ≡ some msg)
      × (same msg.source (text "git-remote-hub") ≡ true)
      × (no_signature msg.signature ≡ false)
      × IsKeyed env line msg tenant
hello_serves_git env line tenant e =
    let (peer, checked) = hello-Checked env line (rw e refl) in
    let (msg, at, form, vsock, free, shown) = checked in
    let (source, keyed, build, full) = subst (λ out. Shown env line msg out) e shown in
    let (m, encoded, key, p, q, d, k, v, identity) = keyed in
    (peer, vsock, build, full, msg, at, source, real_signature env line msg key v, keyed)
