-- ===== src/Hub/CidGuard.antt =====
-- Who can take a CID's lease away over the wire, and what is left then.
use aegis_claw.Base.{
  ℕ, ◌≡◌, refl, inl, inr, ◌≢◌, Bool, true, false, not, ◌||◌, Option, none, some, arith, Bool-cases,
}
use aegis_claw.Base.Text.{Text, text, same}
use aegis_claw.Lease.{Leases, unlease_cid}
use aegis_claw.Hub.Wire.{Message}
use aegis_claw.Hub.Verify.{Crypto, WireMessage}
use aegis_claw.Hub.Registry.{Registry, component}
use aegis_claw.Hub.CidCommand.{
  signed_by_daemon, daemon_may_unlease_cid, parse_cid_unlease_payload, CidReply, ok, unauthorized,
  invalid_payload, CidState, CidEnv, unlease, handle_cid_unlease, handle_cid_lease_command,
}

-- The daemon's own connection, or a signature that the daemon's registered key verifies.
abbrev pub is_daemon : Crypto → Registry → Text → WireMessage → Message → Bool
is_daemon c r conn_id wire msg =
    same conn_id (text "daemon") || signed_by_daemon c (component r (text "daemon")) wire msg

unlease-unchanged :
    (s : Leases) (cid : ℕ) (key : Text)
    → (unlease_cid s cid key).1 ≡ false
    → (unlease_cid s cid key).0 ≡ s
unfolding unlease_cid
unlease-unchanged s cid key h = ground arith

may_unlease-is_daemon :
    (c : Crypto) (r : Registry) (conn_id : Text) (wire : WireMessage) (msg : Message)
    → daemon_may_unlease_cid c r conn_id wire msg ≡ true
    → is_daemon c r conn_id wire msg ≡ true
unfolding daemon_may_unlease_cid
may_unlease-is_daemon c r conn_id wire msg h = ground (arith, h)

not_refused : (b : Bool) → b ≡ true → (false || (not b || false)) ≢ true
not_refused true h e = cc
not_refused false h e = cc

abbrev IsDone : CidEnv → CidState → Option (ℕ × Text) → CidState × CidReply → Type 0
IsDone env s o out =
    (out.1 ≡ ok
      → (cid : ℕ) × (key : Text) × (o ≡ some (cid, key))
        × ((unlease_cid s.leases cid key).1 ≡ true)
        × (out.0.leases ≡ (unlease_cid s.leases cid key).0))
    × (out.1 ≢ ok → out.0.leases ≡ s.leases)

abbrev parsed : CidEnv → CidState → Option (ℕ × Text) → CidState × CidReply
parsed env s none = (s, invalid_payload)
parsed env s (some p) = unlease env s p.0 p.1

parsed-IsDone :
    (env : CidEnv) (s : CidState) (o : Option (ℕ × Text)) → IsDone env s o (parsed env s o)
parsed-IsDone env s none = (λ e. cc, λ ne. refl)
parsed-IsDone env s (some (cid, key)) = elim (Bool-cases (unlease_cid s.leases cid key).1) [
  | inl t ↦ rw t (λ e. (cid, key, refl, t, refl), λ ne. absurd (ne refl))
  | inr t ↦ rw t (λ e. cc, λ ne. unlease-unchanged s.leases cid key t)
]

-- A vsock peer, and a sender that is neither the daemon's own connection nor has the daemon's signature,
-- changes nothing and gets ERR_UNAUTHORIZED for either command on CIDs. An answer of ok says that
-- the payload's CID was leased to the payload's key and that UnleaseCID has taken it away; after any
-- other answer the leases are as they were. cid.lease is refused to everybody.
pub cid_command_guarded :
    (env : CidEnv) (r : Registry) (s : CidState) (msg : Message) (wire : WireMessage)
    (conn_id : Text)
    → let out = handle_cid_lease_command env r s msg wire conn_id in
      ((env.is_vsock
            || (not (is_daemon env.crypto r conn_id wire msg)
                || same msg.command (text "cid.lease")))
          ≡ true
        → out ≡ (s, unauthorized))
      × (out.1 ≡ ok
          → (cid : ℕ) × (key : Text) × (parse_cid_unlease_payload env.parse_uint msg.payload
              ≡ some (cid, key))
            × ((unlease_cid s.leases cid key).1 ≡ true)
            × (out.0.leases ≡ (unlease_cid s.leases cid key).0))
      × (out.1 ≢ ok → out.0.leases ≡ s.leases)
unfolding handle_cid_lease_command handle_cid_unlease
cid_command_guarded env r s msg wire conn_id =
    elim (Bool-cases (same msg.command (text "cid.lease"))) [
      | inl l ↦ rw l (λ e. refl, λ e. cc, λ ne. refl)
      | inr l ↦ elim (Bool-cases env.is_vsock) [
        | inl v ↦ rw (l, v) (λ e. refl, λ e. cc, λ ne. refl)
        | inr v ↦ elim (Bool-cases (daemon_may_unlease_cid env.crypto r conn_id wire msg)) [
          | inr d ↦ rw (l, v, d) (λ e. refl, λ e. cc, λ ne. refl)
          | inl d ↦
              let done =
                parsed-IsDone env s (parse_cid_unlease_payload env.parse_uint msg.payload) in
              rw (l, v, d)
                (
                  λ e.
                      absurd
                        (not_refused _ (may_unlease-is_daemon env.crypto r conn_id wire msg d) e),
                  done.0,
                  done.1,
                )
        ]
      ]
    ]
