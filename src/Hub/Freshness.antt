-- ===== src/Hub/Freshness.antt =====
-- The hub's permission check against the Store's policy.
use aegis_claw.Base.{
  ◌≡◌, refl, sym, ap, ◌∙◌, inl, inr, ◌≢◌, Bool, true, false, not, ◌&&◌, ◌||◌, List, [], ◌∷◌, Option,
  some, arith, Bool-cases, keep,
}
use aegis_claw.Base.Text.{Text, text, same, same_refl, eq_of_same, one_of, has_suffix, is_empty}
use aegis_claw.Base.Affix.{has_suffix_self}
use aegis_claw.Base.Assoc.{lookup-insert}
use aegis_claw.Permissions.Types.{State, Snapshot}
use aegis_claw.Permissions.Match.{subject_matches}
use aegis_claw.Permissions.Source.{is_micro_vm_source}
use aegis_claw.Permissions.Grants.{grant_capability}
use aegis_claw.Permissions.Grants.Effect.{grant_capability_effect}
use aegis_claw.Permissions.Filter.{build_snapshot, has_grant}
use aegis_claw.Permissions.Filter.Visible.{build_filter_tools}
use aegis_claw.Permissions.Capability.{is_capability_command}
use aegis_claw.Hub.Registry.{id_key}
use aegis_claw.Hub.Snapshots.{
  Cache, should_receive_permission_snapshot, fetch_permission_snapshot, check_hub_permission,
  hub_permission_allowed, invalidated,
}

snapshot_tools :
    (s : State) (id now command : Text) (caps : List Text)
    → one_of (build_snapshot s id caps now).allowed_tools command ≡ has_grant (some s) id command
unfolding build_snapshot
snapshot_tools s id now command caps = (build_filter_tools s id caps command).0

-- Once the hub has fetched the Store's snapshot of an id, its check of a command from that id is the
-- Store's HasGrant for the capability commands of microVMs, and lets everything else pass, whatever
-- it had cached before and whatever its bootstrap grants are.
pub check_hub_permission_fetched :
    (bootstrap s : State) (cache : Cache) (answer : Option Snapshot) (id now command : Text)
    (caps : List Text)
    → check_hub_permission bootstrap
        (fetch_permission_snapshot cache id (some (build_snapshot s id caps now)))
        answer
        id
        command
      ≡ (not (is_capability_command command)
          || (not (is_micro_vm_source id) || has_grant (some s) id command))
unfolding check_hub_permission hub_permission_allowed fetch_permission_snapshot
    should_receive_permission_snapshot
check_hub_permission_fetched bootstrap s cache answer id now command caps = ground (
  arith,
  snapshot_tools s id now command caps,
  lookup-insert id_key id id (build_snapshot s id caps now) cache,
  same_refl id,
)

one_of-keep :
    (p : Text → Bool) (ids : List Text) (id : Text)
    → one_of (keep p ids) id ≡ (one_of ids id && p id)
one_of-keep p [] id = refl
one_of-keep p (x ∷ ids) id = elim (Bool-cases (same id x)) [
  | inl e ↦ ground (arith, one_of-keep p ids id, ap p (eq_of_same id x e))
  | inr e ↦ ground (arith, one_of-keep p ids id)
]

plain_matches :
    (id subject : Text)
    → is_empty subject ≡ false
    → has_suffix subject (text "*") ≡ false
    → subject_matches id subject ≡ true
    → id ≡ subject
unfolding subject_matches
plain_matches id subject full plain m = elim (Bool-cases (same subject (text "*"))) [
  | inl star ↦ absurd (not_plain (eq_of_same subject (text "*") star))
  | inr none_star ↦ eq_of_same id subject (ground (arith, m))
]
  where
    not_plain : subject ≢ text "*"
    not_plain e = cc (sym plain ∙ ap (λ t. has_suffix t (text "*")) e ∙ has_suffix_self (text "*"))

matched_invalidated :
    (registered : List Text) (subject id : Text)
    → is_micro_vm_source id ≡ true
    → one_of registered id ≡ true
    → subject_matches id subject ≡ true
    → one_of (invalidated registered subject) id ≡ true
unfolding invalidated should_receive_permission_snapshot
matched_invalidated registered subject id vm here m = elim (Bool-cases (is_empty subject)) [
  | inl e ↦ rw e (one_of-keep is_micro_vm_source registered id ∙ ground arith)
  | inr e ↦ elim (Bool-cases (has_suffix subject (text "*"))) [
    | inl k ↦
        rw (e, k)
          (one_of-keep (λ x. is_micro_vm_source x && subject_matches x subject) registered id
            ∙ ground arith)
    | inr k ↦
        rw (e, k)
          (ground (
            arith,
            plain_matches id subject e k m,
            same_refl subject,
            ap (same id) (plain_matches id subject e k m),
            same_refl id,
          ))
  ]
]

-- A grant changes HasGrant for a registered microVM only if the hub then fetches that microVM's
-- snapshot again.
pub grant_invalidates :
    (s : State) (registered : List Text)
    (subject capability granted_by reason now id command : Text)
    → is_micro_vm_source id ≡ true
    → one_of registered id ≡ true
    → let s' = (grant_capability s subject capability granted_by reason now).0 in
      has_grant (some s') id command ≢ has_grant (some s) id command
      → one_of (invalidated registered subject) id ≡ true
grant_invalidates s registered subject capability granted_by reason now id command vm here changed =
    elim (Bool-cases (subject_matches id subject)) [
      | inl m ↦ matched_invalidated registered subject id vm here m
      | inr m ↦ absurd (
          changed (
            ground (
              arith,
              (grant_capability_effect s subject capability granted_by reason now id command).1,
            )))
    ]
