-- ===== src/Hub/Ephemeral.antt =====
-- The connections of ephemeral clients, which the hub serves without a permission check.
use mathlib.Core.List.{append-nil, append_assoc}
use aegis_claw.Base.{
  ◌≡◌, refl, sym, ◌∙◌, inl, inr, true, false, [], ◌++◌, Option, arith, Bool-cases,
}
use aegis_claw.Base.Text.{Text, text, same, eq_of_same, has_prefix}
use aegis_claw.Base.Affix.{has_prefix-split}
use aegis_claw.Ids.Families.{in_family, is_ephemeral_client}
use aegis_claw.Permissions.Types.{State, Snapshot}
use aegis_claw.Permissions.Source.{is_micro_vm_source, role_vm_prefixes}
use aegis_claw.Hub.Snapshots.{Cache, check_hub_permission, should_receive_permission_snapshot}

-- An id of a family continues its name, so it starts as the name does.
family_starts : (id fam : Text) → in_family id fam ≡ true → (r : Text) × (id ≡ fam ++ r)
unfolding in_family
family_starts id fam h = elim (Bool-cases (same id fam)) [
  | inl e ↦ ([], eq_of_same id fam e ∙ sym (append-nil fam))
  | inr e ↦
      let (r, q) = has_prefix-split id (fam ++ text "-") (ground arith) in
      (text "-" ++ r, q ∙ append_assoc fam (text "-") r)
]

no_micro_vm :
    (r : Text)
    → (is_micro_vm_source (text "aegis-daemon-temp" ++ r) ≡ false)
      × (is_micro_vm_source (text "daemon-temp" ++ r) ≡ false)
      × (is_micro_vm_source (text "aegis-cli-internal" ++ r) ≡ false)
unfolding is_micro_vm_source role_vm_prefixes same has_prefix
no_micro_vm r = (refl, refl, refl)

-- No id of an ephemeral client is a microVM's, so the check that the hub leaves out on these
-- connections would let every command of theirs pass.
pub ephemeral_needs_no_grant :
    (id : Text)
    → is_ephemeral_client id ≡ true
    → (is_micro_vm_source id ≡ false)
      × ((bootstrap : State) (cache : Cache) (answer : Option Snapshot) (command : Text)
          → check_hub_permission bootstrap cache answer id command ≡ true)
unfolding is_ephemeral_client check_hub_permission should_receive_permission_snapshot
ephemeral_needs_no_grant id h = (plain, λ bootstrap cache answer command. ground (arith, plain))
  where
    starts :
        (fam : Text)
        → in_family id fam ≡ true
        → ((r : Text) → is_micro_vm_source (fam ++ r) ≡ false)
        → is_micro_vm_source id ≡ false
    starts fam k all = let (r, e) = family_starts id fam k in rw e (all r)

    plain : is_micro_vm_source id ≡ false
    plain = elim (Bool-cases (in_family id (text "aegis-daemon-temp"))) [
      | inl a ↦ starts (text "aegis-daemon-temp") a (λ r. (no_micro_vm r).0)
      | inr a ↦ elim (Bool-cases (in_family id (text "daemon-temp"))) [
        | inl b ↦ starts (text "daemon-temp") b (λ r. (no_micro_vm r).1)
        | inr b ↦
            starts (text "aegis-cli-internal") (ground (arith, h, a, b)) (λ r. (no_micro_vm r).2)
      ]
    ]
