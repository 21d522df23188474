-- ===== src/Ids/Lowered.antt =====
-- Reserved prefixes, which match in any case of letters, and host-only ids, which do not.
use aegis_claw.Base.{
  ◌≡◌, refl, ap, ◌∙◌, inl, inr, ◌≢◌, true, false, List, [], ◌∷◌, ◌++◌, none, arith, Bool-cases, any,
  All,
}
use aegis_claw.Base.Text.{Text, text, same, same_refl, eq_of_same, is_empty, to_lower, lower_byte}
use aegis_claw.Base.Affix.{has_prefix-split, has_prefix_of_eq}
use aegis_claw.Ids.Families.{host_client_families}
use aegis_claw.Ids.VmId.{validate_vm_id}
use aegis_claw.Ids.ChannelId.{role_allowed}
use aegis_claw.Ids.Reserved.{
  takes_prefix, reserved_prefix, compose_role_agent_id, check_role_agent_id, host_only_vm_id,
  reserved_vm_id_prefixes, longest_match,
}
use aegis_claw.Ids.Gate.{check_generic_sound}

to_lower-append : (s t : Text) → to_lower (s ++ t) ≡ to_lower s ++ to_lower t
unfolding to_lower
to_lower-append [] t = refl
to_lower-append (c ∷ s) t = ap (λ r. lower_byte c ∷ r) (to_lower-append s t)

-- A prefix that is lower case is taken by the lowered id too.
takes_prefix-to_lower :
    (p id : Text)
    → to_lower p ≡ p
    → to_lower (p ++ text "-") ≡ p ++ text "-"
    → takes_prefix id p ≡ true
    → takes_prefix (to_lower id) p ≡ true
takes_prefix-to_lower p id e ed h = elim (Bool-cases (same id p)) [
  | inl k ↦
      let q : to_lower id ≡ p = ap to_lower (eq_of_same id p k) ∙ e in
      rw q (ground (arith, same_refl p))
  | inr k ↦
      let (r, q) = has_prefix-split id (p ++ text "-") (ground arith) in
      let low : to_lower id ≡ (p ++ text "-") ++ to_lower r =
        ap to_lower q ∙ (to_lower-append (p ++ text "-") r ∙ ap (λ t. t ++ to_lower r) ed) in
      ground (arith, has_prefix_of_eq (to_lower id) (p ++ text "-") (to_lower r) low)
]

-- A match found stays, or gives way to a longer one.
longest_match-found :
    (lower matched : Text) (ps : List Text)
    → is_empty matched ≡ false
    → is_empty (longest_match lower matched ps) ≡ false
unfolding longest_match
longest_match-found lower matched [] h = h
longest_match-found lower [] (p ∷ ps) h = cc
longest_match-found lower (c ∷ m) ([] ∷ ps) h =
    ground (arith, longest_match-found lower (c ∷ m) ps refl)
longest_match-found lower (c ∷ m) ((d ∷ p) ∷ ps) h =
    ground
      (arith, longest_match-found lower (c ∷ m) ps refl, longest_match-found lower (d ∷ p) ps refl)

abbrev NotEmpty : Text → Type 0
NotEmpty t = is_empty t ≡ false

longest_match-any :
    (lower matched : Text) (ps : List Text)
    → All NotEmpty ps
    → any (takes_prefix lower) ps ≡ true
    → is_empty (longest_match lower matched ps) ≡ false
unfolding longest_match
longest_match-any lower matched [] a h = cc
longest_match-any lower (c ∷ m) ps a h = longest_match-found lower (c ∷ m) ps refl
longest_match-any lower [] ([] ∷ ps) a h = cc (a.0)
longest_match-any lower [] ((d ∷ p) ∷ ps) a h =
    ground (arith, longest_match-any lower [] ps a.1, longest_match-found lower (d ∷ p) ps refl)

abbrev IsLower : Text → Type 0
IsLower p = (to_lower p ≡ p) × (to_lower (p ++ text "-") ≡ p ++ text "-")

any_takes-to_lower :
    (id : Text) (ps : List Text)
    → All IsLower ps
    → any (takes_prefix id) ps ≡ true
    → any (takes_prefix (to_lower id)) ps ≡ true
any_takes-to_lower id [] a h = cc
any_takes-to_lower id (p ∷ ps) a h = elim (Bool-cases (takes_prefix id p)) [
  | inl t ↦ rw (takes_prefix-to_lower p id a.0.0 a.0.1 t) refl
  | inr t ↦ ground (arith, any_takes-to_lower id ps a.1)
]

-- The host-only ids as prefixes.
abbrev host_prefixes : List Text
host_prefixes = text "hub" ∷ text "hub-perm-fetch" ∷ host_client_families

host_only_takes :
    (id : Text) → host_only_vm_id id ≡ true → any (takes_prefix id) host_prefixes ≡ true
unfolding host_only_vm_id
host_only_takes id h = ground arith

host_prefixes-IsLower : All IsLower host_prefixes
unfolding to_lower
host_prefixes-IsLower = (
  (refl, refl),
  (
    (refl, refl),
    (
      (refl, refl),
      ((refl, refl), ((refl, refl), ((refl, refl), ((refl, refl), ((refl, refl), tt))))),
    ),
  ),
)

reserved_takes :
    (lower : Text)
    → any (takes_prefix lower) host_prefixes ≡ true
    → any (takes_prefix lower) reserved_vm_id_prefixes ≡ true
unfolding reserved_vm_id_prefixes
reserved_takes lower h = ground arith

reserved-NotEmpty : All NotEmpty reserved_vm_id_prefixes
unfolding reserved_vm_id_prefixes
reserved-NotEmpty = (
  refl,
  (
    refl,
    (
      refl,
      (
        refl,
        (
          refl,
          (
            refl,
            (refl, (refl, (refl, (refl, (refl, (refl, (refl, (refl, (refl, (refl, tt)))))))))),
          ),
        ),
      ),
    ),
  ),
)

-- Every host-only id has a reserved prefix.
pub host_only_reserved : (id : Text) → host_only_vm_id id ≡ true → reserved_prefix id ≢ none
unfolding reserved_prefix
host_only_reserved id h e =
    let found = longest_match-any (to_lower id) [] reserved_vm_id_prefixes reserved-NotEmpty (
      reserved_takes (to_lower id)
        (any_takes-to_lower id host_prefixes host_prefixes-IsLower (host_only_takes id h))) in
    ground (arith, found)

-- Whatever role and channel hint a caller sends outside the paired path, an id that the gate lets
-- through is the composed one; its role is on the list; it is a valid VM id; and it carries no
-- reserved prefix, in any case of letters, and is no host-only id.
pub check_role_agent_id_sound :
    (role hint out : Text)
    → same role (text "agent") ≡ false
    → is_empty role ≡ false
    → check_role_agent_id role hint ≡ (out, none)
    → (out ≡ compose_role_agent_id role hint)
      × (role_allowed role ≡ true)
      × (validate_vm_id out ≡ none)
      × (reserved_prefix out ≡ none)
      × (host_only_vm_id out ≡ false)
unfolding check_role_agent_id
check_role_agent_id_sound role hint out no_agent full h =
    let id = compose_role_agent_id role hint in
    let (e, free, allowed, valid) = check_generic_sound role id out (ground arith) in
    (e, allowed, rw e valid, rw e free, rw e (not_host free))
  where
    not_host :
        reserved_prefix (compose_role_agent_id role hint) ≡ none
        → host_only_vm_id (compose_role_agent_id role hint) ≡ false
    not_host free = elim (Bool-cases (host_only_vm_id (compose_role_agent_id role hint))) [
      | inl k ↦ absurd (host_only_reserved _ k free)
      | inr k ↦ k
    ]
