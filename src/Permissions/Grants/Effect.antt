-- ===== src/Permissions/Grants/Effect.antt =====
-- What granting and revoking do to HasGrant.
use aegis_claw.Base.{
  ◌≡◌, refl, sym, ap, inl, inr, Bool, false, not, ◌&&◌, ◌||◌, List, [], ◌∷◌, ◌++◌, none, some,
  arith, Bool-cases, if◌then◌else◌, any, keep, any-append, any-keep,
}
use aegis_claw.Base.Text.{Text, same, eq_of_same}
use aegis_claw.Permissions.Types.{Grant, State}
use aegis_claw.Permissions.Match.{subject_matches}
use aegis_claw.Permissions.Grants.{
  is_pair, added, self_grant_error, grant_capability, revoke_capability,
}
use aegis_claw.Permissions.Source.{is_micro_vm_source}
use aegis_claw.Permissions.Filter.{has_grant}

abbrev pub covers : Text → Text → Grant → Bool
covers id cap g = same g.capability cap && subject_matches id g.subject

-- Without the pair (subject, capability), what is covered by another grant or by the pair itself.
any_without_pair :
    (subject capability id cap : Text) (gs : List Grant)
    → (any (λ g. not (is_pair subject capability g) && covers id cap g) gs
        || (same capability cap && subject_matches id subject))
      ≡ (any (covers id cap) gs || (same capability cap && subject_matches id subject))
any_without_pair subject capability id cap [] = refl
any_without_pair subject capability id cap (g ∷ gs) =
    elim (Bool-cases (is_pair subject capability g)) [
      | inl e ↦
          let s : g.subject ≡ subject = eq_of_same _ _ (ground arith) in
          let c : g.capability ≡ capability = eq_of_same _ _ (ground arith) in
          ground (
            arith,
            any_without_pair subject capability id cap gs,
            ap (λ t. subject_matches id t) s,
            ap (λ t. same t cap) c,
          )
      | inr ne ↦ ground (arith, any_without_pair subject capability id cap gs)
    ]

replace_effect :
    (subject capability id cap : Text) (g : Grant) (gs : List Grant)
    → g.subject ≡ subject
    → g.capability ≡ capability
    → any (covers id cap) (keep (λ g. not (is_pair subject capability g)) gs ++ g ∷ [])
      ≡ ((same capability cap && subject_matches id subject) || any (covers id cap) gs)
replace_effect subject capability id cap g gs es ec =
    rw
      (
        any-append (covers id cap) (keep (λ g. not (is_pair subject capability g)) gs) (g ∷ []),
        any-keep (covers id cap) (λ g. not (is_pair subject capability g)) gs,
        es,
        ec,
      )
      (ground (arith, any_without_pair subject capability id cap gs))

abbrev pub is_self_grant : Text → Text → Bool
is_self_grant granted_by subject = is_micro_vm_source granted_by && same granted_by subject

-- A grant fails exactly when a microVM names itself as the subject, and then changes no answer of
-- HasGrant; otherwise it adds to HasGrant exactly what the new pair covers, for every subject and
-- every capability.
pub grant_capability_effect :
    (s : State) (subject capability granted_by reason now id cap : Text)
    → let (s', failure) = grant_capability s subject capability granted_by reason now in
      (failure ≡ (if is_self_grant granted_by subject then some self_grant_error else none))
      × (has_grant (some s') id cap ≡ (
          not (is_self_grant granted_by subject)
            && (same capability cap && subject_matches id subject)
          || has_grant (some s) id cap))
unfolding grant_capability has_grant
grant_capability_effect s subject capability granted_by reason now id cap =
    elim (Bool-cases (is_self_grant granted_by subject)) [
      | inl e ↦ rw e (refl, refl)
      | inr e ↦ rw e (
        refl,
        replace_effect subject capability id cap (added subject capability granted_by reason now)
            s.grants refl refl,
      )
    ]

any_pair_gone :
    (subject capability : Text) (gs : List Grant)
    → any (is_pair subject capability) (keep (λ g. not (is_pair subject capability g)) gs) ≡ false
any_pair_gone subject capability [] = refl
any_pair_gone subject capability (g ∷ gs) = ground (arith, any_pair_gone subject capability gs)

keep_pairs :
    (subject capability id cap : Text) (gs : List Grant)
    → any (is_pair subject capability) gs ≡ false
    → any (λ g. not (is_pair subject capability g) && covers id cap g) gs ≡ any (covers id cap) gs
keep_pairs subject capability id cap [] h = refl
keep_pairs subject capability id cap (g ∷ gs) h =
    ground (arith, keep_pairs subject capability id cap gs)

-- A revocation reports whether the pair was granted. It leaves no grant of the pair, it leaves
-- HasGrant to the grants of other pairs, and one that finds nothing leaves the whole state alone.
pub revoke_capability_effect :
    (s : State) (subject capability id cap : Text)
    → let (s', found) = revoke_capability s subject capability in
      (found ≡ any (is_pair subject capability) s.grants)
      × (any (is_pair subject capability) s'.grants ≡ false)
      × (has_grant (some s') id cap
          ≡ any (λ g. not (is_pair subject capability g) && covers id cap g) s.grants)
      × (found ≡ false → s' ≡ s)
unfolding revoke_capability has_grant
revoke_capability_effect s subject capability id cap =
    elim (Bool-cases (any (is_pair subject capability) s.grants)) [
      | inl e ↦ rw e (
        refl,
        any_pair_gone subject capability s.grants,
        any-keep (covers id cap) (λ g. not (is_pair subject capability g)) s.grants,
        λ k. cc,
      )
      | inr e ↦ rw e (refl, e, sym (keep_pairs subject capability id cap s.grants e), λ k. refl)
    ]
