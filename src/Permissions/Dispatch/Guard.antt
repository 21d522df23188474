-- ===== src/Permissions/Dispatch/Guard.antt =====
-- Who can change grants and visibility.
use aegis_claw.Base.{◌≡◌, refl, ◌∙◌, ap, true, false, List, [], ◌∷◌, some, arith, All}
use aegis_claw.Base.Text.{Text, text, same, is_empty, same_refl, has_prefix}
use aegis_claw.Base.Affix.{same-false}
use aegis_claw.Base.Json.{get, as_bool}
use aegis_claw.Permissions.Types.{State}
use aegis_claw.Permissions.Match.{subject_matches}
use aegis_claw.Permissions.Source.{is_micro_vm_source, is_ciso_source, allows_ciso_delegation}
use aegis_claw.Permissions.Grants.{record_request}
use aegis_claw.Permissions.Grants.Effect.{grant_capability_effect}
use aegis_claw.Permissions.Filter.{has_grant}
use aegis_claw.Permissions.World.{World, Call, may_not_mutate, field, subject_of, capability_of}
use aegis_claw.Permissions.Dispatch.{
  Command, on_grant, on_revoke, on_request, on_visibility_set, on_discover, on_delegation_set,
  parse_command, dispatch, dispatch_command, run,
}

abbrev pub SamePolicy : State → State → Type 0
SamePolicy s t = (s.grants ≡ t.grants) × (s.visibility ≡ t.visibility)

-- A source that the guard stops leaves grants and visibility alone, whatever it sends.
pub dispatch-SamePolicy :
    (k : Command) (c : Call) (w : World)
    → may_not_mutate w.state c.source ≡ true
    → SamePolicy (dispatch k c w).0.state w.state
unfolding dispatch on_grant on_revoke on_request on_visibility_set on_discover on_delegation_set
    record_request
dispatch-SamePolicy Command.grant c w h = ground arith
dispatch-SamePolicy Command.revoke c w h = ground arith
dispatch-SamePolicy Command.visibility_set c w h = ground arith
dispatch-SamePolicy Command.discover c w h = ground arith
dispatch-SamePolicy Command.delegation_set c w h = ground arith
dispatch-SamePolicy _ c w h = (refl, refl)

-- The delegation exempts the CISO persona only.
pub plain_source_may_not :
    (s : State) (source : Text)
    → is_micro_vm_source source ≡ true
    → is_ciso_source source ≡ false
    → may_not_mutate s source ≡ true
unfolding may_not_mutate allows_ciso_delegation is_ciso_source
plain_source_may_not s source vm plain = ground arith

abbrev pub IsPlainVm : Text × Call → Type 0
IsPlainVm (command, c) = (is_micro_vm_source c.source ≡ true) × (is_ciso_source c.source ≡ false)

-- MicroVMs other than the CISO persona can send any commands in any order, and change neither a
-- grant nor a visibility rule, whether delegation is on or off.
pub run-SamePolicy :
    (w : World) (calls : List (Text × Call))
    → All IsPlainVm calls
    → SamePolicy (run w calls).state w.state
unfolding run dispatch_command
run-SamePolicy w [] h = (refl, refl)
run-SamePolicy w ((command, c) ∷ rest) h =
    let k = parse_command command in
    let now = dispatch-SamePolicy k c w (plain_source_may_not w.state c.source h.0.0 h.0.1) in
    let later = run-SamePolicy (dispatch k c w).0 rest h.1 in (later.0 ∙ now.0, later.1 ∙ now.1)

star_is_no_ciso : is_ciso_source (text "*") ≡ false
unfolding is_ciso_source has_prefix same
star_is_no_ciso = refl

ciso_is_no_star : (s : Text) → is_ciso_source s ≡ true → same s (text "*") ≡ false
ciso_is_no_star s h = same-false s (text "*") (λ e. cc (ap is_ciso_source e, star_is_no_ciso, h))

delegated_may_mutate :
    (s : State) (source : Text)
    → s.ciso_delegation_enabled ≡ true
    → is_ciso_source source ≡ true
    → may_not_mutate s source ≡ false
unfolding may_not_mutate allows_ciso_delegation is_ciso_source
delegated_may_mutate s source on ciso = ground arith

-- A grant to "*" from a delegated CISO source covers the source itself.
grant_star-has_grant :
    (w : World) (c : Call)
    → w.state.ciso_delegation_enabled ≡ true
    → is_ciso_source c.source ≡ true
    → subject_of c ≡ text "*"
    → is_empty (capability_of c) ≡ false
    → has_grant (some (on_grant c w).0.state) c.source (capability_of c) ≡ true
unfolding on_grant subject_matches same
grant_star-has_grant w c on ciso star full =
    let (no_error, effect) =
      grant_capability_effect w.state (subject_of c) (capability_of c) c.source
        (field c.payload (text "reason")) c.now c.source (capability_of c) in
    let not_self : same c.source (subject_of c) ≡ false = rw star (ciso_is_no_star c.source ciso) in
    ground (
      arith,
      delegated_may_mutate w.state c.source on ciso,
      no_error,
      effect,
      not_self,
      same_refl (capability_of c),
      ap (λ t. subject_matches c.source t) star,
      ap is_empty star,
    )

delegation_set_on :
    (w : World) (a : Call)
    → is_ciso_source a.source ≡ false
    → as_bool (get a.payload (text "enabled")) ≡ true
    → (on_delegation_set a w).0.state.ciso_delegation_enabled ≡ true
unfolding on_delegation_set
delegation_set_on w a plain on = ground arith

-- Once any source outside the CISO persona has switched delegation on, one grant to the pattern "*"
-- gives a CISO source any capability that it names, itself included.
pub delegation_allows_self_grant :
    (w : World) (a c : Call)
    → is_ciso_source a.source ≡ false
    → as_bool (get a.payload (text "enabled")) ≡ true
    → is_ciso_source c.source ≡ true
    → subject_of c ≡ text "*"
    → is_empty (capability_of c) ≡ false
    → has_grant
        (some (run w ((text "ciso.delegation.set", a) ∷ (text "permission.grant", c) ∷ [])).state)
        c.source
        (capability_of c)
      ≡ true
unfolding run dispatch_command dispatch parse_command same
delegation_allows_self_grant w a c plain on ciso star full =
    grant_star-has_grant (on_delegation_set a w).0 c (delegation_set_on w a plain on) ciso star full
