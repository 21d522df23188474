-- ===== src/Permissions/Filter/Visible.antt =====
-- What the filter of a subject allows, shows and offers.
use aegis_claw.Base.{
  ◌≡◌, refl, ap, inl, inr, Bool, not, ◌&&◌, ◌||◌, List, [], ◌∷◌, some, arith, Bool-cases, any,
}
use aegis_claw.Base.Text.{Text, text, same, same_comm, one_of, eq_of_same}
use aegis_claw.Permissions.Types.{Grant, State, hidden, granted_only, requestable, public}
use aegis_claw.Permissions.Match.{subject_matches}
use aegis_claw.Permissions.Filter.{
  Tools, allowed_by, level_of, mark, mark_all, build_filter, has_grant, no_tools,
}

allowed_by-has_grant :
    (id cap : Text) (gs : List Grant)
    → one_of (allowed_by id gs) cap
      ≡ any (λ g. same g.capability cap && subject_matches id g.subject) gs
unfolding allowed_by
allowed_by-has_grant id cap [] = refl
allowed_by-has_grant id cap (g ∷ gs) =
    ground (arith, allowed_by-has_grant id cap gs, same_comm g.capability cap)

-- When a capability is shown, and when it is offered for request.
abbrev pub is_shown : Text → Bool → Bool
is_shown level allowed =
    not (same level hidden)
    && (allowed || (not (same level granted_only) && (same level requestable || same level public)))

abbrev pub is_offered : Text → Bool → Bool
is_offered level allowed =
    not (same level hidden)
    && (not (same level granted_only) && (same level requestable && not allowed))

mark_tools :
    (x cap level : Text) (allowed : Bool) (t : Tools)
    → (one_of (mark cap level allowed t).visible x
        ≡ ((same x cap && is_shown level allowed) || one_of t.visible x))
      × (one_of (mark cap level allowed t).requestable x
          ≡ ((same x cap && is_offered level allowed) || one_of t.requestable x))
unfolding mark
mark_tools x cap level allowed t = ground arith

mark_all_tools :
    (level : Text → Text) (allowed : List Text) (x : Text) (caps : List Text) (t : Tools)
    → (one_of (mark_all level allowed caps t).visible x
        ≡ ((one_of caps x && is_shown (level x) (one_of allowed x)) || one_of t.visible x))
      × (one_of (mark_all level allowed caps t).requestable x
          ≡ ((one_of caps x && is_offered (level x) (one_of allowed x)) || one_of t.requestable x))
unfolding mark_all
mark_all_tools level allowed x [] t = (refl, refl)
mark_all_tools level allowed x (cap ∷ caps) t =
    let t' = mark cap (level cap) (one_of allowed cap) t in
    let here = mark_tools x cap (level cap) (one_of allowed cap) t in
    let rest = mark_all_tools level allowed x caps t' in
    elim (Bool-cases (same x cap)) [
      | inl e ↦
          let p = eq_of_same x cap e in
          ground (arith, here, rest, ap level p, ap (one_of allowed) p)
      | inr e ↦ ground (arith, here, rest)
    ]

-- The filter agrees with HasGrant on what is allowed; shows exactly the known capabilities that are
-- not hidden and are granted, requestable or public; and offers for request exactly the requestable
-- ones that are not granted.
pub build_filter_tools :
    (s : State) (id : Text) (caps : List Text) (x : Text)
    → let f = build_filter (some s) id caps in
      let allowed = has_grant (some s) id x in
      (one_of f.allowed_tools x ≡ allowed)
      × (one_of f.visible_tools x ≡ (one_of caps x && is_shown (level_of s id x) allowed))
      × (one_of f.requestable_tools x ≡ (one_of caps x && is_offered (level_of s id x) allowed))
      × (f.can_discover ≡ has_grant (some s) id (text "tool.registry.discover"))
unfolding build_filter has_grant
build_filter_tools s id caps x =
    let grants = allowed_by-has_grant id x s.grants in
    let tools = mark_all_tools (level_of s id) (allowed_by id s.grants) x caps no_tools in
    ground (arith, grants, tools, allowed_by-has_grant id (text "tool.registry.discover") s.grants)
