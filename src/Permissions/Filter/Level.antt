-- ===== src/Permissions/Filter/Level.antt =====
-- What setting a visibility rule does to the levels that subjects see.
use aegis_claw.Base.{
  ◌≡◌, refl, inl, inr, false, not, ◌&&◌, List, [], ◌∷◌, ◌++◌, arith, Bool-cases, if◌then◌else◌,
  keep,
}
use aegis_claw.Base.Text.{Text, same, is_empty, eq_of_same}
use aegis_claw.Permissions.Types.{VisibilityRule, State}
use aegis_claw.Permissions.Match.{subject_matches}
use aegis_claw.Permissions.Grants.{is_rule, set_visibility}
use aegis_claw.Permissions.Filter.{next_level, resolved_level, level_of, default_visibility}

resolved_level-append :
    (id cap level : Text) (rs : List VisibilityRule) (r : VisibilityRule)
    → resolved_level id cap level (rs ++ r ∷ []) ≡ (
        if subject_matches id r.subject && same r.capability cap
        then r.level
        else resolved_level id cap level rs)
unfolding resolved_level
resolved_level-append id cap level [] r = refl
resolved_level-append id cap level (q ∷ rs) r =
    resolved_level-append id cap (next_level id cap level q) rs r

-- Rules that do not apply can be left out.
resolved_level-keep :
    (subject capability id cap level : Text) (rs : List VisibilityRule)
    → (subject_matches id subject && same capability cap) ≡ false
    → resolved_level id cap level (keep (λ r. not (is_rule subject capability r)) rs)
      ≡ resolved_level id cap level rs
unfolding resolved_level
resolved_level-keep subject capability id cap level [] h = refl
resolved_level-keep subject capability id cap level (r ∷ rs) h =
    elim (Bool-cases (is_rule subject capability r)) [
      | inl e ↦
          let s : r.subject ≡ subject = eq_of_same _ _ (ground arith) in
          let c : r.capability ≡ capability = eq_of_same _ _ (ground arith) in
          let off : (subject_matches id r.subject && same r.capability cap) ≡ false = rw (s, c) h in
          rw (e, off) (resolved_level-keep subject capability id cap level rs h)
      | inr e ↦
          rw e (resolved_level-keep subject capability id cap (next_level id cap level r) rs h)
    ]

-- After SetVisibility the new rule decides the level of its capability for every subject that its
-- pattern matches, whatever rules stood before; every other level is as it was.
pub level_of-set_visibility :
    (s : State) (subject capability level set_by reason now id cap : Text)
    → level_of (set_visibility s subject capability level set_by reason now) id cap ≡ (
        if subject_matches id subject && same capability cap
        then (if is_empty level then default_visibility cap else level)
        else level_of s id cap)
unfolding level_of set_visibility
level_of-set_visibility s subject capability level set_by reason now id cap =
    rw
      (resolved_level-append id cap [] (keep (λ r. not (is_rule subject capability r)) s.visibility)
        (record {
          subject = subject;
          capability = capability;
          level = level;
          reason = reason;
          set_by = set_by;
          set_at = now;
        }))
      (elim (Bool-cases (subject_matches id subject && same capability cap)) [
        | inl e ↦ rw e refl
        | inr e ↦ rw (e, resolved_level-keep subject capability id cap [] s.visibility e) refl
      ])
