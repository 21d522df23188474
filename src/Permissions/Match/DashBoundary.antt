-- ===== src/Permissions/Match/DashBoundary.antt =====
-- What a wildcard subject pattern stands for.
use aegis_claw.Base.{
  ◌≡◌, refl, sym, ◌∙◌, ◌↔◌, ◌⊎◌, inl, inr, true, false, ◌||◌, [], ◌∷◌, ◌++◌, arith, Bool-cases,
}
use aegis_claw.Base.Text.{Text, text, same, same_refl, eq_of_same, is_empty, has_prefix, has_suffix}
use aegis_claw.Base.Affix.{
  has_prefix-split, has_prefix_of_eq, has_suffix-append, trim_suffix-append, same-false,
}
use aegis_claw.Permissions.Match.{prefix_matches, subject_matches}
use mathlib.Core.List.{append_assoc}

nonempty_star : (p : Text) → is_empty p ≡ false → same (p ++ text "*") (text "*") ≡ false
nonempty_star [] h = cc
nonempty_star (c ∷ []) h = same-false _ _ (λ e. cc)
nonempty_star (c ∷ d ∷ p) h = same-false _ _ (λ e. cc)

nonempty-append : (p s : Text) → is_empty p ≡ false → is_empty (p ++ s) ≡ false
nonempty-append [] s h = cc
nonempty-append (c ∷ p) s h = refl

-- A pattern "<p>*" is decided by its prefix.
pub subject_matches-star :
    (id p : Text) → is_empty p ≡ false → subject_matches id (p ++ text "*") ≡ prefix_matches id p
unfolding subject_matches
subject_matches-star id p h =
    rw
      (
        nonempty-append p (text "*") h,
        nonempty_star p h,
        has_suffix-append p (text "*"),
        trim_suffix-append p (text "*"),
      )
      refl

-- A pattern "<p>*" whose prefix is not empty and ends neither in '-' nor in '.' matches exactly the
-- id p and the ids that continue p with a dash.
pub subject_matches_dash_boundary :
    (id p : Text)
    → is_empty p ≡ false
    → has_suffix p (text "-") ≡ false
    → has_suffix p (text ".") ≡ false
    → (subject_matches id (p ++ text "*") ≡ true)
      ↔ ((id ≡ p) ⊎ ((r : Text) × (id ≡ p ++ (text "-" ++ r))))
unfolding prefix_matches
subject_matches_dash_boundary id p full dash dot = (only, covers)
  where
    decided : subject_matches id (p ++ text "*") ≡ (same id p || has_prefix id (p ++ text "-"))
    decided = subject_matches-star id p full ∙ rw (full, dash, dot) refl

    only :
        subject_matches id (p ++ text "*") ≡ true
        → (id ≡ p) ⊎ ((r : Text) × (id ≡ p ++ (text "-" ++ r)))
    only h = elim (Bool-cases (same id p)) [
      | inl e ↦ inl (eq_of_same id p e)
      | inr ne ↦
          let (r, e) = has_prefix-split id (p ++ text "-") (ground (arith, decided)) in
          inr (r, e ∙ append_assoc p (text "-") r)
    ]

    covers :
        (id ≡ p) ⊎ ((r : Text) × (id ≡ p ++ (text "-" ++ r)))
        → subject_matches id (p ++ text "*") ≡ true
    covers (inl e) = decided ∙ rw e (ground (arith, same_refl p))
    covers (inr (r, e)) =
        decided
        ∙ ground
            (arith, has_prefix_of_eq id (p ++ text "-") r (e ∙ sym (append_assoc p (text "-") r)))
