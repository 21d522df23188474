-- ===== src/Collab/Activity/Human.antt =====
-- internal/collab/activity.go: the posts of people.
use aegis_claw.Base.{
  ◌≡◌, ◌≢◌, refl, sym, arith, ap, ◌∙◌, Bool, ◌||◌, if◌then◌else◌, true, false, inl, inr,
}
use aegis_claw.Base.Tests.{Bool-cases}
use aegis_claw.Base.Text.{Text, text, same, is_empty, eq_of_same, to_lower, has_prefix}
use aegis_claw.Base.Affix.{has_prefix-split}
use aegis_claw.Base.Trim.{trim_space, trim_space_idem}
use aegis_claw.Collab.Activity.{
  delivered, manager, self_post_by, is_self_post, is_human_name, is_human_poster,
  should_respond_to_activity,
}

true_is_not_false : true ≢ false
true_is_not_false e = ground arith

-- No name of the project manager is a person's.
manager_is_no_person : (s : Text) → has_prefix s manager ≡ true → is_human_name (to_lower s) ≡ false
unfolding to_lower same
manager_is_no_person s h = let (r, e) = has_prefix-split s manager h in rw e refl

no_person_differs :
    (m s : Text)
    → is_human_poster m ≡ false
    → is_human_poster s ≡ true
    → same (trim_space s) m ≡ false
unfolding is_human_poster
no_person_differs m s h k = elim (Bool-cases (same (trim_space s) m)) [
  | inl e ↦
      let trimmed : trim_space m ≡ trim_space s =
        ap trim_space (sym (eq_of_same (trim_space s) m e)) ∙ trim_space_idem s in
      let q : is_human_name (to_lower (trim_space m)) ≡ is_human_name (to_lower (trim_space s)) =
        ap (λ t. is_human_name (to_lower t)) trimmed in
      absurd (true_is_not_false (sym k ∙ (sym q ∙ h)))
  | inr e ↦ e
]

no_manager : (s : Text) → is_human_name (to_lower s) ≡ true → has_prefix s manager ≡ false
no_manager s k = elim (Bool-cases (has_prefix s manager)) [
  | inl e ↦ absurd (true_is_not_false (sym k ∙ manager_is_no_person s e))
  | inr e ↦ e
]

nothing_said :
    (a b c d : Bool)
    → b ≡ false
    → d ≡ false
    → (if a then false else if b then true else if c then d else false) ≡ false
nothing_said a b c d h k = ground arith

-- A post is no self post of a member that it does not name, unless it names the manager.
no_self_post_by :
    (m s : Text) → same s m ≡ false → has_prefix s manager ≡ false → self_post_by m s ≡ false
no_self_post_by m s h k =
    nothing_said (is_empty s) (same s m) (same m manager || has_prefix m (text "project-manager-"))
      (has_prefix s manager) h k

no_self_post :
    (member source : Text)
    → is_human_poster member ≡ false
    → is_human_poster source ≡ true
    → is_self_post member source ≡ false
unfolding is_human_poster is_self_post
no_self_post member source h k =
    no_self_post_by member (trim_space source) (no_person_differs member source h k)
      (no_manager (trim_space source) k)

-- A person's post is handed to every member that has no person's name itself.
pub should_respond_to_activity_human :
    (member source content : Text)
    → is_human_poster member ≡ false
    → is_human_poster source ≡ true
    → should_respond_to_activity member source content ≡ (true, delivered)
unfolding should_respond_to_activity
should_respond_to_activity_human member source content h k =
    rw (no_self_post member source h k) refl
