-- ===== src/Collab/Mention.antt =====
-- internal/collab/activity.go: who a message mentions.
use aegis_claw.Base.{Bool, not, ◌&&◌, List, [], ◌∷◌, ◌++◌, if◌then◌else◌, any, keep, ◌==◌}
use aegis_claw.Base.Text.{Text, text, same, is_empty, to_lower, has_prefix, contains}
use aegis_claw.Collab.{persona_slug_from_source, display_name, replace_byte}

unfoldable pub agent_role_label : Text → Text
unfolding to_lower has_prefix
agent_role_label source_id =
    let lower = to_lower source_id in
    if has_prefix lower (text "coder")
    then text "Senior Coder"
    else if has_prefix lower (text "tester")
    then text "Tester"
    else if has_prefix lower (text "architect")
    then text "Architect"
    else if has_prefix lower (text "ciso")
    then text "CISO"
    else text "Agent"

abbrev at : Text → Text
at t = text "@" ++ t

-- strings.ReplaceAll(s, "-", "")
abbrev without_dashes : Text → Text
without_dashes s = keep (λ c. not (c == b'-')) s

abbrev persona_candidates : Text → List Text
persona_candidates slug =
    if is_empty slug
    then []
    else at slug ∷ at (replace_byte slug (text "-") (text " ")) ∷ at (without_dashes slug) ∷ []

abbrev name_candidates : Text → List Text
name_candidates name = if is_empty name then [] else at name ∷ name ∷ []

abbrev manager_candidates : Text → List Text
manager_candidates id =
    if has_prefix id (text "project-manager")
    then text "@projectmanager"
      ∷ text "@project-manager"
      ∷ text "@project manager"
      ∷ text "project manager"
      ∷ []
    else []

abbrev label_candidates : Text → List Text
label_candidates label =
    if same label (text "Senior Coder")
    then text "@coder" ∷ text "@senior coder" ∷ text "@senior-coder" ∷ text "@seniorcoder" ∷ []
    else if same label (text "Tester")
    then text "@tester" ∷ []
    else if same label (text "Architect")
    then text "@architect" ∷ []
    else []

-- "project-manager" is among the ids with that prefix.
unfoldable pub is_mentioned : Text → Text → Bool
unfolding to_lower persona_slug_from_source display_name agent_role_label contains
is_mentioned id content =
    any (λ c. not (is_empty c) && contains (to_lower content) c)
      (at (to_lower id) ∷ []
        ++ (persona_candidates (persona_slug_from_source id)
            ++ (name_candidates (to_lower (display_name id))
                ++ (manager_candidates id ++ label_candidates (agent_role_label id)))))
