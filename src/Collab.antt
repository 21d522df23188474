-- ===== src/Collab.antt =====
-- internal/collab: member roles (role.go) and the display names of intro.go. Spaces are those of ASCII.
pub mod Activity
pub mod Mention
pub mod Reply
mod Examples
use aegis_claw.Base.{
  Bool, not, ◌&&◌, ◌||◌, List, [], ◌∷◌, ◌++◌, if◌then◌else◌, any, map, ◌==◌, length, drop,
}
use aegis_claw.Base.Text.{Text, text, same, is_empty, to_lower, has_prefix}
use aegis_claw.Base.Trim.{trim_space}

unfoldable pub normalize_collab_source_id : Text → Text
unfolding same has_prefix
normalize_collab_source_id id =
    if same id (text "project-manager") || has_prefix id (text "project-manager-")
    then text "project-manager"
    else id

unfoldable pub main_channel_roster : List Text
main_channel_roster =
    text "project-manager"
    ∷ text "court-persona-ciso"
    ∷ text "court-persona-security-architect"
    ∷ text "court-persona-architect"
    ∷ text "court-persona-senior-coder"
    ∷ text "court-persona-tester"
    ∷ text "court-persona-efficiency"
    ∷ text "court-persona-user-advocate"
    ∷ []

abbrev pub persona_prefix : Text
persona_prefix = text "court-persona-"

unfoldable pub persona_slug_from_source : Text → Text
persona_slug_from_source id =
    if has_prefix id persona_prefix then drop (length persona_prefix) id else []

-- The value of the first case that the text is, or else the default.
unfoldable pub first_case : List (Text × Text) → Text → Text → Text
first_case [] s other = other
first_case ((k, v) ∷ cases) s other =
    let rest = first_case cases s other in if same s k then v else rest

abbrev display_names : List (Text × Text)
display_names =
    (text "project-manager", text "Project Manager")
    ∷ (text "court-persona-ciso", text "Chief Information Security Officer (CISO)")
    ∷ (text "court-persona-security-architect", text "Security Architect")
    ∷ (text "court-persona-architect", text "System Architect")
    ∷ (text "court-persona-senior-coder", text "Senior Coder")
    ∷ (text "court-persona-tester", text "Tester")
    ∷ (text "court-persona-efficiency", text "Efficiency Expert")
    ∷ (text "court-persona-user-advocate", text "User Advocate")
    ∷ []

-- strings.ReplaceAll(s, from, to) for single bytes
abbrev pub replace_byte : Text → Text → Text → Text
replace_byte s (a ∷ []) (b ∷ []) = map (λ c. if c == a then b else c) s
replace_byte s _ _ = s

unfoldable pub display_name : Text → Text
unfolding normalize_collab_source_id persona_slug_from_source first_case
display_name source_id =
    let id = normalize_collab_source_id source_id in
    let slug = persona_slug_from_source id in
    first_case display_names id
      (if not (is_empty slug) then replace_byte slug (text "-") (text " ") else id)

abbrev bare_roles : List Text
bare_roles =
    text "project-manager"
    ∷ text "coder"
    ∷ text "tester"
    ∷ text "ciso"
    ∷ text "architect"
    ∷ text "researcher"
    ∷ []

-- The first bare role that the text extends by a dash, or the text.
unfoldable pub strip_suffix : List Text → Text → Text
strip_suffix [] role = role
strip_suffix (bare ∷ rest) role =
    let other = strip_suffix rest role in if has_prefix role (bare ++ text "-") then bare else other

abbrev kept_apart : Text → Bool
kept_apart role = has_prefix role persona_prefix || has_prefix role (text "user:")

abbrev role_cases : List (Text × Text)
role_cases =
    (text "coder", text "coder")
    ∷ (text "senior-coder", text "coder")
    ∷ (text "senior coder", text "coder")
    ∷ (text "tester", text "tester")
    ∷ (text "ciso", text "ciso")
    ∷ (text "architect", text "architect")
    ∷ (text "system architect", text "architect")
    ∷ (text "researcher", text "researcher")
    ∷ (text "project manager", text "project-manager")
    ∷ (text "pm", text "project-manager")
    ∷ []

-- A human's placeholder, where the role has no dash.
abbrev human : Text → Text
human role =
    let slug = to_lower (replace_byte role (text " ") (text "-")) in
    if not (any (λ c. c == b'-') role) && (not (is_empty slug) && not (same slug (text "user")))
    then text "user:" ++ slug
    else role

-- The first id of the roster with this display name.
unfoldable pub by_display_name : List Text → Text → Text → Text
unfolding display_name
by_display_name [] role other = other
by_display_name (id ∷ ids) role other =
    let rest = by_display_name ids role other in if same (display_name id) role then id else rest

abbrev persona_or_human : Text → Text
persona_or_human role =
    let slug = persona_slug_from_source role in
    if not (is_empty slug) then persona_prefix ++ slug else human role

abbrev normalize_stripped : Text → Text
normalize_stripped role =
    if kept_apart role || same role (text "user")
    then role
    else if same role (text "project-manager") || has_prefix role (text "project-manager-")
    then text "project-manager"
    else first_case role_cases (to_lower role)
        (by_display_name main_channel_roster role (persona_or_human role))

unfoldable pub normalize_member_role : Text → Text
unfolding trim_space to_lower persona_slug_from_source first_case strip_suffix by_display_name
normalize_member_role raw =
    let role = trim_space raw in
    if is_empty role
    then role
    else normalize_stripped (if kept_apart role then role else strip_suffix bare_roles role)

unfoldable pub channel_member_agent_id : Text → Text → Text
unfolding normalize_member_role
channel_member_agent_id raw channel_id =
    let role = normalize_member_role raw in
    if is_empty role
    then []
    else if same role (text "project-manager") && not (is_empty channel_id)
    then text "project-manager-" ++ channel_id
    else if not (is_empty channel_id) && not (has_prefix role persona_prefix)
    then role ++ (text "-" ++ channel_id)
    else role
