-- ===== src/Collab/Activity.antt =====
-- internal/collab/activity.go: whose post a message is, and which members it is handed to.
pub mod Human
use aegis_claw.Base.{Bool, true, false, not, ◌&&◌, ◌||◌, List, [], ◌∷◌, ◌++◌, if◌then◌else◌, any}
use aegis_claw.Base.Text.{Text, text, same, is_empty, to_lower, has_prefix, contains}
use aegis_claw.Base.Json.{Json, str, obj, get}
use aegis_claw.Base.Trim.{trim_space}
use aegis_claw.Collab.Mention.{is_mentioned}

-- The reasons that a decision has; the others are hints for prompts.
pub data ResponseReason : Type 0 where
  self_post delivered : ResponseReason

abbrev pub manager : Text
manager = text "project-manager"

abbrev pub self_post_by : Text → Text → Bool
self_post_by member poster =
    if is_empty poster
    then false
    else if same poster member
    then true
    else if same member manager || has_prefix member (text "project-manager-")
    then has_prefix poster manager
    else false

unfoldable pub is_self_post : Text → Text → Bool
is_self_post member source = self_post_by member (trim_space source)

abbrev poster_is : Text → Text → Bool
poster_is poster role =
    if is_empty poster || is_empty role
    then false
    else same poster role
      || (has_prefix poster (role ++ text "-") || (same role manager && has_prefix poster manager))

unfoldable pub poster_is_role : Text → Text → Bool
unfolding to_lower trim_space
poster_is_role source role = poster_is (to_lower (trim_space source)) (to_lower (trim_space role))

abbrev content_text : Json → Text
content_text (str s) = s
content_text _ = []

unfoldable pub payload_content_string : Json → Text
payload_content_string (str s) = s
payload_content_string (obj m) = content_text (get m (text "content"))
payload_content_string _ = []

unfoldable pub is_corrupted_map_string : Text → Bool
unfolding trim_space contains
is_corrupted_map_string s =
    let t = trim_space s in has_prefix t (text "map[") && contains t (text "channel_id:")

abbrev pub human_names : List Text
human_names = text "user" ∷ text "cli" ∷ text "web-portal" ∷ text "portal" ∷ text "operator" ∷ []

abbrev pub is_human_name : Text → Bool
is_human_name lowered = any (λ h. same lowered h) human_names

unfoldable pub is_human_poster : Text → Bool
is_human_poster source = is_human_name (to_lower (trim_space source))

abbrev broadcast_phrases : List Text
broadcast_phrases =
    text "everyone"
    ∷ text "all of you"
    ∷ text "each of you"
    ∷ text "can everyone"
    ∷ text "can you all"
    ∷ text "you all"
    ∷ text "all agents"
    ∷ text "whole team"
    ∷ text "introduce yourself"
    ∷ text "tell me your name"
    ∷ text "who are you"
    ∷ text "what do you do"
    ∷ []

unfoldable pub is_broadcast : Text → Bool
unfolding to_lower contains
is_broadcast content = any (λ phrase. contains (to_lower content) phrase) broadcast_phrases

unfoldable pub should_respond_to_activity : Text → Text → Text → Bool × ResponseReason
unfolding is_self_post
should_respond_to_activity member source content =
    if is_self_post member source then (false, self_post) else (true, delivered)

unfoldable activity_hints : Text → Text → Bool × Bool
unfolding is_broadcast is_mentioned
activity_hints member content = (is_broadcast content, is_mentioned member content)

unfoldable should_pm_monitor : Text → Text → Bool
unfolding is_human_poster is_broadcast is_mentioned
should_pm_monitor source content =
    if is_human_poster source && not (is_broadcast content)
    then true
    else is_mentioned manager content
