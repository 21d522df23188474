-- ===== src/Collab/Examples.antt =====
-- Runs of the decisions about a channel's posts, and of the classification of replies.
use aegis_claw.Collab.Reply.{
  cut_left, cut_right, first_line, is_pass_token, is_speak_token, normalize_decision_line,
  strip_think_tags, untag, classify_stripped, closing, after_prefix, inline_after_speak,
  before_last_line, strip_trailing_control_lines, after_first_line,
}
use aegis_claw.Base.Trim.{is_space, trim_space, trim_left, trim_right}
use aegis_claw.Base.Text.{has_prefix, same, to_lower, lower_byte}
use aegis_claw.Base.{◌≡◌, refl, arith, true, false, [], some}
use aegis_claw.Base.Text.{Text, text, is_empty}
use aegis_claw.Collab.Activity.{
  delivered, self_post, is_self_post, poster_is_role, is_human_poster, is_broadcast,
  should_respond_to_activity,
}
use aegis_claw.Collab.Reply.{
  speak, missing, pass, classify_channel_llm_reply, strip_lines, is_control_line, last_line,
}
use aegis_claw.Collab.Reply.Clean.{strip_lines-ends, classify_channel_llm_reply-speak, is_clean}
use aegis_claw.Collab.Activity.Human.{should_respond_to_activity_human}

own_post_is_skipped :
    should_respond_to_activity
      (text "project-manager-main")
      (text " project-manager ")
      (text "plan")
    ≡ (false, self_post)
unfolding should_respond_to_activity is_self_post trim_space is_space same has_prefix
own_post_is_skipped = refl

role_of_a_poster : poster_is_role (text "Project-Manager-party-v2") (text "project-manager") ≡ true
unfolding poster_is_role is_space same has_prefix
role_of_a_poster = refl

asks_all : is_broadcast (text "Can EVERYONE report?") ≡ true
unfolding is_broadcast
asks_all = refl

member_is_no_person : is_human_poster (text "project-manager-main") ≡ false
unfolding is_human_poster same to_lower trim_space is_space
member_is_no_person = refl

portal_is_a_person : is_human_poster (text " Web-Portal ") ≡ true
unfolding is_human_poster same to_lower trim_space is_space
portal_is_a_person = refl

should_respond_to_activity_human_example :
    should_respond_to_activity (text "project-manager-main") (text " Web-Portal ") (text "hello")
    ≡ (true, delivered)
should_respond_to_activity_human_example =
    should_respond_to_activity_human (text "project-manager-main") (text " Web-Portal ")
      (text "hello") member_is_no_person portal_is_a_person

abbrev raw_reply : Text
raw_reply = text "<Think>w</think>SPEAK: a"

posted_reply : classify_channel_llm_reply raw_reply ≡ (text "a", speak)
unfolding classify_channel_llm_reply classify_stripped strip_think_tags untag closing
    normalize_decision_line cut_left cut_right is_pass_token is_speak_token after_prefix
    inline_after_speak last_line before_last_line is_control_line strip_lines
    strip_trailing_control_lines first_line after_first_line same has_prefix to_lower lower_byte
    trim_space trim_left trim_right is_space
posted_reply = refl

bare_prose_is_missing : classify_channel_llm_reply (text "a") ≡ ([], missing)
unfolding classify_channel_llm_reply classify_stripped strip_think_tags untag closing
    normalize_decision_line cut_left cut_right is_pass_token is_speak_token after_prefix
    inline_after_speak last_line before_last_line is_control_line strip_lines
    strip_trailing_control_lines first_line after_first_line same has_prefix to_lower lower_byte
    trim_space trim_left trim_right is_space
bare_prose_is_missing = refl

-- Markup around the token: the body on the same line is not found.
marked_body_is_lost : classify_channel_llm_reply (text "**SPEAK: a**") ≡ ([], pass)
unfolding classify_channel_llm_reply classify_stripped strip_think_tags untag closing
    normalize_decision_line cut_left cut_right is_pass_token is_speak_token after_prefix
    inline_after_speak last_line before_last_line is_control_line strip_lines
    strip_trailing_control_lines first_line after_first_line same has_prefix to_lower lower_byte
    trim_space trim_left trim_right is_space
marked_body_is_lost = refl

classify_channel_llm_reply-speak_example :
    (is_empty (text "a") ≡ false) × (is_control_line (last_line (text "a")) ≡ false)
classify_channel_llm_reply-speak_example =
    classify_channel_llm_reply-speak raw_reply (text "a") posted_reply

strip_lines-ends_example :
    (r : Text) × ((strip_lines 20 (text "Done.\nREPLY\npass.") ≡ some r) × (is_clean r ≡ true))
strip_lines-ends_example = strip_lines-ends 20 (text "Done.\nREPLY\npass.") (omega arith)
