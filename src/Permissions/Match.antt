-- ===== src/Permissions/Match.antt =====
-- internal/permissions/match.go: a component id against a grant's subject pattern.
pub mod DashBoundary
use aegis_claw.Base.{Bool, true, not, ◌&&◌, ◌||◌, ◌++◌, if◌then◌else◌}
use aegis_claw.Base.Text.{Text, text, same, is_empty, has_prefix, has_suffix, trim_suffix}

-- The prefix of a "<prefix>*" pattern against the id.
unfoldable pub prefix_matches : Text → Text → Bool
prefix_matches subject_id prefix =
    if not (is_empty prefix)
      && (not (has_suffix prefix (text "-")) && not (has_suffix prefix (text ".")))
    then same subject_id prefix || has_prefix subject_id (prefix ++ text "-")
    else has_prefix subject_id prefix

unfoldable pub subject_matches : Text → Text → Bool
unfolding prefix_matches
subject_matches subject_id pattern =
    if is_empty pattern || same pattern (text "*")
    then true
    else if has_suffix pattern (text "*")
    then prefix_matches subject_id (trim_suffix pattern (text "*"))
    else same subject_id pattern
