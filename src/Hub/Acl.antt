-- ===== src/Hub/Acl.antt =====
-- cmd/aegishub/main.go: the access rules, default deny.
use aegis_claw.Base.{Bool, true, false, not, ◌&&◌, ◌||◌, List, [], ◌∷◌, ◌++◌, if◌then◌else◌, any}
use aegis_claw.Base.Text.{Text, text, same, is_empty, has_prefix, has_suffix, trim_suffix}

pub record AclRule : Type 0 where
  pub source : Text
  pub destination : Text
  pub commands : List Text

unfoldable pub acl_match : Text → Text → Bool
acl_match pattern value =
    if same pattern (text "*") || same pattern value
    then true
    else if has_suffix pattern (text "*")
    then has_prefix value (trim_suffix pattern (text "*"))
    else false

abbrev pub prefix_id_match : Text → Text → Bool
prefix_id_match value prefix =
    if not (is_empty prefix)
      && (not (has_suffix prefix (text "-")) && not (has_suffix prefix (text ".")))
    then same value prefix || has_prefix value (prefix ++ text "-")
    else has_prefix value prefix

unfoldable pub acl_id_match : Text → Text → Bool
acl_id_match pattern value =
    if same pattern (text "*") || same pattern value
    then true
    else if has_suffix pattern (text "*")
    then prefix_id_match value (trim_suffix pattern (text "*"))
    else false

unfoldable pub check_acl : List AclRule → Text → Text → Text → Bool
check_acl [] source dest cmd = false
check_acl (rule ∷ rules) source dest cmd =
    let rest = check_acl rules source dest cmd in
    if not (acl_id_match rule.source source)
    then rest
    else if not (acl_id_match rule.destination dest)
    then rest
    else if any (λ c. acl_match c cmd) rule.commands
    then true
    else rest
