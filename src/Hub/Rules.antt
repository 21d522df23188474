-- ===== src/Hub/Rules.antt =====
-- The access rules as a set of permissions: what a list of rules allows, and how an id pattern
-- relates to the subject patterns of the permission model.
use aegis_claw.Base.{◌≡◌, refl, Bool, false, ◌&&◌, List, [], ◌∷◌, arith, any}
use aegis_claw.Base.Text.{Text, text, same, same_comm, is_empty, has_suffix}
use aegis_claw.Permissions.Match.{subject_matches, prefix_matches}
use aegis_claw.Hub.Acl.{AclRule, acl_match, acl_id_match, check_acl}

-- One rule covers a command between two ids.
abbrev pub rule_covers : Text → Text → Text → AclRule → Bool
rule_covers source dest cmd rule =
    acl_id_match rule.source source
    && (acl_id_match rule.destination dest && any (λ c. acl_match c cmd) rule.commands)

-- The ACL allows a command exactly if some rule covers it, wherever the rule stands in the list and
-- whatever rules stand before it: there is no deny, and no rule allows nothing.
pub check_acl-covers :
    (rules : List AclRule) (source dest cmd : Text)
    → check_acl rules source dest cmd ≡ any (rule_covers source dest cmd) rules
unfolding check_acl
check_acl-covers [] source dest cmd = refl
check_acl-covers (rule ∷ rules) source dest cmd =
    ground (arith, check_acl-covers rules source dest cmd)

-- Except for the empty pattern, which the permission model takes as every subject, an id pattern of
-- the ACL and a subject pattern of the permission model match the same ids.
pub acl_id_match-subject_matches :
    (pattern id : Text)
    → is_empty pattern ≡ false
    → has_suffix pattern (text "*") && same pattern id ≡ false
    → acl_id_match pattern id ≡ subject_matches id pattern
unfolding acl_id_match subject_matches prefix_matches
acl_id_match-subject_matches pattern id full plain = ground (arith, same_comm pattern id)
