-- ===== src/Ids/Families.antt =====
-- internal/hubids/hubids.go: the host-only hub client families.
use aegis_claw.Base.{Bool, ◌&&◌, ◌||◌, List, [], ◌∷◌, ◌++◌, ◌+◌, any, length, ltb}
use aegis_claw.Base.Text.{Text, text, same, has_prefix}

abbrev pub ephemeral_client_families : List Text
ephemeral_client_families =
    text "aegis-daemon-temp" ∷ text "daemon-temp" ∷ text "aegis-cli-internal" ∷ []

abbrev pub host_client_families : List Text
host_client_families =
    (text "daemon" ∷ text "daemon-internal" ∷ text "channel-facilitator" ∷ [])
    ++ ephemeral_client_families

unfoldable pub in_family : Text → Text → Bool
in_family id fam =
    same id fam || (has_prefix id (fam ++ text "-") && ltb (length fam + 1) (length id))

unfoldable pub is_ephemeral_client : Text → Bool
is_ephemeral_client id = any (in_family id) ephemeral_client_families

unfoldable pub is_host_client : Text → Bool
is_host_client id = any (in_family id) host_client_families
