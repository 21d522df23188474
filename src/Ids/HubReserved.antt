-- ===== src/Ids/HubReserved.antt =====
-- cmd/aegishub/main.go: the ids that the hub refuses to register.
use aegis_claw.Base.{
  Bool, true, false, not, ◌&&◌, ◌||◌, [], ◌∷◌, Option, none, some, if◌then◌else◌, any,
}
use aegis_claw.Base.Text.{Text, text, same, one_of, has_prefix}
use aegis_claw.Ids.Families.{host_client_families, in_family}

pub data HubReason : Type 0 where
  hub perm_fetch host_prefix host_only : HubReason

unfoldable pub is_host_id_look_alike : Text → Bool
is_host_id_look_alike id =
    any (λ fam. not (same fam (text "daemon") || not (has_prefix id fam)) && not (in_family id fam))
      host_client_families

unfoldable pub reserved_id_reason : Text → Bool → Option HubReason
unfolding is_host_id_look_alike
reserved_id_reason id vm_transport =
    if same id (text "hub")
    then some hub
    else if same id (text "hub-perm-fetch") || has_prefix id (text "hub-perm-fetch-")
    then some perm_fetch
    else if is_host_id_look_alike id
    then some host_prefix
    else if not vm_transport
    then none
    else if one_of
        (text "store" ∷ text "network-boundary" ∷ text "web-portal" ∷ text "aegishub" ∷ []) id
    then some host_only
    else if any (λ fam. has_prefix id fam) host_client_families
    then some host_only
    else none

unfoldable pub is_reserved_hub_id : Text → Bool
is_reserved_hub_id id = elim (reserved_id_reason id false) [ none ↦ false | some r ↦ true ]
