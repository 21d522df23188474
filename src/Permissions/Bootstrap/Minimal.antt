-- ===== src/Permissions/Bootstrap/Minimal.antt =====
-- What a first start grants to nobody.
use aegis_claw.Base.{◌≡◌, refl, false, some}
use aegis_claw.Base.Text.{Text, text, same, has_prefix}
use aegis_claw.Permissions.Source.{is_micro_vm_source, role_vm_prefixes}
use aegis_claw.Permissions.Filter.{has_grant}
use aegis_claw.Permissions.Bootstrap.{default_bootstrap}

-- The state of a first start grants none of the privileged capabilities to any subject at all.
pub bootstrap_withholds :
    (now id : Text)
    → let s = some (default_bootstrap now) in
      (has_grant s id (text "permission.grant") ≡ false)
      × (has_grant s id (text "permission.revoke") ≡ false)
      × (has_grant s id (text "visibility.set") ≡ false)
      × (has_grant s id (text "court.review") ≡ false)
      × (has_grant s id (text "secrets.push") ≡ false)
      × (has_grant s id (text "tool.registry.discover") ≡ false)
unfolding default_bootstrap has_grant same is_micro_vm_source role_vm_prefixes has_prefix
bootstrap_withholds now id = (refl, refl, refl, refl, refl, refl)
