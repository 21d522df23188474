-- ===== src/Permissions/Source.antt =====
-- internal/permissions/state.go and dispatch.go: which message sources are microVMs, and which of
-- those are the CISO persona.
use aegis_claw.Base.{Bool, false, ◌||◌, List, [], ◌∷◌, ◌++◌, if◌then◌else◌, any, not}
use aegis_claw.Base.Text.{Text, text, same, has_prefix}

unfoldable pub role_vm_prefixes : List Text
role_vm_prefixes =
    text "agent"
    ∷ text "project-manager"
    ∷ text "coder"
    ∷ text "tester"
    ∷ text "builder"
    ∷ text "memory"
    ∷ text "court-persona"
    ∷ text "ciso"
    ∷ text "architect"
    ∷ text "researcher"
    ∷ []

-- source == p, or source starts with p+"-".
unfoldable pub is_micro_vm_source : Text → Bool
is_micro_vm_source source =
    any (λ p. same source p || has_prefix source (p ++ text "-")) role_vm_prefixes

unfoldable pub is_ciso_source : Text → Bool
is_ciso_source source =
    has_prefix source (text "court-persona-ciso")
    || (same source (text "ciso") || has_prefix source (text "ciso-"))

unfoldable pub allows_ciso_delegation : Text → Bool → Bool
allows_ciso_delegation source enabled =
    if not enabled
    then false
    else has_prefix source (text "court-persona-ciso")
      || (same source (text "ciso") || has_prefix source (text "ciso-"))
