-- ===== src/Store/Discover.antt =====
-- cmd/store/permissions.go: tool.registry.discover.
use aegis_claw.Base.{◌&&◌, ◌||◌, List, [], ◌∷◌, some, Bool, true, false, if◌then◌else◌}
use aegis_claw.Base.Text.{Text, one_of, text}
use aegis_claw.Permissions
use aegis_claw.Permissions.World.{Answer}
use aegis_claw.Base.Json.{str, arr, obj, Items, nil, cons, Fields, end, field, get}
use aegis_claw.Channel.Sequence.{is_null}
use aegis_claw.Permissions.Filter.{has_grant, level_of}
use aegis_claw.Permissions.Filter.Visible
use aegis_claw.Store.World.{Request, Response, World, reply, append_item}
use aegis_claw.Store.Policy.{is_shown, capability_tool, all_capabilities}

abbrev is_reply : Answer → Bool
is_reply (Answer.reply command body) = true
is_reply _ = false

-- The source has a grant of the capability, or its level shows it: it is known, not hidden, and
-- requestable or public.
abbrev pub may_see : World → Text → Text → Bool
may_see w source id =
    let allowed = has_grant (some w.permissions) source id in
    allowed
    || (one_of (all_capabilities w.skills) id
        && Visible.is_shown (level_of w.permissions source id) allowed)

-- The skills that pass a test, and behind them the capabilities that pass it and are no skill.
unfoldable pub skills_where : (Text → Bool) → Fields → Items
skills_where p end = nil
skills_where p (field id skill m) =
    let rest = skills_where p m in if p id then cons skill rest else rest

unfoldable pub capabilities_where : (Text → Bool) → Fields → List Text → Items → Items
capabilities_where p skills [] tools = tools
capabilities_where p skills (cap ∷ caps) tools =
    capabilities_where p skills caps
      (if p cap && is_null (get skills cap) then append_item tools (capability_tool cap) else tools)

abbrev pub listing : Request → World → Response
listing r w =
    let p = may_see w r.source in
    reply (text "tool.registry.discover") (
      obj (
        field (text "tools")
          (arr
            (capabilities_where p w.skills (all_capabilities w.skills) (skills_where p w.skills)))
          (field (text "subject") (str r.source) end)))
