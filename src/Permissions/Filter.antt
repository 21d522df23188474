-- ===== src/Permissions/Filter.antt =====
-- internal/permissions/filter.go: what a subject may call and what it may see.
pub mod Visible
pub mod Level
use aegis_claw.Base.{
  Bool, true, false, not, ◌&&◌, List, [], ◌∷◌, Option, none, some, if◌then◌else◌, any,
}
use aegis_claw.Base.Text.{Text, text, same, is_empty, one_of, has_prefix}
use aegis_claw.Permissions.Types.{
  Grant, VisibilityRule, Snapshot, State, hidden, granted_only, requestable, public,
}
use aegis_claw.Permissions.Match.{subject_matches}

-- The maps from names to true are the lists of their keys.
pub record Filter : Type 0 where
  pub allowed_tools : List Text
  pub visible_tools : List Text
  pub requestable_tools : List Text
  pub can_discover : Bool
  pub enforce : Bool

unfoldable pub strings_has_prefix_any : Text → List Text → Bool
strings_has_prefix_any s prefixes = any (λ p. has_prefix s p) prefixes

unfoldable pub default_visibility : Text → Text
unfolding strings_has_prefix_any
default_visibility cap =
    if same cap (text "tool.registry.discover")
    then granted_only
    else if strings_has_prefix_any cap
        (text "court." ∷ text "secrets." ∷ text "permission.grant" ∷ text "visibility.set" ∷ [])
    then hidden
    else if strings_has_prefix_any cap (
        text "channel." ∷ text "memory." ∷ text "llm." ∷ text "tool.list" ∷ text "tool.search" ∷ [])
    then public
    else granted_only

-- The loop over the grants that fills `allowed`.
unfoldable pub allowed_by : Text → List Grant → List Text
allowed_by subject_id [] = []
allowed_by subject_id (g ∷ gs) =
    let rest = allowed_by subject_id gs in
    if subject_matches subject_id g.subject then g.capability ∷ rest else rest

-- out[r.Capability] = r.Level for a rule that applies to the subject and the capability.
abbrev pub next_level : Text → Text → Text → VisibilityRule → Text
next_level subject_id cap level r =
    if subject_matches subject_id r.subject && same r.capability cap then r.level else level

-- visByCap[cap] of resolveVisibility: the last rule that applies wins, and "" is no rule.
unfoldable pub resolved_level : Text → Text → Text → List VisibilityRule → Text
resolved_level subject_id cap level [] = level
resolved_level subject_id cap level (r ∷ rs) =
    resolved_level subject_id cap (next_level subject_id cap level r) rs

unfoldable pub level_of : State → Text → Text → Text
level_of state subject_id cap =
    let level = resolved_level subject_id cap [] state.visibility in
    if is_empty level then default_visibility cap else level

-- The two maps that the loop over the capabilities fills.
pub record Tools : Type 0 where
  pub visible : List Text
  pub requestable : List Text

abbrev show : Text → Tools → Tools
show cap t = record t { visible = cap ∷ t.visible }

abbrev offer : Text → Tools → Tools
offer cap t = record { visible = cap ∷ t.visible; requestable = cap ∷ t.requestable }

-- The switch on the level.
unfoldable pub mark : Text → Text → Bool → Tools → Tools
mark cap level allowed t =
    if same level hidden
    then t
    else if same level granted_only
    then (if allowed then show cap t else t)
    else if same level requestable
    then (if not allowed then offer cap t else show cap t)
    else if same level public
    then show cap t
    else (if allowed then show cap t else t)

unfoldable pub mark_all : (Text → Text) → List Text → List Text → Tools → Tools
unfolding mark
mark_all level allowed [] t = t
mark_all level allowed (cap ∷ caps) t =
    mark_all level allowed caps (mark cap (level cap) (one_of allowed cap) t)

abbrev pub no_tools : Tools
no_tools = record { visible = []; requestable = [] }

unfoldable pub build_filter : Option State → Text → List Text → Filter
unfolding mark_all allowed_by
build_filter none subject_id all_capabilities = record {
  allowed_tools = [];
  visible_tools = [];
  requestable_tools = [];
  can_discover = false;
  enforce = true;
}
build_filter (some state) subject_id all_capabilities =
    let allowed = allowed_by subject_id state.grants in
    let tools = mark_all (level_of state subject_id) allowed all_capabilities no_tools in
    record {
      allowed_tools = allowed;
      visible_tools = tools.visible;
      requestable_tools = tools.requestable;
      can_discover = one_of allowed (text "tool.registry.discover");
      enforce = true;
    }

unfoldable pub build_snapshot : State → Text → List Text → Text → Snapshot
unfolding build_filter
build_snapshot state subject_id all_capabilities now =
    let f = build_filter (some state) subject_id all_capabilities in
    record {
      subject = subject_id;
      allowed_tools = f.allowed_tools;
      visible_tools = f.visible_tools;
      requestable_tools = f.requestable_tools;
      can_discover = f.can_discover;
      version = state.version;
      timestamp = now;
    }

unfoldable pub has_grant : Option State → Text → Text → Bool
has_grant none subject_id capability = false
has_grant (some state) subject_id capability =
    any (λ g. same g.capability capability && subject_matches subject_id g.subject) state.grants

unfoldable pub is_visible_for_discovery : Option State → Text → Text → List Text → Bool
unfolding build_filter
is_visible_for_discovery state subject_id capability all_capabilities =
    one_of (build_filter state subject_id all_capabilities).visible_tools capability
