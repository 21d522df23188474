-- ===== src/Hub/Snapshots.antt =====
-- cmd/aegishub/permissions.go: the hub's cache of permission snapshots, the check that it makes of a
-- command, and which snapshots a policy change makes stale. What the Store answers is an argument.
use aegis_claw.Base.{
  Bool, true, not, ◌&&◌, ◌||◌, List, [], ◌∷◌, Option, none, some, if◌then◌else◌, keep,
}
use aegis_claw.Base.Text.{Text, text, same, is_empty, one_of, has_suffix}
use aegis_claw.Base.Assoc.{lookup, insert}
use aegis_claw.Permissions.Types.{State, Snapshot}
use aegis_claw.Permissions.Match.{subject_matches}
use aegis_claw.Permissions.Source.{is_micro_vm_source}
use aegis_claw.Permissions.Filter.{has_grant}
use aegis_claw.Permissions.Capability.{is_capability_command}
use aegis_claw.Hub.Registry.{id_key}

abbrev pub Cache : Type 0
Cache = List (Text × Snapshot)

unfoldable pub should_receive_permission_snapshot : Text → Bool
should_receive_permission_snapshot component_id = is_micro_vm_source component_id

-- fetchPermissionSnapshotFromStore caches what the Store answers; none is no valid answer.
unfoldable pub fetch_permission_snapshot : Cache → Text → Option Snapshot → Cache
fetch_permission_snapshot cache id none = cache
fetch_permission_snapshot cache id (some snap) = insert id_key id snap cache

-- With no cached snapshot the Store is asked, and without its answer the bootstrap grants decide.
unfoldable pub hub_permission_allowed : State → Cache → Option Snapshot → Text → Text → Bool
hub_permission_allowed bootstrap cache answer source command = elim (lookup id_key source cache) [
  | some snap ↦ one_of snap.allowed_tools command
  | none ↦ elim answer [
    | some snap ↦ one_of snap.allowed_tools command
    | none ↦ has_grant (some bootstrap) source command
  ]
]

-- The decision; the request that a denial sends to the Store is Hub.Route.permission_request.
unfoldable pub check_hub_permission : State → Cache → Option Snapshot → Text → Text → Bool
check_hub_permission bootstrap cache answer source command =
    if not (is_capability_command command)
    then true
    else if not (should_receive_permission_snapshot source)
    then true
    else hub_permission_allowed bootstrap cache answer source command

-- The registered components whose snapshots are fetched again after a change for `subject`.
unfoldable pub invalidated : List Text → Text → List Text
invalidated registered subject =
    if is_empty subject
    then keep should_receive_permission_snapshot registered
    else if has_suffix subject (text "*")
    then keep (λ id. should_receive_permission_snapshot id && subject_matches id subject) registered
    else subject ∷ []

-- The replies and events that announce a change of policy.
abbrev pub changes_policy : Text → Bool
changes_policy command =
    same command (text "permission.granted")
    || (same command (text "permission.revoked") || same command (text "visibility.set"))
