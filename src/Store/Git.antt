-- ===== src/Store/Git.antt =====
-- cmd/store/git_rpc.go: git.clone, git.create, git.push and skill.create, and ensureBareRepo of
-- cmd/store/gitserver.go. The calls of mkdir, git and WriteFile there are `Env.init_bare`.
use aegis_claw.Base.{
  Bool, not, ◌&&◌, ◌||◌, List, [], ◌∷◌, ◌++◌, Option, none, some, if◌then◌else◌, any, ◌==◌,
}
use aegis_claw.Base.Text.{Text, text, same, is_empty, to_lower, has_prefix}
use aegis_claw.Base.Trim.{trim_space}
use aegis_claw.Base.Json.{Json, str, obj, Fields, end, field, put}
use aegis_claw.Store.Payload.{payload_map, payload_string, payload_bool}
use aegis_claw.Store.World.{Env, Request, Response, World, reply, error, save_to_file}
use aegis_claw.Store.Names.{valid_name, bare_path, remote_url, parse_url, before}

unfoldable pub is_coder_source : Text → Bool
unfolding to_lower trim_space has_prefix same
is_coder_source source =
    let s = to_lower (trim_space source) in same s (text "coder") || has_prefix s (text "coder-")

abbrev pub coder_no_git : Response
coder_no_git = error (text "coder actor has no git")

abbrev pub tenancy_deny : Text → Response
tenancy_deny detail = error (text "tenancy acl: not your tenant (" ++ (detail ++ text ")"))

abbrev pub remote_payload : Text → Text → Json
remote_payload tenant repo = obj (
    field (text "remote") (str (remote_url tenant repo))
      (field (text "tenant") (str tenant) (field (text "repo") (str repo) end)))

-- The error, if there is one; the first HEAD found ends it.
unfoldable pub ensure_bare_repo : Env → Text → Text → Option Text
ensure_bare_repo env tenant repo =
    if not (valid_name env.letters tenant) || not (valid_name env.letters repo)
    then some (text "invalid tenant or repo")
    else if env.git.head_exists (bare_path tenant repo)
    then none
    else env.init_bare (bare_path tenant repo)

-- The tenant of a remote that is another tenant's.
abbrev foreign : Text → Option (Text × Text) → Option Text
foreign tenant none = none
foreign tenant (some (t, r)) = if same t tenant then none else some t

abbrev foreign_remote : Env → Text → Fields → Text → Option Text
foreign_remote env tenant p key =
    let s = payload_string p (key ∷ []) in
    if is_empty s then none else foreign tenant (parse_url env.letters s)

abbrev ensured : Env → Text → Text → Response → Response
ensured env tenant repo done = elim (ensure_bare_repo env tenant repo) [
  | some e ↦ error e
  | none ↦ done
]

abbrev missing_name : Response
missing_name = error (text "tenant and repo required")

abbrev clone_checked : Env → Fields → Text → Text → Response
clone_checked env p tenant repo = elim (foreign_remote env tenant p (text "remote")) [
  | some t ↦ tenancy_deny (text "remote belongs to " ++ t)
  | none ↦ elim (foreign_remote env tenant p (text "target")) [
    | some t ↦ tenancy_deny (text "remote belongs to " ++ t)
    | none ↦ ensured env tenant repo (reply (text "git.cloned") (remote_payload tenant repo))
  ]
]

unfoldable pub handle_git_clone_rpc : Request → Response
handle_git_clone_rpc r =
    let p = payload_map r.payload in
    let tenant = payload_string p (text "tenant" ∷ []) in
    let repo = payload_string p (text "repo" ∷ []) in
    let from = payload_string p (text "from_tenant" ∷ []) in
    if is_coder_source r.source
    then coder_no_git
    else if is_empty tenant || is_empty repo
    then missing_name
    else if not (is_empty from) && not (same from tenant)
    then tenancy_deny (text "from_tenant " ++ (from ++ (text " is not " ++ tenant)))
    else clone_checked r.env p tenant repo

abbrev pub repo_keys : List Text
repo_keys = text "repo" ∷ text "id" ∷ text "name" ∷ []

unfoldable pub handle_git_create_rpc : Request → Response
handle_git_create_rpc r =
    let p = payload_map r.payload in
    let tenant = payload_string p (text "tenant" ∷ []) in
    let repo = payload_string p repo_keys in
    if is_coder_source r.source
    then coder_no_git
    else if is_empty tenant || is_empty repo
    then missing_name
    else ensured r.env tenant repo (reply (text "git.created") (remote_payload tenant repo))

-- for k, v := range p { rec[k] = v }
unfoldable pub copy_fields : Fields → Fields → Fields
copy_fields end m = m
copy_fields (field k v rest) m = copy_fields rest (put m k v)

abbrev pub skill_record : Fields → Text → Text → Text → Fields
skill_record p id repo tenant =
    put
      (put (put (put (copy_fields p end) (text "id") (str id)) (text "repo") (str repo))
        (text "tenant") (str tenant))
      (text "remote") (str (remote_url tenant repo))

abbrev register_skill : Text → Fields → World → World
register_skill id rec w =
    let skills = put w.skills id (obj rec) in
    save_to_file (text "skills.json") skills (record w { skills = skills })

unfoldable pub handle_skill_create_rpc : Request → World → World × Response
handle_skill_create_rpc r w =
    let p = payload_map r.payload in
    let tenant = payload_string p (text "tenant" ∷ []) in
    let repo = payload_string p repo_keys in
    let id = payload_string p (text "id" ∷ text "repo" ∷ text "name" ∷ []) in
    if is_coder_source r.source
    then (w, coder_no_git)
    else if is_empty tenant || is_empty repo
    then (w, missing_name)
    else elim (ensure_bare_repo r.env tenant repo) [
      | some e ↦ (w, error e)
      | none ↦ (
        if is_empty id then w else register_skill id (skill_record p id repo tenant) w,
        reply (text "skill.created") (remote_payload tenant repo),
      )
    ]

-- The test on strings.Index(refspec, ":"): there is a colon, with nothing but space before it.
abbrev blank_before_colon : Text → Bool
blank_before_colon refspec =
    any (λ c. c == b':') refspec && is_empty (trim_space (before b':' refspec))

unfoldable pub handle_git_push_rpc : Request → Response
handle_git_push_rpc r =
    let p = payload_map r.payload in
    let tenant = payload_string p (text "tenant" ∷ []) in
    let target = payload_string p (text "target_tenant" ∷ text "to_tenant" ∷ []) in
    let refspec = payload_string p (text "refspec" ∷ []) in
    if is_coder_source r.source
    then coder_no_git
    else if not (is_empty target) && (not (is_empty tenant) && not (same target tenant))
    then tenancy_deny (text "cannot push to target_tenant " ++ target)
    else if not (is_empty (payload_string p (text "extra_remote" ∷ [])))
        || (payload_bool p (text "submodule")
            || (payload_bool p (text "gitmodules")
                || (payload_bool p (text "lfs") || payload_bool p (text "hooks"))))
    then error (text "extra remote, submodule, lfs, and hook denied")
    else if payload_bool p (text "force") || has_prefix refspec (text "+")
    then error (text "force-push and history rewrite denied (fast-forward only)")
    else if payload_bool p (text "delete_refs") || has_prefix refspec (text ":")
    then error (text "delete-refs / history rewrite denied")
    else if blank_before_colon refspec
    then error (text "delete-refs / history rewrite denied")
    else error (text "git push is via the hub vsock remote, not a JSON pack")
