-- ===== src/Store/Merge.antt =====
-- cmd/store/git_merge.go, and pr.merge and pr.rollback of cmd/store/git_rpc.go.
pub mod Allowed
pub mod History
use aegis_claw.Base.{
  ℕ, Bool, true, false, not, ◌&&◌, ◌||◌, List, [], ◌∷◌, ◌++◌, Option, none, some, if◌then◌else◌,
  any, leb, length,
}
use aegis_claw.Base.Text.{Text, text, same, is_empty, to_lower}
use aegis_claw.Base.Trim.{trim_space}
use aegis_claw.Base.Decimal.{decimal}
use aegis_claw.Base.Json.{boolean, str, obj, Fields, end, field, get, put, has_key, as_string}
use aegis_claw.Channel.Sequence.{object_of, is_null}
use aegis_claw.Store.Payload.{payload_map, payload_string, equal_fold}
use aegis_claw.Store.World.{Env, Request, Response, World, reply, error, save_to_file}
use aegis_claw.Store.Names.{valid_name, bare_path}

abbrev pub sig_keys : List Text
sig_keys = text "decision_sig" ∷ text "sig" ∷ text "signature" ∷ []

unfoldable pub court_decision_signed : Env → Fields → Bool
unfolding trim_space payload_string
court_decision_signed env payload =
    let merkle = get payload (text "decision_merkle") in
    if is_null merkle || is_empty (trim_space (env.sprint merkle))
    then false
    else not (is_empty (payload_string payload sig_keys))

is_hex : ℕ → Bool
is_hex c = (leb b'0' c && leb c b'9') || ((leb b'a' c && leb c b'f') || (leb b'A' c && leb c b'F'))

unfoldable pub looks_like_git_sha : Text → Bool
unfolding is_hex trim_space
looks_like_git_sha s =
    let t = trim_space s in
    leb 7 (length t) && (leb (length t) 64 && not (any (λ c. not (is_hex c)) t))

-- The last check and the update, from the current head of main.
abbrev pub not_forward : Env → Text → Text → Option Text → Bool
not_forward env bare sha none = false
not_forward env bare sha (some cur) =
    let old = trim_space cur in
    not (is_empty old) && (not (equal_fold old sha) && not (env.git.is_ancestor bare old sha))

abbrev pub update_main : Env → Text → Text → World → World × Option Text
update_main env bare sha w = elim (env.git.update_ref_main bare sha) [
  | some out ↦ (w, some (text "update-ref: " ++ trim_space out))
  | none ↦ (record w { ref_updates = w.ref_updates ++ (bare, sha) ∷ [] }, none)
]

-- fastForwardBareMain: the error, if there is one.
unfoldable pub fast_forward_bare_main : Env → Text → Text → Text → World → World × Option Text
fast_forward_bare_main env tenant0 repo0 sha0 w =
    let tenant = trim_space tenant0 in
    let repo = trim_space repo0 in
    let sha = trim_space sha0 in
    let bare = bare_path tenant repo in
    if not (valid_name env.letters tenant) || not (valid_name env.letters repo)
    then (w, some (text "invalid tenant or repo"))
    else if not (looks_like_git_sha sha)
    then (w, some (text "missing merge sha"))
    else if not (env.git.head_exists bare)
    then (w, some (text "repo missing"))
    else elim (env.git.cat_file bare sha) [
      | some out ↦ (w, some (text "unknown commit: " ++ trim_space out))
      | none ↦
          if not_forward env bare sha (env.git.rev_parse_main bare)
          then (w, some (text "non-fast-forward"))
          else update_main env bare sha w
    ]

-- An empty text is filled from the PR's record.
abbrev filled : Option Fields → List Text → Text → Text
filled none keys s = s
filled (some pr) keys s = if is_empty s then payload_string pr keys else s

abbrev pub sha_keys : List Text
sha_keys = text "sha" ∷ text "commit" ∷ text "head" ∷ []

abbrev pub mark_merged : Text → Option Fields → World → World
mark_merged id none w = w
mark_merged id (some pr) w =
    let prs = put w.prs id (obj (put pr (text "merged") (boolean true))) in
    save_to_file (text "prs.json") prs (record w { prs = prs })

-- The fields that a merge works with: those of the payload, or else those of the PR.
pub record Merge : Type 0 where
  pub id : Text
  pub pr : Option Fields
  pub proposal_id : Text
  pub tenant : Text
  pub repo : Text
  pub sha : Text

abbrev id_keys : List Text
id_keys = text "id" ∷ text "pr_id" ∷ []

unfoldable pub merge_of : Fields → Fields → Merge
merge_of p prs =
    let id = payload_string p id_keys in
    let pr = if is_empty id then none else object_of (get prs id) in
    record {
      id = id;
      pr = pr;
      proposal_id =
          filled pr (text "proposal_id" ∷ []) (payload_string p (text "proposal_id" ∷ []));
      tenant = filled pr (text "tenant" ∷ []) (payload_string p (text "tenant" ∷ []));
      repo = filled pr (text "repo" ∷ []) (payload_string p (text "repo" ∷ []));
      sha = filled pr sha_keys (payload_string p sha_keys);
    }

abbrev court_not_approved : Response
court_not_approved = error (text "court not approved")

abbrev unsigned : Response
unsigned = error (text "court decision unsigned: merkle signature required")

abbrev pub merge_done : Env → Merge → World → World × Response
merge_done env g w =
    let (w', failure) = fast_forward_bare_main env g.tenant g.repo g.sha w in
    elim failure [
      | some e ↦ (w', error (text "merge denied: " ++ e))
      | none ↦ (
        mark_merged g.id g.pr w',
        reply (text "pr.merged") (
            obj (
              field (text "id") (str g.id) (
                field (text "proposal_id") (str g.proposal_id) (
                  field (text "sha") (str g.sha) (
                    field (text "tenant") (str g.tenant)
                      (field (text "repo") (str g.repo) end)))))),
      )
    ]

abbrev pub decision_carries_sig : Option Fields → Bool
decision_carries_sig none = false
decision_carries_sig (some cd) =
    has_key cd (text "decision_merkle") && not (is_empty (payload_string cd sig_keys))

-- The state of the proposal is "approved" in some case.
abbrev pub state_approved : Fields → Bool
state_approved prop = equal_fold (as_string (get prop (text "state"))) (text "approved")

abbrev pub merge_approved : Env → Merge → Option Fields → World → World × Response
merge_approved env g none w = (w, court_not_approved)
merge_approved env g (some prop) w =
    if not (state_approved prop)
    then (w, court_not_approved)
    else if not (decision_carries_sig (object_of (get prop (text "court_decision"))))
    then (w, unsigned)
    else merge_done env g w

unfoldable pub handle_pr_merge_rpc : Request → World → World × Response
unfolding trim_space to_lower
handle_pr_merge_rpc r w =
    let g = merge_of (payload_map r.payload) w.prs in
    if not (same (to_lower (trim_space r.source)) (text "store"))
    then (w, error (text "wrong actor: only store may merge (store only)"))
    else if is_empty g.proposal_id
    then (w, court_not_approved)
    else merge_approved r.env g (object_of (get w.proposals g.proposal_id)) w

abbrev rollback_id : Text → ℕ → Text
rollback_id old nano =
    if is_empty old
    then text "pr-rollback-" ++ decimal nano
    else old ++ (text "-rollback-" ++ decimal nano)

unfoldable pub handle_pr_rollback_rpc : Request → World → World × Response
handle_pr_rollback_rpc r w =
    let p = payload_map r.payload in
    let old = payload_string p id_keys in
    let new = rollback_id old r.env.nano in
    let rec = field (text "id") (str new) (
      field (text "repo") (str (payload_string p (text "repo" ∷ []))) (
        field (text "tenant") (str (payload_string p (text "tenant" ∷ []))) (
          field (text "title") (str (text "rollback")) (
            field (text "court") (str (text "pending")) (
              field (text "state") (str (text "pending"))
                (field (text "ref") (str (payload_string p (text "ref" ∷ []))) end)))))) in
    let full = if is_empty old then rec else put rec (text "rollback_of") (str old) in
    let prs = put w.prs new (obj full) in
    (
      save_to_file (text "prs.json") prs (record w { prs = prs }),
      reply (text "pr.rollback") (obj full),
    )
