-- ===== src/Store/Merge/Allowed.antt =====
-- cmd/store/git_rpc.go: when pr.merge moves a branch.
use aegis_claw.Base.{
  ◌≡◌, Bool, true, false, not, ◌&&◌, List, [], ◌∷◌, ◌++◌, Option, none, some, if◌then◌else◌, arith,
}
use aegis_claw.Base.Text.{Text, text, same, is_empty, to_lower}
use aegis_claw.Base.Trim.{trim_space}
use aegis_claw.Base.Json.{Fields, get}
use aegis_claw.Channel.Sequence.{object_of}
use aegis_claw.Store.Payload.{payload_map}
use aegis_claw.Store.World.{Env, Request, World}
use aegis_claw.Store.Names.{valid_name, bare_path}
use aegis_claw.Store.Merge.{
  Merge, merge_of, merge_done, decision_carries_sig, state_approved, looks_like_git_sha,
  not_forward, fast_forward_bare_main, handle_pr_merge_rpc,
}

abbrev is_none : Option Text → Bool
is_none none = true
is_none (some t) = false

-- Git lets main of the repository go forward to the commit, and does it.
abbrev pub git_allows : Env → Text → Text → Text → Bool
git_allows env tenant repo sha =
    let bare = bare_path tenant repo in
    valid_name env.letters tenant
    && (valid_name env.letters repo
        && (looks_like_git_sha sha
            && (env.git.head_exists bare
                && (is_none (env.git.cat_file bare sha)
                    && (not (not_forward env bare sha (env.git.rev_parse_main bare))
                        && is_none (env.git.update_ref_main bare sha))))))

-- The proposal is approved, and its decision has a root and a signature.
abbrev pub court_allows : Option Fields → Bool
court_allows none = false
court_allows (some prop) =
    state_approved prop && decision_carries_sig (object_of (get prop (text "court_decision")))

abbrev pub moved : Merge → World → List (Text × Text)
moved g w =
    w.ref_updates ++ (bare_path (trim_space g.tenant) (trim_space g.repo), trim_space g.sha) ∷ []

fast_forward-git_allows :
    (env : Env) (g : Merge) (w : World)
    → let allowed = git_allows env (trim_space g.tenant) (trim_space g.repo) (trim_space g.sha) in
      let o = fast_forward_bare_main env g.tenant g.repo g.sha w in
      (o.0.ref_updates ≡ (if allowed then moved g w else w.ref_updates)) × (is_none o.1 ≡ allowed)
unfolding fast_forward_bare_main
fast_forward-git_allows env g w = ground arith

merge_done-git_allows :
    (env : Env) (g : Merge) (w : World)
    → let allowed = git_allows env (trim_space g.tenant) (trim_space g.repo) (trim_space g.sha) in
      let o = merge_done env g w in
      (o.0.ref_updates ≡ (if allowed then moved g w else w.ref_updates))
      × (same o.1.command (text "pr.merged") ≡ allowed)
unfolding same
merge_done-git_allows env g w = ground (arith, fast_forward-git_allows env g w)

-- The actor is the Store, and the Court and git allow the merge.
abbrev pub merge_allowed : Request → World → Bool
merge_allowed r w =
    let g = merge_of (payload_map r.payload) w.prs in
    same (to_lower (trim_space r.source)) (text "store")
    && (not (is_empty g.proposal_id)
        && (court_allows (object_of (get w.proposals g.proposal_id))
            && git_allows r.env (trim_space g.tenant) (trim_space g.repo) (trim_space g.sha)))

-- pr.merge moves main of the repository to the commit, and replies pr.merged, exactly if its source
-- is "store", its proposal is approved with a decision that has a root and a signature, and git takes
-- the commit as a fast-forward; in every other case no branch moves. White space and letter case are
-- those of ASCII.
pub handle_pr_merge_rpc-merge_allowed :
    (r : Request) (w : World)
    → let g = merge_of (payload_map r.payload) w.prs in
      let o = handle_pr_merge_rpc r w in
      (o.0.ref_updates ≡ (if merge_allowed r w then moved g w else w.ref_updates))
      × (same o.1.command (text "pr.merged") ≡ merge_allowed r w)
unfolding handle_pr_merge_rpc same
handle_pr_merge_rpc-merge_allowed r w =
    let g = merge_of (payload_map r.payload) w.prs in
    ground (arith, merge_done-git_allows r.env g w)
