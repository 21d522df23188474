-- ===== src/Store/Sealed.antt =====
-- cmd/store: the policy over messages from microVMs.
use aegis_claw.Base.{Bool, true, false, List, [], ◌∷◌, Option, none, some}
use aegis_claw.Base.Text.{Text}
use aegis_claw.Store.World.{Request, Response, World}
use aegis_claw.Store.Git.{
  handle_git_clone_rpc, handle_git_create_rpc, handle_git_push_rpc, handle_skill_create_rpc,
}
use aegis_claw.Store.Merge.{handle_pr_merge_rpc, handle_pr_rollback_rpc}
use aegis_claw.Store.Proposals.{
  handle_proposal_create, on_proposal_get, on_proposal_list, on_proposal_update, on_build_complete,
  on_build_failed,
}
use aegis_claw.Store.Court.{on_review_complete, on_get_reviews, on_record_enforcement}
use aegis_claw.Store.Records.{
  on_pr_create, on_pr_update, on_pr_get, on_builder_destroy, on_skill_register, on_skill_get,
  on_skill_list, on_team_create, on_team_list, on_team_get, on_team_message, on_memory_store,
  on_memory_query, on_audit_append, on_audit_get_root, on_audit_list,
}
use aegis_claw.Store.Timers.{
  on_reconcile, on_timer_schedule, on_timer_cancel, on_timer_list, on_autonomy_grant, on_grant_list,
  on_grant_get,
}
use aegis_claw.Store.Channels.{
  handle_channel_create, on_channel_list, on_channel_get, on_channel_post, on_channel_archive,
}
use aegis_claw.Store.Membership.{on_channel_join, on_add_member, on_remove_member}
use aegis_claw.Store.Turns.{on_member_turn_update, on_turn_state}
use aegis_claw.Store.Reads.{on_get_messages, on_get_relevant_since}
use aegis_claw.Store.Policy.{on_other}
use aegis_claw.Store.Commands.{Command, parse_command}
use aegis_claw.Store.Audit.{append_audit_for_state_change_if_needed}
use aegis_claw.Base.{◌≡◌, refl, arith}
use aegis_claw.Store.Dispatch.{answer, ticked, on_secrets_push}
use aegis_claw.Store.Timers.{
  reconcile_expired_autonomy, reconcile_expired_background_work, reconcile_expired_timers,
  schedule_timer, cancel_timer,
}
use aegis_claw.Store.Policy.{handle_permission_command, permission_check_at_store}
use aegis_claw.Base.{Bool-cases, inl, inr, ◌∙◌, All, ap}
use aegis_claw.Permissions
use aegis_claw.Permissions.Source.{is_micro_vm_source, is_ciso_source}
use aegis_claw.Permissions.Grants.{record_request}
use aegis_claw.Permissions.Dispatch.Guard.{SamePolicy, dispatch-SamePolicy, plain_source_may_not}
use aegis_claw.Store.World.{Payload, fresh, proposal_at, permission, rooted}
use aegis_claw.Store.Records.{compute_merkle_root}
use aegis_claw.Store.Frame.{ticked-Quiet}
use aegis_claw.Store.Audit.{append_audit_for_state_change_if_needed, is_audited, attached}
use aegis_claw.Store.Proposals.{
  handle_proposal_create, perform_proposal_create, on_proposal_update, on_build_complete,
  on_build_failed,
}
use aegis_claw.Store.Court.{on_review_complete, record_review}
use aegis_claw.Store.Merge.{fast_forward_bare_main}
use aegis_claw.Store.Policy.{fallen, call_of, policy_of}
use aegis_claw.Store.Dispatch.{dispatch_command, dispatch_store_command, finish, ticked, step, run}

-- The source is a microVM, and not of the CISO persona.
abbrev pub IsPlainSource : Request → Type 0
IsPlainSource r = (is_micro_vm_source r.source ≡ true) × (is_ciso_source r.source ≡ false)

abbrev is_other : Command → Bool
is_other Command.other = true
is_other _ = false

answer-permissions :
    (c : Command) (r : Request) (w : World)
    → is_other c ≡ false
    → (answer c r w).0.permissions ≡ w.permissions
unfolding answer handle_channel_create handle_git_clone_rpc handle_git_create_rpc
    handle_git_push_rpc handle_pr_rollback_rpc handle_skill_create_rpc on_add_member on_audit_append
    on_audit_get_root on_audit_list on_autonomy_grant on_builder_destroy on_channel_archive
    on_channel_get on_channel_join on_channel_list on_channel_post on_get_messages
    on_get_relevant_since on_get_reviews on_grant_get on_grant_list on_member_turn_update
    on_memory_query on_memory_store on_other on_pr_create on_pr_get on_pr_update on_proposal_get
    on_proposal_list on_reconcile on_record_enforcement on_remove_member on_secrets_push
    on_skill_get on_skill_list on_skill_register on_team_create on_team_get on_team_list
    on_team_message on_timer_cancel on_timer_list on_timer_schedule on_turn_state
    reconcile_expired_autonomy reconcile_expired_background_work reconcile_expired_timers
    schedule_timer cancel_timer handle_proposal_create perform_proposal_create on_proposal_update
    on_review_complete record_review on_build_complete on_build_failed handle_pr_merge_rpc
    fast_forward_bare_main
answer-permissions Command.other r w h = cc
answer-permissions c r w h = ground arith

fallen-SamePolicy :
    (r : Request) (p : World × Option Response)
    → SamePolicy (fallen r p).0.permissions p.0.permissions
unfolding permission_check_at_store record_request
fallen-SamePolicy r (w, some a) = (refl, refl)
fallen-SamePolicy r (w, none) = ground arith

other-SamePolicy :
    (r : Request) (w : World)
    → IsPlainSource r
    → SamePolicy (on_other r w).0.permissions w.permissions
unfolding on_other handle_permission_command Permissions.Dispatch.dispatch_command
other-SamePolicy r w p =
    let k = Permissions.Dispatch.parse_command r.command in
    let now =
      dispatch-SamePolicy k (call_of r) (policy_of w)
        (plain_source_may_not w.permissions r.source p.0 p.1) in
    let later = fallen-SamePolicy r (handle_permission_command r w) in
    (later.0 ∙ now.0, later.1 ∙ now.1)

dispatched-SamePolicy :
    (c : Command) (r : Request) (w : World)
    → IsPlainSource r
    → SamePolicy (dispatch_command c r w).0.permissions w.permissions
unfolding answer
dispatched-SamePolicy Command.frame r w p = (refl, refl)
dispatched-SamePolicy Command.elsewhere r w p = (refl, refl)
dispatched-SamePolicy Command.other r w p = other-SamePolicy r w p
dispatched-SamePolicy c r w p =
    let e = answer-permissions c r w refl in (ap (λ s. s.grants) e, ap (λ s. s.visibility) e)

attached-permissions :
    (root : Text) (p : Payload) (w : World) → (attached root p w).permissions ≡ w.permissions
attached-permissions root (proposal_at id) w = ground arith
attached-permissions root (fresh v) w = refl
attached-permissions root (permission b) w = refl
attached-permissions root (rooted b t) w = refl

audit-permissions :
    (r : Request) (w : World) (a : Response)
    → (append_audit_for_state_change_if_needed r w a).0.permissions ≡ w.permissions
unfolding append_audit_for_state_change_if_needed compute_merkle_root
audit-permissions r w a = elim (Bool-cases (is_audited r.command)) [
  | inl y ↦ rw y (attached-permissions _ a.payload w)
  | inr n ↦ rw n refl
]

finish-permissions :
    (r : Request) (o : World × Option Response) → (finish r o).0.permissions ≡ o.0.permissions
finish-permissions r (w, none) = refl
finish-permissions r (w, some a) = audit-permissions r (ticked r w) a ∙ (ticked-Quiet r w).2

-- MicroVMs other than the CISO persona can send the Store any messages in any order, and change
-- neither a grant nor a visibility rule of its policy.
pub run_keeps_SamePolicy :
    (rs : List Request) (w : World)
    → All IsPlainSource rs
    → SamePolicy (run w rs).permissions w.permissions
unfolding run step dispatch_store_command
run_keeps_SamePolicy [] w h = (refl, refl)
run_keeps_SamePolicy (r ∷ rs) w h =
    let o = dispatch_command (parse_command r.command) r w in
    let now = dispatched-SamePolicy (parse_command r.command) r w h.0 in
    let kept = finish-permissions r o in
    let later = run_keeps_SamePolicy rs (finish r o).0 h.1 in
    (later.0 ∙ (ap (λ s. s.grants) kept ∙ now.0), later.1 ∙ (ap (λ s. s.visibility) kept ∙ now.1))
