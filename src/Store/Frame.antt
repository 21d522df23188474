-- ===== src/Store/Frame.antt =====
-- cmd/store: the commands that leave the proposals and the branches of the repositories alone.
use aegis_claw.Base.{Bool, true, false, List, [], ◌∷◌, if◌then◌else◌}
use aegis_claw.Base.Text.{Text, text}
use aegis_claw.Store.World.{Request, World}
use aegis_claw.Store.Git.{
  handle_git_clone_rpc, handle_git_create_rpc, handle_git_push_rpc, handle_skill_create_rpc,
}
use aegis_claw.Store.Merge.{handle_pr_rollback_rpc}
use aegis_claw.Store.Proposals.{on_proposal_get, on_proposal_list}
use aegis_claw.Store.Court.{on_get_reviews, on_record_enforcement}
use aegis_claw.Store.Records.{
  on_pr_create, on_pr_update, on_pr_get, on_builder_destroy, on_skill_register, on_skill_get,
  on_skill_list, on_team_create, on_team_list, on_team_get, on_team_message, on_memory_store,
  on_memory_query, on_audit_append, on_audit_get_root, on_audit_list,
}
use aegis_claw.Store.Timers.{
  on_reconcile, on_timer_schedule, on_timer_cancel, on_timer_list, on_autonomy_grant, on_grant_list,
  on_grant_get, on_tick,
}
use aegis_claw.Store.Channels.{
  handle_channel_create, on_channel_list, on_channel_get, on_channel_post, on_channel_archive,
}
use aegis_claw.Store.Membership.{on_channel_join, on_add_member, on_remove_member}
use aegis_claw.Store.Turns.{on_member_turn_update, on_turn_state}
use aegis_claw.Store.Reads.{on_get_messages, on_get_relevant_since}
use aegis_claw.Store.Policy.{on_other}
use aegis_claw.Store.Commands.{Command}
use aegis_claw.Base.{◌≡◌, refl, arith}
use aegis_claw.Store.Dispatch.{answer, ticked, on_secrets_push}
use aegis_claw.Store.Timers.{
  reconcile_all, reconcile_expired_autonomy, reconcile_expired_background_work,
  reconcile_expired_timers, schedule_timer, cancel_timer, publish,
}
use aegis_claw.Store.Policy.{handle_permission_command, permission_check_at_store}

abbrev pub Untouched : World → World → Type 0
Untouched w w' = (w'.proposals ≡ w.proposals) × (w'.ref_updates ≡ w.ref_updates)

-- The commands that may change one of the two.
abbrev pub touches : Command → Bool
touches Command.proposal_create = true
touches Command.proposal_update = true
touches Command.review_complete = true
touches Command.build_complete = true
touches Command.build_failed = true
touches Command.pr_merge = true
touches _ = false

-- Every other command changes neither.
pub answer-Untouched :
    (c : Command) (r : Request) (w : World) → touches c ≡ false → Untouched w (answer c r w).0
unfolding answer handle_channel_create handle_git_clone_rpc handle_git_create_rpc
    handle_git_push_rpc handle_pr_rollback_rpc handle_skill_create_rpc on_add_member on_audit_append
    on_audit_get_root on_audit_list on_autonomy_grant on_builder_destroy on_channel_archive
    on_channel_get on_channel_join on_channel_list on_channel_post on_get_messages
    on_get_relevant_since on_get_reviews on_grant_get on_grant_list on_member_turn_update
    on_memory_query on_memory_store on_other on_pr_create on_pr_get on_pr_update on_proposal_get
    on_proposal_list on_reconcile on_record_enforcement on_remove_member on_secrets_push
    on_skill_get on_skill_list on_skill_register on_team_create on_team_get on_team_list
    on_team_message on_timer_cancel on_timer_list on_timer_schedule on_turn_state
    reconcile_expired_autonomy reconcile_expired_background_work reconcile_expired_timers
    schedule_timer cancel_timer handle_permission_command permission_check_at_store
answer-Untouched Command.proposal_create r w h = cc
answer-Untouched Command.proposal_update r w h = cc
answer-Untouched Command.review_complete r w h = cc
answer-Untouched Command.pr_merge r w h = cc
answer-Untouched Command.build_complete r w h = cc
answer-Untouched Command.build_failed r w h = cc
answer-Untouched c r w h = ground arith

-- A reconciliation and its events change neither, nor the audit log, nor the policy.
abbrev pub Quiet : World → World → Type 0
Quiet w w' = Untouched w w' × (w'.audit_log ≡ w.audit_log) × (w'.permissions ≡ w.permissions)

publish-Quiet :
    (event key ts : Text) (ids : List Text) (u w : World)
    → Quiet u w
    → Quiet u (publish event key ts ids w)
unfolding publish
publish-Quiet event key ts [] u w h = h
publish-Quiet event key ts (id ∷ ids) u w h = publish-Quiet event key ts ids u _ h

reconcile_all-Quiet : (now : Text) (w : World) → Quiet w (reconcile_all now w).0
unfolding reconcile_expired_autonomy reconcile_expired_background_work reconcile_expired_timers
reconcile_all-Quiet now w = ground arith

pub on_tick-Quiet : (r : Request) (w : World) → Quiet w (on_tick r w)
unfolding on_tick
on_tick-Quiet r w =
    let x = reconcile_all r.env.now w in
    let a = publish (text "autonomy.expired") (text "session_id") r.timestamp x.1.autonomy x.0 in
    let b = publish (text "background.expired") (text "session_id") r.timestamp x.1.background a in
    publish-Quiet (text "timer.fired") (text "timer_id") r.timestamp x.1.timers w b (
      publish-Quiet (text "background.expired") (text "session_id") r.timestamp x.1.background w a (
        publish-Quiet (text "autonomy.expired") (text "session_id") r.timestamp x.1.autonomy w x.0
          (reconcile_all-Quiet r.env.now w)))

pub ticked-Quiet : (r : Request) (w : World) → Quiet w (ticked r w)
ticked-Quiet r w = quiet_if r.tick
  where
    quiet_if : (b : Bool) → Quiet w (if b then on_tick r w else w)
    quiet_if true = on_tick-Quiet r w
    quiet_if false = ((refl, refl), refl, refl)
