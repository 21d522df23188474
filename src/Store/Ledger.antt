-- ===== src/Store/Ledger.antt =====
-- cmd/store: the audit log over the messages.
use aegis_claw.Base.{Bool, true, false, List, [], ◌∷◌, Option, none, some}
use aegis_claw.Base.Text.{Text}
use aegis_claw.Base.Json.{Json, Items}
use aegis_claw.Store.World.{Request, Response, World}
use aegis_claw.Store.Git.{
  handle_git_clone_rpc, handle_git_create_rpc, handle_git_push_rpc, handle_skill_create_rpc,
}
use aegis_claw.Store.Merge.{handle_pr_merge_rpc, handle_pr_rollback_rpc}
use aegis_claw.Store.Proposals.{
  handle_proposal_create, on_proposal_get, on_proposal_list, on_proposal_update, on_build_complete,
  on_build_failed,
}
use aegis_claw.Store.Court.{on_review_complete, on_get_reviews, on_record_enforcement}
use aegis_claw.Store.Records.{
  on_pr_create, on_pr_update, on_pr_get, on_builder_destroy, on_skill_register, on_skill_get,
  on_skill_list, on_team_create, on_team_list, on_team_get, on_team_message, on_memory_store,
  on_memory_query, on_audit_append, on_audit_get_root, on_audit_list,
}
use aegis_claw.Store.Timers.{
  on_reconcile, on_timer_schedule, on_timer_cancel, on_timer_list, on_autonomy_grant, on_grant_list,
  on_grant_get,
}
use aegis_claw.Store.Channels.{
  handle_channel_create, on_channel_list, on_channel_get, on_channel_post, on_channel_archive,
}
use aegis_claw.Store.Membership.{on_channel_join, on_add_member, on_remove_member}
use aegis_claw.Store.Turns.{on_member_turn_update, on_turn_state}
use aegis_claw.Store.Reads.{on_get_messages, on_get_relevant_since}
use aegis_claw.Store.Policy.{on_other}
use aegis_claw.Store.Commands.{Command, parse_command}
use aegis_claw.Store.Audit.{append_audit_for_state_change_if_needed}
use aegis_claw.Base.{◌≡◌, refl, sym, ap, ◌∙◌, arith}
use mathlib.Core.Path.{subst}
use aegis_claw.Store.Policy.{fallen}
use aegis_claw.Store.Proposals.{perform_proposal_create}
use aegis_claw.Store.Court.{record_review}
use aegis_claw.Store.Merge.{fast_forward_bare_main}
use aegis_claw.Base.Json.{cons, nil}
use aegis_claw.Store.Dispatch.{answer, on_secrets_push}
use aegis_claw.Store.Timers.{
  reconcile_expired_autonomy, reconcile_expired_background_work, reconcile_expired_timers,
  schedule_timer, cancel_timer,
}
use aegis_claw.Store.Policy.{handle_permission_command, permission_check_at_store}
use aegis_claw.Base.{inl, inr, Bool-cases}
use aegis_claw.Permissions.World.{AuditEntry}
use aegis_claw.Store.World.{Payload, fresh, proposal_at, permission, rooted, append_item}
use aegis_claw.Store.Policy.{append_entries, audit_map, entries, call_of, policy_of}
use aegis_claw.Store.Frame.{ticked-Quiet}
use aegis_claw.Permissions
use aegis_claw.Store.Audit.{
  append_audit_for_state_change_if_needed, is_audited, attached, audit_entry,
}
use aegis_claw.Store.Records.{compute_merkle_root}
use aegis_claw.Store.Dispatch.{dispatch_command, dispatch_store_command, finish, ticked, step, run}

unfoldable pub append_items : Items → Items → Items
append_items nil ys = ys
append_items (cons x xs) ys = cons x (append_items xs ys)

append_items-nil : (xs : Items) → append_items xs nil ≡ xs
unfolding append_items
append_items-nil nil = refl
append_items-nil (cons x xs) = ap (cons x) (append_items-nil xs)

append_item-items : (xs : Items) (v : Json) → append_item xs v ≡ append_items xs (cons v nil)
unfolding append_items append_item
append_item-items nil v = refl
append_item-items (cons x xs) v = ap (cons x) (append_item-items xs v)

append_items_assoc :
    (xs ys zs : Items) → append_items (append_items xs ys) zs ≡ append_items xs (append_items ys zs)
unfolding append_items
append_items_assoc nil ys zs = refl
append_items_assoc (cons x xs) ys zs = ap (cons x) (append_items_assoc xs ys zs)

-- The second log is the first with further entries at its end.
abbrev pub Extends : Items → Items → Type 0
Extends log log' = (more : Items) × (log' ≡ append_items log more)

Extends-refl : (a : Items) → Extends a a
Extends-refl a = (nil, sym (append_items-nil a))

Extends-trans : (a b c : Items) → Extends a b → Extends b c → Extends a c
Extends-trans a b c (xs, e) (ys, f) =
    (append_items xs ys, f ∙ (ap (λ l. append_items l ys) e ∙ append_items_assoc a xs ys))

Extends-item : (a : Items) (v : Json) → Extends a (append_item a v)
Extends-item a v = (cons v nil, append_item-items a v)

append_entries-Extends : (es : List AuditEntry) (log : Items) → Extends log (append_entries log es)
unfolding append_entries
append_entries-Extends [] log = Extends-refl log
append_entries-Extends (e ∷ es) log =
    Extends-trans log (append_item log (audit_map e)) _ (Extends-item log (audit_map e))
      (append_entries-Extends es (append_item log (audit_map e)))

-- The commands that may write the log themselves.
abbrev logs : Command → Bool
logs Command.audit_append = true
logs Command.other = true
logs _ = false

answer-log :
    (c : Command) (r : Request) (w : World)
    → logs c ≡ false
    → (answer c r w).0.audit_log ≡ w.audit_log
unfolding answer handle_channel_create handle_git_clone_rpc handle_git_create_rpc
    handle_git_push_rpc handle_pr_rollback_rpc handle_skill_create_rpc on_add_member on_audit_append
    on_audit_get_root on_audit_list on_autonomy_grant on_builder_destroy on_channel_archive
    on_channel_get on_channel_join on_channel_list on_channel_post on_get_messages
    on_get_relevant_since on_get_reviews on_grant_get on_grant_list on_member_turn_update
    on_memory_query on_memory_store on_other on_pr_create on_pr_get on_pr_update on_proposal_get
    on_proposal_list on_reconcile on_record_enforcement on_remove_member on_secrets_push
    on_skill_get on_skill_list on_skill_register on_team_create on_team_get on_team_list
    on_team_message on_timer_cancel on_timer_list on_timer_schedule on_turn_state
    reconcile_expired_autonomy reconcile_expired_background_work reconcile_expired_timers
    schedule_timer cancel_timer handle_permission_command permission_check_at_store
    handle_proposal_create perform_proposal_create on_proposal_update on_review_complete
    record_review on_build_complete on_build_failed handle_pr_merge_rpc fast_forward_bare_main
answer-log Command.audit_append r w h = cc
answer-log Command.other r w h = cc
answer-log c r w h = ground arith

fallen-log : (r : Request) (p : World × Option Response) → (fallen r p).0.audit_log ≡ p.0.audit_log
unfolding permission_check_at_store
fallen-log r (w, some a) = refl
fallen-log r (w, none) = ground arith

policy_log :
    (r : Request) (w : World) → Extends w.audit_log (handle_permission_command r w).0.audit_log
unfolding handle_permission_command
policy_log r w =
    append_entries-Extends
      (entries (Permissions.Dispatch.dispatch_command r.command (call_of r) (policy_of w)).0.audit)
      w.audit_log

answer-Extends :
    (c : Command) (r : Request) (w : World) → Extends w.audit_log (answer c r w).0.audit_log
unfolding answer on_audit_append on_other handle_permission_command
answer-Extends Command.audit_append r w = Extends-item w.audit_log r.payload
answer-Extends Command.other r w =
    let p = handle_permission_command r w in
    subst (λ l. Extends w.audit_log l) (sym (fallen-log r p)) (policy_log r w)
answer-Extends c r w =
    subst (λ l. Extends w.audit_log l) (sym (answer-log c r w refl)) (Extends-refl w.audit_log)

attached-log : (root : Text) (p : Payload) (w : World) → (attached root p w).audit_log ≡ w.audit_log
attached-log root (proposal_at id) w = ground arith
attached-log root (fresh v) w = refl
attached-log root (permission b) w = refl
attached-log root (rooted b t) w = refl

audit-Extends :
    (r : Request) (w : World) (a : Response)
    → Extends w.audit_log (append_audit_for_state_change_if_needed r w a).0.audit_log
unfolding append_audit_for_state_change_if_needed compute_merkle_root
audit-Extends r w a = elim (Bool-cases (is_audited r.command)) [
  | inl y ↦
      subst (λ l. Extends w.audit_log l) (rw y refl) (Extends-item w.audit_log (audit_entry r))
  | inr n ↦ subst (λ l. Extends w.audit_log l) (rw n refl) (Extends-refl w.audit_log)
]

dispatched-Extends :
    (c : Command) (r : Request) (w : World)
    → Extends w.audit_log (dispatch_command c r w).0.audit_log
dispatched-Extends Command.frame r w = Extends-refl w.audit_log
dispatched-Extends Command.elsewhere r w = Extends-refl w.audit_log
dispatched-Extends c r w = answer-Extends c r w

finish-Extends :
    (r : Request) (o : World × Option Response) → Extends o.0.audit_log (finish r o).0.audit_log
finish-Extends r (w, none) = Extends-refl w.audit_log
finish-Extends r (w, some a) =
    subst (λ l. Extends l (finish r (w, some a)).0.audit_log) (ticked-Quiet r w).1
      (audit-Extends r (ticked r w) a)

step-Extends : (r : Request) (w : World) → Extends w.audit_log (step r w).0.audit_log
unfolding step dispatch_store_command
step-Extends r w =
    let o = dispatch_command (parse_command r.command) r w in
    Extends-trans w.audit_log o.0.audit_log _ (dispatched-Extends (parse_command r.command) r w)
      (finish-Extends r o)

-- The audit log is append-only: after any list of messages it is the log from before with further
-- entries at its end.
pub run-Extends : (rs : List Request) (w : World) → Extends w.audit_log (run w rs).audit_log
unfolding run
run-Extends [] w = Extends-refl w.audit_log
run-Extends (r ∷ rs) w =
    Extends-trans w.audit_log (step r w).0.audit_log _ (step-Extends r w)
      (run-Extends rs (step r w).0)
