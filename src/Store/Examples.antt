-- ===== src/Store/Examples.antt =====
-- Runs of the Store, and the theorems at concrete states.
use aegis_claw.Store.Panics.{new_panic_deduper, observe_all}
use aegis_claw.Store.Panics.Bounded.{IsBounded, observe_all-IsBounded}
use aegis_claw.Store.Audit.{append_audit_for_state_change_if_needed}
use aegis_claw.Base.Trim.{is_space}
use aegis_claw.Store.Payload.{payload_string, must_payload, must_string, req_object}
use aegis_claw.Store.Court.{on_review_complete, record_review}
use aegis_claw.Store.Proposals.{
  handle_proposal_create, can_create_proposal, perform_proposal_create, on_proposal_update,
}
use aegis_claw.Base.Json.{has_key}
use aegis_claw.Base.Text.{to_lower}
use aegis_claw.Store.Merge.{court_decision_signed, fast_forward_bare_main, looks_like_git_sha}
use aegis_claw.Store.Names.{valid_name}
use aegis_claw.Store.World.{merge_fields}
use aegis_claw.Store.Audit.{append_audit_for_state_change_if_needed}
use aegis_claw.Store.Proposals.{on_proposal_get, on_proposal_list}
use aegis_claw.Permissions.Source.{is_ciso_source, is_micro_vm_source, role_vm_prefixes}
use aegis_claw.Base.Text.{has_prefix}
use aegis_claw.Store.Payload.{opt_string}
use aegis_claw.Channel.Sequence.{backfill_message_seqs, next_channel_seq}
use aegis_claw.Store.Members.{prepare_channel_record}
use aegis_claw.Base.Json.{has_key}
use aegis_claw.Base.{ℕ, ◌||◌, ◌≢◌, take, keep}
use aegis_claw.Base.Json.{null, arr, pos, put, nil, cons}
use aegis_claw.Base.{◌<◌}
use aegis_claw.Channel.Sequence.{max_int, next_of}
use aegis_claw.Store.Payload.{payload_map, missing}
use aegis_claw.Store.World.{Response, fresh, append_item, values_of}
use aegis_claw.Store.Merge.{merge_of, handle_pr_merge_rpc}
use aegis_claw.Store.Merge.Allowed.{moved, merge_allowed, handle_pr_merge_rpc-merge_allowed}
use aegis_claw.Store.Ledger.{Extends, run-Extends}
use aegis_claw.Store.Audit.{is_audited}
use aegis_claw.Store.Recorded.{IsWritten, IsRecorded, step-IsRecorded}
use aegis_claw.Store.Sealed.{IsPlainSource, run_keeps_SamePolicy}
use aegis_claw.Permissions.Dispatch.Guard.{SamePolicy}
use aegis_claw.Store.Members.{objects}
use aegis_claw.Store.Reads.{collect, wanted}
use aegis_claw.Store.Reads.Window.{collect-take}
use aegis_claw.Store.Timers.{on_reconcile}
use aegis_claw.Store.Timers.Expiry.{IsCleared, IsWriting, file_at, on_reconcile_clears}
use aegis_claw.Store.Channels.{created_channel, posted_channel, entry_of}
use aegis_claw.Store.Channels.Post.{InSequence, posted_channel-InSequence}
use aegis_claw.Store.Fixture.{
  signed_review, approved_proposal, numbered_message, two_messages, main_channel,
}
use aegis_claw.Base.{
  sym, ◌∙◌, ◌≡◌, refl, ap, true, false, List, [], ◌∷◌, some, any, arith, if◌then◌else◌, length,
}
use aegis_claw.Base.Text.{Text, text, same}
use aegis_claw.Base.Json.{str, obj, Fields, end, field, get}
use aegis_claw.Store.World.{Request, World}
use aegis_claw.Store.Commands.{parse_command}
use aegis_claw.Store.Dispatch.{step, run}
use aegis_claw.Store.Approval.{is_approved}
use aegis_claw.Store.Approval.History.{updates, approves, run-approved}
use aegis_claw.Store.Merge.History.{run-ref_updates}
use aegis_claw.Store.Fixture.{start, created, reviewed, merged, after_court, agent, message}

abbrev history : List Request
history = created ∷ reviewed ∷ merged ∷ []

no_updates : any updates history ≡ false
unfolding parse_command same
no_updates = refl

history_approves : is_approved (run start history).proposals (text "p1") ≡ true
unfolding run get same append_audit_for_state_change_if_needed handle_pr_merge_rpc is_space merge_of
    payload_string on_review_complete must_payload must_string req_object handle_proposal_create
    can_create_proposal perform_proposal_create put record_review court_decision_signed to_lower
    has_key fast_forward_bare_main valid_name looks_like_git_sha
history_approves = refl

history_moves : length (run start history).ref_updates ≡ 1
unfolding run get same append_audit_for_state_change_if_needed handle_pr_merge_rpc is_space merge_of
    payload_string on_review_complete must_payload must_string req_object handle_proposal_create
    can_create_proposal perform_proposal_create put record_review court_decision_signed to_lower
    has_key fast_forward_bare_main valid_name looks_like_git_sha
history_moves = refl

run-approved_example :
    (is_approved start.proposals (text "p1") || any (approves (text "p1")) history) ≡ true
run-approved_example = run-approved history start (text "p1") no_updates history_approves

history_moved : (run start history).ref_updates ≢ start.ref_updates
history_moved e = omega (arith, sym history_moves ∙ ap length e)

run-ref_updates_example :
    (id : Text) × ((is_approved start.proposals id || any (approves id) history) ≡ true)
run-ref_updates_example = run-ref_updates history start no_updates history_moved

handle_pr_merge_rpc-merge_allowed_example :
    ((handle_pr_merge_rpc merged after_court).0.ref_updates ≡ (
      if merge_allowed merged after_court
      then moved (merge_of (payload_map merged.payload) end) after_court
      else []))
    × (same (handle_pr_merge_rpc merged after_court).1.command (text "pr.merged")
        ≡ merge_allowed merged after_court)
handle_pr_merge_rpc-merge_allowed_example = handle_pr_merge_rpc-merge_allowed merged after_court

run-Extends_example : Extends start.audit_log (run start history).audit_log
run-Extends_example = run-Extends history start

abbrev list_proposals : Request
list_proposals = agent (text "proposal.list") null

abbrev listed : Response
listed = record { command = text "proposal.list"; payload = fresh (arr nil) }

audits_list : is_audited (text "proposal.list") ≡ true
unfolding is_audited
audits_list = refl

replies_list : (step list_proposals start).1 ≡ some listed
unfolding step same append_audit_for_state_change_if_needed on_proposal_list values_of
replies_list = refl

list_writes : IsWritten (step list_proposals start).0
unfolding step same append_audit_for_state_change_if_needed on_proposal_list
list_writes old = refl

step-IsRecorded_example : IsRecorded list_proposals (step list_proposals start).0
step-IsRecorded_example =
    step-IsRecorded list_proposals start listed audits_list replies_list list_writes

abbrev grant_self : Request
grant_self = agent (text "permission.grant") (
    obj (
      field (text "subject") (str (text "agent-7"))
        (field (text "capability") (str (text "secrets.push")) end)))

agent-IsPlain : IsPlainSource grant_self
unfolding is_micro_vm_source role_vm_prefixes same has_prefix is_ciso_source
agent-IsPlain = (refl, refl)

run_keeps_SamePolicy_example :
    SamePolicy (run start (grant_self ∷ [])).permissions start.permissions
run_keeps_SamePolicy_example = run_keeps_SamePolicy (grant_self ∷ []) start (agent-IsPlain, tt)

collect-take_example :
    collect (pos 0) missing 1 (objects two_messages)
    ≡ take 1 (keep (wanted (pos 0) missing) (objects two_messages))
collect-take_example = collect-take (pos 0) missing 1 (objects two_messages) (omega arith)

abbrev old_grant : Fields
old_grant =
    field (text "s1") (obj (field (text "expires") (str (text "2026-01-01T00:00:00Z")) end))
      (field (text "s2") (obj (field (text "expires") (str (text "2027-01-01T00:00:00Z")) end)) end)

abbrev reconcile_now : Request
reconcile_now = message (text "daemon") (text "reconcile.expired_grants") null

abbrev with_grants : World
with_grants = record start { files = field (text "grants.json") (obj old_grant) end }

grants_written : IsWriting with_grants
grants_written name old v = refl

on_reconcile_clears_example :
    let w' = (on_reconcile reconcile_now with_grants).0 in
    let now = text "2026-01-02T00:00:00Z" in
    IsCleared now (file_at (text "grants.json") with_grants) (file_at (text "grants.json") w')
    × IsCleared now
        (file_at (text "background.json") with_grants)
        (file_at (text "background.json") w')
    × IsCleared now (file_at (text "timers.json") with_grants) (file_at (text "timers.json") w')
on_reconcile_clears_example = on_reconcile_clears reconcile_now with_grants grants_written

main-InSequence : InSequence main_channel two_messages
unfolding get same
main-InSequence = (refl, omega arith, refl, refl, (refl, (refl, tt)))

abbrev post_main : Request
post_main = agent (text "channel.post") (obj end)

main_has_room : next_of main_channel < max_int
unfolding get same
main_has_room = omega arith

posted_channel-InSequence_example :
    ((posted_channel post_main end main_channel).1 ≡ next_of main_channel)
    × InSequence
        (posted_channel post_main end main_channel).0
        (append_item two_messages (entry_of post_main end (next_of main_channel)))
posted_channel-InSequence_example =
    posted_channel-InSequence post_main end main_channel two_messages main-InSequence main_has_room

-- proposal.update writes the state and the decision of a proposal as its sender likes, and pr.merge takes
-- them.
abbrev forged : Request
forged = agent (text "proposal.update") (
    obj (
      field (text "id") (str (text "p1")) (
        field (text "state") (str (text "approved"))
          (field (text "court_decision") (obj signed_review) end))))

update_approves : length (run start (created ∷ forged ∷ merged ∷ [])).ref_updates ≡ 1
unfolding run get same append_audit_for_state_change_if_needed handle_pr_merge_rpc is_space merge_of
    payload_string on_review_complete must_payload must_string req_object handle_proposal_create
    can_create_proposal perform_proposal_create put record_review court_decision_signed to_lower
    has_key fast_forward_bare_main valid_name looks_like_git_sha on_proposal_update merge_fields
update_approves = refl

-- The root of the audit entry of proposal.get stays in the proposal.
abbrev read_proposal : Request
read_proposal = agent (text "proposal.get") (obj (field (text "id") (str (text "p1")) end))

get_writes :
    values_of (run after_court (read_proposal ∷ [])).proposals
    ≡ cons (obj (put approved_proposal (text "merkle_root") (str (text "root")))) nil
unfolding values_of run same append_audit_for_state_change_if_needed on_proposal_get opt_string get
    put append_item
get_writes = refl

-- A channel created with a numbered message gives the number 1 again.
abbrev created_with_message : Fields
created_with_message =
    created_channel (text "t") missing
      (field (text "messages") (arr (cons (numbered_message 1) nil)) end)

number_reused : (posted_channel post_main end created_with_message).1 ≡ 1
unfolding posted_channel next_channel_seq get prepare_channel_record backfill_message_seqs put
    has_key same
number_reused = refl

abbrev panics : List (Text × ℕ)
panics = (text "a", 1) ∷ (text "b", 2) ∷ (text "a", 3) ∷ []

observe_all-IsBounded_example :
    let d = observe_all (new_panic_deduper 1 60) panics in IsBounded d × (d.total ≡ length panics)
observe_all-IsBounded_example = observe_all-IsBounded 1 60 panics
