-- ===== src/Store/Merge/History.antt =====
-- cmd/store: the moves of branches over a list of messages.
use aegis_claw.Base.{
  ◌≡◌, ◌≢◌, refl, ap, ◌∙◌, ◌⊎◌, inl, inr, true, false, ◌||◌, List, [], ◌∷◌, Option, none, some,
  if◌then◌else◌, any, arith, or_false, or_chain, Bool-cases,
}
use aegis_claw.Base.Text.{Text}
use aegis_claw.Base.Json.{Fields, get}
use aegis_claw.Channel.Sequence.{object_of}
use aegis_claw.Store.Payload.{payload_map}
use aegis_claw.Store.World.{
  Request, Response, World, Payload, fresh, proposal_at, permission, rooted,
}
use aegis_claw.Store.Merge.{merge_of, handle_pr_merge_rpc}
use aegis_claw.Store.Merge.Allowed.{
  court_allows, merge_allowed, moved, handle_pr_merge_rpc-merge_allowed,
}
use aegis_claw.Store.Proposals.{
  handle_proposal_create, perform_proposal_create, on_proposal_update, on_build_complete,
  on_build_failed,
}
use aegis_claw.Store.Court.{on_review_complete, record_review}
use aegis_claw.Store.Records.{compute_merkle_root}
use aegis_claw.Store.Audit.{append_audit_for_state_change_if_needed, is_audited, attached}
use aegis_claw.Store.Commands.{Command, parse_command}
use aegis_claw.Store.Dispatch.{
  answer, dispatch_command, dispatch_store_command, finish, ticked, step, run,
}
use aegis_claw.Store.Frame.{touches, answer-Untouched, ticked-Quiet}
use aegis_claw.Store.Approval.{is_approved, entry_approved}
use aegis_claw.Store.Approval.History.{updates, approves, step-approved}

-- No branch has moved, or some proposal was approved.
abbrev Moved : World → World → Type 0
Moved w w' = (w'.ref_updates ≡ w.ref_updates) ⊎ ((id : Text) × (is_approved w.proposals id ≡ true))

create-refs : (r : Request) (w : World) → (handle_proposal_create r w).0.ref_updates ≡ w.ref_updates
unfolding handle_proposal_create perform_proposal_create
create-refs r w = ground arith

update-refs : (r : Request) (w : World) → (on_proposal_update r w).0.ref_updates ≡ w.ref_updates
unfolding on_proposal_update
update-refs r w = ground arith

review-refs : (r : Request) (w : World) → (on_review_complete r w).0.ref_updates ≡ w.ref_updates
unfolding on_review_complete record_review
review-refs r w = ground arith

complete-refs : (r : Request) (w : World) → (on_build_complete r w).0.ref_updates ≡ w.ref_updates
unfolding on_build_complete
complete-refs r w = ground arith

failed-refs : (r : Request) (w : World) → (on_build_failed r w).0.ref_updates ≡ w.ref_updates
unfolding on_build_failed
failed-refs r w = ground arith

court_allows-approved : (o : Option Fields) → court_allows o ≡ true → entry_approved o ≡ true
court_allows-approved none h = cc
court_allows-approved (some p) h = ground (arith, h)

merge-Moved : (r : Request) (w : World) → Moved w (handle_pr_merge_rpc r w).0
merge-Moved r w = elim (Bool-cases (merge_allowed r w)) [
  | inl y ↦
      let g = merge_of (payload_map r.payload) w.prs in
      inr (
        g.proposal_id,
        court_allows-approved (object_of (get w.proposals g.proposal_id)) (ground (arith, y)),
      )
  | inr n ↦ inl (
      (handle_pr_merge_rpc-merge_allowed r w).0
      ∙ ap (λ b. if b then moved (merge_of (payload_map r.payload) w.prs) w else w.ref_updates) n)
]

touching-Moved :
    (c : Command) (r : Request) (w : World) → touches c ≡ true → Moved w (answer c r w).0
unfolding answer
touching-Moved Command.proposal_create r w h = inl (create-refs r w)
touching-Moved Command.proposal_update r w h = inl (update-refs r w)
touching-Moved Command.review_complete r w h = inl (review-refs r w)
touching-Moved Command.build_complete r w h = inl (complete-refs r w)
touching-Moved Command.build_failed r w h = inl (failed-refs r w)
touching-Moved Command.pr_merge r w h = merge-Moved r w
touching-Moved c r w h = cc

dispatched-Moved : (c : Command) (r : Request) (w : World) → Moved w (dispatch_command c r w).0
dispatched-Moved Command.frame r w = inl refl
dispatched-Moved Command.elsewhere r w = inl refl
dispatched-Moved c r w = elim (Bool-cases (touches c)) [
  | inl t ↦ touching-Moved c r w t
  | inr n ↦ inl (answer-Untouched c r w n).1
]

attached-refs :
    (root : Text) (p : Payload) (w : World) → (attached root p w).ref_updates ≡ w.ref_updates
attached-refs root (proposal_at id) w = ground arith
attached-refs root (fresh v) w = refl
attached-refs root (permission b) w = refl
attached-refs root (rooted b t) w = refl

audit-refs :
    (r : Request) (w : World) (a : Response)
    → (append_audit_for_state_change_if_needed r w a).0.ref_updates ≡ w.ref_updates
unfolding append_audit_for_state_change_if_needed compute_merkle_root
audit-refs r w a = elim (Bool-cases (is_audited r.command)) [
  | inl y ↦ rw y (attached-refs _ a.payload w)
  | inr n ↦ rw n refl
]

finish-refs :
    (r : Request) (o : World × Option Response) → (finish r o).0.ref_updates ≡ o.0.ref_updates
finish-refs r (w, none) = refl
finish-refs r (w, some a) = audit-refs r (ticked r w) a ∙ (ticked-Quiet r w).0.1

step-Moved : (r : Request) (w : World) → Moved w (step r w).0
unfolding step dispatch_store_command
step-Moved r w =
    let kept = finish-refs r (dispatch_command (parse_command r.command) r w) in
    elim (dispatched-Moved (parse_command r.command) r w) [ inl e ↦ inl (kept ∙ e) | inr p ↦ inr p ]

-- Where no message of a list is proposal.update and some branch has moved after them, there is a
-- proposal that was approved before, or that one of them, court.review_complete with its id, a true
-- verdict and a signed decision, approves.
pub run-ref_updates :
    (rs : List Request) (w : World)
    → any updates rs ≡ false
    → (run w rs).ref_updates ≢ w.ref_updates
    → (id : Text) × ((is_approved w.proposals id || any (approves id) rs) ≡ true)
unfolding run
run-ref_updates [] w u m = absurd (m refl)
run-ref_updates (r ∷ rs) w u m =
    let (now, later) = or_false (updates r) (any updates rs) u in
    elim (step-Moved r w) [
      | inr (id, a) ↦ (id, ground (arith, a))
      | inl kept ↦
          let (id, a) = run-ref_updates rs (step r w).0 later (λ e. m (e ∙ kept)) in
          (
            id,
            or_chain (is_approved (step r w).0.proposals id) (is_approved w.proposals id)
                (approves id r) (any (approves id) rs) a (step-approved r w id now),
          )
    ]
