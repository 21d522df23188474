-- ===== src/Store/Approval/History.antt =====
-- cmd/store: approvals over a list of messages.
use aegis_claw.Base.{
  ◌≡◌, refl, sym, ap, ◌∙◌, inl, inr, Bool, true, false, ◌&&◌, ◌||◌, List, [], ◌∷◌, Option, none,
  some, any, arith, or_false, or_chain, Bool-cases, Option-cases,
}
use aegis_claw.Base.Text.{Text, text, same, eq_of_same}
use aegis_claw.Base.Json.{str, Fields, get, put}
use aegis_claw.Channel.Sequence.{object_of}
use aegis_claw.Channel.Backfill.{get-put-other}
use aegis_claw.Store.World.{Request, Response, World}
use aegis_claw.Store.Merge.{state_approved}
use aegis_claw.Store.Proposals.{handle_proposal_create}
use aegis_claw.Store.Commands.{Command, parse_command}
use aegis_claw.Store.Dispatch.{answer, step, run}
use aegis_claw.Store.Frame.{answer-Untouched}
use aegis_claw.Store.Approval.{is_approved, signs, is_approved-put}
use aegis_claw.Store.Approval.Review.{on_review_complete-Gained}
use aegis_claw.Store.Approval.Others.{
  Kept, create_from-Kept, build_complete-Kept, build_failed-Kept, merge-proposals,
}
use aegis_claw.Store.Frame.{answer-Untouched, ticked-Quiet, touches}
use aegis_claw.Store.Audit.{
  append_audit_for_state_change_if_needed, is_audited, rooted_proposal, attached,
}
use aegis_claw.Store.World.{Payload, fresh, proposal_at, permission, rooted}
use aegis_claw.Store.Records.{compute_merkle_root}
use aegis_claw.Store.Dispatch.{dispatch_store_command, dispatch_command, finish, ticked}

abbrev is_update : Command → Bool
is_update Command.proposal_update = true
is_update _ = false

abbrev is_review : Command → Bool
is_review Command.review_complete = true
is_review _ = false

-- The message is proposal.update.
abbrev pub updates : Request → Bool
updates r = is_update (parse_command r.command)

-- The message is court.review_complete with a signed approval of the proposal.
abbrev pub approves : Text → Request → Bool
approves id r = is_review (parse_command r.command) && signs r.env id r.payload

untouched-Kept :
    (c : Command) (r : Request) (w : World) (j : Text) → touches c ≡ false → Kept w j (answer c r w)
untouched-Kept c r w j h k = sym (ap (λ ps. is_approved ps j) (answer-Untouched c r w h).0) ∙ k

-- What a command gains, where it is one that touches the proposals.
touching-approved :
    (c : Command) (r : Request) (w : World) (j : Text)
    → touches c ≡ true
    → is_update c ≡ false
    → is_approved (answer c r w).0.proposals j ≡ true
    → (is_approved w.proposals j || (is_review c && signs r.env j r.payload)) ≡ true
unfolding answer handle_proposal_create
touching-approved Command.proposal_create r w j t u h =
    ground (arith, create_from-Kept r r.payload w j h)
touching-approved Command.build_complete r w j t u h = ground (arith, build_complete-Kept r w j h)
touching-approved Command.build_failed r w j t u h = ground (arith, build_failed-Kept r w j h)
touching-approved Command.review_complete r w j t u h = on_review_complete-Gained r w j h
touching-approved Command.pr_merge r w j t u h =
    let k : is_approved w.proposals j ≡ true =
      sym (ap (λ ps. is_approved ps j) (merge-proposals r w)) ∙ h in
    ground (arith, k)
touching-approved c r w j t u h = cc

answer-approved :
    (c : Command) (r : Request) (w : World) (j : Text)
    → is_update c ≡ false
    → is_approved (answer c r w).0.proposals j ≡ true
    → (is_approved w.proposals j || (is_review c && signs r.env j r.payload)) ≡ true
answer-approved c r w j u h = elim (Bool-cases (touches c)) [
  | inl t ↦ touching-approved c r w j t u h
  | inr n ↦ ground (arith, untouched-Kept c r w j n h)
]

root-state :
    (root : Text) (p : Fields)
    → state_approved (put p (text "merkle_root") (str root)) ≡ state_approved p
unfolding same
root-state root p = rw (get-put-other p (text "merkle_root") (text "state") (str root) refl) refl

-- A root in a proposal changes no approval.
rooted_proposal-approved :
    (id root : Text) (w : World) (j : Text)
    → is_approved (rooted_proposal id root w).proposals j ≡ is_approved w.proposals j
rooted_proposal-approved id root w j = elim (Option-cases (object_of (get w.proposals id))) [
  | inl n ↦ ground (arith, n)
  | inr (p, e) ↦ ground (
    arith,
    e,
    is_approved-put w.proposals id j (put p (text "merkle_root") (str root)),
    root-state root p,
    eq_of_same id j,
  )
]

attached-approved :
    (root : Text) (p : Payload) (w : World) (j : Text)
    → is_approved (attached root p w).proposals j ≡ is_approved w.proposals j
attached-approved root (proposal_at id) w j = rooted_proposal-approved id root w j
attached-approved root (fresh v) w j = refl
attached-approved root (permission b) w j = refl
attached-approved root (rooted b t) w j = refl

-- Neither does the audit, nor a tick.
audit-approved :
    (r : Request) (w : World) (a : Response) (j : Text)
    → is_approved (append_audit_for_state_change_if_needed r w a).0.proposals j
      ≡ is_approved w.proposals j
unfolding append_audit_for_state_change_if_needed compute_merkle_root
audit-approved r w a j = elim (Bool-cases (is_audited r.command)) [
  | inl y ↦ rw y (attached-approved _ a.payload w j)
  | inr n ↦ rw n refl
]

ticked-approved :
    (r : Request) (w : World) (j : Text)
    → is_approved (ticked r w).proposals j ≡ is_approved w.proposals j
ticked-approved r w j = ap (λ ps. is_approved ps j) (ticked-Quiet r w).0.0

finish-approved :
    (r : Request) (o : World × Option Response) (j : Text)
    → is_approved (finish r o).0.proposals j ≡ is_approved o.0.proposals j
finish-approved r (w, none) j = refl
finish-approved r (w, some a) j = audit-approved r (ticked r w) a j ∙ ticked-approved r w j

dispatched-approved :
    (c : Command) (r : Request) (w : World) (j : Text)
    → is_update c ≡ false
    → is_approved (dispatch_command c r w).0.proposals j ≡ true
    → (is_approved w.proposals j || (is_review c && signs r.env j r.payload)) ≡ true
dispatched-approved Command.frame r w j u h = ground (arith, h)
dispatched-approved Command.elsewhere r w j u h = ground (arith, h)
dispatched-approved c r w j u h = answer-approved c r w j u h

-- A message other than proposal.update that leaves a proposal approved found it so, or approves it.
pub step-approved :
    (r : Request) (w : World) (j : Text)
    → updates r ≡ false
    → is_approved (step r w).0.proposals j ≡ true
    → (is_approved w.proposals j || approves j r) ≡ true
unfolding step dispatch_store_command
step-approved r w j u h =
    dispatched-approved (parse_command r.command) r w j u
      (sym (finish-approved r (dispatch_command (parse_command r.command) r w) j) ∙ h)

-- Where no message of a list is proposal.update, a proposal that is approved after them was
-- approved before, or one of them is court.review_complete with its id, a true verdict and a signed
-- decision.
pub run-approved :
    (rs : List Request) (w : World) (id : Text)
    → any updates rs ≡ false
    → is_approved (run w rs).proposals id ≡ true
    → (is_approved w.proposals id || any (approves id) rs) ≡ true
unfolding run
run-approved [] w id u h = ground (arith, h)
run-approved (r ∷ rs) w id u h =
    let (now, later) = or_false (updates r) (any updates rs) u in
    or_chain (is_approved (step r w).0.proposals id) (is_approved w.proposals id) (approves id r)
      (any (approves id) rs) (run-approved rs (step r w).0 id later h) (step-approved r w id now)
