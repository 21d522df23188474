-- ===== src/Store/Approval/Review.antt =====
-- cmd/store: what court.review_complete does to the approvals.
use aegis_claw.Base.{
  ◌≡◌, refl, inl, inr, Bool, true, false, ◌&&◌, ◌||◌, Option, none, some, arith, Option-cases,
}
use aegis_claw.Base.Text.{Text, text, same, eq_of_same, to_lower}
use aegis_claw.Base.Json.{str, obj, Fields, get, put}
use aegis_claw.Channel.Sequence.{object_of}
use aegis_claw.Channel.Backfill.{get-put, get-put-other}
use aegis_claw.Store.Payload.{
  must_payload, must, must_string, req_object, must_string-value, must_payload-value,
}
use aegis_claw.Store.World.{Request, Response, World, error, okay, untouched, or_error_induct}
use aegis_claw.Store.Merge.{court_decision_signed, state_approved}
use aegis_claw.Store.Court.{bool_at, reviewed, judged, record_review, on_review_complete}
use aegis_claw.Store.Approval.{is_approved, approving, signs, is_approved-put}

reviewed-state :
    (signed : Bool) (payload votes p : Fields)
    → state_approved (reviewed signed payload votes p) ≡ state_approved p
unfolding same
reviewed-state true payload votes p =
    rw
      (
        get-put-other (put p (text "reviews") (obj votes)) (text "court_decision") (text "state")
            (obj payload) refl,
        get-put-other p (text "reviews") (text "state") (obj votes) refl,
      )
      refl
reviewed-state false payload votes p =
    rw (get-put-other p (text "reviews") (text "state") (obj votes) refl) refl

-- A verdict approves only if it is true and signed.
judged-state :
    (signed : Bool) (verdict : Option Bool) (p : Fields)
    → state_approved (judged signed verdict p) ≡ true
    → (state_approved p || (approving verdict && signed)) ≡ true
unfolding same to_lower
judged-state signed none p h = ground (arith, h)
judged-state true (some true) p h = ground arith
judged-state false (some true) p h = ground (arith, h)
judged-state signed (some false) p h =
    let no : state_approved (judged signed (some false) p) ≡ false =
      rw (get-put p (text "state") (str (text "rejected"))) refl in
    ground (arith, no, h)

record_review-approved :
    (id j : Text) (r : Request) (payload votes p : Fields) (w : World)
    → object_of (get w.proposals id) ≡ some p
    → is_approved (record_review id r payload votes p w).proposals j ≡ true
    → (is_approved w.proposals j
        || (same id j
            && (approving (bool_at (get payload (text "approved")))
                && court_decision_signed r.env payload)))
      ≡ true
unfolding record_review
record_review-approved id j r payload votes p w e h =
    let signed = court_decision_signed r.env payload in
    let verdict = bool_at (get payload (text "approved")) in
    let new = judged signed verdict (reviewed signed payload votes p) in
    ground (
      arith,
      h,
      e,
      is_approved-put w.proposals id j new,
      judged-state signed verdict (reviewed signed payload votes p),
      reviewed-state signed payload votes p,
      eq_of_same id j,
    )

-- What a command does to the approval of proposal `j`: none is gained but by a signed review.
abbrev pub Gained : Request → World → Text → World × Response → Type 0
Gained r w j o =
    is_approved o.0.proposals j ≡ true
    → (is_approved w.proposals j || signs r.env j r.payload) ≡ true

pub kept-Gained : (r : Request) (w : World) (j : Text) (e : Response) → Gained r w j (w, e)
kept-Gained r w j e h = ground (arith, h)

pub on_review_complete-Gained :
    (r : Request) (w : World) (j : Text) → Gained r w j (on_review_complete r w)
unfolding on_review_complete
on_review_complete-Gained r w j =
    or_error_induct (Gained r w j) w (must_payload r.command r.payload) _
      (λ e. kept-Gained r w j (error e))
      (λ payload is_payload.
        or_error_induct (Gained r w j) w (must_string r.command payload (text "proposal_id")) _
          (λ e. kept-Gained r w j (error e))
          (λ id is_id.
            or_error_induct (Gained r w j) w (must r.command (req_object payload (text "votes"))) _
              (λ e. kept-Gained r w j (error e))
              (λ votes is_votes.
                recorded payload id votes
                  (must_payload-value r.command r.payload payload is_payload)
                  (must_string-value r.command payload (text "proposal_id") id is_id))))
  where
    recorded :
        (payload : Fields) (id : Text) (votes : Fields)
        → r.payload ≡ obj payload
        → get payload (text "proposal_id") ≡ str id
        → Gained r w j (elim (object_of (get w.proposals id)) [
          | some p ↦ (record_review id r payload votes p w, okay (text "court.review_recorded"))
          | none ↦ (w, untouched)
        ])
    recorded payload id votes pe ie = elim (Option-cases (object_of (get w.proposals id))) [
      | inl n ↦ rw n (λ h. ground (arith, h))
      | inr (p, e) ↦
          rw e (λ h. let g = record_review-approved id j r payload votes p w e h in rw (pe, ie) g)
    ]
