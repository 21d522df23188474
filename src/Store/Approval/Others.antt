-- ===== src/Store/Approval/Others.antt =====
-- cmd/store: the other commands that write proposals.
use aegis_claw.Base.{◌≡◌, inl, inr, true, false, Option, none, some, arith, Bool-cases}
use aegis_claw.Base.Text.{Text, text, is_empty}
use aegis_claw.Base.Json.{
  Json, null, boolean, int, int64, float64, fraction, str, obj, arr, Fields, get, put,
}
use aegis_claw.Channel.Sequence.{object_of}
use aegis_claw.Store.Payload.{must_payload, must_string}
use aegis_claw.Store.World.{Request, Response, World, error, okay, or_error_induct}
use aegis_claw.Store.Merge.{state_approved, handle_pr_merge_rpc, fast_forward_bare_main}
use aegis_claw.Store.Proposals.{
  pending, built, build_failed, perform_proposal_create, create_from, on_build_complete,
  on_build_failed, create_with_id, load_grants, can_create_proposal,
}
use aegis_claw.Store.Approval.{
  is_approved, is_approved-put, pending-state, built-state, build_failed-state,
}

pending-approved :
    (ps : Fields) (id j : Text) (m : Fields)
    → is_approved (put ps id (obj (pending m))) j ≡ true
    → is_approved ps j ≡ true
pending-approved ps id j m h =
    ground (arith, h, is_approved-put ps id j (pending m), pending-state m)

-- The command gives no proposal an approval.
abbrev pub Kept : World → Text → World × Response → Type 0
Kept w j o = is_approved o.0.proposals j ≡ true → is_approved w.proposals j ≡ true

create_with_id-Kept :
    (r : Request) (m : Fields) (v : Json) (w : World) (j : Text) → Kept w j (create_with_id r m v w)
unfolding perform_proposal_create
create_with_id-Kept r m (str id) w j = elim (Bool-cases (is_empty id)) [
  | inl e ↦ rw e (λ h. h)
  | inr e ↦ rw e (pending-approved w.proposals id j m)
]
create_with_id-Kept r m null w j = λ h. h
create_with_id-Kept r m (boolean b) w j = λ h. h
create_with_id-Kept r m (int n) w j = λ h. h
create_with_id-Kept r m (int64 n) w j = λ h. h
create_with_id-Kept r m (float64 n) w j = λ h. h
create_with_id-Kept r m (fraction n) w j = λ h. h
create_with_id-Kept r m (arr xs) w j = λ h. h
create_with_id-Kept r m (obj fs) w j = λ h. h

gated-Kept :
    (r : Request) (m : Fields) (w : World) (j : Text) (denied : Option Text)
    → Kept w j
        (elim denied [ some e ↦ (w, error e) | none ↦ create_with_id r m (get m (text "id")) w ])
gated-Kept r m w j none = create_with_id-Kept r m (get m (text "id")) w j
gated-Kept r m w j (some e) = λ h. h

pub create_from-Kept :
    (r : Request) (v : Json) (w : World) (j : Text) → Kept w j (create_from r v w)
create_from-Kept r (obj m) w j = gated-Kept r m w j (can_create_proposal (load_grants w) r.source)
create_from-Kept r null w j = λ h. h
create_from-Kept r (boolean b) w j = λ h. h
create_from-Kept r (int n) w j = λ h. h
create_from-Kept r (int64 n) w j = λ h. h
create_from-Kept r (float64 n) w j = λ h. h
create_from-Kept r (fraction n) w j = λ h. h
create_from-Kept r (arr xs) w j = λ h. h
create_from-Kept r (str t) w j = λ h. h

put-Kept :
    (ps : Fields) (id j : Text) (p : Fields)
    → state_approved p ≡ false
    → is_approved (put ps id (obj p)) j ≡ true
    → is_approved ps j ≡ true
put-Kept ps id j p n h = ground (arith, h, n, is_approved-put ps id j p)

-- A change of the proposal, if there is one, that leaves it unapproved.
module _ (r : Request) (w : World) (j : Text) (response : Response) where
  changed-Kept :
      (id : Text) (o : Option Fields) (change : Fields → World)
      → ((p : Fields) → Kept w j (change p, response))
      → Kept w j (elim o [ some p ↦ change p | none ↦ w ], response)
  changed-Kept id none change k = λ h. h
  changed-Kept id (some p) change k = λ h. k p h

pub build_complete-Kept : (r : Request) (w : World) (j : Text) → Kept w j (on_build_complete r w)
unfolding on_build_complete
build_complete-Kept r w j =
    or_error_induct (Kept w j) w (must_payload r.command r.payload) _ (λ e h. h)
      (λ payload is_p.
        or_error_induct (Kept w j) w (must_string r.command payload (text "proposal_id")) _
          (λ e h. h)
          (λ id is_id.
            changed-Kept r w j (okay (text "build.recorded")) id (object_of (get w.proposals id)) _
              (λ p. put-Kept w.proposals id j (built p) (built-state p))))

pub build_failed-Kept : (r : Request) (w : World) (j : Text) → Kept w j (on_build_failed r w)
unfolding on_build_failed
build_failed-Kept r w j =
    or_error_induct (Kept w j) w (must_payload r.command r.payload) _ (λ e h. h)
      (λ payload is_p.
        or_error_induct (Kept w j) w (must_string r.command payload (text "proposal_id")) _
          (λ e h. h)
          (λ id is_id.
            changed-Kept r w j (okay (text "build.recorded")) id (object_of (get w.proposals id)) _
              (λ p.
                put-Kept w.proposals id j (build_failed (get payload (text "report")) p)
                  (build_failed-state (get payload (text "report")) p))))

pub merge-proposals :
    (r : Request) (w : World) → (handle_pr_merge_rpc r w).0.proposals ≡ w.proposals
unfolding handle_pr_merge_rpc fast_forward_bare_main
merge-proposals r w = ground arith
