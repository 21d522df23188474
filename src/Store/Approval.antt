-- ===== src/Store/Approval.antt =====
-- cmd/store: what an approved proposal is, and what writing one does to it.
pub mod Review
pub mod Others
pub mod History
use aegis_claw.Base.{
  ◌≡◌, refl, sym, ◌∙◌, inl, inr, Bool, false, ◌&&◌, Option, none, some, if◌then◌else◌, Bool-cases,
}
use aegis_claw.Base.Text.{Text, text, same, eq_of_same, to_lower}
use aegis_claw.Base.Json.{Json, str, obj, Fields, end, get, put, as_string}
use aegis_claw.Channel.Sequence.{object_of}
use aegis_claw.Channel.Backfill.{get-put, get-put-other}
use aegis_claw.Store.World.{Env}
use aegis_claw.Store.Merge.{court_decision_signed, state_approved}
use aegis_claw.Store.Proposals.{pending, built, build_failed}
use aegis_claw.Store.Court.{bool_at}

-- The entry of a proposal is an object in the state "approved".
abbrev pub entry_approved : Option Fields → Bool
entry_approved none = false
entry_approved (some p) = state_approved p

abbrev pub is_approved : Fields → Text → Bool
is_approved ps id = entry_approved (object_of (get ps id))

-- The verdict is true, and the decision has a root and a signature.
abbrev pub approving : Option Bool → Bool
approving (some b) = b
approving none = false

-- The payload is a signed approval of the proposal.
abbrev pub signs : Env → Text → Json → Bool
signs env id (obj m) =
    same (as_string (get m (text "proposal_id"))) id
    && (approving (bool_at (get m (text "approved"))) && court_decision_signed env m)
signs env id _ = false

get-put-before :
    (m : Fields) (k j : Text) (v u : Json) → same j k ≡ false → get (put (put m k v) j u) k ≡ v
get-put-before m k j v u h = get-put-other (put m k v) j k u h ∙ get-put m k v

pub is_approved-put :
    (ps : Fields) (i id : Text) (p : Fields)
    → is_approved (put ps i (obj p)) id
      ≡ (if same i id then state_approved p else is_approved ps id)
is_approved-put ps i id p = elim (Bool-cases (same i id)) [
  | inl e ↦
      let there : get (put ps i (obj p)) id ≡ obj p =
        rw (sym (eq_of_same i id e)) (get-put ps i (obj p)) in
      rw (e, there) refl
  | inr e ↦
      let there : get (put ps i (obj p)) id ≡ get ps id = get-put-other ps i id (obj p) e in
      rw (e, there) refl
]

pub pending-state : (m : Fields) → state_approved (pending m) ≡ false
unfolding same to_lower
pending-state m =
    rw (get-put-before m (text "state") (text "reviews") (str (text "pending")) (obj end) refl) refl

pub built-state : (m : Fields) → state_approved (built m) ≡ false
unfolding same to_lower
built-state m =
    rw
      (get-put-before m (text "state") (text "build_status") (str (text "built"))
        (str (text "success")) refl)
      refl

pub build_failed-state :
    (report : Json) (m : Fields) → state_approved (build_failed report m) ≡ false
unfolding same to_lower
build_failed-state report m =
    rw
      (get-put-before m (text "state") (text "build_report") (str (text "build_failed")) report
        refl)
      refl
