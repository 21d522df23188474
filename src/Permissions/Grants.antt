-- ===== src/Permissions/Grants.antt =====
-- internal/permissions/state.go: the operations on the durable state. The state pointer is not nil
-- here; `Dispatch.dispatch_command` and `Filter` have the nil cases. `now` is the timestamp.
pub mod Effect
pub mod Consistent
use aegis_claw.Base.{
  ℕ, Bool, not, ◌&&◌, List, [], ◌∷◌, ◌++◌, ◌+◌, Option, none, some, if◌then◌else◌, any, keep,
  length,
}
use aegis_claw.Base.Text.{Text, text, same}
use aegis_claw.Base.Decimal.{decimal}
use aegis_claw.Permissions.Types.{Grant, VisibilityRule, Request, State}
use aegis_claw.Permissions.Match.{subject_matches}
use aegis_claw.Permissions.Source.{is_micro_vm_source}

-- The test by which grants are replaced and revoked.
abbrev pub is_pair : Text → Text → Grant → Bool
is_pair subject capability g = same g.subject subject && same g.capability capability

abbrev pub is_rule : Text → Text → VisibilityRule → Bool
is_rule subject capability r = same r.subject subject && same r.capability capability

abbrev pub self_grant_error : Text
self_grant_error = text "ERR_PERMISSION_DENIED: self-grant forbidden"

abbrev pub added : Text → Text → Text → Text → Text → Grant
added subject capability granted_by reason now = record {
  subject = subject;
  capability = capability;
  granted_by = granted_by;
  granted_at = now;
  reason = reason;
}

-- The new state, and the error if there is one.
unfoldable pub grant_capability : State → Text → Text → Text → Text → Text → State × Option Text
grant_capability state subject capability granted_by reason now =
    if is_micro_vm_source granted_by && same granted_by subject
    then (state, some self_grant_error)
    else (
      record state {
        grants =
            keep (λ g. not (is_pair subject capability g)) state.grants
            ++ added subject capability granted_by reason now ∷ [];
        version = state.version + 1;
      },
      none,
    )

-- The new state, and whether a grant was found.
unfoldable pub revoke_capability : State → Text → Text → State × Bool
revoke_capability state subject capability =
    let found = any (is_pair subject capability) state.grants in
    let filtered = keep (λ g. not (is_pair subject capability g)) state.grants in
    (
      if found then record state { grants = filtered; version = state.version + 1 } else state,
      found,
    )

unfoldable pub set_visibility : State → Text → Text → Text → Text → Text → Text → State
set_visibility state subject capability level set_by reason now = record state {
  visibility =
      keep (λ r. not (is_rule subject capability r)) state.visibility
      ++ record {
        subject = subject;
        capability = capability;
        level = level;
        reason = reason;
        set_by = set_by;
        set_at = now;
      }
        ∷ [];
  version = state.version + 1;
}

abbrev pub request_id : ℕ → Text
request_id n = text "perm-req-" ++ decimal n

unfoldable pub record_request : State → Text → Text → Text → Text → State × Request
record_request state subject capability context now =
    let req : Request = record {
      id = request_id (length state.requests + 1);
      subject = subject;
      capability = capability;
      context = context;
      timestamp = now;
      status = text "pending";
    } in
    (record state { requests = state.requests ++ req ∷ []; version = state.version + 1 }, req)

unfoldable pub list_grants_for_subject : State → Text → List Grant
list_grants_for_subject state subject_id =
    keep (λ g. subject_matches subject_id g.subject) state.grants

unfoldable pub list_requests_for_subject : State → Text → List Request
list_requests_for_subject state subject_id = keep (λ r. same r.subject subject_id) state.requests
