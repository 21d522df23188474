-- ===== src/Permissions/Dispatch/Record.antt =====
-- Versions, the audit log and the saved file.
use aegis_claw.Base.{◌+◌, ◌≡◌, refl, ◌⊎◌, inl, true, List, [], ◌∷◌, ◌++◌, some, arith, All}
use aegis_claw.Base.Text.{Text}
use aegis_claw.Permissions.Types.{State}
use aegis_claw.Permissions.Grants.{
  grant_capability, revoke_capability, set_visibility, record_request,
}
use aegis_claw.Permissions.Capability.{save_state}
use aegis_claw.Permissions.World.{World, Call, AuditEntry, append_permission_audit}
use aegis_claw.Permissions.Dispatch.{
  Command, on_grant, on_revoke, on_request, on_visibility_set, on_discover, on_delegation_set,
  parse_command, dispatch, dispatch_command, run,
}

-- What one command does to the policy and to the version: nothing, or one change counted.
abbrev pub Counted : State → State → Type 0
Counted s t =
    ((t.grants ≡ s.grants)
      × (t.visibility ≡ s.visibility)
      × (t.requests ≡ s.requests)
      × (t.version ≡ s.version))
    ⊎ (t.version ≡ s.version + 1)

-- Every command either leaves grants, visibility rules, requests and the version as they were, or
-- raises the version by one; so a version stands for one policy.
pub dispatch-Counted :
    (k : Command) (c : Call) (w : World) → Counted w.state (dispatch k c w).0.state
unfolding dispatch on_grant on_revoke on_request on_visibility_set on_discover on_delegation_set
    record_request grant_capability revoke_capability set_visibility
dispatch-Counted Command.grant c w = ground arith
dispatch-Counted Command.revoke c w = ground arith
dispatch-Counted Command.visibility_set c w = ground arith
dispatch-Counted Command.request c w = ground arith
dispatch-Counted Command.discover c w = ground arith
dispatch-Counted Command.delegation_set c w = ground arith
dispatch-Counted _ c w = inl (refl, refl, refl, refl)

-- The file holds the state in memory.
abbrev pub IsSaved : World → Type 0
IsSaved w = w.disk ≡ some w.state

dispatch-IsSaved :
    (k : Command) (c : Call) (w : World)
    → c.writable ≡ true
    → IsSaved w
    → IsSaved (dispatch k c w).0
unfolding dispatch on_grant on_revoke on_request on_visibility_set on_discover on_delegation_set
    record_request grant_capability revoke_capability set_visibility save_state
dispatch-IsSaved Command.grant c w ok h = ground arith
dispatch-IsSaved Command.revoke c w ok h = ground arith
dispatch-IsSaved Command.visibility_set c w ok h = ground arith
dispatch-IsSaved Command.request c w ok h = ground arith
dispatch-IsSaved Command.discover c w ok h = ground arith
dispatch-IsSaved Command.delegation_set c w ok h = ground arith
dispatch-IsSaved _ c w ok h = h

-- While every write of the file succeeds, the file holds the state in memory after any history of
-- commands, so that a restart loads just that state.
pub run-IsSaved :
    (w : World) (calls : List (Text × Call))
    → All (λ x. x.1.writable ≡ true) calls
    → IsSaved w
    → IsSaved (run w calls)
unfolding run dispatch_command
run-IsSaved w [] ok h = h
run-IsSaved w ((command, c) ∷ rest) ok h =
    run-IsSaved (dispatch (parse_command command) c w).0 rest ok.1
      (dispatch-IsSaved (parse_command command) c w ok.0 h)

-- Either the policy stays and the log with it, or the log gains one entry that names the command's
-- sender.
abbrev pub Logged : Call → World → World → List AuditEntry → Type 0
Logged c w w' log =
    ((w'.state.grants ≡ w.state.grants)
      × (w'.state.visibility ≡ w.state.visibility)
      × (w'.audit ≡ some log))
    ⊎ ((e : AuditEntry) × (w'.audit ≡ some (log ++ e ∷ [])) × (e.source ≡ c.source) × (e.ts ≡ c.ts))

on_grant-Logged :
    (c : Call) (w : World) (log : List AuditEntry)
    → w.audit ≡ some log
    → Logged c w (on_grant c w).0 log
unfolding on_grant grant_capability append_permission_audit
on_grant-Logged c w log h = ground arith

on_revoke-Logged :
    (c : Call) (w : World) (log : List AuditEntry)
    → w.audit ≡ some log
    → Logged c w (on_revoke c w).0 log
unfolding on_revoke revoke_capability append_permission_audit
on_revoke-Logged c w log h = ground arith

on_visibility_set-Logged :
    (c : Call) (w : World) (log : List AuditEntry)
    → w.audit ≡ some log
    → Logged c w (on_visibility_set c w).0 log
unfolding on_visibility_set append_permission_audit
on_visibility_set-Logged c w log h = ground arith

-- No command changes a grant or a visibility rule without appending to the audit log an entry with
-- its source and time, and none removes or rewrites an entry.
pub dispatch-Logged :
    (k : Command) (c : Call) (w : World) (log : List AuditEntry)
    → w.audit ≡ some log
    → Logged c w (dispatch k c w).0 log
unfolding dispatch on_request on_discover on_delegation_set record_request append_permission_audit
dispatch-Logged Command.grant c w log h = on_grant-Logged c w log h
dispatch-Logged Command.revoke c w log h = on_revoke-Logged c w log h
dispatch-Logged Command.visibility_set c w log h = on_visibility_set-Logged c w log h
dispatch-Logged Command.request c w log h = ground arith
dispatch-Logged Command.discover c w log h = ground arith
dispatch-Logged Command.delegation_set c w log h = ground arith
dispatch-Logged _ c w log h = inl (refl, refl, h)
