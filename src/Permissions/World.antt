-- ===== src/Permissions/World.antt =====
-- internal/permissions/dispatch.go: what the command handlers of `Dispatch` read and leave (state,
-- audit log, file), and what they answer. `ts` is the audit's time, `now` that of the records.
use aegis_claw.Base.{ℕ, Bool, not, ◌&&◌, List, [], ◌∷◌, ◌++◌, Option, none, some}
use aegis_claw.Base.Text.{Text, text}
use aegis_claw.Base.Json.{Fields, get, as_string}
use aegis_claw.Permissions.Types.{Grant, VisibilityRule, Request, Snapshot, State}
use aegis_claw.Permissions.Source.{is_micro_vm_source, allows_ciso_delegation}
use aegis_claw.Permissions.Capability.{save_state}

pub record AuditEntry : Type 0 where
  pub ts : Text
  pub command : Text
  pub source : Text
  pub detail : Text
  pub domain : Text

-- `audit` is none where the caller passes a nil log; `disk` is the file of SaveState.
pub record World : Type 0 where
  pub state : State
  pub audit : Option (List AuditEntry)
  pub disk : Option State

-- The response's payload.
pub data Body : Type 0 where
  message : Text → Body
  granted : Text → Text → ℕ → Body
  revoked : Bool → Text → Text → Body
  grant_list : List Grant → Body
  check : Bool → Text → Text → Body
  snapshot : Snapshot → Body
  panel : Text → List Grant → List Request → List VisibilityRule → Snapshot → Body
  request : Request → Body
  request_list : List Request → Body
  level_set : Text → Text → Text → Body
  rule_list : List VisibilityRule → Body
  discover_denied : Text → Body
  discover : Text → Bool → Body
  delegation : Bool → Body
  audit_list : List AuditEntry → Body

-- (respCmd, resp, nil), ("", nil, err), ("error", resp, err) for the nil state, ("", nil, nil).
pub data Answer : Type 0 where
  reply : Text → Body → Answer
  refused : Text → Answer
  broken : Text → Answer
  unhandled : Answer

unfoldable pub append_permission_audit :
    Option (List AuditEntry) → Text → Text → Text → Text → Option (List AuditEntry)
append_permission_audit none ts command source detail = none
append_permission_audit (some log) ts command source detail = some (
    log
    ++ record {
      ts = ts;
      command = command;
      source = source;
      detail = detail;
      domain = text "permissions";
    }
      ∷ [])

-- The guard of the three mutating commands.
unfoldable pub may_not_mutate : State → Text → Bool
may_not_mutate state source =
    is_micro_vm_source source && not (allows_ciso_delegation source state.ciso_delegation_enabled)

abbrev pub field : Fields → Text → Text
field payload key = as_string (get payload key)

-- What a call brings besides its command.
pub record Call : Type 0 where
  pub source : Text
  pub payload : Fields
  pub ts : Text
  pub now : Text
  pub writable : Bool

abbrev pub subject_of : Call → Text
subject_of c = field c.payload (text "subject")

abbrev pub capability_of : Call → Text
capability_of c = field c.payload (text "capability")

-- Save the state and append to the audit.
abbrev pub commit : Call → World → State → Text → Text → World
commit c w s command detail = record {
  state = s;
  audit = append_permission_audit w.audit c.ts command c.source detail;
  disk = save_state c.writable s w.disk;
}

abbrev pub pair_detail : Call → Text
pair_detail c = subject_of c ++ (text ":" ++ capability_of c)
