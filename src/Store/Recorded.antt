-- ===== src/Store/Recorded.antt =====
-- cmd/store: the audit entry of one message.
use aegis_claw.Base.{◌≡◌, refl, ◌∙◌, true, Option, none, some}
use aegis_claw.Base.Text.{text}
use aegis_claw.Base.Json.{Json, arr, Items, nil, cons, get}
use aegis_claw.Channel.Backfill.{get-put}
use aegis_claw.Store.World.{Request, Response, World, append_item}
use aegis_claw.Store.Records.{compute_merkle_root}
use aegis_claw.Store.Audit.{
  append_audit_for_state_change_if_needed, is_audited, audit_entry, attached,
}
use aegis_claw.Store.Commands.{parse_command}
use aegis_claw.Store.Dispatch.{dispatch_command, dispatch_store_command, finish, ticked, step}

abbrev pub last_item : Items → Option Json
last_item nil = none
last_item (cons x nil) = some x
last_item (cons x (cons y ys)) = last_item (cons y ys)

last_item-append : (xs : Items) (v : Json) → last_item (append_item xs v) ≡ some v
unfolding append_item
last_item-append nil v = refl
last_item-append (cons x nil) v = refl
last_item-append (cons x (cons y ys)) v = last_item-append (cons y ys) v

-- The log ends with the entry of the message, and its file is the log.
abbrev pub IsRecorded : Request → World → Type 0
IsRecorded r w =
    (last_item w.audit_log ≡ some (audit_entry r))
    × (get w.saved (text "audit.json") ≡ arr w.audit_log)

-- What a write of the audit log leaves in audit.json is the log: WriteFile succeeds.
abbrev pub IsWritten : World → Type 0
IsWritten w =
    (old : Json) → w.write_file (text "audit.json") old (arr w.audit_log) ≡ arr w.audit_log

audit-IsRecorded :
    (r : Request) (w : World) (a : Response)
    → is_audited r.command ≡ true
    → IsWritten (append_audit_for_state_change_if_needed r w a).0
    → IsRecorded r (append_audit_for_state_change_if_needed r w a).0
unfolding append_audit_for_state_change_if_needed compute_merkle_root
audit-IsRecorded r w a y = rw y (λ h. (
  last_item-append w.audit_log (audit_entry r),
  get-put (attached _ a.payload w).saved (text "audit.json") _ ∙ h _,
))

finish-IsRecorded :
    (r : Request) (o : World × Option Response) (a : Response)
    → is_audited r.command ≡ true
    → (finish r o).1 ≡ some a
    → IsWritten (finish r o).0
    → IsRecorded r (finish r o).0
finish-IsRecorded r (w, none) a y h k = cc
finish-IsRecorded r (w, some b) a y h k = audit-IsRecorded r (ticked r w) b y k

-- After a message with an audited command that got a reply, a denial included, the last entry of the
-- audit log is that of the message, and audit.json holds the whole log if the write of that log, whose
-- error the code ignores, succeeds.
pub step-IsRecorded :
    (r : Request) (w : World) (a : Response)
    → is_audited r.command ≡ true
    → (step r w).1 ≡ some a
    → IsWritten (step r w).0
    → IsRecorded r (step r w).0
unfolding step dispatch_store_command
step-IsRecorded r w a y h k =
    finish-IsRecorded r (dispatch_command (parse_command r.command) r w) a y h k
