-- ===== src/Store/World.antt =====
-- cmd/store: the maps that the loop of runStore keeps, the files behind them, the messages that go to
-- the hub, and what a command answers. Calls of the system are answered by `Env`, once for a request.
use aegis_claw.Base.{ℕ, ◌≡◌, refl, Bool, List, [], ◌∷◌, ◌++◌, Option, if◌then◌else◌}
use aegis_claw.Base.Text.{Text, text, same}
use aegis_claw.Base.Json.{Json, null, str, obj, Items, nil, cons, Fields, end, field, get, put}
use aegis_claw.Permissions.Types.{State}
use aegis_claw.Permissions.World.{Body}
use aegis_claw.Store.Payload.{Result, ok, fail}

-- A message that the Store encodes for the hub, beside its replies. The source is "store".
pub record Outgoing : Type 0 where
  pub destination : Text
  pub command : Text
  pub payload : Json
  pub timestamp : Text

-- `files` has the maps that are read again for each command, by file name; `saved` those that are
-- written only. The code ignores the error of WriteFile, so `write_file name old v` is what a file that
-- held `old` holds once `v` has been written to it: `v` where the write succeeds; no command changes it.
-- `ref_updates` are the update-ref calls that git accepted (path and commit).
pub record World : Type 0 where
  pub proposals : Fields
  pub skills : Fields
  pub memories : Fields
  pub prs : Fields
  pub teams : Fields
  pub channels : Fields
  pub revocations : Fields
  pub audit_log : Items
  pub permissions : State
  pub permissions_file : Option State
  pub files : Fields
  pub saved : Fields
  pub write_file : Text → Json → Json → Json
  pub sent : List Outgoing
  pub ref_updates : List (Text × Text)

-- What git, run with these arguments on a bare repository, answers: none is success, and an error has
-- its output.
pub record Git : Type 0 where
  pub head_exists : Text → Bool
  pub cat_file : Text → Text → Option Text
  pub rev_parse_main : Text → Option Text
  pub is_ancestor : Text → Text → Text → Bool
  pub update_ref_main : Text → Text → Option Text

-- A payload of its own, or the stored proposal itself, or a map of the permission dispatcher, to which
-- the audit may add a root.
pub data Payload : Type 0 where
  fresh : Json → Payload
  proposal_at : Text → Payload
  permission : Body → Payload
  rooted : Body → Text → Payload

pub record Response : Type 0 where
  pub command : Text
  pub payload : Payload

-- `hash` is base64(sha256(json.Marshal(log))), `sprint` is fmt.Sprint, `init_bare` the error of the
-- mkdir and git init calls of ensureBareRepo, `sym_key` the decoded key of the environment, `letters`
-- is that the characters of a text beyond ASCII are letters or digits, `build_blob` is
-- BuildEncryptedSecretsUpdatePayload, and `outside` the reply, if any, of a command whose state is not
-- in `World`.
pub record Env : Type 0 where
  pub now : Text
  pub nano : ℕ
  pub hash : Items → Text
  pub sprint : Json → Text
  pub git : Git
  pub init_bare : Text → Option Text
  pub sym_key : Text
  pub build_blob : Fields → Text → Result Json
  pub letters : Text → Bool
  pub writable : Bool
  pub version : Text
  pub outside : Option Response

-- A message from the hub, with the timestamp that its reply gets. `tick`: a signal of the
-- timer goroutine waits.
pub record Request : Type 0 where
  pub source : Text
  pub command : Text
  pub payload : Json
  pub timestamp : Text
  pub tick : Bool
  pub env : Env

abbrev pub reply : Text → Json → Response
reply command payload = record { command = command; payload = fresh payload }

abbrev pub error : Text → Response
error e = reply (text "error") (str e)

-- The response that a case leaves as the loop made it.
abbrev pub untouched : Response
untouched = reply [] null

abbrev pub okay : Text → Response
okay command = reply command (str (text "ok"))

-- if !ok { break }, with the error reply written.
abbrev pub or_error {ℓ} :
    {A : Type ℓ} → World → Result A → (A → World × Response) → World × Response
or_error w (ok a) f = f a
or_error w (fail e) f = (w, error e)

-- What holds of the error reply and of every continuation holds of the whole.
pub or_error_induct {ℓ κ} :
    {A : Type ℓ} (P : World × Response → Type κ) (w : World) (x : Result A)
    (f : A → World × Response)
    → ((e : Text) → P (w, error e))
    → ((a : A) → x ≡ ok a → P (f a))
    → P (or_error w x f)
or_error_induct P w (ok a) f e k = k a refl
or_error_induct P w (fail t) f e k = e t

abbrev pub one : Text → Json → Fields
one k v = field k v end

abbrev pub send : Text → Text → Json → Text → World → World
send destination command payload ts w = record w {
  sent =
      w.sent
      ++ record { destination = destination; command = command; payload = payload; timestamp = ts }
        ∷ [];
}

-- The files after a write, which may fail.
abbrev pub written : World → Text → Json → Fields → Fields
written w name v files = put files name (w.write_file name (get files name) v)

-- saveToFile of one of the maps kept in memory.
abbrev pub save_to_file : Text → Fields → World → World
save_to_file name m w = record w { saved = written w name (obj m) w.saved }

-- The loop that collects the values of a map, in the order of the model's map.
unfoldable pub values_of : Fields → Items
values_of end = nil
values_of (field k v m) = cons v (values_of m)

-- for k, v := range payload { if k != "id" { p[k] = v } }
unfoldable pub merge_fields : Fields → Fields → Fields
merge_fields end p = p
merge_fields (field k v rest) p = merge_fields rest (if same k (text "id") then p else put p k v)

unfoldable pub append_item : Items → Json → Items
append_item nil v = cons v nil
append_item (cons x xs) v = cons x (append_item xs v)
