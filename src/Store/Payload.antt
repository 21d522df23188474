-- ===== src/Store/Payload.antt =====
-- cmd/store/payload.go and the readers of cmd/store/git_rpc.go: checked reads of a peer's payload. A
-- map that is nil is `null` here: no value of a decoded payload is a typed nil.
use aegis_claw.Base.{◌≡◌, Bool, false, not, ◌||◌, List, [], ◌∷◌, ◌++◌, if◌then◌else◌}
use aegis_claw.Base.Text.{Text, text, same, is_empty, to_lower}
use aegis_claw.Base.Trim.{trim_space}
use aegis_claw.Base.Json.{
  Json, null, boolean, int, int64, float64, fraction, str, arr, obj, Items, nil, Fields, end, get,
}

-- A value and a nil error, or an error.
pub data Result {ℓ} (A : Type ℓ) : Type ℓ where
  ok : A → Result A
  fail : Text → Result A

-- An optional field: present, or missing (null is missing).
pub data Opt {ℓ} (A : Type ℓ) : Type ℓ where
  present : A → Opt A
  missing : Opt A

unfoldable pub payload_object : Json → Result Fields
payload_object (obj m) = ok m
payload_object _ = fail (text "payload must be an object")

abbrev string_at : Text → Json → Result Text
string_at key null = fail (key ++ text " is required")
string_at key (str s) = ok s
string_at key _ = fail (key ++ text " must be a string")

unfoldable pub req_string : Fields → Text → Result Text
req_string m key = string_at key (get m key)

abbrev opt_string_at : Text → Json → Result Text
opt_string_at key null = ok []
opt_string_at key (str s) = ok s
opt_string_at key _ = fail (key ++ text " must be a string")

unfoldable pub opt_string : Fields → Text → Result Text
opt_string m key = opt_string_at key (get m key)

abbrev opt_array_at : Text → Json → Result (Opt Items)
opt_array_at key null = ok missing
opt_array_at key (arr items) = ok (present items)
opt_array_at key _ = fail (key ++ text " must be an array")

unfoldable pub opt_array : Fields → Text → Result (Opt Items)
opt_array m key = opt_array_at key (get m key)

abbrev object_at : Text → Json → Result Fields
object_at key null = fail (key ++ text " is required")
object_at key (obj m) = ok m
object_at key _ = fail (key ++ text " must be an object")

unfoldable pub req_object : Fields → Text → Result Fields
req_object m key = object_at key (get m key)

abbrev opt_object_at : Text → Json → Result (Opt Fields)
opt_object_at key null = ok missing
opt_object_at key (obj m) = ok (present m)
opt_object_at key _ = fail (key ++ text " must be an object")

unfoldable pub opt_object : Fields → Text → Result (Opt Fields)
opt_object m key = opt_object_at key (get m key)

abbrev pub stored_array_at : Text → Json → Result Items
stored_array_at key null = ok nil
stored_array_at key (arr items) = ok items
stored_array_at key _ = fail (key ++ text " must be an array")

unfoldable pub stored_array : Fields → Text → Result Items
stored_array ch key = stored_array_at key (get ch key)

unfoldable pub invalid_payload : Text → Text → Text
invalid_payload command err = text "invalid " ++ (command ++ (text " payload: " ++ err))

abbrev pub must {ℓ} : {A : Type ℓ} → Text → Result A → Result A
must command (ok a) = ok a
must command (fail e) = fail (invalid_payload command e)

unfoldable pub must_payload : Text → Json → Result Fields
unfolding payload_object invalid_payload
must_payload command payload = must command (payload_object payload)

unfoldable pub must_string : Text → Fields → Text → Result Text
unfolding req_string invalid_payload
must_string command m key = must command (req_string m key)

unfoldable pub must_opt_string : Text → Fields → Text → Result Text
unfolding opt_string invalid_payload
must_opt_string command m key = must command (opt_string m key)

abbrev or_channel_id : Fields → Result Text → Result Text
or_channel_id m (fail e) = fail e
or_channel_id m (ok id) = if not (is_empty id) then ok id else opt_string m (text "channel_id")

unfoldable pub channel_id_from_payload : Fields → Result Text
unfolding opt_string
channel_id_from_payload payload = or_channel_id payload (opt_string payload (text "id"))

unfoldable pub must_channel_id : Text → Fields → Result Text
unfolding channel_id_from_payload invalid_payload
must_channel_id command m = must command (channel_id_from_payload m)

abbrev stored : Result Items → Result Items
stored (ok items) = ok items
stored (fail e) = fail (text "invalid stored channel: " ++ e)

unfoldable pub must_stored_array : Fields → Text → Result Items
unfolding stored_array
must_stored_array ch key = stored (stored_array ch key)

-- payloadMap: what is no object reads as the empty map.
abbrev pub payload_map : Json → Fields
payload_map (obj m) = m
payload_map _ = end

abbrev trimmed : Json → Text
trimmed (str s) = trim_space s
trimmed _ = []

-- The first of the keys whose value is a string that is not blank.
unfoldable pub payload_string : Fields → List Text → Text
payload_string m [] = []
payload_string m (k ∷ ks) =
    let rest = payload_string m ks in
    if is_empty (trimmed (get m k)) then rest else trimmed (get m k)

-- strings.EqualFold on ASCII text
abbrev pub equal_fold : Text → Text → Bool
equal_fold s t = same (to_lower s) (to_lower t)

abbrev bool_of : Json → Bool
bool_of (boolean b) = b
bool_of (str s) = equal_fold s (text "true") || same s (text "1")
bool_of _ = false

unfoldable pub payload_bool : Fields → Text → Bool
unfolding to_lower
payload_bool m key = bool_of (get m key)

-- A string that was read is the field's value.
pub must_string-value :
    (command : Text) (m : Fields) (key s : Text)
    → must_string command m key ≡ ok s
    → get m key ≡ str s
unfolding must_string req_string
must_string-value command m key s h = at_value (get m key) h
  where
    at_value : (v : Json) → must command (string_at key v) ≡ ok s → v ≡ str s
    at_value (str t) e = cc
    at_value null e = cc
    at_value (boolean b) e = cc
    at_value (int n) e = cc
    at_value (int64 n) e = cc
    at_value (float64 n) e = cc
    at_value (fraction n) e = cc
    at_value (arr xs) e = cc
    at_value (obj fs) e = cc

pub must_payload-value :
    (command : Text) (v : Json) (m : Fields) → must_payload command v ≡ ok m → v ≡ obj m
unfolding must_payload payload_object
must_payload-value command (obj fs) m h = cc
must_payload-value command null m h = cc
must_payload-value command (boolean b) m h = cc
must_payload-value command (int n) m h = cc
must_payload-value command (int64 n) m h = cc
must_payload-value command (float64 n) m h = cc
must_payload-value command (fraction n) m h = cc
must_payload-value command (arr xs) m h = cc
must_payload-value command (str t) m h = cc
