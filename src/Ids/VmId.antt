-- ===== src/Ids/VmId.antt =====
-- internal/sandbox/vmid.go: the rule for an id that becomes one file name.
use aegis_claw.Base.{
  ℕ, Bool, true, false, not, ◌&&◌, ◌||◌, [], ◌∷◌, Option, none, some, if◌then◌else◌, length, ltb,
  leb, ◌==◌,
}
use aegis_claw.Base.Text.{Text, text, is_empty, has_suffix, contains}

pub data VmIdError : Type 0 where
  empty too_long bad_characters empty_segment : VmIdError

abbrev pub max_strict_vm_id_bytes : ℕ
max_strict_vm_id_bytes = 64

unfoldable pub is_letter : ℕ → Bool
is_letter c = leb b'a' c && leb c b'z'

unfoldable pub is_id_char : ℕ → Bool
unfolding is_letter
is_id_char c = is_letter c || ((leb b'0' c && leb c b'9') || c == b'-')

unfoldable pub all_id_chars : Text → Bool
all_id_chars [] = true
all_id_chars (c ∷ s) = is_id_char c && all_id_chars s

-- The regular expression ^[a-z][a-z0-9-]*$
unfoldable pub matches_strict : Text → Bool
matches_strict [] = false
matches_strict (c ∷ s) = is_letter c && all_id_chars s

-- none is the nil error.
unfoldable pub validate_vm_id : Text → Option VmIdError
validate_vm_id id =
    if is_empty id
    then some empty
    else if ltb max_strict_vm_id_bytes (length id)
    then some too_long
    else if not (matches_strict id)
    then some bad_characters
    else if has_suffix id (text "-") || contains id (text "--")
    then some empty_segment
    else none
