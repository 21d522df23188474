-- ===== src/Store/Names.antt =====
-- internal/storegit/storegit.go: names of tenants and repositories, remote URLs, and bare paths. Whether
-- the characters of a name beyond ASCII are letters and digits is what package unicode says of them:
-- `letters` is an argument, asked only of a text that has such characters.
use aegis_claw.Base.{
  ℕ, Bool, false, not, ◌&&◌, ◌||◌, [], ◌∷◌, ◌++◌, Option, none, some, if◌then◌else◌, leb, ◌==◌, any,
  length, drop,
}
use aegis_claw.Base.Text.{Text, text, same, is_empty, has_prefix, contains}
use aegis_claw.Base.Trim.{trim_space}

abbrev ascii_letter : ℕ → Bool
ascii_letter r = (leb b'a' r && leb r b'z') || (leb b'A' r && leb r b'Z')

-- A byte of a character beyond ASCII, or an ASCII character that a name may have.
abbrev pub valid_byte : ℕ → Bool
valid_byte r =
    leb 128 r
    || (ascii_letter r || ((leb b'0' r && leb r b'9') || (r == b'-' || (r == b'_' || r == b'.'))))

abbrev is_ascii : Text → Bool
is_ascii s = not (any (leb 128) s)

unfoldable pub valid_name : (Text → Bool) → Text → Bool
unfolding same contains
valid_name letters s =
    if is_empty s || (same s (text ".") || same s (text ".."))
    then false
    else if any (λ c. c == b'/' || (c == b'\\' || c == b':')) s || contains s (text "..")
    then false
    else not (any (λ r. not (valid_byte r)) s) && (is_ascii s || letters s)

unfoldable pub remote_url : Text → Text → Text
remote_url tenant repo = text "hub::vsock/" ++ (tenant ++ (text "/" ++ repo))

-- filepath.Join("repos", tenant, repo) for valid names, which have nothing to clean.
unfoldable pub bare_path : Text → Text → Text
bare_path tenant repo = text "repos/" ++ (tenant ++ (text "/" ++ repo))

-- strings.TrimPrefix(s, p)
unfoldable pub trim_prefix : Text → Text → Text
unfolding has_prefix
trim_prefix s p = if has_prefix s p then drop (length p) s else s

trim_left_slash : Text → Text
trim_left_slash [] = []
trim_left_slash (c ∷ s) = let rest = trim_left_slash s in if c == b'/' then rest else c ∷ s

trim_right_slash : Text → Text
trim_right_slash [] = []
trim_right_slash (c ∷ s) =
    let r = trim_right_slash s in if is_empty r && c == b'/' then [] else c ∷ r

-- The text before the first byte `b`, and the one after the last.
unfoldable pub before : ℕ → Text → Text
before b [] = []
before b (c ∷ s) = let rest = before b s in if c == b then [] else c ∷ rest

unfoldable pub after_last : ℕ → Text → Text
after_last b [] = []
after_last b (c ∷ s) =
    let rest = after_last b s in
    if any (λ d. d == b) (c ∷ s) then (if any (λ d. d == b) s then rest else s) else c ∷ s

abbrev checked : (Text → Bool) → Text → Text → Option (Text × Text)
checked letters tenant repo =
    if not (valid_name letters tenant) || not (valid_name letters repo)
    then none
    else some (tenant, repo)

-- The tenant and the repository; strings.Split has two parts or more where there is a slash.
unfoldable pub parse_url : (Text → Bool) → Text → Option (Text × Text)
unfolding trim_prefix trim_left_slash trim_right_slash trim_space before after_last valid_name
parse_url letters s =
    let path = trim_left_slash (
      trim_right_slash (trim_prefix (trim_prefix (trim_space s) (text "hub::")) (text "vsock/"))) in
    if is_empty (trim_space s)
    then none
    else if not (any (λ c. c == b'/') path)
    then none
    else checked letters (before b'/' path) (after_last b'/' path)
