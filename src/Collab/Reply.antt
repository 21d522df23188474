-- ===== src/Collab/Reply.antt =====
-- internal/collab/reply.go: how the raw output of a model becomes a channel post. The regular expression
-- of the think tags is a scan, case by ASCII.
pub mod Clean
use aegis_claw.Base.{
  ℕ, zero, suc, Bool, true, false, not, ◌&&◌, ◌||◌, List, [], ◌∷◌, ◌++◌, Option, none, some,
  if◌then◌else◌, any, map, drop, length, ◌==◌, leb, ◌-◌,
}
use aegis_claw.Base.Text.{Text, text, same, is_empty, to_lower, has_prefix}
use aegis_claw.Base.Trim.{trim_space}

-- The number of bytes up to the end of the first closing tag.
unfoldable pub closing : Text → Option ℕ
unfolding has_prefix to_lower
closing [] = none
closing (c ∷ s) =
    let rest = closing s in
    if has_prefix (to_lower (c ∷ s)) (text "</think>") then some 8 else counted rest
  where
    counted : Option ℕ → Option ℕ
    counted none = none
    counted (some n) = some (suc n)

-- What a tag that opens here, and is closed, lets one skip.
abbrev tagged : Text → Option ℕ
tagged s = if has_prefix (to_lower s) (text "<think>") then closing s else none

abbrev skipping : Option ℕ → (ℕ → Text) → Text → Text
skipping none f kept = kept
skipping (some n) f kept = f n

-- The text without its tags, after the bytes that are still to be skipped.
unfoldable pub untag : ℕ → Text → Text
untag n [] = []
untag (suc n) (c ∷ s) = untag n s
untag zero (c ∷ s) = skipping (tagged (c ∷ s)) (λ n. untag (n - 1) s) (c ∷ untag zero s)

unfoldable pub strip_think_tags : Text → Text
strip_think_tags s = trim_space (untag zero s)

-- strings.TrimLeft and strings.TrimRight with a set of bytes
unfoldable pub cut_left : Text → Text → Text
cut_left set [] = []
cut_left set (c ∷ s) = let r = cut_left set s in if any (λ d. c == d) set then r else c ∷ s

unfoldable pub cut_right : Text → Text → Text
cut_right set [] = []
cut_right set (c ∷ s) =
    let r = cut_right set s in if is_empty r && any (λ d. c == d) set then [] else c ∷ r

abbrev upper_byte : ℕ → ℕ
upper_byte c = if leb 97 c && leb c 122 then c - 32 else c

abbrev to_upper : Text → Text
to_upper s = map upper_byte s

abbrev trim_prefix : Text → Text → Text
trim_prefix s p = if has_prefix s p then drop (length p) s else s

unfoldable pub normalize_decision_line : Text → Text
normalize_decision_line line =
    let set = text "`*_ \t" in
    let s = trim_space (cut_left set (cut_right set (trim_space line))) in
    let action = trim_prefix (trim_prefix (to_upper s) (text "DECISION:")) (text "ACTION:") in
    trim_space (cut_right (text ".!:") (trim_space action))

abbrev is_one_of : List Text → Text → Bool
is_one_of names tok = any (λ name. same tok name) names

abbrev has_one_of : List Text → Text → Bool
has_one_of prefixes tok = any (λ p. has_prefix tok p) prefixes

abbrev pass_names : List Text
pass_names = text "PASS" ∷ text "NO_REPLY" ∷ text "NOREPLY" ∷ text "SILENT" ∷ text "SKIP" ∷ []

unfoldable pub is_pass_token : Text → Bool
is_pass_token tok =
    is_one_of pass_names tok
    || has_one_of (text "PASS:" ∷ text "PASS " ∷ text "NO_REPLY:" ∷ text "NO_REPLY " ∷ []) tok

abbrev speak_prefixes : List Text
speak_prefixes = text "SPEAK:" ∷ text "SPEAK " ∷ text "REPLY:" ∷ text "REPLY " ∷ []

unfoldable pub is_speak_token : Text → Bool
is_speak_token tok =
    is_one_of (text "SPEAK" ∷ text "REPLY" ∷ []) tok || has_one_of speak_prefixes tok

-- The first of the prefixes that the line has is cut off, and the rest follows on a line of its own.
unfoldable pub after_prefix : List Text → Text → Text → Text
after_prefix [] line rest = trim_space rest
after_prefix (p ∷ ps) line rest =
    let other = after_prefix ps line rest in
    if has_prefix (to_upper (trim_space line)) p
    then trim_space (trim_space (drop (length p) line) ++ (text "\n" ++ rest))
    else other

unfoldable pub inline_after_speak : Text → Text → Text
inline_after_speak line rest = after_prefix speak_prefixes line rest

abbrev pub has_newline : Text → Bool
has_newline s = any (λ c. c == 10) s

-- The text after the last line feed, or all of it, and the text before it.
unfoldable pub last_line : Text → Text
last_line [] = []
last_line (c ∷ s) =
    let rest = last_line s in if has_newline s then rest else if c == 10 then s else c ∷ s

unfoldable pub before_last_line : Text → Text
before_last_line [] = []
before_last_line (c ∷ s) = let rest = before_last_line s in if has_newline s then c ∷ rest else []

unfoldable pub is_control_line : Text → Bool
is_control_line line =
    let tok = normalize_decision_line line in
    is_pass_token tok || is_one_of (text "SPEAK" ∷ text "REPLY" ∷ []) tok

-- The loop, which ends because each turn drops a line.
unfoldable pub strip_lines : ℕ → Text → Option Text
strip_lines zero whole = none
strip_lines (suc n) whole =
    let s = trim_space whole in
    let rest = strip_lines n (trim_space (before_last_line s)) in
    if not (is_control_line (last_line s)) then some s else if has_newline s then rest else some []

abbrev pub or_empty : Option Text → Text
or_empty none = []
or_empty (some s) = s

unfoldable pub strip_trailing_control_lines : Text → Text
strip_trailing_control_lines s = or_empty (strip_lines (suc (length s)) s)

pub data ChannelDecision : Type 0 where
  empty pass speak missing : ChannelDecision

-- strings.Cut(s, "\n")
unfoldable pub first_line : Text → Text
first_line [] = []
first_line (c ∷ s) = let rest = first_line s in if c == 10 then [] else c ∷ rest

unfoldable pub after_first_line : Text → Text
after_first_line [] = []
after_first_line (c ∷ s) = let rest = after_first_line s in if c == 10 then s else rest

abbrev pub spoken : Text → Text × ChannelDecision
spoken [] = ([], pass)
spoken (c ∷ body) = (c ∷ body, speak)

unfoldable pub classify_stripped : Text → Text × ChannelDecision
classify_stripped s =
    let line = first_line s in
    let tok = normalize_decision_line line in
    if is_empty s
    then ([], empty)
    else if is_pass_token tok
    then ([], pass)
    else if is_speak_token tok
    then spoken
        (strip_trailing_control_lines (inline_after_speak (trim_space line) (after_first_line s)))
    else ([], missing)

unfoldable pub classify_channel_llm_reply : Text → Text × ChannelDecision
unfolding classify_stripped
classify_channel_llm_reply raw = classify_stripped (strip_think_tags (trim_space raw))

abbrev is_speak : ChannelDecision → Bool
is_speak speak = true
is_speak _ = false

unfoldable normalize_channel_llm_reply : Text → Text × Bool
unfolding classify_channel_llm_reply
normalize_channel_llm_reply raw =
    let r = classify_channel_llm_reply raw in (r.0, not (is_speak r.1))
