-- ===== src/Collab/Reply/Clean.antt =====
-- internal/collab/reply.go: what the loop that strips the control lines leaves.
use aegis_claw.Base.{
  ◌≡◌, refl, sym, ap, if◌then◌else◌, arith, ℕ, zero, suc, Bool, true, false, inl, inr, some, [],
  ◌∷◌, length, not, ◌||◌, ◌<◌, ◌≤◌,
}
use mathlib.Core.Path.{subst}
use aegis_claw.Base.Tests.{Bool-cases}
use aegis_claw.Base.Text.{Text, is_empty}
use aegis_claw.Base.Trim.{trim_space, trim_left, trim_right}
use aegis_claw.Collab.Reply.{
  has_newline, last_line, before_last_line, is_control_line, strip_lines,
  strip_trailing_control_lines, ChannelDecision, empty, pass, speak, missing, spoken,
  classify_stripped, classify_channel_llm_reply, strip_think_tags,
}

length-trim_left : (s : Text) → length (trim_left s) ≤ length s
unfolding trim_left
length-trim_left [] = omega arith
length-trim_left (c ∷ s) = ground (arith, length-trim_left s)

length-trim_right : (s : Text) → length (trim_right s) ≤ length s
unfolding trim_right
length-trim_right [] = omega arith
length-trim_right (c ∷ s) = ground (arith, length-trim_right s)

length-trim_space : (s : Text) → length (trim_space s) ≤ length s
unfolding trim_space
length-trim_space s = omega (arith, length-trim_left (trim_right s), length-trim_right s)

length-before_last_line : (s : Text) → has_newline s ≡ true → length (before_last_line s) < length s
unfolding before_last_line
length-before_last_line [] h = ground arith
length-before_last_line (c ∷ s) h = elim (Bool-cases (has_newline s)) [
  | inl e ↦ rw e (omega (arith, length-before_last_line s e))
  | inr e ↦ rw e (omega arith)
]

-- Nothing is left, or a text whose last line is no control line.
abbrev pub is_clean : Text → Bool
is_clean s = is_empty s || not (is_control_line (last_line s))

-- A loop with a turn for each byte, and one more, comes to its end, and what it returns is empty or ends
-- with a line that is no control line.
pub strip_lines-ends :
    (n : ℕ) (s : Text)
    → length s < n
    → (r : Text) × ((strip_lines n s ≡ some r) × (is_clean r ≡ true))
unfolding strip_lines
strip_lines-ends zero s h = absurd (omega (arith, h))
strip_lines-ends (suc n) s h = elim (Bool-cases (is_control_line (last_line (trim_space s)))) [
  | inr e ↦ (trim_space s, (rw e refl, ground (arith, e)))
  | inl e ↦ elim (Bool-cases (has_newline (trim_space s))) [
    | inl l ↦
        let (r, (q, c)) = strip_lines-ends n (trim_space (before_last_line (trim_space s))) (
          omega (
            arith,
            h,
            length-trim_space s,
            length-before_last_line (trim_space s) l,
            length-trim_space (before_last_line (trim_space s)),
          )) in
        (r, (rw (e, l) q, c))
    | inr l ↦ ([], (rw (e, l) refl, refl))
  ]
]

strip_trailing_control_lines_clean : (s : Text) → is_clean (strip_trailing_control_lines s) ≡ true
unfolding strip_trailing_control_lines
strip_trailing_control_lines_clean s =
    let (r, (q, c)) = strip_lines-ends (suc (length s)) s (omega arith) in rw q c

classified :
    (e p k : Bool) (b : Text × ChannelDecision) (content : Text)
    → (if e then ([], empty) else if p then ([], pass) else if k then b else ([], missing))
      ≡ (content, speak)
    → b ≡ (content, speak)
classified true p k b content h = cc
classified false true k b content h = cc
classified false false true b content h = h
classified false false false b content h = cc

spoken_body :
    (b content : Text) → spoken b ≡ (content, speak) → (b ≡ content) × (is_empty content ≡ false)
spoken_body [] content h = cc
spoken_body (c ∷ b) content h = let q : c ∷ b ≡ content = ap (λ x. x.0) h in (q, rw (sym q) refl)

clean_body :
    (s content : Text)
    → spoken (strip_trailing_control_lines s) ≡ (content, speak)
    → (is_empty content ≡ false) × (is_control_line (last_line content) ≡ false)
clean_body s content h =
    let (q, e) = spoken_body (strip_trailing_control_lines s) content h in
    let c : is_clean content ≡ true =
      subst (λ x. is_clean x ≡ true) q (strip_trailing_control_lines_clean s) in
    (e, ground (arith, c, e))

stripped_speak :
    (s content : Text)
    → classify_stripped s ≡ (content, speak)
    → (is_empty content ≡ false) × (is_control_line (last_line content) ≡ false)
unfolding classify_stripped
stripped_speak s content h = clean_body _ content (classified _ _ _ _ content h)

-- What a model's output posts in a channel is not empty, and its last line is no control line.
pub classify_channel_llm_reply-speak :
    (raw content : Text)
    → classify_channel_llm_reply raw ≡ (content, speak)
    → (is_empty content ≡ false) × (is_control_line (last_line content) ≡ false)
unfolding classify_channel_llm_reply
classify_channel_llm_reply-speak raw content h =
    stripped_speak (strip_think_tags (trim_space raw)) content h
