-- ===== src/Ids/Compose.antt =====
-- The VM id composed of a role and a channel id.
use aegis_claw.Base.{
  ℕ, ◌≤◌, ◌≡◌, refl, sym, inl, inr, Bool, true, false, not, ◌&&◌, ◌||◌, List, [], ◌∷◌, ◌++◌, none,
  arith, Bool-cases, All, length, length-append,
}
use aegis_claw.Base.Text.{
  Text, text, same, eq_of_same, is_empty, one_of, has_prefix, has_suffix, contains,
}
use mathlib.Core.Path.{subst}
use aegis_claw.Ids.VmId.{is_letter, is_id_char, all_id_chars, matches_strict, validate_vm_id}
use aegis_claw.Ids.ChannelId.{allowed_ensure_roles, validate_channel_id, role_allowed}
use aegis_claw.Ids.Reserved.{compose_role_agent_id}

abbrev dash : Text
dash = text "-"

all_id_chars-append : (s t : Text) → all_id_chars (s ++ t) ≡ (all_id_chars s && all_id_chars t)
unfolding all_id_chars
all_id_chars-append [] t = refl
all_id_chars-append (c ∷ s) t = ground (arith, all_id_chars-append s t)

-- A text that starts with a letter has no dash in front.
letter_no_dash : (s : Text) → matches_strict s ≡ true → has_prefix s dash ≡ false
unfolding matches_strict has_prefix is_letter
letter_no_dash [] h = refl
letter_no_dash (c ∷ s) h = ground arith

letter_is_id_char : (c : ℕ) → is_letter c ≡ true → is_id_char c ≡ true
unfolding is_id_char
letter_is_id_char c h = ground arith

matches_all : (s : Text) → matches_strict s ≡ true → all_id_chars s ≡ true
unfolding matches_strict all_id_chars
matches_all [] h = refl
matches_all (c ∷ s) h = ground (arith, letter_is_id_char c)

matches_strict-join :
    (r ch : Text)
    → matches_strict r ≡ true
    → matches_strict ch ≡ true
    → matches_strict (r ++ (dash ++ ch)) ≡ true
unfolding matches_strict
matches_strict-join [] ch h k = cc
matches_strict-join (c ∷ r) ch h k = ground (
  arith,
  all_id_chars-append r (dash ++ ch),
  all_id_chars-append dash ch,
  matches_all ch k,
  dash_char,
)
  where
    dash_char : all_id_chars dash ≡ true
    dash_char = unfold all_id_chars is_id_char is_letter in refl

has_suffix-join :
    (r ch : Text) → is_empty ch ≡ false → has_suffix (r ++ ch) dash ≡ has_suffix ch dash
unfolding has_suffix same
has_suffix-join [] ch h = refl
has_suffix-join (c ∷ []) [] h = cc
has_suffix-join (c ∷ []) (d ∷ ch) h = ground arith
has_suffix-join (c ∷ b ∷ r) ch h = ground (arith, has_suffix-join (b ∷ r) ch h)

contains-join :
    (r ch : Text)
    → contains r (text "--") ≡ false
    → has_suffix r dash ≡ false
    → has_prefix ch dash ≡ false
    → contains ch (text "--") ≡ false
    → contains (r ++ (dash ++ ch)) (text "--") ≡ false
unfolding contains has_prefix has_suffix same
contains-join [] [] hr sr pc hc = refl
contains-join [] (c ∷ ch) hr sr pc hc = ground arith
contains-join (c ∷ []) ch hr sr pc hc = ground (arith, contains-join [] ch)
contains-join (c ∷ b ∷ r) ch hr sr pc hc = ground (arith, contains-join (b ∷ r) ch)

-- What ValidateVMID checks, apart from the length.
abbrev pub is_well_formed : Text → Bool
is_well_formed id = matches_strict id && not (has_suffix id (text "-") || contains id (text "--"))

pub is_well_formed-join :
    (r ch : Text)
    → is_well_formed r ≡ true
    → is_well_formed ch ≡ true
    → is_well_formed (r ++ (dash ++ ch)) ≡ true
unfolding matches_strict
is_well_formed-join r [] hr hc = cc
is_well_formed-join r (d ∷ ch) hr hc = ground (
  arith,
  matches_strict-join r (d ∷ ch),
  has_suffix-join r (dash ++ (d ∷ ch)) refl,
  has_suffix-join dash (d ∷ ch) refl,
  letter_no_dash (d ∷ ch),
  contains-join r (d ∷ ch),
)

pub validate_of_well_formed :
    (id : Text) → is_well_formed id ≡ true → length id ≤ 64 → validate_vm_id id ≡ none
unfolding validate_vm_id matches_strict
validate_of_well_formed [] h l = cc
validate_of_well_formed (c ∷ id) h l = ground arith

pub well_formed_of_channel :
    (ch : Text)
    → validate_channel_id ch ≡ true
    → (is_well_formed ch ≡ true) × (length ch ≤ 45) × (is_empty ch ≡ false)
unfolding validate_channel_id
well_formed_of_channel ch h = ground arith

-- A property of every listed text holds of a text that is one of them.
pub one_of-All {ℓ} :
    (P : Text → Type ℓ) (ts : List Text) (s : Text) → All P ts → one_of ts s ≡ true → P s
one_of-All P [] s a h = cc
one_of-All P (t ∷ ts) s a h = elim (Bool-cases (same s t)) [
  | inl e ↦ subst P (sym (eq_of_same s t e)) a.0
  | inr e ↦ one_of-All P ts s a.1 (ground arith)
]

abbrev RoleFits : Text → Type 0
RoleFits role = (is_well_formed role ≡ true) × (length role ≤ 18)

roles_fit : All RoleFits allowed_ensure_roles
unfolding matches_strict is_letter all_id_chars is_id_char has_suffix contains has_prefix same
roles_fit = (
  (refl, omega arith),
  (
    (refl, omega arith),
    (
      (refl, omega arith),
      (
        (refl, omega arith),
        (
          (refl, omega arith),
          (
            (refl, omega arith),
            ((refl, omega arith), ((refl, omega arith), ((refl, omega arith), tt))),
          ),
        ),
      ),
    ),
  ),
)

-- Every channel id that ValidateChannelID accepts composes with every role of the ensure_role list
-- to an id that ValidateVMID accepts.
pub compose-validate :
    (role ch : Text)
    → role_allowed role ≡ true
    → validate_channel_id ch ≡ true
    → validate_vm_id (compose_role_agent_id role ch) ≡ none
unfolding role_allowed
compose-validate role ch hr hc =
    let (form, short) = one_of-All RoleFits allowed_ensure_roles role roles_fit hr in
    let (cform, cshort, full) = well_formed_of_channel ch hc in
    rw full (
      validate_of_well_formed (role ++ (dash ++ ch)) (is_well_formed-join role ch form cform)
        (omega (arith, length-append role (dash ++ ch))))

-- For every valid channel id both ids of the paired path, agent-<id> and memory-<id>, are valid VM
-- ids.
pub pair-validate :
    (ch : Text)
    → validate_channel_id ch ≡ true
    → (validate_vm_id (text "agent-" ++ ch) ≡ none) × (validate_vm_id (text "memory-" ++ ch) ≡ none)
pair-validate ch hc =
    let (cform, cshort, full) = well_formed_of_channel ch hc in
    (
      validate_of_well_formed (text "agent-" ++ ch)
          (is_well_formed-join (text "agent") ch agent_form cform) (omega arith),
      validate_of_well_formed (text "memory-" ++ ch)
          (is_well_formed-join (text "memory") ch memory_form cform) (omega arith),
    )
  where
    agent_form : is_well_formed (text "agent") ≡ true
    agent_form =
        unfold matches_strict is_letter all_id_chars is_id_char has_suffix contains has_prefix
          same in
        refl

    memory_form : is_well_formed (text "memory") ≡ true
    memory_form =
        unfold matches_strict is_letter all_id_chars is_id_char has_suffix contains has_prefix
          same in
        refl
