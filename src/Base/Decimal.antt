-- ===== src/Base/Decimal.antt =====
-- Decimal printing: formatUint of internal/channelfacilitator/outbound.go, and fmt's %d.
use Prim.Native.Nat.{ℕ, zero, suc, ◌+◌, ◌-◌, ◌*◌, ◌/◌, ◌%◌, ◌^◌, ◌<◌}
use mathlib.Core.Path.{◌≡◌, refl, sym, ap, ◌∙◌}
use mathlib.Core.Logic.{inl, inr}
use mathlib.Core.List.{[], ◌∷◌}
use native.Mathlib.Nat.{pow-suc}
use native.Mathlib.Omega.{arith}
use aegis_claw.Base.Tests.{◌==◌, if◌then◌else◌, Bool-cases}
use aegis_claw.Base.Text.{Text, text}

-- The loop that writes digits from the back of the buffer; the fuel is the room left in it.
unfoldable pub digits_loop : ℕ → ℕ → Text → Text
digits_loop zero n buf = buf
digits_loop (suc room) n buf =
    let rest = digits_loop room (n / 10) ((b'0' + n % 10) ∷ buf) in if n == 0 then buf else rest

-- formatUint: the buffer is [20]byte.
unfoldable pub format_uint : ℕ → Text
format_uint n = if n == 0 then text "0" else digits_loop 20 n []

-- fmt.Sprintf("%d", n) for n not negative.
unfoldable pub decimal : ℕ → Text
decimal n = if n == 0 then text "0" else digits_loop n n []

-- The number that a text of digits denotes, after the digits of `acc`.
unfoldable pub value_from : ℕ → Text → ℕ
value_from acc [] = acc
value_from acc (c ∷ s) = value_from (acc * 10 + (c - b'0')) s

pub value_from-digits_loop :
    (room n : ℕ) (buf : Text)
    → n < 10 ^ room
    → value_from 0 (digits_loop room n buf) ≡ value_from n buf
unfolding digits_loop value_from
value_from-digits_loop zero n buf h = ap (λ k. value_from k buf) (omega arith)
value_from-digits_loop (suc room) n buf h = elim (Bool-cases (n == 0)) [
  | inl z ↦ rw z (ap (λ k. value_from k buf) (ground arith))
  | inr nz ↦ rw nz (
      value_from-digits_loop room (n / 10) ((b'0' + n % 10) ∷ buf) (omega (arith, pow-suc 10 room))
      ∙ ap (λ k. value_from k buf) (omega arith))
]

pub value_from-format_uint : (n : ℕ) → n < 10 ^ 20 → value_from 0 (format_uint n) ≡ n
unfolding format_uint value_from
value_from-format_uint n h = elim (Bool-cases (n == 0)) [
  | inl z ↦ rw z (ground arith)
  | inr nz ↦ rw nz (value_from-digits_loop 20 n [] h)
]

lt-pow : (n : ℕ) → n < 10 ^ n
lt-pow zero = omega arith
lt-pow (suc n) = omega (arith, pow-suc 10 n, lt-pow n)

pub value_from-decimal : (n : ℕ) → value_from 0 (decimal n) ≡ n
unfolding decimal value_from
value_from-decimal n = elim (Bool-cases (n == 0)) [
  | inl z ↦ rw z (ground arith)
  | inr nz ↦ rw nz (value_from-digits_loop n n [] (lt-pow n))
]

-- Different numbers are printed differently.
pub decimal-injective : (m n : ℕ) → decimal m ≡ decimal n → m ≡ n
decimal-injective m n e = sym (value_from-decimal m) ∙ (ap (value_from 0) e ∙ value_from-decimal n)

format_seven : format_uint 1207 ≡ text "1207"
unfolding format_uint digits_loop
format_seven = refl
