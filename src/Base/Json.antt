-- ===== src/Base/Json.antt =====
-- Decoded JSON values as Go holds them in interface{}, and map[string]interface{} with its reads.
use Prim.Native.Nat.{ℕ}
use mathlib.Core.Bool.{Bool, true, false}
use mathlib.Core.List.{[]}
use aegis_claw.Base.Tests.{if◌then◌else◌}
use aegis_claw.Base.Text.{Text, same}

-- `negsuc n` is -(n + 1).
pub data ℤ : Type 0 where
  pos : ℕ → ℤ
  negsuc : ℕ → ℤ

-- A float64 stands with the integer that Go's conversion to int makes of it; `fraction` is one that is
-- no whole number.
mutual
  pub data Json : Type 0 where
    null : Json
    boolean : Bool → Json
    int : ℤ → Json
    int64 : ℤ → Json
    float64 : ℤ → Json
    fraction : ℤ → Json
    str : Text → Json
    arr : Items → Json
    obj : Fields → Json

  pub data Items : Type 0 where
    nil : Items
    cons : Json → Items → Items

  pub data Fields : Type 0 where
    end : Fields
    field : Text → Json → Fields → Fields

-- m[key]; a missing key reads as the nil interface.
unfoldable pub get : Fields → Text → Json
get end key = null
get (field k v m) key = if same k key then v else get m key

-- m[key] = v
unfoldable pub put : Fields → Text → Json → Fields
put end key v = field key v end
put (field k w m) key v = if same k key then field k v m else field k w (put m key v)

-- _, ok := m[key]
unfoldable pub has_key : Fields → Text → Bool
has_key end key = false
has_key (field k v m) key = if same k key then true else has_key m key

-- s, _ := v.(string)
abbrev pub as_string : Json → Text
as_string (str s) = s
as_string _ = []

-- b, _ := v.(bool)
abbrev pub as_bool : Json → Bool
as_bool (boolean b) = b
as_bool _ = false
