-- ===== src/Permissions/Types.antt =====
-- internal/permissions/types.go. Timestamps are texts that the caller passes in.
use aegis_claw.Base.{ℕ, Bool, false, List, []}
use aegis_claw.Base.Text.{Text, text}

pub record Grant : Type 0 where
  pub subject : Text
  pub capability : Text
  pub granted_by : Text
  pub granted_at : Text
  pub reason : Text

-- VisibilityLevel is a string type: any text may be stored, and four have a meaning.
abbrev pub hidden : Text
hidden = text "hidden"

abbrev pub granted_only : Text
granted_only = text "granted_only"

abbrev pub requestable : Text
requestable = text "requestable"

abbrev pub public : Text
public = text "public"

pub record VisibilityRule : Type 0 where
  pub subject : Text
  pub capability : Text
  pub level : Text
  pub reason : Text
  pub set_by : Text
  pub set_at : Text

pub record Request : Type 0 where
  pub id : Text
  pub subject : Text
  pub capability : Text
  pub context : Text
  pub timestamp : Text
  pub status : Text

-- The maps from tool names to true are the lists of their keys.
pub record Snapshot : Type 0 where
  pub subject : Text
  pub allowed_tools : List Text
  pub visible_tools : List Text
  pub requestable_tools : List Text
  pub can_discover : Bool
  pub version : ℕ
  pub timestamp : Text

-- The int64 version counts changes and is left unbounded.
pub record State : Type 0 where
  pub grants : List Grant
  pub visibility : List VisibilityRule
  pub requests : List Request
  pub ciso_delegation_enabled : Bool
  pub version : ℕ

unfoldable pub new_state : State
new_state = record {
  grants = [];
  visibility = [];
  requests = [];
  ciso_delegation_enabled = false;
  version = 0;
}
