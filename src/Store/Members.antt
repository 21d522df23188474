-- ===== src/Store/Members.antt =====
-- internal/channeldata/channeldata.go: members of a channel and their turn state, and the settings of
-- turns; prepareChannelRecord and its like of cmd/store/main.go. Members are maps inside the channel, so a
-- default that MembersSlice adds is added in the channel.
use aegis_claw.Base.{ℕ, false, List, [], ◌∷◌, Option, none, some, if◌then◌else◌, ltb}
use aegis_claw.Base.Text.{Text, text}
use aegis_claw.Base.Trim.{trim_space}
use aegis_claw.Base.Json.{
  ℤ, pos, Json, boolean, int, str, arr, obj, Items, nil, cons, Fields, end, field, get, put,
}
use aegis_claw.Channel.Sequence.{as_int, or_zero, object_of, positive, backfill_message_seqs}
use aegis_claw.Store.Records.{put_missing}

unfoldable pub int_from_payload : Json → ℤ
int_from_payload v = or_zero (as_int v)

unfoldable pub ensure_member_defaults : Fields → Fields
ensure_member_defaults m = put_missing (text "pending") (boolean false) (
    put_missing (text "last_activity") (str []) (
      put_missing (text "last_error") (str []) (
        put_missing (text "last_outcome") (str []) (
          put_missing (text "mention_boosts_left") (int (pos 0)) (
            put_missing (text "cycles_since_turn") (int (pos 0))
              (put_missing (text "last_seen_seq") (int (pos 0)) m))))))

abbrev trimmed_string : Json → Text
trimmed_string (str s) = trim_space s
trimmed_string _ = []

unfoldable pub member_role : Fields → Text
unfolding trim_space
member_role m = trimmed_string (get m (text "role"))

unfoldable pub member_last_seen_seq : Fields → ℤ
member_last_seen_seq m = or_zero (as_int (get m (text "last_seen_seq")))

abbrev pub defaulted_item : Json → Json
defaulted_item (obj m) = obj (ensure_member_defaults m)
defaulted_item v = v

-- EnsureMemberDefaults on every member.
unfoldable pub with_defaults : Items → Items
with_defaults nil = nil
with_defaults (cons item rest) = cons (defaulted_item item) (with_defaults rest)

abbrev and_object : Option Fields → List Fields → List Fields
and_object none ms = ms
and_object (some m) ms = m ∷ ms

-- The maps among the items.
unfoldable pub objects : Items → List Fields
objects nil = []
objects (cons item rest) = and_object (object_of item) (objects rest)

abbrev pub items_of : Json → Items
items_of (arr items) = items
items_of _ = nil

unfoldable pub members_slice : Fields → List Fields
unfolding with_defaults objects
members_slice ch = objects (with_defaults (items_of (get ch (text "members"))))

unfoldable pub messages_slice : Fields → List Fields
unfolding objects
messages_slice ch = objects (items_of (get ch (text "messages")))

-- The channel after MembersSlice.
abbrev pub with_member_defaults : Fields → Json → Fields
with_member_defaults ch (arr items) = put ch (text "members") (arr (with_defaults items))
with_member_defaults ch _ = ch

unfoldable pub prepare_channel_record : Fields → Fields
prepare_channel_record ch =
    let numbered = backfill_message_seqs ch in
    with_member_defaults numbered (get numbered (text "members"))

unfoldable pub members_to_interface : List Fields → Items
members_to_interface [] = nil
members_to_interface (m ∷ ms) = cons (obj m) (members_to_interface ms)

abbrev message_text : Json → Text
message_text (str s) = s
message_text _ = []

abbrev content_of : Json → Text
content_of (str s) = s
content_of (obj m) = message_text (get m (text "content"))
content_of _ = []

unfoldable pub message_content : Fields → Text
message_content m = content_of (get m (text "content"))

unfoldable pub message_from : Fields → Text
unfolding trim_space
message_from m = trimmed_string (get m (text "from"))

-- The duration of the relevance window stands in minutes.
pub record TurnSettings : Type 0 where
  pub mention_boost_positions : ℕ
  pub max_mention_boosts_per_cycle : ℕ
  pub starvation_cycles : ℕ
  pub relevance_window_messages : ℕ
  pub relevance_window_minutes : ℕ
  pub max_relevance_anchors : ℕ

unfoldable pub default_turn_settings : TurnSettings
default_turn_settings = record {
  mention_boost_positions = 2;
  max_mention_boosts_per_cycle = 2;
  starvation_cycles = 3;
  relevance_window_messages = 50;
  relevance_window_minutes = 5;
  max_relevance_anchors = 8;
}

-- if v, ok := asInt(raw[key]); ok && v > 0 { out = v }
abbrev override : Fields → Text → ℕ → ℕ
override raw key default =
    let v = positive (or_zero (as_int (get raw key))) in if ltb 0 v then v else default

abbrev overridden : Option Fields → TurnSettings → TurnSettings
overridden none s = s
overridden (some raw) s = record {
  mention_boost_positions = override raw (text "mention_boost_positions") s.mention_boost_positions;
  max_mention_boosts_per_cycle =
      override raw (text "max_mention_boosts_per_cycle") s.max_mention_boosts_per_cycle;
  starvation_cycles = override raw (text "starvation_cycles") s.starvation_cycles;
  relevance_window_messages =
      override raw (text "relevance_window_messages") s.relevance_window_messages;
  relevance_window_minutes =
      override raw (text "relevance_window_minutes") s.relevance_window_minutes;
  max_relevance_anchors = override raw (text "max_relevance_anchors") s.max_relevance_anchors;
}

unfoldable pub effective_turn_settings : Fields → TurnSettings
unfolding default_turn_settings
effective_turn_settings ch =
    overridden (object_of (get ch (text "turn_settings"))) default_turn_settings

abbrev nat_field : Text → ℕ → Fields → Fields
nat_field key n m = field key (int (pos n)) m

unfoldable pub turn_settings_as_map : TurnSettings → Fields
unfolding default_turn_settings
turn_settings_as_map s =
    let mins =
      if ltb 0 s.relevance_window_minutes
      then s.relevance_window_minutes
      else default_turn_settings.relevance_window_minutes in
    nat_field (text "mention_boost_positions") s.mention_boost_positions (
      nat_field (text "max_mention_boosts_per_cycle") s.max_mention_boosts_per_cycle (
        nat_field (text "starvation_cycles") s.starvation_cycles (
          nat_field (text "relevance_window_messages") s.relevance_window_messages (
            nat_field (text "relevance_window_minutes") mins
              (nat_field (text "max_relevance_anchors") s.max_relevance_anchors end)))))
