-- ===== src/Channel/Sequence.antt =====
-- internal/channeldata/channeldata.go: sequence numbers of messages. A channel and its messages are
-- maps, as decoded from JSON; a function that writes into them gives the new ones back.
use aegis_claw.Base.{
  ℕ, ◌+◌, ◌-◌, ◌%◌, Bool, true, false, ◌||◌, Option, none, some, if◌then◌else◌, ltb, leb, ◌==◌,
}
use aegis_claw.Base.Text.{text}
use aegis_claw.Base.Json.{
  ℤ, pos, negsuc, Json, null, int, int64, float64, fraction, arr, obj, Items, nil, cons, Fields,
  get, put,
}

-- The numbers of a channel are Go ints of 64 bits, as the words 0 to 2 ^ 64 - 1. The largest int, the int
-- of a word, the word after `n`, and the test that a positive int is at least that of the word `n`.
abbrev pub max_int : ℕ
max_int = 9223372036854775807

unfoldable pub int_of : ℕ → ℤ
int_of n = if leb n max_int then pos n else negsuc (18446744073709551615 - n)

unfoldable pub inc : ℕ → ℕ
inc n = (n + 1) % 18446744073709551616

abbrev pub at_least : ℕ → ℕ → Bool
at_least seq n = ltb max_int n || leb n seq

abbrev pub as_int : Json → Option ℤ
as_int (int n) = some n
as_int (int64 n) = some n
as_int (float64 n) = some n
as_int (fraction n) = some n
as_int _ = none

-- The number that the code goes on with: 0 where there is none.
abbrev pub or_zero : Option ℤ → ℤ
or_zero none = pos 0
or_zero (some n) = n

abbrev pub message_seq : Fields → ℤ
message_seq m = or_zero (as_int (get m (text "seq")))

-- n where n > 0, and 0 otherwise: the tests of the code are n > 0 and n <= 0.
abbrev pub positive : ℤ → ℕ
positive (pos n) = n
positive (negsuc n) = 0

-- m, ok := item.(map[string]interface{})
abbrev pub object_of : Json → Option Fields
object_of (obj m) = some m
object_of _ = none

-- The number of an item that is a message, and 0 for one that is none.
abbrev pub seq_of : Option Fields → ℕ
seq_of none = 0
seq_of (some m) = positive (message_seq m)

-- The largest number that a message has, from `max` on.
unfoldable pub largest_from : ℕ → Items → ℕ
largest_from max nil = max
largest_from max (cons item rest) =
    largest_from (if ltb max (seq_of (object_of item)) then seq_of (object_of item) else max) rest

abbrev pub largest_of : Json → ℕ
largest_of (arr items) = largest_from 0 items
largest_of _ = 0

unfoldable pub channel_message_count : Fields → ℕ
unfolding largest_from
channel_message_count ch = largest_of (get ch (text "messages"))

abbrev pub next_of : Fields → ℕ
next_of ch = positive (or_zero (as_int (get ch (text "next_seq"))))

abbrev pub numbered : Fields → ℕ → Fields
numbered ch next = put ch (text "next_seq") (int (int_of next))

-- The channel with its counter raised, and the number of the next message, a word.
unfoldable pub next_channel_seq : Fields → Fields × ℕ
unfolding channel_message_count int_of inc
next_channel_seq ch =
    let seq = if next_of ch == 0 then inc (channel_message_count ch) else next_of ch in
    (numbered ch (inc seq), seq)

pub record Backfilled : Type 0 where
  pub items : Items
  pub next : ℕ
  pub changed : Bool

abbrev pub onto : Json → Backfilled → Backfilled
onto item b = record b { items = cons item b.items }

-- The loop of BackfillMessageSeqs from the counter `next` on.
unfoldable pub backfill_items : ℕ → Items → Backfilled
unfolding int_of inc
backfill_items next nil = record { items = nil; next = next; changed = false }
backfill_items next (cons item rest) =
    let seq = seq_of (object_of item) in
    let kept = onto item (backfill_items (if at_least seq next then inc seq else next) rest) in
    let new = backfill_items (inc next) rest in
    let skipped = onto item (backfill_items next rest) in
    elim (object_of item) [
      | none ↦ skipped
      | some m ↦
          if ltb 0 seq
          then kept
          else onto (obj (put m (text "seq") (int (int_of next)))) (record new { changed = true })
    ]

abbrev pub is_null : Json → Bool
is_null null = true
is_null _ = false

abbrev pub start_of : Fields → ℕ
start_of ch = if next_of ch == 0 then 1 else next_of ch

-- The channel after the loop.
abbrev pub with_backfilled : Fields → Backfilled → Fields
with_backfilled ch b =
    let ch' = put ch (text "messages") (arr b.items) in
    if b.changed || is_null (get ch (text "next_seq")) then numbered ch' b.next else ch'

abbrev pub backfill_list : Fields → Items → Fields
backfill_list ch items = with_backfilled ch (backfill_items (start_of ch) items)

abbrev pub without_messages : Fields → Fields
without_messages ch = if is_null (get ch (text "next_seq")) then numbered ch 1 else ch

abbrev pub backfill_json : Fields → Json → Fields
backfill_json ch (arr nil) = without_messages ch
backfill_json ch (arr (cons item rest)) = backfill_list ch (cons item rest)
backfill_json ch _ = without_messages ch

unfoldable pub backfill_message_seqs : Fields → Fields
unfolding backfill_items
backfill_message_seqs ch = backfill_json ch (get ch (text "messages"))
