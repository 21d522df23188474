-- ===== src/Channel/Examples.antt =====
-- A channel with one message that has a number and one that has none.
use aegis_claw.Base.{ℕ, ◌+◌, ◌≤◌, arith, ◌≡◌, refl, [], ◌∷◌, false, any, length, leb, ◌==◌}
use aegis_claw.Base.Text.{text, same}
use aegis_claw.Base.Distinct.{Distinct}
use aegis_claw.Base.Json.{
  pos, negsuc, Json, int, str, arr, obj, Items, nil, cons, Fields, end, field, get, put,
}
use aegis_claw.Channel.Sequence.{
  max_int, next_channel_seq, backfill_items, start_of, backfill_message_seqs,
}
use aegis_claw.Channel.Backfill.{seqs, both_numbered}
use aegis_claw.Channel.Fresh.{backfill_message_seqs_effect}

abbrev old_message : Json
old_message = obj (field (text "from") (str (text "coder")) end)

abbrev new_message : ℕ → Json
new_message n = obj (field (text "seq") (int (pos n)) end)

abbrev channel : Fields
channel =
    field (text "next_seq") (int (pos 5))
      (field (text "messages") (arr (cons old_message (cons (new_message 4) nil))) end)

channel_messages : get channel (text "messages") ≡ arr (cons old_message (cons (new_message 4) nil))
unfolding get same
channel_messages = refl

channel_low :
    any (leb (start_of channel)) (seqs (cons old_message (cons (new_message 4) nil))) ≡ false
unfolding get same
channel_low = refl

channel-Distinct : Distinct both_numbered (seqs (cons old_message (cons (new_message 4) nil)))
unfolding get same
channel-Distinct = (refl, (refl, tt))

channel_room :
    start_of channel + length (seqs (cons old_message (cons (new_message 4) nil))) ≤ max_int
unfolding get same
channel_room = omega arith

backfill_message_seqs_effect_example :
    (items : Items) × (get (backfill_message_seqs channel) (text "messages") ≡ arr items)
    × (length (seqs items) ≡ length (seqs (cons old_message (cons (new_message 4) nil))))
    × Distinct ◌==◌ (seqs items)
    × (any (λ s. s == 0) (seqs items) ≡ false)
    × (any (λ s. (next_channel_seq (backfill_message_seqs channel)).1 == s) (seqs items) ≡ false)
backfill_message_seqs_effect_example =
    backfill_message_seqs_effect channel old_message (cons (new_message 4) nil) channel_messages
      channel_low channel-Distinct channel_room

-- Without a counter, a message in front of one with the number 1 gets that number too.
number_given_twice :
    seqs (backfill_items 1 (cons old_message (cons (new_message 1) nil))).items ≡ 1 ∷ 1 ∷ []
unfolding backfill_items get put same
number_given_twice = refl

-- The counter wraps around behind the largest int.
abbrev full_channel : Fields
full_channel = field (text "next_seq") (int (pos 9223372036854775807)) end

counter_wraps :
    let (ch, seq) = next_channel_seq full_channel in
    (seq ≡ 9223372036854775807) × (get ch (text "next_seq") ≡ int (negsuc 9223372036854775807))
unfolding next_channel_seq get put same
counter_wraps = (refl, refl)
