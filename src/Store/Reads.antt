-- ===== src/Store/Reads.antt =====
-- cmd/store/store_dispatch.go: the reads of messages by number.
pub mod Window
use aegis_claw.Base.{
  ℕ, Bool, true, false, not, ◌&&◌, ◌||◌, List, [], ◌∷◌, ◌-◌, Option, none, some, if◌then◌else◌, any,
  ltb, leb,
}
use aegis_claw.Base.Text.{Text, text, same, is_empty, to_lower, contains}
use aegis_claw.Base.Json.{
  ℤ, pos, negsuc, Json, null, int, str, arr, obj, Items, nil, cons, Fields, end, field, get,
}
use aegis_claw.Channel.Sequence.{positive, message_seq}
use aegis_claw.Store.Payload.{Opt, present, missing, must, opt_object, opt_array}
use aegis_claw.Store.World.{Request, Response, World, reply, or_error}
use aegis_claw.Store.Members.{
  int_from_payload, messages_slice, prepare_channel_record, members_to_interface, message_content,
  message_from,
}
use aegis_claw.Store.Channels.{with_channel, on_stored}
use aegis_claw.Store.Turns.{keep_prepared}

-- a <= b
unfoldable pub int_le : ℤ → ℤ → Bool
int_le (pos a) (pos b) = leb a b
int_le (pos a) (negsuc b) = false
int_le (negsuc a) (pos b) = true
int_le (negsuc a) (negsuc b) = leb b a

abbrev author_matches : Json → Fields → Bool
author_matches (str author) m = is_empty author || same (message_from m) author
author_matches _ m = true

abbrev keyword_in : Text → Json → Bool
keyword_in content (str kw) = is_empty kw || contains content (to_lower kw)
keyword_in content _ = true

unfoldable pub keywords_in : Text → Items → Bool
keywords_in content nil = true
keywords_in content (cons k ks) = keyword_in content k && keywords_in content ks

abbrev keywords_match : Json → Fields → Bool
keywords_match (arr ks) m = keywords_in (to_lower (message_content m)) ks
keywords_match _ m = true

abbrev pub matches_opt : Fields → Opt Fields → Bool
matches_opt m missing = true
matches_opt m (present filter) =
    author_matches (get filter (text "author")) m && keywords_match (get filter (text "keywords")) m

unfoldable pub message_matches_filter : Fields → Opt Fields → Bool
unfolding to_lower contains keywords_in
message_matches_filter m filter = matches_opt m filter

-- The test of the loop of channel.get_messages.
abbrev pub wanted : ℤ → Opt Fields → Fields → Bool
wanted since filter m = not (int_le (message_seq m) since) && message_matches_filter m filter

-- That loop, with `left` messages to go before it breaks.
unfoldable pub collect : ℤ → Opt Fields → ℕ → List Fields → List Fields
unfolding int_le message_matches_filter
collect since filter left [] = []
collect since filter left (m ∷ ms) =
    let after = collect since filter (left - 1) ms in
    let rest = collect since filter left ms in
    if not (wanted since filter m) then rest else if leb left 1 then m ∷ [] else m ∷ after

-- A slice that nothing was appended to is nil, and null when encoded.
abbrev nil_or_array : List Fields → Json
nil_or_array [] = null
nil_or_array (m ∷ ms) = arr (members_to_interface (m ∷ ms))

-- The number under a key, 0 where there is none.
abbrev pub number_at : Fields → Text → ℤ
number_at payload key = int_from_payload (get payload key)

abbrev pub limit_of : Fields → ℕ
limit_of payload = let n = positive (number_at payload (text "limit")) in if ltb 0 n then n else 50

abbrev messages_reply : Text → ℤ → List Fields → Response
messages_reply id since result = reply (text "channel.get_messages.data") (
    obj (
      field (text "channel_id") (str id)
        (field (text "since_seq") (int since) (field (text "messages") (nil_or_array result) end))))

unfoldable pub on_get_messages : Request → World → World × Response
on_get_messages r w = with_channel r w (λ payload id.
    let since = number_at payload (text "since_seq") in
    or_error w (must r.command (opt_object payload (text "filter"))) (λ filter.
      on_stored id w
        (λ stored.
          let ch = prepare_channel_record stored in
          (
            keep_prepared id ch w,
            messages_reply id since (collect since filter (limit_of payload) (messages_slice ch)),
          ))
        (messages_reply id since [])))

-- bySeq[seq]: the last message with the number.
unfoldable pub by_seq : ℤ → List Fields → Option Fields
by_seq seq [] = none
by_seq seq (m ∷ ms) =
    let rest = by_seq seq ms in
    elim rest [
      | some later ↦ some later
      | none ↦ if int_le (message_seq m) seq && int_le seq (message_seq m) then some m else none
    ]

abbrev int_eq : ℤ → ℤ → Bool
int_eq a b = int_le a b && int_le b a

-- The keys of anchorSet, each once.
unfoldable pub anchor_set : Items → List ℤ
anchor_set nil = []
anchor_set (cons a rest) =
    let others = anchor_set rest in
    let n = int_from_payload a in if any (int_eq n) others then others else n ∷ others

abbrev found : Option Fields → List Fields → List Fields
found none ms = ms
found (some m) ms = m ∷ ms

unfoldable pub anchored : List Fields → List ℤ → List Fields
anchored ms [] = []
anchored ms (n ∷ ns) = found (by_seq n ms) (anchored ms ns)

unfoldable pub newer : ℤ → List Fields → List Fields
newer since [] = []
newer since (m ∷ ms) =
    let rest = newer since ms in if int_le (message_seq m) since then rest else m ∷ rest

abbrev relevant_reply : Text → ℤ → List Fields → List Fields → Response
relevant_reply id since batch anchors = reply (text "channel.get_relevant_since.data") (
    obj (
      field (text "channel_id") (str id) (
        field (text "since_seq") (int since) (
          field (text "new_messages") (nil_or_array batch)
            (field (text "anchors") (nil_or_array anchors) end)))))

abbrev items_or_none : Opt Items → Items
items_or_none missing = nil
items_or_none (present items) = items

unfoldable pub on_get_relevant_since : Request → World → World × Response
unfolding by_seq newer
on_get_relevant_since r w = with_channel r w (λ payload id.
    let since = number_at payload (text "since_seq") in
    or_error w (must r.command (opt_array payload (text "anchor_seqs"))) (λ raw.
      on_stored id w
        (λ stored.
          let ch = prepare_channel_record stored in
          (
            keep_prepared id ch w,
            relevant_reply id since (newer since (messages_slice ch))
                (anchored (messages_slice ch) (anchor_set (items_or_none raw))),
          ))
        (relevant_reply id since [] [])))
