-- ===== src/Channel/Fresh.antt =====
-- The number of the next message after a backfill.
use aegis_claw.Base.{
  ℕ, ◌+◌, ◌≤◌, ◌<◌, ◌≡◌, refl, sym, ap, ◌∙◌, inl, inr, false, ◌||◌, arith, Bool-cases, any, length,
  leb, ◌==◌,
}
use mathlib.Core.Path.{subst}
use aegis_claw.Base.Text.{Text, text, same}
use aegis_claw.Base.Distinct.{Distinct}
use aegis_claw.Base.Json.{Json, int, arr, Items, nil, cons, Fields, get, put}
use aegis_claw.Channel.Sequence.{
  object_of, seq_of, message_seq, positive, largest_from, largest_of, channel_message_count,
  next_of, numbered, next_channel_seq, Backfilled, max_int, int_of, with_backfilled, is_null,
  start_of, backfill_list, backfill_json, backfill_message_seqs,
}
use aegis_claw.Channel.Room.{
  int_of_small, inc_small, backfill_items-room, count_items-bound, largest_below,
}
use aegis_claw.Channel.Backfill.{
  get-put, get-put-other, seqs, count_items, both_numbered, items_induct, below_self, all_numbered,
  all-Distinct, counter_grows,
}

largest_grows : (items : Items) (max : ℕ) → max ≤ largest_from max items
unfolding largest_from
largest_grows nil max = omega arith
largest_grows (cons item rest) max =
    ground (arith, largest_grows rest max, largest_grows rest (seq_of (object_of item)))

-- No message has a number above the largest.
largest_bounds :
    (items : Items) (max : ℕ) → any (leb (largest_from max items + 1)) (seqs items) ≡ false
unfolding largest_from
largest_bounds =
    items_induct (λ items. (max : ℕ) → any (leb (largest_from max items + 1)) (seqs items) ≡ false)
      (λ max. refl)
      (λ m rest ih max. ground (
        arith,
        ih max,
        ih (positive (message_seq m)),
        largest_grows rest max,
        largest_grows rest (positive (message_seq m)),
      ))
      (λ item rest e ih max. ground (arith, e, ih max))

-- A backfill that gives no number changes none.
unchanged :
    (items : Items) (next : ℕ)
    → any (leb next) (seqs items) ≡ false
    → (count_items next items).changed ≡ false
    → seqs (count_items next items).items ≡ seqs items
unfolding count_items
unchanged =
    items_induct
      (λ items.
        (next : ℕ)
        → any (leb next) (seqs items) ≡ false
        → (count_items next items).changed ≡ false
        → seqs (count_items next items).items ≡ seqs items)
      (λ next b c. refl) (λ m rest ih next b c. ground (arith, ih next, c, b))
      (λ item rest e ih next b c. ground (arith, e, ih next, c, b))

same_length :
    (items : Items) (next : ℕ) → length (seqs (count_items next items).items) ≡ length (seqs items)
unfolding count_items
same_length =
    items_induct
      (λ items. (next : ℕ) → length (seqs (count_items next items).items) ≡ length (seqs items))
      (λ next. refl)
      (λ m rest ih next. ground (arith, ih next, ih (next + 1), ih (positive (message_seq m) + 1)))
      (λ item rest e ih next. ground (arith, e, ih next))

abbrev messages_key : Text
messages_key = text "messages"

abbrev next_key : Text
next_key = text "next_seq"

pub keys_apart : (same next_key messages_key ≡ false) × (same messages_key next_key ≡ false)
unfolding same
keys_apart = (refl, refl)

pub next_of-numbered : (ch : Fields) (n : ℕ) → n ≤ max_int → next_of (numbered ch n) ≡ n
next_of-numbered ch n h = rw (get-put ch next_key (int (int_of n)), int_of_small n h) refl

-- What a backfilled channel promises about the items that it holds.
abbrev pub IsNumbered : Fields → Items → Type 0
IsNumbered ch items =
    (get ch (text "messages") ≡ arr items)
    × Distinct ◌==◌ (seqs items)
    × (any (λ s. s == 0) (seqs items) ≡ false)
    × (any (λ s. (next_channel_seq ch).1 == s) (seqs items) ≡ false)

start_positive : (ch : Fields) → 0 < start_of ch
start_positive ch = ground arith

-- The counter is written.
written-IsNumbered :
    (ch : Fields) (items : Items)
    → any (leb (start_of ch)) (seqs items) ≡ false
    → Distinct both_numbered (seqs items)
    → start_of ch + length (seqs items) ≤ max_int
    → let b = count_items (start_of ch) items in
      IsNumbered (numbered (put ch (text "messages") (arr b.items)) b.next) b.items
unfolding next_channel_seq
written-IsNumbered ch items low d room = (here, distinct, zeros, fresh)
  where
    b : Backfilled
    b = count_items (start_of ch) items

    ch' : Fields
    ch' = put ch messages_key (arr b.items)

    here : get (numbered ch' b.next) messages_key ≡ arr b.items
    here =
        get-put-other ch' next_key messages_key (int (int_of b.next)) keys_apart.0
        ∙ get-put ch messages_key (arr b.items)

    distinct : Distinct ◌==◌ (seqs b.items)
    distinct = all-Distinct items (start_of ch) (start_positive ch) low d

    zeros : any (λ s. s == 0) (seqs b.items) ≡ false
    zeros = (all_numbered items (start_of ch) (start_positive ch) low).0

    bound : b.next ≤ max_int
    bound = omega (arith, room, count_items-bound items (start_of ch) low)

    next : (next_channel_seq (numbered ch' b.next)).1 ≡ b.next
    next = ground (
      arith,
      next_of-numbered ch' b.next bound,
      counter_grows (start_of ch) items,
      start_positive ch,
    )

    fresh : any (λ s. (next_channel_seq (numbered ch' b.next)).1 == s) (seqs b.items) ≡ false
    fresh = rw next (
        below_self b.next (seqs b.items)
          (all_numbered items (start_of ch) (start_positive ch) low).1)

-- The counter is left as it is: it is above the numbers, or there is none.
left-IsNumbered :
    (ch : Fields) (items : Items)
    → any (leb (start_of ch)) (seqs items) ≡ false
    → Distinct both_numbered (seqs items)
    → (count_items (start_of ch) items).changed ≡ false
    → start_of ch ≤ max_int
    → let b = count_items (start_of ch) items in
      IsNumbered (put ch (text "messages") (arr b.items)) b.items
unfolding next_channel_seq channel_message_count
left-IsNumbered ch items low d same_all room = (here, distinct, zeros, fresh)
  where
    b : Backfilled
    b = count_items (start_of ch) items

    ch' : Fields
    ch' = put ch messages_key (arr b.items)

    here : get ch' messages_key ≡ arr b.items
    here = get-put ch messages_key (arr b.items)

    distinct : Distinct ◌==◌ (seqs b.items)
    distinct = all-Distinct items (start_of ch) (start_positive ch) low d

    zeros : any (λ s. s == 0) (seqs b.items) ≡ false
    zeros = (all_numbered items (start_of ch) (start_positive ch) low).0

    kept : next_of ch' ≡ next_of ch
    kept = rw (get-put-other ch messages_key next_key (arr b.items) keys_apart.1) refl

    below_start : any (leb (start_of ch)) (seqs b.items) ≡ false
    below_start =
        subst (λ ns. any (leb (start_of ch)) ns ≡ false)
          (sym (unchanged items (start_of ch) low same_all)) low

    count : channel_message_count ch' ≡ largest_from 0 b.items
    count = ap largest_of here

    fits : largest_from 0 b.items ≤ max_int
    fits =
        omega (arith, room, largest_below b.items (start_of ch) 0 (start_positive ch) below_start)

    fresh : any (λ s. (next_channel_seq ch').1 == s) (seqs b.items) ≡ false
    fresh = elim (Bool-cases (next_of ch == 0)) [
      | inl z ↦
          let first : (next_channel_seq ch').1 ≡ largest_from 0 b.items + 1 =
            ground (arith, kept, z, count, inc_small (largest_from 0 b.items), fits) in
          rw first (below_self _ (seqs b.items) (largest_bounds b.items 0))
      | inr nz ↦
          let counted : (next_channel_seq ch').1 ≡ start_of ch = ground (arith, kept, nz) in
          rw counted (below_self _ (seqs b.items) below_start)
    ]

counted-IsNumbered :
    (ch : Fields) (items : Items)
    → any (leb (start_of ch)) (seqs items) ≡ false
    → Distinct both_numbered (seqs items)
    → start_of ch + length (seqs items) ≤ max_int
    → let b = count_items (start_of ch) items in IsNumbered (with_backfilled ch b) b.items
counted-IsNumbered ch items low d room =
    elim (Bool-cases ((count_items (start_of ch) items).changed || is_null (get ch next_key))) [
      | inl w ↦
          subst (λ c. IsNumbered c (count_items (start_of ch) items).items) (sym (rw w refl))
            (written-IsNumbered ch items low d room)
      | inr l ↦
          subst (λ c. IsNumbered c (count_items (start_of ch) items).items) (sym (rw l refl))
            (left-IsNumbered ch items low d (ground (arith, l)) (omega (arith, room)))
    ]

list-IsNumbered :
    (ch : Fields) (items : Items)
    → any (leb (start_of ch)) (seqs items) ≡ false
    → Distinct both_numbered (seqs items)
    → start_of ch + length (seqs items) ≤ max_int
    → IsNumbered (backfill_list ch items) (count_items (start_of ch) items).items
list-IsNumbered ch items low d room =
    subst (λ b. IsNumbered (with_backfilled ch b) (count_items (start_of ch) items).items)
      (sym (backfill_items-room items (start_of ch) room low))
      (counted-IsNumbered ch items low d room)

-- Where the messages that have a number have different ones, all below the channel's counter, and the
-- counter can go up by the number of messages without leaving the 64 bits of an int,
-- BackfillMessageSeqs leaves as many messages, gives each a positive number, no two the same one,
-- and the next number that the channel gives out is none of theirs.
pub backfill_message_seqs_effect :
    (ch : Fields) (item : Json) (rest : Items)
    → get ch (text "messages") ≡ arr (cons item rest)
    → any (leb (start_of ch)) (seqs (cons item rest)) ≡ false
    → Distinct both_numbered (seqs (cons item rest))
    → start_of ch + length (seqs (cons item rest)) ≤ max_int
    → (items : Items) × (get (backfill_message_seqs ch) (text "messages") ≡ arr items)
      × (length (seqs items) ≡ length (seqs (cons item rest)))
      × Distinct ◌==◌ (seqs items)
      × (any (λ s. s == 0) (seqs items) ≡ false)
      × (any (λ s. (next_channel_seq (backfill_message_seqs ch)).1 == s) (seqs items) ≡ false)
unfolding backfill_message_seqs
backfill_message_seqs_effect ch item rest e low d room =
    let items = (count_items (start_of ch) (cons item rest)).items in
    let out : IsNumbered (backfill_json ch (get ch messages_key)) items =
      subst (λ j. IsNumbered (backfill_json ch j) items) (sym e)
        (list-IsNumbered ch (cons item rest) low d room) in
    (items, out.0, same_length (cons item rest) (start_of ch), out.1, out.2, out.3)
