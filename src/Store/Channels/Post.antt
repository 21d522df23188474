-- ===== src/Store/Channels/Post.antt =====
-- cmd/store: the numbers of a channel's messages when one is posted.
use aegis_claw.Base.{
  ℕ, ◌+◌, ◌<◌, ◌≤◌, ◌≡◌, refl, sym, ap, ◌∙◌, false, List, [], ◌∷◌, ◌++◌, arith, any, any-append,
  leb, ◌==◌,
}
use mathlib.Core.Path.{subst}
use aegis_claw.Base.Text.{text, same}
use aegis_claw.Base.Distinct.{Distinct, append-Distinct}
use aegis_claw.Base.Json.{Json, null, int, arr, obj, Items, nil, cons, Fields, get, put}
use aegis_claw.Channel.Sequence.{
  message_seq, positive, as_int, or_zero, next_of, numbered, next_channel_seq, backfill_items,
  max_int, int_of, is_null, start_of, backfill_list, backfill_json, backfill_message_seqs,
}
use aegis_claw.Channel.Backfill.{get-put, get-put-other, seqs, items_induct, below-suc}
use aegis_claw.Channel.Room.{int_of_small, inc_small}
use aegis_claw.Channel.Fresh.{next_of-numbered}
use aegis_claw.Store.World.{Request, append_item}
use aegis_claw.Store.Members.{items_of, prepare_channel_record, with_member_defaults}
use aegis_claw.Store.Channels.{entry_of, posted_channel}

-- The messages have different positive numbers, all below the channel's counter.
abbrev pub InSequence : Fields → Items → Type 0
InSequence ch items =
    (get ch (text "messages") ≡ arr items)
    × (0 < next_of ch)
    × (any (leb (next_of ch)) (seqs items) ≡ false)
    × (any (λ n. n == 0) (seqs items) ≡ false)
    × Distinct ◌==◌ (seqs items)

-- A backfill of numbered messages below the counter changes nothing.
backfill-numbered :
    (items : Items) (next : ℕ)
    → next ≤ max_int
    → any (leb next) (seqs items) ≡ false
    → any (λ n. n == 0) (seqs items) ≡ false
    → ((backfill_items next items).items ≡ items) × ((backfill_items next items).changed ≡ false)
unfolding backfill_items
backfill-numbered =
    items_induct
      (λ items.
        (next : ℕ)
        → next ≤ max_int
        → any (leb next) (seqs items) ≡ false
        → any (λ n. n == 0) (seqs items) ≡ false
        → ((backfill_items next items).items ≡ items)
          × ((backfill_items next items).changed ≡ false))
      (λ next l b z. (refl, refl)) (λ m rest ih next l b z. ground (arith, l, b, z, ih next))
      (λ item rest e ih next l b z. ground (arith, e, l, b, z, ih next))

-- The two channels have the same messages and the same counter.
abbrev Alike : Fields → Fields → Type 0
Alike ch ch' =
    (get ch' (text "messages") ≡ get ch (text "messages"))
    × (get ch' (text "next_seq") ≡ get ch (text "next_seq"))

counter_there : (ch : Fields) → 0 < next_of ch → is_null (get ch (text "next_seq")) ≡ false
counter_there ch h = by_value (get ch (text "next_seq")) h
  where
    by_value : (v : Json) → 0 < positive (or_zero (as_int v)) → is_null v ≡ false
    by_value null k = ground (arith, k)
    by_value v k = refl

backfill_list-unchanged :
    (ch : Fields) (items : Items)
    → InSequence ch items
    → next_of ch ≤ max_int
    → backfill_list ch items ≡ put ch (text "messages") (arr items)
backfill_list-unchanged ch items (m, p, b, z, d) l =
    let start : start_of ch ≡ next_of ch = ground (arith, p) in
    let (kept, unchanged) =
      backfill-numbered items (start_of ch) (omega (arith, start, l))
        (subst (λ n. any (leb n) (seqs items) ≡ false) (sym start) b) z in
    let there = counter_there ch p in rw (unchanged, there, kept) refl

backfill-Alike :
    (ch : Fields) (items : Items)
    → InSequence ch items
    → next_of ch ≤ max_int
    → Alike ch (backfill_message_seqs ch)
unfolding backfill_message_seqs same
backfill-Alike ch nil (m, p, b, z, d) l =
    let e : backfill_message_seqs ch ≡ ch = rw m (ground (arith, counter_there ch p)) in
    rw e (refl, refl)
backfill-Alike ch (cons item rest) (m, p, b, z, d) l =
    let items = cons item rest in
    let e : backfill_message_seqs ch ≡ put ch (text "messages") (arr items) =
      ap (backfill_json ch) m ∙ backfill_list-unchanged ch items (m, p, b, z, d) l in
    subst (Alike ch) (sym e) (
      get-put ch (text "messages") (arr items) ∙ sym m,
      get-put-other ch (text "messages") (text "next_seq") (arr items) refl,
    )

members-Alike : (ch : Fields) (v : Json) → Alike ch (with_member_defaults ch v)
unfolding same
members-Alike ch (arr items) = (
  get-put-other ch (text "members") (text "messages") _ refl,
  get-put-other ch (text "members") (text "next_seq") _ refl,
)
members-Alike ch v = (refl, refl)

prepare-Alike :
    (ch : Fields) (items : Items)
    → InSequence ch items
    → next_of ch ≤ max_int
    → Alike ch (prepare_channel_record ch)
unfolding prepare_channel_record
prepare-Alike ch items q l =
    let x = backfill_message_seqs ch in
    let first = backfill-Alike ch items q l in
    let second = members-Alike x (get x (text "members")) in
    (second.0 ∙ first.0, second.1 ∙ first.1)

seqs-append :
    (items : Items) (m : Fields)
    → seqs (append_item items (obj m)) ≡ seqs items ++ positive (message_seq m) ∷ []
unfolding append_item
seqs-append =
    items_induct
      (λ items.
        (m : Fields)
        → seqs (append_item items (obj m)) ≡ seqs items ++ positive (message_seq m) ∷ [])
      (λ m. refl) (λ k rest ih m. ap (λ ns. positive (message_seq k) ∷ ns) (ih m))
      (λ item rest e ih m. ground (arith, e, ih m))

none_equal : (n : ℕ) (xs : List ℕ) → any (leb n) xs ≡ false → any (λ x. x == n) xs ≡ false
none_equal n [] h = refl
none_equal n (x ∷ xs) h = ground (arith, none_equal n xs)

-- The entry is put behind the messages of a channel in sequence.
posted-InSequence :
    (r : Request) (payload c : Fields) (items : Items) (n : ℕ)
    → 0 < n
    → n < max_int
    → any (leb n) (seqs items) ≡ false
    → any (λ k. k == 0) (seqs items) ≡ false
    → Distinct ◌==◌ (seqs items)
    → InSequence
        (put
          (numbered c (n + 1))
          (text "messages")
          (arr (append_item items (entry_of r payload n))))
        (append_item items (entry_of r payload n))
unfolding same get
posted-InSequence r payload c items n p l b z d =
    let all : Items = append_item items (entry_of r payload n) in
    let ns : seqs all ≡ seqs items ++ n ∷ [] =
      seqs-append items _
      ∙ ap (λ k. seqs items ++ positive k ∷ []) (int_of_small n (omega (arith, l))) in
    let counter : next_of (put (numbered c (n + 1)) (text "messages") (arr all)) ≡ n + 1 =
      ap (λ v. positive (or_zero (as_int v)))
        (get-put-other (numbered c (n + 1)) (text "messages") (text "next_seq") (arr all) refl)
      ∙ next_of-numbered c (n + 1) (omega (arith, l)) in
    (
      get-put (numbered c (n + 1)) (text "messages") (arr all),
      rw counter (omega arith),
      rw (counter, ns)
          (any-append (leb (n + 1)) (seqs items) (n ∷ [])
            ∙ ground (arith, below-suc n (seqs items) b)),
      rw ns (any-append (λ k. k == 0) (seqs items) (n ∷ []) ∙ ground (arith, z)),
      rw ns (append-Distinct ◌==◌ (seqs items) n (none_equal n (seqs items) b) d),
    )

next-Alike :
    (ch p : Fields)
    → Alike ch p
    → 0 < next_of ch
    → next_of ch ≤ max_int
    → next_channel_seq p ≡ (numbered p (next_of ch + 1), next_of ch)
unfolding next_channel_seq
next-Alike ch p a h l =
    let same_next : next_of p ≡ next_of ch = ap (λ v. positive (or_zero (as_int v))) a.1 in
    let some_next : (next_of p == 0) ≡ false = ground (arith, same_next, h) in
    rw (some_next, same_next, inc_small (next_of ch) l) refl

-- A message posted into a channel whose messages have different positive numbers below its counter,
-- and whose counter is below the largest int of 64 bits, gets the counter as its number, which none of
-- them has, goes behind them, and leaves the channel so: all numbers are different, positive and below
-- the new counter.
pub posted_channel-InSequence :
    (r : Request) (payload ch : Fields) (items : Items)
    → InSequence ch items
    → next_of ch < max_int
    → let o = posted_channel r payload ch in
      (o.1 ≡ next_of ch) × InSequence o.0 (append_item items (entry_of r payload (next_of ch)))
unfolding posted_channel same
posted_channel-InSequence r payload ch items q l =
    let p = prepare_channel_record ch in
    let n = next_of ch in
    let low : next_of ch ≤ max_int = omega (arith, l) in
    let alike = prepare-Alike ch items q low in
    let next = next-Alike ch p alike q.1 low in
    let here : get (numbered p (n + 1)) (text "messages") ≡ arr items =
      get-put-other p (text "next_seq") (text "messages") (int (int_of (n + 1))) refl
      ∙ (alike.0 ∙ q.0) in
    let out : posted_channel r payload ch ≡ (
      put (numbered p (n + 1)) (text "messages") (arr (append_item items (entry_of r payload n))),
      n,
    ) =
      ap
        (λ x. (
          put x.0 (text "messages")
              (arr (append_item (items_of (get x.0 (text "messages"))) (entry_of r payload x.1))),
          x.1,
        ))
        next
      ∙ ap
          (λ v. (
            put (numbered p (n + 1)) (text "messages")
                (arr (append_item (items_of v) (entry_of r payload n))),
            n,
          ))
          here in
    subst (λ o. (o.1 ≡ n) × InSequence o.0 (append_item items (entry_of r payload n))) (sym out)
      (refl, posted-InSequence r payload p items n q.1 l q.2 q.3 q.4)
