-- ===== src/Channel/Room.antt =====
-- Where the 64 bits of a channel's counter have room, the numbers are those without a bound.
use aegis_claw.Base.{ℕ, ◌+◌, ◌≤◌, ◌<◌, ◌≡◌, refl, false, arith, any, length, leb}
use aegis_claw.Base.Json.{pos, Items}
use aegis_claw.Channel.Sequence.{
  int_of, inc, max_int, message_seq, positive, largest_from, backfill_items,
}
use aegis_claw.Channel.Backfill.{seqs, count_items, items_induct, below-suc}

pub int_of_small : (n : ℕ) → n ≤ max_int → int_of n ≡ pos n
unfolding int_of
int_of_small n h = ground (arith, h)

pub inc_small : (n : ℕ) → n ≤ max_int → inc n ≡ n + 1
unfolding inc
inc_small n h = omega (arith, h)

-- Where the counter has room for all messages, and is above their numbers, nothing wraps around.
pub backfill_items-room :
    (items : Items) (next : ℕ)
    → next + length (seqs items) ≤ max_int
    → any (leb next) (seqs items) ≡ false
    → backfill_items next items ≡ count_items next items
unfolding backfill_items count_items
backfill_items-room =
    items_induct
      (λ items.
        (next : ℕ)
        → next + length (seqs items) ≤ max_int
        → any (leb next) (seqs items) ≡ false
        → backfill_items next items ≡ count_items next items)
      (λ next r b. refl)
      (λ m rest ih next r b. ground (
        arith,
        r,
        b,
        ih next,
        ih (next + 1),
        below-suc next (seqs rest),
        int_of_small next,
        inc_small next,
      ))
      (λ item rest e ih next r b. ground (arith, e, r, b, ih next))

-- The counter goes up by one for each message at most.
pub count_items-bound :
    (items : Items) (next : ℕ)
    → any (leb next) (seqs items) ≡ false
    → (count_items next items).next ≤ next + length (seqs items)
unfolding count_items
count_items-bound =
    items_induct
      (λ items.
        (next : ℕ)
        → any (leb next) (seqs items) ≡ false
        → (count_items next items).next ≤ next + length (seqs items))
      (λ next b. omega arith)
      (λ m rest ih next b. ground (arith, b, ih next, ih (next + 1), below-suc next (seqs rest)))
      (λ item rest e ih next b. ground (arith, e, b, ih next))

-- The largest of numbers below `next` is below it.
pub largest_below :
    (items : Items) (next max : ℕ)
    → max < next
    → any (leb next) (seqs items) ≡ false
    → largest_from max items < next
unfolding largest_from
largest_below =
    items_induct
      (λ items.
        (next max : ℕ)
        → max < next
        → any (leb next) (seqs items) ≡ false
        → largest_from max items < next)
      (λ next max h b. h)
      (λ m rest ih next max h b.
        ground (arith, b, h, ih next max, ih next (positive (message_seq m))))
      (λ item rest e ih next max h b. ground (arith, e, b, h, ih next max))
