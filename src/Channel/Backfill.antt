-- ===== src/Channel/Backfill.antt =====
-- The numbers that messages have once those without one have got theirs, by the loop of
-- BackfillMessageSeqs on numbers without a bound.
use aegis_claw.Base.{
  ℕ, ◌+◌, ◌≤◌, ◌<◌, ◌≡◌, refl, sym, ◌∙◌, inl, inr, Bool, true, false, not, ◌&&◌, List, [], ◌∷◌,
  Option, none, some, arith, Bool-cases, if◌then◌else◌, any, ltb, leb, ◌==◌,
}
use mathlib.Core.Path.{subst}
use aegis_claw.Base.Text.{Text, text, same, same_refl, eq_of_same}
use aegis_claw.Base.Distinct.{Distinct}
use aegis_claw.Base.Json.{
  pos, Json, null, boolean, str, int, int64, float64, fraction, arr, obj, Items, nil, cons, Fields,
  end, field, get, put,
}
use aegis_claw.Channel.Sequence.{object_of, seq_of, message_seq, positive, Backfilled, onto}

pub get-put : (m : Fields) (k : Text) (v : Json) → get (put m k v) k ≡ v
unfolding get put
get-put end k v = ground (arith, same_refl k)
get-put (field j w m) k v = ground (arith, get-put m k v)

same_left : (i k j : Text) → same i k ≡ true → same i j ≡ same k j
same_left i k j h = rw (eq_of_same i k h) refl

pub get-put-other :
    (m : Fields) (k j : Text) (v : Json) → same k j ≡ false → get (put m k v) j ≡ get m j
unfolding get put
get-put-other end k j v h = ground (arith, h)
get-put-other (field i w m) k j v h = ground (arith, get-put-other m k j v h, h, same_left i k j)

abbrev numbered_item : Option Fields → List ℕ → List ℕ
numbered_item none ns = ns
numbered_item (some m) ns = positive (message_seq m) ∷ ns

-- The numbers of the messages, 0 where there is none.
abbrev pub seqs : Items → List ℕ
seqs nil = []
seqs (cons item rest) = numbered_item (object_of item) (seqs rest)

-- No number is `next` or above.
abbrev pub below : ℕ → Items → Bool
below next items = not (any (leb next) (seqs items))

abbrev pub both_numbered : ℕ → ℕ → Bool
both_numbered a b = ltb 0 a && a == b

given_seq : (m : Fields) (n : ℕ) → positive (message_seq (put m (text "seq") (int (pos n)))) ≡ n
given_seq m n = rw (get-put m (text "seq") (int (pos n))) refl

pub below-suc :
    (next : ℕ) (xs : List ℕ) → any (leb next) xs ≡ false → any (leb (next + 1)) xs ≡ false
below-suc next [] h = refl
below-suc next (x ∷ xs) h = ground (arith, below-suc next xs)

-- The loop on numbers without a bound.
unfoldable pub count_items : ℕ → Items → Backfilled
count_items next nil = record { items = nil; next = next; changed = false }
count_items next (cons item rest) =
    let seq = seq_of (object_of item) in
    let kept = onto item (count_items (if leb next seq then seq + 1 else next) rest) in
    let new = count_items (next + 1) rest in
    let skipped = onto item (count_items next rest) in
    elim (object_of item) [
      | none ↦ skipped
      | some m ↦
          if ltb 0 seq
          then kept
          else onto (obj (put m (text "seq") (int (pos next)))) (record new { changed = true })
    ]

-- The counter never goes back.
pub counter_grows : (next : ℕ) (items : Items) → next ≤ (count_items next items).next
unfolding count_items
counter_grows next nil = omega arith
counter_grows next (cons item rest) = ground (
  arith,
  counter_grows next rest,
  counter_grows (next + 1) rest,
  counter_grows (seq_of (object_of item) + 1) rest,
)

-- Induction on a list of items, where an item is a message or is none.
pub items_induct {ℓ} :
    (P : Items → Type ℓ)
    → P nil
    → ((m : Fields) (rest : Items) → P rest → P (cons (obj m) rest))
    → ((item : Json) (rest : Items) → object_of item ≡ none → P rest → P (cons item rest))
    → (items : Items) → P items
items_induct P n o x nil = n
items_induct P n o x (cons (obj m) rest) = o m rest (items_induct P n o x rest)
items_induct P n o x (cons null rest) = x null rest refl (items_induct P n o x rest)
items_induct P n o x (cons (boolean b) rest) = x (boolean b) rest refl (items_induct P n o x rest)
items_induct P n o x (cons (int k) rest) = x (int k) rest refl (items_induct P n o x rest)
items_induct P n o x (cons (int64 k) rest) = x (int64 k) rest refl (items_induct P n o x rest)
items_induct P n o x (cons (float64 k) rest) = x (float64 k) rest refl (items_induct P n o x rest)
items_induct P n o x (cons (fraction k) rest) = x (fraction k) rest refl (items_induct P n o x rest)
items_induct P n o x (cons (str t) rest) = x (str t) rest refl (items_induct P n o x rest)
items_induct P n o x (cons (arr xs) rest) = x (arr xs) rest refl (items_induct P n o x rest)

-- A number below the counter is a message's afterwards exactly if it was before.
old_numbers :
    (s : ℕ) (items : Items) (next : ℕ)
    → (0 < s)
    → (s < next)
    → any (leb next) (seqs items) ≡ false
    → any (λ n. s == n) (seqs (count_items next items).items) ≡ any (λ n. s == n) (seqs items)
unfolding count_items
old_numbers s =
    items_induct
      (λ items.
        (next : ℕ)
        → (0 < s)
        → (s < next)
        → any (leb next) (seqs items) ≡ false
        → any (λ n. s == n) (seqs (count_items next items).items) ≡ any (λ n. s == n) (seqs items))
      (λ next p l b. refl)
      (λ m rest ih next p l b.
        ground (arith, given_seq m next, ih next p l, ih (next + 1) p, below-suc next (seqs rest)))
      (λ item rest e ih next p l b. ground (arith, e, ih next p l))

-- Every message has a number then, below the counter.
pub all_numbered :
    (items : Items) (next : ℕ)
    → (0 < next)
    → any (leb next) (seqs items) ≡ false
    → let b = count_items next items in
      (any (λ n. n == 0) (seqs b.items) ≡ false) × (any (leb b.next) (seqs b.items) ≡ false)
unfolding count_items
all_numbered =
    items_induct
      (λ items.
        (next : ℕ)
        → (0 < next)
        → any (leb next) (seqs items) ≡ false
        → let b = count_items next items in
          (any (λ n. n == 0) (seqs b.items) ≡ false) × (any (leb b.next) (seqs b.items) ≡ false))
      (λ next p b. (refl, refl))
      (λ m rest ih next p b. ground (
        arith,
        given_seq m next,
        ih next p,
        ih (next + 1),
        below-suc next (seqs rest),
        counter_grows next rest,
        counter_grows (next + 1) rest,
      ))
      (λ item rest e ih next p b. ground (arith, e, ih next p))

both_numbered_left :
    (s : ℕ) (xs : List ℕ) → ltb 0 s ≡ true → any (both_numbered s) xs ≡ any (λ n. s == n) xs
both_numbered_left s [] h = refl
both_numbered_left s (x ∷ xs) h = ground (arith, both_numbered_left s xs h)

pub below_self : (s : ℕ) (xs : List ℕ) → any (leb s) xs ≡ false → any (λ n. s == n) xs ≡ false
below_self s [] h = refl
below_self s (x ∷ xs) h = ground (arith, below_self s xs)

skipped :
    (item : Json) (rest : Items) (next : ℕ)
    → object_of item ≡ none
    → (seqs (cons item rest) ≡ seqs rest)
      × (seqs (count_items next (cons item rest)).items ≡ seqs (count_items next rest).items)
unfolding count_items
skipped item rest next e = ground (arith, e)

-- And no two messages have the same number.
pub all-Distinct :
    (items : Items) (next : ℕ)
    → (0 < next)
    → any (leb next) (seqs items) ≡ false
    → Distinct both_numbered (seqs items)
    → Distinct ◌==◌ (seqs (count_items next items).items)
unfolding count_items
all-Distinct =
    items_induct
      (λ items.
        (next : ℕ)
        → (0 < next)
        → any (leb next) (seqs items) ≡ false
        → Distinct both_numbered (seqs items)
        → Distinct ◌==◌ (seqs (count_items next items).items))
      (λ next p b d. tt) message
      (λ item rest e ih next p b d.
        let (before, after) = skipped item rest next e in
        subst (λ ns. Distinct ◌==◌ ns) (sym after)
          (ih next p (subst (λ ns. any (leb next) ns ≡ false) before b)
            (subst (λ ns. Distinct both_numbered ns) before d)))
  where
    message :
        (m : Fields) (rest : Items)
        → ((next : ℕ)
            → (0 < next)
            → any (leb next) (seqs rest) ≡ false
            → Distinct both_numbered (seqs rest)
            → Distinct ◌==◌ (seqs (count_items next rest).items))
        → (next : ℕ) → (0 < next)
        → any (leb next) (seqs (cons (obj m) rest)) ≡ false
        → Distinct both_numbered (seqs (cons (obj m) rest))
        → Distinct ◌==◌ (seqs (count_items next (cons (obj m) rest)).items)
    message m rest ih next p b d = elim (Bool-cases (ltb 0 (positive (message_seq m)))) [
      | inl e ↦
          let low : leb next (positive (message_seq m)) ≡ false = ground (arith, b) in
          rw (e, low)
            (
              old_numbers (positive (message_seq m)) rest next (ground (arith, e))
                    (ground (arith, low)) (ground (arith, b))
                  ∙ sym (both_numbered_left (positive (message_seq m)) (seqs rest) e)
                  ∙ d.0,
              ih next p (ground (arith, b)) d.1,
            )
      | inr e ↦
          let above : any (leb (next + 1)) (seqs rest) ≡ false =
            below-suc next (seqs rest) (ground (arith, b)) in
          rw (e, given_seq m next)
            (
              old_numbers next rest (next + 1) p (omega arith) above
                  ∙ below_self next (seqs rest) (ground (arith, b)),
              ih (next + 1) (omega arith) above d.1,
            )
    ]
