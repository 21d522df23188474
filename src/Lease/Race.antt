-- ===== src/Lease/Race.antt =====
-- StoreLeaseIfAbsentOrSame and UnleaseCID as the atomic sync.Map calls that they make, interleaved:
-- a guest's handshake fills a CID while StopVM closes the key of the same CID.
use aegis_claw.Base.{
  ℕ, ◌≡◌, Bool, true, false, ◌||◌, List, [], ◌∷◌, Option, none, some, arith, if◌then◌else◌, ◌==◌,
}
use mathlib.Core.Path.{subst₂}
use aegis_claw.Base.Text.{Text, same, same_refl, is_empty}
use aegis_claw.Base.Trim.{trim_space}
use aegis_claw.Lease.{
  Leases, write, closed_pub, is_poisoned, clear_closed, store_lease_if_absent_or_same,
}

-- Where the handshake stands: before the first poison check, before LoadOrStore, before the second
-- check, before Delete (it was poisoned) or ClearClosed (it was not), or returned.
pub data Fill : Type 0 where
  begin checked stored refused rechecked : Fill
  returned : Bool → Fill

-- Where StopVM stands: before the read of the lease, before the poison is written, before the lease
-- is deleted, or returned.
pub data Unlease : Type 0 where
  begin matched poisoned : Unlease
  returned : Bool → Unlease

-- The branches after UnleaseCID's read of the lease.
abbrev agreed : Bool → Unlease
agreed true = Unlease.matched
agreed false = Unlease.returned false

abbrev compared : Text → Option Text → Unlease
compared key none = Unlease.returned false
compared key (some v) = agreed (same (trim_space v) key)

-- Both calls are past their guards: the CID is not 0 and `key` is trimmed and not empty.
module _ (cid : ℕ) (key : Text) where
  unfoldable pub fill_step : Leases → Fill → Leases × Fill
  unfolding is_poisoned
  fill_step s Fill.begin = (s, if is_poisoned s cid key then Fill.returned false else Fill.checked)
  fill_step s Fill.checked = elim (s.lease cid) [
    | none ↦ (record s { lease = write cid (some key) s.lease }, Fill.stored)
    | some cur ↦ (s, Fill.returned (same (trim_space cur) key))
  ]
  fill_step s Fill.stored = (s, if is_poisoned s cid key then Fill.refused else Fill.rechecked)
  fill_step s Fill.refused = (record s { lease = write cid none s.lease }, Fill.returned false)
  fill_step s Fill.rechecked = (clear_closed s cid, Fill.returned true)
  fill_step s (Fill.returned b) = (s, Fill.returned b)

  unfoldable pub unlease_step : Leases → Unlease → Leases × Unlease
  unlease_step s Unlease.begin = (s, compared key (s.lease cid))
  unlease_step s Unlease.matched =
      (record s { closed = write cid (some key) s.closed }, Unlease.poisoned)
  unlease_step s Unlease.poisoned =
      (record s { lease = write cid none s.lease }, Unlease.returned true)
  unlease_step s (Unlease.returned b) = (s, Unlease.returned b)

pub record Both : Type 0 where
  pub leases : Leases
  pub fill : Fill
  pub unlease : Unlease

-- One atomic call: true is the handshake's, false StopVM's.
unfoldable pub step : ℕ → Text → Both → Bool → Both
step cid key b true =
    let (s, f) = fill_step cid key b.leases b.fill in
    record { leases = s; fill = f; unlease = b.unlease }
step cid key b false =
    let (s, u) = unlease_step cid key b.leases b.unlease in
    record { leases = s; fill = b.fill; unlease = u }

unfoldable pub schedule : ℕ → Text → Both → List Bool → Both
schedule cid key b [] = b
schedule cid key b (who ∷ rest) = schedule cid key (step cid key b who) rest

abbrev pub both_begin : Leases → Both
both_begin s = record { leases = s; fill = Fill.begin; unlease = Unlease.begin }

abbrev IsPoison : ℕ → Text → Leases → Type 0
IsPoison cid key s = s.closed cid ≡ some key

-- What the positions of the two calls say about the slot of the CID.
abbrev Slot : ℕ → Text → Fill → Unlease → Leases → Type 0
Slot cid key f Unlease.begin s = Unit
Slot cid key f Unlease.matched s = Unit
Slot cid key f (Unlease.returned false) s = Unit
Slot cid key Fill.begin Unlease.poisoned s = IsPoison cid key s
Slot cid key Fill.checked Unlease.poisoned s = IsPoison cid key s
Slot cid key Fill.stored Unlease.poisoned s = IsPoison cid key s
Slot cid key Fill.refused Unlease.poisoned s = Unit
Slot cid key Fill.rechecked Unlease.poisoned s = Unit
Slot cid key (Fill.returned b) Unlease.poisoned s = Unit
Slot cid key Fill.begin (Unlease.returned true) s = (s.lease cid ≡ none) × IsPoison cid key s
Slot cid key Fill.checked (Unlease.returned true) s = (s.lease cid ≡ none) × IsPoison cid key s
Slot cid key Fill.stored (Unlease.returned true) s = IsPoison cid key s
Slot cid key Fill.refused (Unlease.returned true) s = Unit
Slot cid key Fill.rechecked (Unlease.returned true) s = s.lease cid ≡ none
Slot cid key (Fill.returned b) (Unlease.returned true) s = s.lease cid ≡ none

module _ (cid : ℕ) (key : Text) (trimmed : trim_space key ≡ key) (full : is_empty key ≡ false) where
  fill_step-Slot :
      (s : Leases) (f : Fill) (u : Unlease)
      → Slot cid key f u s
      → Slot cid key (fill_step cid key s f).1 u (fill_step cid key s f).0
  unfolding fill_step closed_pub
  fill_step-Slot s f Unlease.begin h = tt
  fill_step-Slot s f Unlease.matched h = tt
  fill_step-Slot s f (Unlease.returned false) h = tt
  fill_step-Slot s Fill.begin Unlease.poisoned h = ground (arith, same_refl key)
  fill_step-Slot s Fill.checked Unlease.poisoned h = ground (arith, same_refl key)
  fill_step-Slot s Fill.stored Unlease.poisoned h = ground (arith, same_refl key)
  fill_step-Slot s Fill.refused Unlease.poisoned h = tt
  fill_step-Slot s Fill.rechecked Unlease.poisoned h = tt
  fill_step-Slot s (Fill.returned b) Unlease.poisoned h = tt
  fill_step-Slot s Fill.begin (Unlease.returned true) h = ground (arith, same_refl key)
  fill_step-Slot s Fill.checked (Unlease.returned true) h = ground (arith, same_refl key)
  fill_step-Slot s Fill.stored (Unlease.returned true) h = ground (arith, same_refl key)
  fill_step-Slot s Fill.refused (Unlease.returned true) h = ground arith
  fill_step-Slot s Fill.rechecked (Unlease.returned true) h = h
  fill_step-Slot s (Fill.returned b) (Unlease.returned true) h = h

  agreed-Slot : (f : Fill) (b : Bool) (s : Leases) → Slot cid key f (agreed b) s
  agreed-Slot f true s = tt
  agreed-Slot f false s = tt

  compared-Slot : (f : Fill) (o : Option Text) (s : Leases) → Slot cid key f (compared key o) s
  compared-Slot f none s = tt
  compared-Slot f (some v) s = agreed-Slot f (same (trim_space v) key) s

  unlease_step-Slot :
      (s : Leases) (f : Fill) (u : Unlease)
      → Slot cid key f u s
      → Slot cid key f (unlease_step cid key s u).1 (unlease_step cid key s u).0
  unfolding unlease_step
  unlease_step-Slot s f Unlease.begin h = compared-Slot f (s.lease cid) s
  unlease_step-Slot s Fill.begin Unlease.matched h = ground arith
  unlease_step-Slot s Fill.checked Unlease.matched h = ground arith
  unlease_step-Slot s Fill.stored Unlease.matched h = ground arith
  unlease_step-Slot s Fill.refused Unlease.matched h = tt
  unlease_step-Slot s Fill.rechecked Unlease.matched h = tt
  unlease_step-Slot s (Fill.returned b) Unlease.matched h = tt
  unlease_step-Slot s Fill.begin Unlease.poisoned h = ground arith
  unlease_step-Slot s Fill.checked Unlease.poisoned h = ground arith
  unlease_step-Slot s Fill.stored Unlease.poisoned h = h
  unlease_step-Slot s Fill.refused Unlease.poisoned h = tt
  unlease_step-Slot s Fill.rechecked Unlease.poisoned h = ground arith
  unlease_step-Slot s (Fill.returned b) Unlease.poisoned h = ground arith
  unlease_step-Slot s f (Unlease.returned b) h = h

step-Slot :
    (cid : ℕ) (key : Text)
    → trim_space key ≡ key
    → is_empty key ≡ false
    → (b : Both) (who : Bool) → Slot cid key b.fill b.unlease b.leases
    → let c = step cid key b who in Slot cid key c.fill c.unlease c.leases
unfolding step
step-Slot cid key trimmed full b true h =
    fill_step-Slot cid key trimmed full b.leases b.fill b.unlease h
step-Slot cid key trimmed full b false h =
    unlease_step-Slot cid key trimmed full b.leases b.fill b.unlease h

schedule-Slot :
    (cid : ℕ) (key : Text)
    → trim_space key ≡ key
    → is_empty key ≡ false
    → (b : Both) (order : List Bool) → Slot cid key b.fill b.unlease b.leases
    → let c = schedule cid key b order in Slot cid key c.fill c.unlease c.leases
unfolding schedule
schedule-Slot cid key trimmed full b [] h = h
schedule-Slot cid key trimmed full b (who ∷ rest) h =
    schedule-Slot cid key trimmed full (step cid key b who) rest
      (step-Slot cid key trimmed full b who h)

-- Whatever the order of the atomic calls of one handshake and one StopVM on the same key, which is
-- trimmed and not empty, once
-- StopVM has reported success and the handshake has returned, the CID has no lease.
pub both_returned_unleased :
    (cid : ℕ) (key : Text) (s : Leases) (order : List Bool) (b : Bool)
    → trim_space key ≡ key
    → is_empty key ≡ false
    → (schedule cid key (both_begin s) order).fill ≡ Fill.returned b
    → (schedule cid key (both_begin s) order).unlease ≡ Unlease.returned true
    → (schedule cid key (both_begin s) order).leases.lease cid ≡ none
both_returned_unleased cid key s order b trimmed full f u =
    let h = schedule-Slot cid key trimmed full (both_begin s) order tt in
    subst₂ (λ x y. Slot cid key x y (schedule cid key (both_begin s) order).leases) f u h

abbrev fill_only : List Bool
fill_only = true ∷ true ∷ true ∷ true ∷ []

-- The handshake's atomic calls with nothing in between are StoreLeaseIfAbsentOrSame.
pub schedule-fill_only :
    (cid : ℕ) (key : Text) (s : Leases)
    → trim_space key ≡ key
    → (cid == 0 || is_empty key) ≡ false
    → let e = schedule cid key (both_begin s) fill_only in
      (e.fill ≡ Fill.returned (store_lease_if_absent_or_same s cid key).1)
      × (e.leases ≡ (store_lease_if_absent_or_same s cid key).0)
unfolding schedule step fill_step store_lease_if_absent_or_same
schedule-fill_only cid key s trimmed ok = ground arith

-- The handshake checks the poison twice, StopVM runs whole, and then the handshake clears the
-- poison that StopVM has just written.
abbrev pub late_clear : List Bool
late_clear = true ∷ true ∷ true ∷ false ∷ false ∷ false ∷ true ∷ []

-- In that order, from a CID with neither lease nor poison, both calls succeed, and then the dead key
-- is not poisoned and is leased again on its next handshake.
pub dead_key_leased_again :
    (cid : ℕ) (key : Text) (s : Leases)
    → trim_space key ≡ key
    → (cid == 0 || is_empty key) ≡ false
    → s.lease cid ≡ none
    → s.closed cid ≡ none
    → let e = schedule cid key (both_begin s) late_clear in
      (e.fill ≡ Fill.returned true)
      × (e.unlease ≡ Unlease.returned true)
      × (closed_pub e.leases cid ≡ none)
      × ((store_lease_if_absent_or_same e.leases cid key).1 ≡ true)
unfolding schedule step fill_step unlease_step store_lease_if_absent_or_same closed_pub
dead_key_leased_again cid key s trimmed ok no_lease no_poison = ground (arith, same_refl key)
