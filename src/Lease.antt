-- ===== src/Lease.antt =====
-- internal/hublease/hublease.go: which key a guest's CID is leased to, which keys are dead, and the
-- file of CID keys. A sync.Map from CIDs is a function; an operation returns the maps it leaves.
pub mod File
pub mod Effect
pub mod Race
mod Examples
use aegis_claw.Base.{ℕ, Bool, true, false, ◌||◌, Option, none, some, if◌then◌else◌, ◌==◌}
use aegis_claw.Base.Text.{Text, same, is_empty}
use aegis_claw.Base.Trim.{trim_space}

pub record Leases : Type 0 where
  pub lease : ℕ → Option Text
  pub closed : ℕ → Option Text

-- Store and Delete of a sync.Map.
abbrev pub write : ℕ → Option Text → (ℕ → Option Text) → ℕ → Option Text
write cid v m k = if cid == k then v else m k

abbrev pub reset : Leases
reset = record { lease = λ cid. none; closed = λ cid. none }

-- The trimmed key if there is one and it is not empty.
abbrev pub present : Option Text → Option Text
present none = none
present (some v) = let pub_key = trim_space v in if is_empty pub_key then none else some pub_key

unfoldable pub closed_pub : Leases → ℕ → Option Text
closed_pub s cid = present (s.closed cid)

-- dead, ok := ClosedPub(cid); ok && TrimSpace(dead) == pub
unfoldable pub is_poisoned : Leases → ℕ → Text → Bool
unfolding closed_pub
is_poisoned s cid key = elim (closed_pub s cid) [
  | none ↦ false
  | some dead ↦ same (trim_space dead) key
]

unfoldable pub store_lease : Leases → ℕ → Text → Leases
store_lease s cid given =
    let key = trim_space given in
    if is_empty key then s else record s { lease = write cid (some key) s.lease }

abbrev pub clear_closed : Leases → ℕ → Leases
clear_closed s cid = record s { closed = write cid none s.closed }

unfoldable pub store_lease_if_absent_or_same : Leases → ℕ → Text → Leases × Bool
unfolding is_poisoned
store_lease_if_absent_or_same s cid given =
    let key = trim_space given in
    if cid == 0 || is_empty key
    then (s, false)
    else if is_poisoned s cid key
    then (s, false)
    else elim (s.lease cid) [
      | some cur ↦ (s, same (trim_space cur) key)
      | none ↦
          let stored = record s { lease = write cid (some key) s.lease } in
          if is_poisoned stored cid key
          then (record stored { lease = write cid none stored.lease }, false)
          else (clear_closed stored cid, true)
    ]

unfoldable pub load_lease : Leases → ℕ → Option Text
unfolding is_poisoned
load_lease s cid = elim (present (s.lease cid)) [
  | none ↦ none
  | some key ↦ if is_poisoned s cid key then none else some key
]

unfoldable pub unlease_cid : Leases → ℕ → Text → Leases × Bool
unlease_cid s cid given =
    let expected = trim_space given in
    if is_empty expected then (s, false) else elim (s.lease cid) [
      | none ↦ (s, false)
      | some v ↦
          if same (trim_space v) expected
          then (
            record s {
              lease = write cid none s.lease;
              closed = write cid (some expected) s.closed;
            },
            true,
          )
          else (s, false)
    ]
