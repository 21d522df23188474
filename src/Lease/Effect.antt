-- ===== src/Lease/Effect.antt =====
-- The lease operations one after another.
use aegis_claw.Base.{ℕ, ◌≡◌, ◌⊎◌, true, false, not, ◌||◌, none, some, arith, ◌==◌}
use aegis_claw.Base.Text.{Text, same, is_empty}
use aegis_claw.Base.Trim.{trim_space, trim_space_idem}
use aegis_claw.Lease.{Leases, closed_pub, load_lease, store_lease_if_absent_or_same, unlease_cid}

-- A usable CID and key.
abbrev pub IsUsable : ℕ → Text → Type 0
IsUsable cid given = (cid == 0 || is_empty (trim_space given)) ≡ false

-- After a successful unlease the CID has no lease, its old key is refused and changes nothing, and
-- any other key is leased and clears the poison.
pub unlease_cid_effect :
    (s : Leases) (cid : ℕ) (dead given : Text)
    → (unlease_cid s cid dead).1 ≡ true
    → IsUsable cid given
    → let s' = (unlease_cid s cid dead).0 in
      let (t, stored) = store_lease_if_absent_or_same s' cid given in
      (load_lease s' cid ≡ none)
      × (stored ≡ not (same (trim_space dead) (trim_space given)))
      × (stored ≡ false → t ≡ s')
      × (stored ≡ true → (load_lease t cid ≡ some (trim_space given)) × (closed_pub t cid ≡ none))
unfolding unlease_cid store_lease_if_absent_or_same load_lease closed_pub
unlease_cid_effect s cid dead given done ok =
    ground (arith, trim_space_idem dead, trim_space_idem given)

-- A fill never replaces a lease and never touches another CID: where a CID had a lease it keeps it.
pub store_lease_keeps :
    (s : Leases) (cid : ℕ) (given : Text) (k : ℕ)
    → let t = (store_lease_if_absent_or_same s cid given).0 in
      ((t.lease k ≡ s.lease k) × (t.closed k ≡ s.closed k))
      ⊎ ((k ≡ cid)
          × (s.lease k ≡ none)
          × (t.lease k ≡ some (trim_space given))
          × (t.closed k ≡ none))
unfolding store_lease_if_absent_or_same
store_lease_keeps s cid given k = ground arith
