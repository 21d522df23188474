-- ===== src/Lease/Examples.antt =====
-- The lease theorems at a concrete CID and key, and a run of the late clear.
use aegis_claw.Base.{◌≡◌, refl, Bool, true, false, not, List, [], ◌∷◌, none, some}
use aegis_claw.Base.Text.{Text, text, same}
use aegis_claw.Base.Trim.{trim_space, trim_left, trim_right, is_space}
use aegis_claw.Lease.{
  Leases, reset, closed_pub, load_lease, store_lease, store_lease_if_absent_or_same, unlease_cid,
}
use aegis_claw.Lease.Effect.{IsUsable, unlease_cid_effect}
use aegis_claw.Lease.File.{HasRow}
use aegis_claw.Lease.Race.{
  Fill, Unlease, both_begin, schedule, step, fill_step, unlease_step, late_clear,
  both_returned_unleased, dead_key_leased_again,
}

abbrev old_key : Text
old_key = text "k1"

abbrev new_key : Text
new_key = text "k2"

abbrev leased : Leases
leased = store_lease reset 3 old_key

old_trimmed : trim_space old_key ≡ old_key
unfolding trim_space trim_left trim_right is_space
old_trimmed = refl

new_trimmed : trim_space new_key ≡ new_key
unfolding trim_space trim_left trim_right is_space
new_trimmed = refl

unleased : (unlease_cid leased 3 old_key).1 ≡ true
unfolding unlease_cid store_lease trim_space trim_left trim_right is_space same
unleased = refl

new-IsUsable : IsUsable 3 new_key
unfolding trim_space trim_left trim_right is_space
new-IsUsable = refl

unlease_cid_effect_example :
    let s' = (unlease_cid leased 3 old_key).0 in
    let (t, stored) = store_lease_if_absent_or_same s' 3 new_key in
    (load_lease s' 3 ≡ none)
    × (stored ≡ not (same (trim_space old_key) (trim_space new_key)))
    × (stored ≡ false → t ≡ s')
    × (stored ≡ true → (load_lease t 3 ≡ some (trim_space new_key)) × (closed_pub t 3 ≡ none))
unlease_cid_effect_example = unlease_cid_effect leased 3 old_key new_key unleased new-IsUsable

has_row : HasRow (text "/keys") 3 old_key
unfolding trim_space trim_left trim_right is_space
has_row = refl

-- StopVM runs whole between the handshake's two checks of the poison.
abbrev early_unlease : List Bool
early_unlease = true ∷ true ∷ false ∷ false ∷ false ∷ true ∷ true ∷ []

fill_returned : (schedule 3 old_key (both_begin reset) early_unlease).fill ≡ Fill.returned false
unfolding schedule step fill_step unlease_step closed_pub trim_space trim_left trim_right is_space
    same
fill_returned = refl

unlease_returned :
    (schedule 3 old_key (both_begin reset) early_unlease).unlease ≡ Unlease.returned true
unfolding schedule step fill_step unlease_step closed_pub trim_space trim_left trim_right is_space
    same
unlease_returned = refl

both_returned_unleased_example :
    (schedule 3 old_key (both_begin reset) early_unlease).leases.lease 3 ≡ none
both_returned_unleased_example =
    both_returned_unleased 3 old_key reset early_unlease false old_trimmed refl fill_returned
      unlease_returned

dead_key_leased_again_example :
    let e = schedule 3 old_key (both_begin reset) late_clear in
    (e.fill ≡ Fill.returned true)
    × (e.unlease ≡ Unlease.returned true)
    × (closed_pub e.leases 3 ≡ none)
    × ((store_lease_if_absent_or_same e.leases 3 old_key).1 ≡ true)
dead_key_leased_again_example = dead_key_leased_again 3 old_key reset old_trimmed refl refl refl
