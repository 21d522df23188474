-- ===== src/Lease/File.antt =====
-- The JSON file of CID keys: MergeCIDKey and DeleteCIDKeyIf. The file is none where it is missing or
-- no JSON object; whether a write succeeds is an argument.
use aegis_claw.Base.{
  ℕ, ◌≡◌, ◌∙◌, Bool, true, false, ◌||◌, List, [], Option, none, some, arith, if◌then◌else◌, ◌==◌,
}
use aegis_claw.Base.Text.{Text, same, same_refl, eq_of_same, is_empty}
use aegis_claw.Base.Trim.{trim_space, trim_space_idem}
use aegis_claw.Base.Decimal.{decimal}
use aegis_claw.Base.Assoc.{Key, lookup, insert, delete, lookup-insert, lookup-delete}

abbrev pub text_key : Key Text
text_key = record { beq = same; beq_refl = same_refl; eq_of_beq = eq_of_same }

abbrev pub Rows : Type 0
Rows = List (Text × Text)

abbrev pub rows_of : Option Rows → Rows
rows_of none = []
rows_of (some m) = m

unfoldable pub merge_cid_key : Bool → Text → ℕ → Text → Option Rows → Option Rows
merge_cid_key writable path cid given file =
    let key = trim_space given in
    if is_empty path || (cid == 0 || is_empty key)
    then file
    else if writable
    then some (insert text_key (decimal cid) key (rows_of file))
    else file

-- m[key] of a Go map: "" if there is no row.
abbrev pub row : Text → Rows → Text
row k m = elim (lookup text_key k m) [ none ↦ [] | some v ↦ v ]

unfoldable pub delete_cid_key_if : Bool → Text → ℕ → Text → Option Rows → Option Rows × Bool
delete_cid_key_if writable path cid given file =
    let expected = trim_space given in
    if is_empty path || (cid == 0 || is_empty expected) then (file, false) else elim file [
      | none ↦ (none, false)
      | some m ↦
          if same (trim_space (row (decimal cid) m)) expected
          then (if writable
              then (some (delete text_key (decimal cid) m), true)
              else (some m, false))
          else (some m, false)
    ]

-- The row of a key is one that a merge can write: the key is not empty once trimmed.
abbrev pub HasRow : Text → ℕ → Text → Type 0
HasRow path cid given = (is_empty path || (cid == 0 || is_empty (trim_space given))) ≡ false

-- A row that MergeCIDKey wrote is removed by DeleteCIDKeyIf with the same key: the CID has no row
-- then, and every other CID's row is what it was before the merge.
pub delete_cid_key_if-merge_cid_key :
    (path : Text) (cid : ℕ) (given : Text) (file : Option Rows)
    → HasRow path cid given
    → (m : Rows) × (delete_cid_key_if true path cid given (merge_cid_key true path cid given file)
        ≡ (some m, true))
      × ((k : Text)
          → lookup text_key k m
            ≡ (if same (decimal cid) k then none else lookup text_key k (rows_of file)))
unfolding delete_cid_key_if merge_cid_key
delete_cid_key_if-merge_cid_key path cid given file ok =
    let key = trim_space given in
    let m = insert text_key (decimal cid) key (rows_of file) in
    let at_cid = lookup-insert text_key (decimal cid) (decimal cid) key (rows_of file) in
    (
      delete text_key (decimal cid) m,
      ground (arith, at_cid, same_refl (decimal cid), trim_space_idem given, same_refl key),
      λ k.
          lookup-delete text_key (decimal cid) k m
          ∙ ground (arith, lookup-insert text_key (decimal cid) k key (rows_of file)),
    )
