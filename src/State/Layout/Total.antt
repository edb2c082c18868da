-- ===== src/State/Layout/Total.antt =====
-- The verification never panics while the sector size of the manifest is not 0.
use rigos.Base.{
  ℕ, String, ◌≢◌, Option, List, [], ◌∷◌, panic, arith, NoPanic, NoPanic-ok, NoPanic-bind, no_panic,
  ◌+◌,
}
use rigos.State.Manifest.{ImageLayout}
use rigos.State.Device.{Node, LsblkDocument, SfdiskDocument, SfdiskPartition}
use rigos.State.Layout.{
  div, check_child, check_children, check_entry, check_table, validate_layout_with_state_mount,
}

module _ (manifest : ImageLayout) (sectors : manifest.logical_sector_size ≢ 0) where
  div-NoPanic : (a : ℕ) → NoPanic (div a manifest.logical_sector_size)
  div-NoPanic a = record { holds = λ h. ground arith }

  check_child-NoPanic : (child : Node) → NoPanic (check_child manifest child)
  unfolding check_child
  check_child-NoPanic child = search (no_panic, div-NoPanic)

  check_children-NoPanic : (cs : List Node) → NoPanic (check_children manifest cs)
  unfolding check_children
  check_children-NoPanic [] = NoPanic-ok tt
  check_children-NoPanic (c ∷ cs) =
      NoPanic-bind _ _ (check_child-NoPanic c) (λ _. check_children-NoPanic cs)

  check_entry-NoPanic : (n : ℕ) (p : SfdiskPartition) → NoPanic (check_entry manifest n p)
  unfolding check_entry
  check_entry-NoPanic n p = search no_panic

  check_table-NoPanic : (n : ℕ) (ps : List SfdiskPartition) → NoPanic (check_table manifest n ps)
  unfolding check_table
  check_table-NoPanic n [] = NoPanic-ok tt
  check_table-NoPanic n (p ∷ ps) =
      NoPanic-bind _ _ (check_entry-NoPanic n p) (λ _. check_table-NoPanic (n + 1) ps)

  validate-NoPanic :
      (observed : LsblkDocument) (sfdisk : SfdiskDocument) (boot : String)
      (verified : Option String)
      → NoPanic (validate_layout_with_state_mount manifest observed sfdisk boot verified)
  unfolding validate_layout_with_state_mount
  validate-NoPanic observed sfdisk boot verified =
      search (no_panic, div-NoPanic, check_children-NoPanic, check_table-NoPanic) depth 40

  -- While the sector size of the manifest is not 0, every run of the verification ends with a
  -- layout or an error: no division panics.
  pub validate-not_panic :
      (observed : LsblkDocument) (sfdisk : SfdiskDocument) (boot : String)
      (verified : Option String)
      → validate_layout_with_state_mount manifest observed sfdisk boot verified ≢ panic
  validate-not_panic observed sfdisk boot verified h =
      NoPanic.holds (validate-NoPanic observed sfdisk boot verified) h
