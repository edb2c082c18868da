-- ===== src/State/Layout/Attest.antt =====
-- The two entry points of the verification: before the state partition is mounted, and after.
use rigos.Base.{String, ◌≡◌, Option, ok}
use rigos.State.Manifest.{ImageLayout}
use rigos.State.Device.{LsblkDocument, SfdiskDocument, VerifiedLayout}
use rigos.State.Layout.{validate_layout_with_state_mount}
use rigos.State.Layout.Run.{Run}

module _ (manifest : ImageLayout) (observed : LsblkDocument) (sfdisk : SfdiskDocument)
    (boot : String) (verified : Option String) (v : VerifiedLayout) where
  pub validate_of_Run :
      Run manifest observed sfdisk boot verified v
      → validate_layout_with_state_mount manifest observed sfdisk boot verified ≡ ok v
  unfolding validate_layout_with_state_mount
  validate_of_Run r = rw (
    r.schema, r.table, r.at, r.usb, r.disk_table, r.room, r.count, r.parts, r.entries, r.root,
    r.state_at, r.efi_at, r.last, r.mounts, r.sized, r.result,
  )
