-- ===== src/State/Layout/Guards.antt =====
-- validate_layout: what its checks of the schema, the identifiers and the counts let through.
use text.Mathlib.TextEquality.{eq_iff}
use rigos.Base.{
  String, ◌≡◌, refl, true, false, Option, some, none, List, not-eq-false, or-eq-false, length,
  ==_iff,
}
use rigos.State.Manifest.{ImageLayout}
use rigos.State.Device.{Node, SfdiskDocument}
use rigos.State.Ids.{eq_disk_id}
use rigos.State.Layout.{
  wrong_schema, wrong_table, wrong_disk_table, opt_disk_id, not_usb, wrong_count,
}
use rigos.State.Layout.Verified.{opt_text}

pub is_usb : (d : Node) → not_usb d ≡ false → (d.tran ≡ some "usb") × (d.ro ≡ false)
unfolding not_usb
is_usb d h = let (a, b) = or-eq-false _ _ h in (opt_text d.tran "usb" (not-eq-false _ a), b)

module _ (manifest : ImageLayout) where
  pub counts :
      (cs : List Node) (sfdisk : SfdiskDocument)
      → wrong_count manifest cs sfdisk ≡ false
      → (length cs ≡ length manifest.partitions)
        × (length sfdisk.partitiontable.partitions ≡ length manifest.partitions)
  unfolding wrong_count
  counts cs sfdisk h =
      let (a, b) = or-eq-false _ _ h in
      ((==_iff _ _).0 (not-eq-false _ a), (==_iff _ _).0 (not-eq-false _ b))

  pub schemas :
      wrong_schema manifest ≡ false
      → (manifest.schema ≡ "rigos.image-layout/v2") × (manifest.partition_table ≡ "mbr")
  unfolding wrong_schema
  schemas h =
      let (a, b) = or-eq-false _ _ h in
      ((eq_iff _ _).0 (not-eq-false _ a), (eq_iff _ _).0 (not-eq-false _ b))

  pub tables :
      (sfdisk : SfdiskDocument)
      → wrong_table manifest sfdisk ≡ false
      → (sfdisk.partitiontable.label ≡ "dos")
        × (eq_disk_id sfdisk.partitiontable.id manifest.disk_guid ≡ true)
  unfolding wrong_table
  tables sfdisk h =
      let (a, b) = or-eq-false _ _ h in ((eq_iff _ _).0 (not-eq-false _ a), not-eq-false _ b)

  disk_id :
      (o : Option String)
      → opt_disk_id o manifest.disk_guid ≡ true
      → (id : String) × (o ≡ some id) × (eq_disk_id id manifest.disk_guid ≡ true)
  disk_id none h = cc
  disk_id (some id) h = (id, refl, h)

  pub disk_tables :
      (d : Node)
      → wrong_disk_table manifest d ≡ false
      → (d.pttype ≡ some "dos")
        × (id : String) × (d.ptuuid ≡ some id)
        × (eq_disk_id id manifest.disk_guid ≡ true)
  unfolding wrong_disk_table
  disk_tables d h =
      let (a, b) = or-eq-false _ _ h in
      let (id, e, k) = disk_id d.ptuuid (not-eq-false _ b) in
      (opt_text d.pttype "dos" (not-eq-false _ a), id, e, k)
