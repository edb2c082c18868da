-- ===== src/State/Layout/Run.antt =====
-- What a run of the verification that succeeds has passed, test by test.
use rigos.Base.{
  ℕ, String, ◌≡◌, true, false, not, ◌||◌, Option, some, ok, fail_if-eq-ok, ok_or-eq-ok, >>=-eq-ok,
  ok_injective, not-eq-false, any, find, ltb,
}
use rigos.State.Manifest.{ImageLayout}
use rigos.State.Device.{
  Node, BlockDevice, node, children, LsblkDocument, SfdiskDocument, VerifiedLayout,
}
use rigos.State.Ids.{opt_nat_eq}
use rigos.State.Layout.{
  div, or_default, or_zero, boot_parent_disk, wrong_schema, wrong_table, not_usb, wrong_disk_table,
  wrong_count, check_children, check_table, is_root, is_part, max_start, is_state_label,
  has_foreign_mount, validate_layout_with_state_mount,
}

pub record Run (manifest : ImageLayout) (observed : LsblkDocument) (sfdisk : SfdiskDocument)
    (boot : String) (verified : Option String) (v : VerifiedLayout) : Type 0 where
  pub schema : wrong_schema manifest ≡ false
  pub table : wrong_table manifest sfdisk ≡ false
  pub found : BlockDevice
  pub at : boot_parent_disk observed boot ≡ some found
  pub usb : not_usb (node found) ≡ false
  pub disk_table : wrong_disk_table manifest (node found) ≡ false
  pub room : ltb (node found).size manifest.minimum_media_size_bytes ≡ false
  pub count : wrong_count manifest (children found) sfdisk ≡ false
  pub parts : check_children manifest (children found) ≡ ok tt
  pub entries : check_table manifest 1 sfdisk.partitiontable.partitions ≡ ok tt
  pub root : any (is_root boot) (children found) ≡ true
  pub state : Node
  pub state_at : find (is_part manifest.final_state_partition) (children found) ≡ some state
  pub efi : Node
  pub efi_at : find (is_part 1) (children found) ≡ some efi
  pub last :
      (not (opt_nat_eq state.start (max_start (children found)))
        || not (is_state_label state.label))
      ≡ false
  pub mounts : any (has_foreign_mount manifest boot verified) (children found) ≡ false
  pub size : ℕ
  pub sized : div state.size manifest.logical_sector_size ≡ ok size
  pub result :
      record {
        disk_path = (node found).path;
        disk_major_minor = (node found).major_minor;
        disk_ptuuid = or_default (node found).ptuuid;
        disk_size_bytes = (node found).size;
        efi_path = efi.path;
        efi_major_minor = efi.major_minor;
        efi_partuuid = or_default efi.partuuid;
        root_major_minor = boot;
        state_path = state.path;
        state_start_lba = or_zero state.start;
        state_size_lba = size;
        state_unique_guid = or_default state.partuuid;
        state_type_guid = or_default state.parttype;
      }
      ≡ v

module _ (manifest : ImageLayout) (observed : LsblkDocument) (sfdisk : SfdiskDocument)
    (boot : String) (verified : Option String) (v : VerifiedLayout) where
  pub validate-Run :
      validate_layout_with_state_mount manifest observed sfdisk boot verified ≡ ok v
      → Run manifest observed sfdisk boot verified v
  unfolding validate_layout_with_state_mount
  validate-Run h =
      let (schema, h1) = fail_if-eq-ok (wrong_schema manifest) _ _ h in
      let (table, h2) = fail_if-eq-ok (wrong_table manifest sfdisk) _ _ h1 in
      let (found, at, h3) = ok_or-eq-ok (boot_parent_disk observed boot) _ _ h2 in
      let (usb, h4) = fail_if-eq-ok (not_usb (node found)) _ _ h3 in
      let (disk_table, h5) = fail_if-eq-ok (wrong_disk_table manifest (node found)) _ _ h4 in
      let (room, h6) =
        fail_if-eq-ok (ltb (node found).size manifest.minimum_media_size_bytes) _ _ h5 in
      let (count, h7) = fail_if-eq-ok (wrong_count manifest (children found) sfdisk) _ _ h6 in
      let (u1, parts, h8) = >>=-eq-ok (check_children manifest (children found)) _ h7 in
      let (u2, entries, h9) =
        >>=-eq-ok (check_table manifest 1 sfdisk.partitiontable.partitions) _ h8 in
      let (root, h10) = fail_if-eq-ok (not (any (is_root boot) (children found))) _ _ h9 in
      let (state, state_at, h11) =
        ok_or-eq-ok (find (is_part manifest.final_state_partition) (children found)) _ _ h10 in
      let (efi, efi_at, h12) = ok_or-eq-ok (find (is_part 1) (children found)) _ _ h11 in
      let (last, h13) =
        fail_if-eq-ok
          (not (opt_nat_eq state.start (max_start (children found)))
            || not (is_state_label state.label))
          _ _ h12 in
      let (mounts, h14) =
        fail_if-eq-ok (any (has_foreign_mount manifest boot verified) (children found)) _ _ h13 in
      let (size, sized, h15) = >>=-eq-ok (div state.size manifest.logical_sector_size) _ h14 in
      record {
        schema = schema;
        table = table;
        found = found;
        at = at;
        usb = usb;
        disk_table = disk_table;
        room = room;
        count = count;
        parts = parts;
        entries = entries;
        root = not-eq-false _ root;
        state = state;
        state_at = state_at;
        efi = efi;
        efi_at = efi_at;
        last = last;
        mounts = mounts;
        size = size;
        sized = sized;
        result = ok_injective h15;
      }
