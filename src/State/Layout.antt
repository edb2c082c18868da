-- ===== src/State/Layout.antt =====
-- crates/rigos-state/src/lib.rs: the verification of the boot disk against the manifest.
pub mod Total
pub mod Run
pub mod Verified
pub mod Table
pub mod Guards
pub mod Spec
pub mod Attest
use text.Mathlib.Text.{◌==◌ as text_eq}
use rigos.Base.{
  ℕ, zero, ◌+◌, ◌/◌, String, Bool, true, false, not, ◌&&◌, ◌||◌, Option, none, some, List, [], ◌∷◌,
  Result, ok, err, panic, ◌>>=◌, ◌>>◌, fail_if, ok_or, any, find, length, ltb, leb, ◌==◌,
  if◌then◌else◌,
}
use rigos.Base.Text.{is_empty}
use rigos.State.Manifest.{ImagePartition, ImageLayout}
use rigos.State.Device.{
  Node, BlockDevice, node, children, LsblkDocument, SfdiskPartition, SfdiskDocument, VerifiedLayout,
  LayoutError, ambiguous_boot_device, not_writable_usb, undersized_media, partition_table_mismatch,
  partition_set_mismatch, partition_mismatch, state_not_final, root_source_mismatch,
  unexpected_writable_mount,
}
use rigos.State.Ids.{opt_text_is, opt_nat_eq, eq_id, eq_disk_id, eq_mbr_type}

abbrev pub Checked : Type 0 → Type 0
Checked A = Result LayoutError A

abbrev pub is_boot : String → Node → Bool
is_boot boot child = text_eq child.major_minor boot

abbrev pub is_boot_parent : String → BlockDevice → Bool
is_boot_parent boot d = text_eq (node d).device_type "disk" && any (is_boot boot) (children d)

unfoldable pub boot_parent_disk : LsblkDocument → String → Option BlockDevice
boot_parent_disk observed boot = find (is_boot_parent boot) observed.blockdevices

-- `BTreeMap::get` after `collect`: of partitions with one number the last counts.
unfoldable pub contract_of : ℕ → List ImagePartition → Option ImagePartition
contract_of number [] = none
contract_of number (p ∷ ps) = elim (contract_of number ps) [
  | some c ↦ some c
  | none ↦ if p.number == number then some p else none
]

abbrev pub is_state_label : Option String → Bool
is_state_label label = opt_text_is label "RIGOS_STATE_SEED" || opt_text_is label "RIGOS_STATE"

abbrev pub is_root_label : Option String → Bool
is_root_label label = opt_text_is label "RIGOS_ROOT_A" || opt_text_is label "RIGOS_ROOT_B"

-- Division of u64 in Rust: it panics at 0.
abbrev pub div : ℕ → ℕ → Checked ℕ
div a b = if b == 0 then panic else ok (a / b)

module _ (manifest : ImageLayout) where
  unfoldable pub label_matches : ℕ → ImagePartition → Node → Bool
  label_matches number contract child =
      if number == manifest.final_state_partition
      then is_state_label child.label
      else opt_text_is child.label contract.label

  -- The part of the test before the division.
  unfoldable pub child_differs : ℕ → ImagePartition → Node → Bool
  unfolding label_matches eq_mbr_type eq_id
  child_differs number contract child =
      not (text_eq child.device_type "part")
      || not (label_matches number contract child)
      || not (eq_mbr_type child.parttype contract.type_guid)
      || not (eq_id child.partuuid contract.unique_guid)
      || not (opt_nat_eq child.start (some contract.start_lba))

  -- The test of one child, in the order of its disjunction.
  unfoldable pub check_child : Node → Checked (Unit {0})
  unfolding child_differs contract_of
  check_child child = do
    number ← ok_or child.partn partition_set_mismatch
    contract ← ok_or (contract_of number manifest.partitions) partition_set_mismatch
    fail_if (child_differs number contract child) (partition_mismatch number)
    size ← div child.size manifest.logical_sector_size
    fail_if (ltb size contract.minimum_size_lba) (partition_mismatch number)

  unfoldable pub check_children : List Node → Checked (Unit {0})
  unfolding check_child
  check_children [] = ok tt
  check_children (child ∷ rest) = check_child child >>= λ _. check_children rest

  unfoldable pub entry_differs : ℕ → ImagePartition → SfdiskPartition → Bool
  unfolding eq_mbr_type
  entry_differs number contract observed =
      not (observed.start == contract.start_lba)
      || ltb observed.size contract.minimum_size_lba
      || not (eq_mbr_type (some observed.partition_type) contract.type_guid)
      || (if number == 1 then not observed.bootable else observed.bootable)

  unfoldable pub check_entry : ℕ → SfdiskPartition → Checked (Unit {0})
  unfolding entry_differs contract_of
  check_entry number observed = do
    fail_if (ltb 4294967295 number) partition_set_mismatch
    contract ← ok_or (contract_of number manifest.partitions) partition_set_mismatch
    fail_if (entry_differs number contract observed) (partition_mismatch number)

  -- The loop over the partitions of sfdisk, which are numbered from 1.
  unfoldable pub check_table : ℕ → List SfdiskPartition → Checked (Unit {0})
  unfolding check_entry
  check_table number [] = ok tt
  check_table number (observed ∷ rest) =
      check_entry number observed >>= λ _. check_table (number + 1) rest

abbrev pub max_opt : Option ℕ → Option ℕ → Option ℕ
max_opt none b = b
max_opt (some a) none = some a
max_opt (some a) (some b) = if leb a b then some b else some a

-- `filter_map(start).max()`.
unfoldable pub max_start : List Node → Option ℕ
max_start [] = none
max_start (child ∷ rest) = max_opt child.start (max_start rest)

abbrev pub is_mount_of : Option String → String → Bool
is_mount_of none mount = false
is_mount_of (some m) mount = text_eq m mount

unfoldable pub foreign_mount : ImageLayout → Option String → Node → Option String → Bool
foreign_mount manifest verified child none = false
foreign_mount manifest verified child (some mount) =
    if is_empty mount
    then false
    else not
        (opt_nat_eq child.partn (some manifest.final_state_partition) && is_mount_of verified mount)

unfoldable pub has_foreign_mount : ImageLayout → String → Option String → Node → Bool
unfolding foreign_mount
has_foreign_mount manifest boot verified child =
    if is_boot boot child
    then false
    else any (foreign_mount manifest verified child) child.mountpoints

abbrev pub or_default : Option String → String
or_default none = ""
or_default (some a) = a

abbrev pub or_zero : Option ℕ → ℕ
or_zero none = 0
or_zero (some n) = n

unfoldable pub wrong_schema : ImageLayout → Bool
wrong_schema manifest =
    not (text_eq manifest.schema "rigos.image-layout/v2")
    || not (text_eq manifest.partition_table "mbr")

unfoldable pub wrong_table : ImageLayout → SfdiskDocument → Bool
unfolding eq_disk_id
wrong_table manifest sfdisk =
    not (text_eq sfdisk.partitiontable.label "dos")
    || not (eq_disk_id sfdisk.partitiontable.id manifest.disk_guid)

abbrev pub opt_disk_id : Option String → String → Bool
opt_disk_id none expected = false
opt_disk_id (some value) expected = eq_disk_id value expected

unfoldable pub wrong_disk_table : ImageLayout → Node → Bool
unfolding eq_disk_id
wrong_disk_table manifest disk =
    not (opt_text_is disk.pttype "dos") || not (opt_disk_id disk.ptuuid manifest.disk_guid)

unfoldable pub not_usb : Node → Bool
not_usb disk = not (opt_text_is disk.tran "usb") || disk.ro

unfoldable pub wrong_count : ImageLayout → List Node → SfdiskDocument → Bool
wrong_count manifest parts sfdisk =
    not (length parts == length manifest.partitions)
    || not (length sfdisk.partitiontable.partitions == length manifest.partitions)

abbrev pub is_part : ℕ → Node → Bool
is_part number child = opt_nat_eq child.partn (some number)

abbrev pub is_root : String → Node → Bool
is_root boot child = is_boot boot child && is_root_label child.label

unfoldable pub validate_layout_with_state_mount :
    ImageLayout → LsblkDocument → SfdiskDocument → String → Option String → Checked VerifiedLayout
validate_layout_with_state_mount manifest observed sfdisk boot verified = do
  fail_if (wrong_schema manifest) partition_table_mismatch
  fail_if (wrong_table manifest sfdisk) partition_table_mismatch
  found ← ok_or (boot_parent_disk observed boot) ambiguous_boot_device
  let disk = node found
  let parts = children found
  fail_if (not_usb disk) not_writable_usb
  fail_if (wrong_disk_table manifest disk) partition_table_mismatch
  fail_if (ltb disk.size manifest.minimum_media_size_bytes) undersized_media
  fail_if (wrong_count manifest parts sfdisk) partition_set_mismatch
  check_children manifest parts
  check_table manifest 1 sfdisk.partitiontable.partitions
  fail_if (not (any (is_root boot) parts)) root_source_mismatch
  state ← ok_or (find (is_part manifest.final_state_partition) parts) state_not_final
  efi ← ok_or (find (is_part 1) parts) partition_set_mismatch
  fail_if (not (opt_nat_eq state.start (max_start parts)) || not (is_state_label state.label))
      state_not_final
  fail_if (any (has_foreign_mount manifest boot verified) parts) unexpected_writable_mount
  size ← div state.size manifest.logical_sector_size
  ok (record {
    disk_path = disk.path;
    disk_major_minor = disk.major_minor;
    disk_ptuuid = or_default disk.ptuuid;
    disk_size_bytes = disk.size;
    efi_path = efi.path;
    efi_major_minor = efi.major_minor;
    efi_partuuid = or_default efi.partuuid;
    root_major_minor = boot;
    state_path = state.path;
    state_start_lba = or_zero state.start;
    state_size_lba = size;
    state_unique_guid = or_default state.partuuid;
    state_type_guid = or_default state.parttype;
  })

unfoldable pub validate_layout :
    ImageLayout → LsblkDocument → SfdiskDocument → String → Checked VerifiedLayout
unfolding validate_layout_with_state_mount
validate_layout manifest observed sfdisk boot =
    validate_layout_with_state_mount manifest observed sfdisk boot none

unfoldable pub validate_layout_for_attestation :
    ImageLayout → LsblkDocument → SfdiskDocument → String → String → Checked VerifiedLayout
unfolding validate_layout_with_state_mount
validate_layout_for_attestation manifest observed sfdisk boot mountpoint =
    validate_layout_with_state_mount manifest observed sfdisk boot (some mountpoint)
