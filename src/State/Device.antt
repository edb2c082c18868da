-- ===== src/State/Device.antt =====
-- crates/rigos-state/src/lib.rs: the documents of lsblk and sfdisk, as serde decodes them.
use rigos.Base.{ℕ, String, Bool, Option, List, [], ◌∷◌}

-- The fields of a `BlockDevice` but its children.
pub record Node : Type 0 where
  pub major_minor : String
  pub path : String
  pub device_type : String
  pub size : ℕ
  pub ro : Bool
  pub tran : Option String
  pub partn : Option ℕ
  pub parttype : Option String
  pub partuuid : Option String
  pub partlabel : Option String
  pub start : Option ℕ
  pub pttype : Option String
  pub ptuuid : Option String
  pub mountpoints : List (Option String)
  pub fstype : Option String
  pub label : Option String

mutual
  pub data BlockDevice : Type 0 where
    device : Node → Devices → BlockDevice

  pub data Devices : Type 0 where
    nil : Devices
    cons : BlockDevice → Devices → Devices

abbrev pub node : BlockDevice → Node
node (device n ds) = n

abbrev pub devices : Devices → List BlockDevice
devices nil = []
devices (cons d ds) = d ∷ devices ds

abbrev pub nodes : Devices → List Node
nodes nil = []
nodes (cons d ds) = node d ∷ nodes ds

-- The children, of which only the own fields are read.
abbrev pub children : BlockDevice → List Node
children (device n ds) = nodes ds

pub record LsblkDocument : Type 0 where
  pub blockdevices : List BlockDevice

pub record SfdiskPartition : Type 0 where
  pub start : ℕ
  pub size : ℕ
  pub partition_type : String
  pub bootable : Bool

pub record SfdiskTable : Type 0 where
  pub label : String
  pub id : String
  pub partitions : List SfdiskPartition

pub record SfdiskDocument : Type 0 where
  pub partitiontable : SfdiskTable

pub record VerifiedLayout : Type 0 where
  pub disk_path : String
  pub disk_major_minor : String
  pub disk_ptuuid : String
  pub disk_size_bytes : ℕ
  pub efi_path : String
  pub efi_major_minor : String
  pub efi_partuuid : String
  pub root_major_minor : String
  pub state_path : String
  pub state_start_lba : ℕ
  pub state_size_lba : ℕ
  pub state_unique_guid : String
  pub state_type_guid : String

pub data LayoutError : Type 0 where
  ambiguous_boot_device : LayoutError
  not_writable_usb : LayoutError
  undersized_media : LayoutError
  partition_table_mismatch : LayoutError
  partition_set_mismatch : LayoutError
  partition_mismatch : ℕ → LayoutError
  state_not_final : LayoutError
  root_source_mismatch : LayoutError
  unexpected_writable_mount : LayoutError
