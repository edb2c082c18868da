-- ===== src/State/Samples.antt =====
-- The layout of the tests of crates/rigos-state/src/lib.rs.
use Prim.Native.String
use rigos.Base.{ℕ, ◌*◌, String, Bool, false, Option, none, some, List, [], ◌∷◌, ◌==◌}
use rigos.State.Manifest.{ImagePartition, ImageLayout}
use rigos.State.Device.{
  Node, Devices, device, nil, cons, LsblkDocument, SfdiskPartition, SfdiskDocument, VerifiedLayout,
}

abbrev pub partition : ℕ → String → String → String → ℕ → ℕ → ImagePartition
partition number label type uuid start size = record {
  number = number;
  label = label;
  type_guid = type;
  unique_guid = uuid;
  start_lba = start;
  minimum_size_lba = size;
  filesystem = some "ext4";
}

abbrev pub manifest : ImageLayout
manifest = record {
  schema = "rigos.image-layout/v2";
  image_version = "0.0.4-alpha.2";
  image_id = "rigos-usb-amd64";
  partition_table = "mbr";
  disk_guid = "0x5249474f";
  logical_sector_size = 512;
  minimum_media_size_bytes = 8000000000;
  alignment_lba = 2048;
  final_state_partition = 4;
  build_commit = "commit";
  root_payload_sha256 = "hash";
  partitions =
      partition 1 "EFI_SYSTEM" "0x0c" "5249474f-01" 2048 524288
      ∷ partition 2 "RIGOS_ROOT_A" "0x83" "5249474f-02" 526336 2097152
      ∷ partition 3 "RIGOS_ROOT_B" "0x83" "5249474f-03" 2623488 2097152
      ∷ partition 4 "RIGOS_STATE_SEED" "0x83" "5249474f-04" 4720640 524288
      ∷ [];
}

abbrev pub part : ImagePartition → String → List (Option String) → Node
part p id mounts = record {
  major_minor = String.◌++◌ "8:" id;
  path = String.◌++◌ "/dev/sda" id;
  device_type = "part";
  size = p.minimum_size_lba * 512;
  ro = false;
  tran = none;
  partn = some p.number;
  parttype = some p.type_guid;
  partuuid = some p.unique_guid;
  partlabel = none;
  start = some p.start_lba;
  pttype = none;
  ptuuid = none;
  mountpoints = mounts;
  fstype = p.filesystem;
  label = some p.label;
}

abbrev pub disk : Bool → Node
disk ro = record {
  major_minor = "8:0";
  path = "/dev/sda";
  device_type = "disk";
  size = 16000000000;
  ro = ro;
  tran = some "usb";
  partn = none;
  parttype = none;
  partuuid = none;
  partlabel = none;
  start = none;
  pttype = some "dos";
  ptuuid = some "5249474f";
  mountpoints = [];
  fstype = none;
  label = none;
}

abbrev pub leaf : Node → Devices → Devices
leaf n ds = cons (device n nil) ds

-- With the size of the state partition in sectors.
abbrev pub observed_of : ℕ → Bool → List (Option String) → LsblkDocument
observed_of sectors ro state_mounts = record {
  blockdevices =
      device (disk ro) (
        leaf (part (partition 1 "EFI_SYSTEM" "0x0c" "5249474f-01" 2048 524288) "1" []) (
          leaf
            (part (partition 2 "RIGOS_ROOT_A" "0x83" "5249474f-02" 526336 2097152) "2"
              (some "/run/live/medium" ∷ []))
            (leaf (part (partition 3 "RIGOS_ROOT_B" "0x83" "5249474f-03" 2623488 2097152) "3" []) (
              leaf
                (part (partition 4 "RIGOS_STATE_SEED" "0x83" "5249474f-04" 4720640 sectors) "4"
                  state_mounts)
                nil))))
      ∷ [];
}

abbrev pub observed_with : Bool → List (Option String) → LsblkDocument
observed_with ro state_mounts = observed_of 524288 ro state_mounts

abbrev pub observed : LsblkDocument
observed = observed_with false []

abbrev pub entry : ImagePartition → SfdiskPartition
entry p = record {
  start = p.start_lba;
  size = p.minimum_size_lba;
  partition_type = p.type_guid;
  bootable = p.number == 1;
}

abbrev pub sfdisk_of : ℕ → SfdiskDocument
sfdisk_of sectors = record {
  partitiontable = record {
    label = "dos";
    id = "0x5249474f";
    partitions =
        entry (partition 1 "EFI_SYSTEM" "0x0c" "5249474f-01" 2048 524288)
        ∷ entry (partition 2 "RIGOS_ROOT_A" "0x83" "5249474f-02" 526336 2097152)
        ∷ entry (partition 3 "RIGOS_ROOT_B" "0x83" "5249474f-03" 2623488 2097152)
        ∷ entry (partition 4 "RIGOS_STATE_SEED" "0x83" "5249474f-04" 4720640 sectors)
        ∷ [];
  };
}

abbrev pub sfdisk : SfdiskDocument
sfdisk = sfdisk_of 524288

abbrev pub layout : VerifiedLayout
layout = record {
  disk_path = "/dev/sda";
  disk_major_minor = "8:0";
  disk_ptuuid = "5249474f";
  disk_size_bytes = 16000000000;
  efi_path = "/dev/sda1";
  efi_major_minor = "8:1";
  efi_partuuid = "5249474f-01";
  root_major_minor = "8:2";
  state_path = "/dev/sda4";
  state_start_lba = 4720640;
  state_size_lba = 524288;
  state_unique_guid = "5249474f-04";
  state_type_guid = "0x83";
}
