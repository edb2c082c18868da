-- ===== src/State/Manifest.antt =====
-- crates/rigos-schema/src/lib.rs: the manifest of an image. Its numbers are u32 and u64.
use rigos.Base.{ℕ, String, Option, List}

pub record ImagePartition : Type 0 where
  pub number : ℕ
  pub label : String
  pub type_guid : String
  pub unique_guid : String
  pub start_lba : ℕ
  pub minimum_size_lba : ℕ
  pub filesystem : Option String

pub record ImageLayout : Type 0 where
  pub schema : String
  pub image_version : String
  pub image_id : String
  pub partition_table : String
  pub disk_guid : String
  pub logical_sector_size : ℕ
  pub minimum_media_size_bytes : ℕ
  pub alignment_lba : ℕ
  pub final_state_partition : ℕ
  pub build_commit : String
  pub root_payload_sha256 : String
  pub partitions : List ImagePartition
