-- ===== src/State/Init/Examples.antt =====
-- A run that grows the state partition of the sample disk, and the theorems at it.
use rigos.Base.{ℕ, zero, suc, String, ◌≡◌, refl, false, [], ◌∷◌, ok}
use rigos.Base.Text.{bytes}
use rigos.Base.Text.Chars.{eq_ignore_ascii_case}
use rigos.State.Samples.{manifest, observed, observed_of, sfdisk, sfdisk_of}
use rigos.State.Device.{LsblkDocument, SfdiskDocument}
use rigos.State.Ids.{strip_hex_prefix, eq_mbr_type, eq_id, eq_disk_id}
use rigos.State.Geometry.{intended_size}
use rigos.State.Geometry.Aligned.{IsIntended, intended_size-IsIntended}
use rigos.State.Layout.{
  validate_layout, wrong_schema, wrong_table, boot_parent_disk, not_usb, wrong_disk_table,
  wrong_count, check_children, check_table, max_start, has_foreign_mount,
}
use rigos.State.Init.{Env, Args, Reply, got, grown, done, execute, verify}
use rigos.State.Init.Order.{steps, Ordered}
use rigos.State.Init.Verified.{execute-Ordered}
use rigos.State.Init.Growth.{Growth, execute-Growth}

abbrev devices : ℕ → Reply LsblkDocument
devices zero = got observed
devices (suc n) = got (observed_of 26527744 false [])

abbrev tables : ℕ → String → Reply SfdiskDocument
tables zero path = got sfdisk
tables (suc n) path = got (sfdisk_of 26527744)

abbrev env : Env
env = record {
  cmdline = "quiet" ∷ [];
  manifest = got manifest;
  findmnt = got ("8:2" ∷ []);
  lsblk = devices;
  sfdisk = tables;
  udev_lines = λ path. got ("ID_BUS=usb" ∷ []);
  blkid_lines = λ path. got ("LABEL=RIGOS_STATE_SEED" ∷ []);
  is_mounted = got false;
  takes = λ s. got tt;
}

abbrev args : Args
args = record { mountpoint = "/var/lib/rigos"; dry_run = false; attestation_only = false }

sized : intended_size 16000000000 512 2048 4720640 ≡ ok 26527744
unfolding intended_size
sized = refl

intended_size-IsIntended_example : IsIntended 16000000000 512 2048 4720640 26527744
intended_size-IsIntended_example =
    intended_size-IsIntended 16000000000 512 2048 4720640 26527744 sized

grows : execute env args [] ≡ done grown (steps (execute env args []))
unfolding execute verify validate_layout bytes eq_mbr_type eq_id eq_disk_id eq_ignore_ascii_case
    strip_hex_prefix wrong_schema wrong_table boot_parent_disk not_usb wrong_disk_table wrong_count
    check_children check_table max_start has_foreign_mount
grows = refl

execute-Ordered_example : Ordered env args (steps (execute env args []))
execute-Ordered_example = execute-Ordered env args

execute-Growth_example : Growth env args
execute-Growth_example = execute-Growth env args (steps (execute env args [])) grows
