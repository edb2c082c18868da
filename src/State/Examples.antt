-- ===== src/State/Examples.antt =====
-- The layout of the tests of crates/rigos-state/src/lib.rs, and the theorems at that layout.
use rigos.Base.{◌≡◌, ◌≢◌, refl, true, false, none, some, [], ◌∷◌, ok, err, panic}
use rigos.Base.Text.{bytes}
use rigos.Base.Text.Chars.{eq_ignore_ascii_case}
use rigos.State.Device.{not_writable_usb, unexpected_writable_mount}
use rigos.State.Ids.{strip_hex_prefix, eq_mbr_type, eq_id, eq_disk_id}
use rigos.State.Samples.{manifest, observed, observed_with, sfdisk, layout}
use rigos.State.Layout.{
  validate_layout, validate_layout_with_state_mount, wrong_schema, wrong_table, boot_parent_disk,
  not_usb, wrong_disk_table, wrong_count, check_children, check_table, max_start, has_foreign_mount,
}
use rigos.State.Layout.Spec.{IsVerified, validate-IsVerified}
use rigos.State.Layout.Total.{validate-not_panic}

exact_passes : validate_layout_with_state_mount manifest observed sfdisk "8:2" none ≡ ok layout
unfolding validate_layout_with_state_mount bytes eq_mbr_type eq_id eq_disk_id eq_ignore_ascii_case
    strip_hex_prefix wrong_schema wrong_table boot_parent_disk not_usb wrong_disk_table wrong_count
    check_children check_table max_start has_foreign_mount
exact_passes = refl

read_only_refused :
    validate_layout manifest (observed_with true []) sfdisk "8:2" ≡ err not_writable_usb
unfolding validate_layout bytes eq_disk_id eq_ignore_ascii_case strip_hex_prefix wrong_schema
    wrong_table boot_parent_disk not_usb
read_only_refused = refl

mounted_state_refused :
    validate_layout manifest (observed_with false (some "/var/lib/rigos" ∷ [])) sfdisk "8:2"
    ≡ err unexpected_writable_mount
unfolding validate_layout bytes eq_mbr_type eq_id eq_disk_id eq_ignore_ascii_case strip_hex_prefix
    wrong_schema wrong_table boot_parent_disk not_usb wrong_disk_table wrong_count check_children
    check_table max_start has_foreign_mount
mounted_state_refused = refl

validate-IsVerified_example : IsVerified manifest observed sfdisk "8:2" none layout
validate-IsVerified_example =
    validate-IsVerified manifest observed sfdisk "8:2" none layout exact_passes

sectors : manifest.logical_sector_size ≢ 0
sectors h = cc

validate-not_panic_example :
    validate_layout_with_state_mount manifest observed sfdisk "8:3" none ≢ panic
validate-not_panic_example = validate-not_panic manifest sectors observed sfdisk "8:3" none
