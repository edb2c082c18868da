-- ===== src/Config/Attestation.antt =====
-- crates/rigos-config/src/main.rs: the proof of the boot device that the configuration asks for.
pub mod Proven
mod Examples
use text.Mathlib.Text.{◌==◌ as text_eq}
use rigos.Base.{
  String, Bool, true, false, not, ◌&&◌, ◌||◌, none, Result, ok, err, panic, ◌>>=◌, ◌>>◌, fail_if,
  if◌then◌else◌,
}
use rigos.Base.Text.Chars.{eq_ignore_ascii_case}
use rigos.Config.Error.{ConfigError, error}
use rigos.Config.Transaction.{state_allows_config}

pub record AttestedDisk : Type 0 where
  pub path : String
  pub major_minor : String
  pub ptuuid : String

pub record AttestedPartition : Type 0 where
  pub path : String
  pub major_minor : String
  pub partuuid : String

pub record AttestedRoot : Type 0 where
  pub major_minor : String

pub record Attestation : Type 0 where
  pub schema : String
  pub boot_id : String
  pub verification_outcome : String
  pub disk : AttestedDisk
  pub partition1 : AttestedPartition
  pub root : AttestedRoot

unfoldable pub attestation_identity_matches : Attestation → Attestation → Bool
unfolding eq_ignore_ascii_case
attestation_identity_matches expected fresh =
    text_eq expected.schema "rigos.boot-device/v1"
    && text_eq fresh.schema expected.schema
    && text_eq fresh.verification_outcome "verified"
    && text_eq fresh.boot_id expected.boot_id
    && text_eq fresh.disk.major_minor expected.disk.major_minor
    && eq_ignore_ascii_case fresh.disk.ptuuid expected.disk.ptuuid
    && text_eq fresh.partition1.major_minor expected.partition1.major_minor
    && eq_ignore_ascii_case fresh.partition1.partuuid expected.partition1.partuuid
    && text_eq fresh.root.major_minor expected.root.major_minor

unfoldable pub unproven : String → ConfigError
unproven message = error "RIGOS_CONFIG_BOOT_DEVICE_UNPROVEN" none none none message

-- `boot` is the id of this boot as the kernel gives it, and `fresh` the attestation of a new run of
-- rigos-state-init, where the run succeeds.
unfoldable pub revalidate_attestation :
    Result ConfigError String
    → Result ConfigError Attestation
    → Attestation
    → Result ConfigError Attestation
unfolding attestation_identity_matches unproven
revalidate_attestation boot fresh expected = do
  current_boot_id ← boot
  fail_if (not (text_eq current_boot_id expected.boot_id))
      (unproven "boot device attestation belongs to another boot")
  found ← fresh
  fail_if (not (attestation_identity_matches expected found))
      (unproven "boot device identity changed after attestation")
  ok found

unfoldable pub not_verified : Attestation → String → Bool
unfolding state_allows_config
not_verified attestation outcome =
    not (text_eq attestation.schema "rigos.boot-device/v1")
    || not (text_eq attestation.verification_outcome "verified")
    || not (state_allows_config outcome)

-- The part of `with_verified_efi` before the mount: `outcome` is that of the status file.
unfoldable pub verified_device :
    Result ConfigError String
    → Result ConfigError Attestation
    → Attestation
    → String
    → Result ConfigError Attestation
unfolding revalidate_attestation not_verified
verified_device boot fresh attestation outcome = do
  fail_if (not_verified attestation outcome) (unproven "verified persistent boot USB is required")
  revalidate_attestation boot fresh attestation
