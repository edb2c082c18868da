-- ===== src/Config/Attestation/Examples.antt =====
-- The attestation of the tests of crates/rigos-config/src/main.rs, and the theorems at it.
use rigos.Base.{String, ◌≡◌, refl, true, false, ok, err}
use rigos.Base.Text.Chars.{eq_ignore_ascii_case}
use rigos.Config.Transaction.{state_allows_config}
use rigos.Config.Attestation.{Attestation, attestation_identity_matches, verified_device, unproven}
use rigos.Config.Attestation.Proven.{IsProven, verified_device-IsProven}

abbrev of_device : String → String → String → Attestation
of_device boot path major_minor = record {
  schema = "rigos.boot-device/v1";
  boot_id = boot;
  verification_outcome = "verified";
  disk = record { path = path; major_minor = major_minor; ptuuid = "5249474f" };
  partition1 = record { path = "/dev/sda1"; major_minor = "8:1"; partuuid = "5249474f-01" };
  root = record { major_minor = "8:2" };
}

abbrev expected : Attestation
expected = of_device "boot-a" "/dev/sda" "8:0"

-- The same device under another path.
abbrev renamed : Attestation
renamed = of_device "boot-a" "/dev/sdz" "8:0"

path_ignored : attestation_identity_matches expected renamed ≡ true
unfolding attestation_identity_matches eq_ignore_ascii_case
path_ignored = refl

swapped_refused :
    attestation_identity_matches expected (of_device "boot-a" "/dev/sda" "9:0") ≡ false
unfolding attestation_identity_matches eq_ignore_ascii_case
swapped_refused = refl

accepted : verified_device (ok "boot-a") (ok renamed) expected "grown" ≡ ok renamed
unfolding verified_device eq_ignore_ascii_case state_allows_config
accepted = refl

other_boot :
    verified_device (ok "boot-b") (ok renamed) expected "ready"
    ≡ err (unproven "boot device attestation belongs to another boot")
unfolding verified_device state_allows_config
other_boot = refl

verified_device-IsProven_example : IsProven (ok "boot-a") (ok renamed) expected "grown" renamed
verified_device-IsProven_example =
    verified_device-IsProven (ok "boot-a") (ok renamed) expected "grown" renamed accepted
