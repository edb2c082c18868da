-- ===== src/Core/Examples.antt =====
-- Envelopes, one of them that of the test of the crate.
use rigos.Base.{◌≡◌, refl, false, Option, none, some, List, [], ◌∷◌, ℕ}
use rigos.Base.Sort.{sort, insert}
use rigos.Base.Text.Order.{text_leb}
use rigos.Core.{
  ExecutionStatus, Diagnostic, BuildMetadata, CliEnvelope, warning_diagnostic, error_diagnostic,
  key_leb, status_of, new_envelope,
}
use rigos.Core.Envelope.{IsFaithful, new_envelope-IsFaithful}

abbrev build : BuildMetadata
build = record {
  rigosd_version = "0.0.3";
  build_commit = "unknown";
  target = "x86_64";
  profile = "unknown";
  product_version = none;
  image_id = none;
  image_version = none;
  image_channel = none;
}

abbrev two : List Diagnostic
two = error_diagnostic "test.z" "test" "late" ∷ warning_diagnostic "test.a" "test" "early" ∷ []

abbrev answer : Option ℕ → List Diagnostic → CliEnvelope ℕ
answer payload diagnostics =
    new_envelope "2026-07-04T05:34:56.123Z" build "doctor" "rigos.doctor-report/v1" payload
      diagnostics false

partial_on_warning :
    (answer (some 1) (warning_diagnostic "test.warning" "test" "warning" ∷ [])).status
    ≡ ExecutionStatus.partial
unfolding new_envelope status_of sort insert key_leb text_leb
partial_on_warning = refl

orders :
    (answer (some 1) two).diagnostics
    ≡ warning_diagnostic "test.a" "test" "early" ∷ error_diagnostic "test.z" "test" "late" ∷ []
unfolding new_envelope status_of sort insert key_leb text_leb
orders = refl

new_envelope-IsFaithful_example : IsFaithful (some 1) two false (answer (some 1) two)
new_envelope-IsFaithful_example =
    new_envelope-IsFaithful ℕ "2026-07-04T05:34:56.123Z" build "doctor" "rigos.doctor-report/v1"
      (some 1) two false
