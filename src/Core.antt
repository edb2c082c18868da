-- ===== src/Core.antt =====
-- crates/rigos-core/src/lib.rs: diagnostics, observations, and the envelope of a command's answer.
pub mod Envelope
mod Examples
use text.Mathlib.Text.{◌==◌ as text_eq}
use rigos.Base.{
  String, Bool, true, false, not, ◌||◌, Option, none, some, List, [], ◌∷◌, any, if◌then◌else◌,
}
use rigos.Base.Sort.{sort}
use rigos.Base.Text.Order.{text_leb}
use rigos.Config.Hive.{Value}

pub data ExecutionStatus : Type 0 where
  ok partial error : ExecutionStatus

pub data Severity : Type 0 where
  info warning error : Severity

pub record Diagnostic : Type 0 where
  pub code : String
  pub severity : Severity
  pub component : String
  pub message : String
  pub context : List (String × Value)

abbrev pub warning_diagnostic : String → String → String → Diagnostic
warning_diagnostic code component message = record {
  code = code;
  severity = Severity.warning;
  component = component;
  message = message;
  context = [];
}

abbrev pub error_diagnostic : String → String → String → Diagnostic
error_diagnostic code component message = record {
  code = code;
  severity = Severity.error;
  component = component;
  message = message;
  context = [];
}

pub data Observation {ℓ} (T : Type ℓ) : Type ℓ where
  observed : T → String → Observation T
  unavailable unsupported : String → Observation T
  unknown : Observation T

-- What the compiler was given at the build.
pub record BuildMetadata : Type 0 where
  pub rigosd_version : String
  pub build_commit : String
  pub target : String
  pub profile : String
  pub product_version : Option String
  pub image_id : Option String
  pub image_version : Option String
  pub image_channel : Option String

pub record CliEnvelope {ℓ} (T : Type ℓ) : Type ℓ where
  pub schema : String
  pub command : String
  pub status : ExecutionStatus
  pub observed_at : String
  pub data_schema : String
  pub payload : Option T
  pub diagnostics : List Diagnostic
  pub meta : BuildMetadata

-- `(&a.code, &a.component) <= (&b.code, &b.component)`
unfoldable pub key_leb : Diagnostic → Diagnostic → Bool
unfolding text_leb
key_leb a b =
    if text_eq a.code b.code then text_leb a.component b.component else text_leb a.code b.code

abbrev pub is_info : Severity → Bool
is_info Severity.info = true
is_info _ = false

abbrev pub is_none {ℓ} : {T : Type ℓ} → Option T → Bool
is_none none = true
is_none (some v) = false

unfoldable pub status_of {ℓ} : {T : Type ℓ} → Option T → List Diagnostic → Bool → ExecutionStatus
status_of payload diagnostics fatal =
    if fatal || is_none payload
    then ExecutionStatus.error
    else if any (λ (d : Diagnostic). not (is_info d.severity)) diagnostics
    then ExecutionStatus.partial
    else ExecutionStatus.ok

-- `CliEnvelope::new`, with the time and the metadata of the build.
unfoldable pub new_envelope {ℓ} :
    {T : Type ℓ}
    → String
    → BuildMetadata
    → String
    → String
    → Option T
    → List Diagnostic
    → Bool
    → CliEnvelope T
unfolding sort key_leb status_of
new_envelope now meta command data_schema payload diagnostics fatal =
    let sorted = sort key_leb diagnostics in
    record {
      schema = "rigos.cli-envelope/v1";
      command = command;
      status = status_of payload sorted fatal;
      observed_at = now;
      data_schema = data_schema;
      payload = payload;
      diagnostics = sorted;
      meta = meta;
    }

pub record InspectionResult {ℓ} (T : Type ℓ) : Type ℓ where
  pub value : Option T
  pub diagnostics : List Diagnostic
  pub fatal : Bool

abbrev pub success {ℓ} : {T : Type ℓ} → T → List Diagnostic → InspectionResult T
success value diagnostics = record { value = some value; diagnostics = diagnostics; fatal = false }
