-- ===== src/Evidence/Sanitize.antt =====
-- crates/rigos-evidence/src/lib.rs: sanitize_approved, over the files of a raw and a public
-- directory.
pub mod Published
pub mod Complete
use Prim.Native.String
use rigos.Base.{
  ℕ, ◌+◌, String, Bool, true, false, not, Option, none, some, List, [], ◌∷◌, Result, ok, err, panic,
  ◌>>=◌, ◌>>◌, fail_if, ok_or, if◌then◌else◌,
}
use rigos.Base.Text.Search.{ends_with}
use rigos.Config.Hive.{Value}
use rigos.Evidence.{
  EvidenceError, io, json, forbidden_content, RedactionState, untouched, PrivateIdentityContext,
  redact_json, redact_text, forbidden,
}

abbrev pub approved : List String
approved =
    "inventory/os-release.txt" ∷ "inventory/uname.txt" ∷ "inventory/lscpu.txt"
    ∷ "inventory/runtime-libraries.txt" ∷ "inspection/machine-inspect.json"
    ∷ "inspection/miner-stopped.json" ∷ "inspection/miner-running-no-api.json"
    ∷ "inspection/miner-running-loopback-api.json" ∷ "inspection/doctor.json"
    ∷ "mutation/before.sha256" ∷ "mutation/after.sha256" ∷ "mutation/comparison.txt"
    ∷ "verification/verify.log" ∷ "verification/schema-validation.txt"
    ∷ "verification/secret-scan.txt" ∷ "verification/probe-timeout.json"
    ∷ "verification/probe-processes-after.txt" ∷ []

-- The system and serde_json: what the raw directory holds, which of the calls that make a directory
-- or write a file succeed, and the decoder and the printer of JSON. A write that fails leaves no
-- file here.
pub record Raw : Type 0 where
  pub is_file : String → Bool
  pub read : String → Option String
  pub decode : String → Option Value
  pub print : Value → Option String
  pub decode_context : String → Option PrivateIdentityContext
  pub make_public : Bool
  pub make_parent : String → Bool
  pub write : String → Bool

-- A file of the public directory.
pub record PublicFile : Type 0 where
  pub name : String
  pub text : String

pub record Progress : Type 0 where
  pub state : RedactionState
  pub inputs : ℕ
  pub outputs : ℕ
  pub files : List PublicFile

pub data Swept : Type 0 where
  finished : Progress → Swept
  stopped : EvidenceError → List PublicFile → Swept

pub record RedactionReport : Type 0 where
  pub input_file_count : ℕ
  pub output_file_count : ℕ
  pub replacements : RedactionState
  pub rejected_file_count : ℕ
  pub json_parse_failures : ℕ
  pub remaining_forbidden_patterns : ℕ

abbrev pub no_files : Progress
no_files = record { state = untouched; inputs = 0; outputs = 0; files = [] }

module _ (raw : Raw) where
  module _ (context : PrivateIdentityContext) (alias : String) where
    abbrev pub with_newline : String → String
    with_newline text = String.◌++◌ text "\n"

    abbrev pub sanitize_json :
        String → RedactionState → Result EvidenceError (String × RedactionState)
    sanitize_json text state = do
      value ← ok_or (raw.decode text) json
      let redacted = redact_json context alias value state
      printed ← ok_or (raw.print redacted.0) json
      ok (with_newline printed, redacted.1)

    abbrev pub sanitize_text :
        String → RedactionState → Result EvidenceError (String × RedactionState)
    sanitize_text text state =
        let redacted = redact_text context alias text state in
        ok (with_newline redacted.0, redacted.1)

    -- The text of one file as it is to be published.
    unfoldable pub sanitized :
        String → RedactionState → Result EvidenceError (String × RedactionState)
    unfolding ends_with redact_json redact_text
    sanitized relative state = do
      text ← ok_or (raw.read relative) io
      if ends_with ".json" relative then sanitize_json text state else sanitize_text text state

    unfoldable pub publish_file :
        String → RedactionState → Result EvidenceError (String × RedactionState)
    unfolding sanitized forbidden
    publish_file relative state = do
      done ← sanitized relative state
      fail_if (forbidden done.0) (forbidden_content relative)
      fail_if (not (raw.make_parent relative)) io
      fail_if (not (raw.write relative)) io
      ok done

    abbrev pub counted : String → Progress → String × RedactionState → Progress
    counted relative p done = record {
      state = done.1;
      inputs = p.inputs + 1;
      outputs = p.outputs + 1;
      files = record { name = relative; text = done.0 } ∷ p.files;
    }

    abbrev pub stepped : String → Progress → Result EvidenceError (String × RedactionState) → Swept
    stepped relative p (ok done) = finished (counted relative p done)
    stepped relative p (err e) = stopped e p.files
    stepped relative p panic = stopped io p.files

    -- A name that is no file is passed over.
    unfoldable pub sanitize_next : String → Progress → Swept
    unfolding publish_file
    sanitize_next relative p =
        if raw.is_file relative
        then stepped relative p (publish_file relative p.state)
        else finished p

    -- What an error leaves is what was written before it.
    unfoldable pub sweep : List String → Progress → Swept
    unfolding sanitize_next
    sweep [] p = finished p
    sweep (relative ∷ rest) p = elim (sanitize_next relative p) [
      | finished next ↦ sweep rest next
      | stopped e files ↦ stopped e files
    ]

  abbrev pub swept_from : String → Option PrivateIdentityContext → Swept
  swept_from alias none = stopped json []
  swept_from alias (some context) = sweep context alias approved no_files

  abbrev pub with_context : String → Option String → Swept
  with_context alias none = stopped io []
  with_context alias (some text) = swept_from alias (raw.decode_context text)

  abbrev pub opened : String → Bool → Swept
  opened alias true = with_context alias (raw.read "raw-meta/privacy.json")
  opened alias false = stopped io []

  -- The public files, with the report or the error.
  unfoldable pub sanitize_approved : String → Swept
  unfolding sweep
  sanitize_approved alias = opened alias raw.make_public

abbrev pub report : Progress → RedactionReport
report p = record {
  input_file_count = p.inputs;
  output_file_count = p.outputs;
  replacements = p.state;
  rejected_file_count = 0;
  json_parse_failures = 0;
  remaining_forbidden_patterns = 0;
}
