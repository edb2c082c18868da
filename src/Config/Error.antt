-- ===== src/Config/Error.antt =====
-- crates/rigos-config/src/lib.rs: the diagnostics of the configuration crate.
use rigos.Base.{ℕ, String, Option}

pub record ConfigDiagnostic : Type 0 where
  pub code : String
  pub file : Option String
  pub line : Option ℕ
  pub key : Option String
  pub message : String

pub record ConfigError : Type 0 where
  pub diagnostic : ConfigDiagnostic

unfoldable pub error : String → Option String → Option ℕ → Option String → String → ConfigError
error code file line key message = record {
  diagnostic = record { code = code; file = file; line = line; key = key; message = message };
}
