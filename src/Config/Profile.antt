-- ===== src/Config/Profile.antt =====
-- crates/rigos-config/src/lib.rs: the profile of a rig, read from rig.conf.
pub mod Lines
pub mod Fields
pub mod Valid
pub mod Keys
pub mod Origin
pub mod Accepts
use rigos.Base.{
  ℕ, ◌*◌, String, some, none, List, [], Result, ok, ◌>>=◌, ◌>>◌, fail_if, ok_or, ltb, length,
}
use rigos.Base.Text.Search.{lines}
use rigos.Base.Utf8.{from_utf8}
use rigos.Config.Error.{ConfigError, error}
use Lines.{read_lines}
use Fields.{RigProfile, profile_of_values}

abbrev pub max_config_bytes : ℕ
max_config_bytes = 64 * 1024

-- `parse_rig_profile` behind the size and encoding checks.
unfoldable pub parse_text : String → Result ConfigError RigProfile
unfolding lines read_lines profile_of_values
parse_text text = do values ← read_lines 1 (lines text) []; profile_of_values values

unfoldable pub parse_rig_profile : List ℕ → Result ConfigError RigProfile
unfolding parse_text from_utf8
parse_rig_profile bytes = do
  fail_if (ltb max_config_bytes (length bytes)) (
      error "RIGOS_CONFIG_FILE_TOO_LARGE" (some "rig.conf") none none
        "configuration exceeds 64 KiB")
  text ← ok_or (from_utf8 bytes) (
      error "RIGOS_CONFIG_INVALID_UTF8" (some "rig.conf") none none
        "configuration is not valid UTF-8")
  parse_text text
