-- ===== src/Config/Identity.antt =====
-- crates/rigos-config/src/lib.rs: the local mining identities.
pub mod Valid
mod Examples
use Prim.Native.String.{len}
use text.Mathlib.Text.{◌==◌ as text_eq}
use rigos.Base.{ℕ, String, Bool, true, false, not, ◌||◌, none, some, ltb, Result, ok, err, fail_if}
use rigos.Base.Text.{is_empty, any_char}
use rigos.Base.Text.Ascii.{is_whitespace, is_control}
use rigos.Config.Error.{ConfigError, error}
use rigos.Config.Names.{valid_slug}

pub record IdentityRecord : Type 0 where
  pub schema : String
  pub alias : String
  pub kind : String
  pub value : String
  pub created_locally : Bool

abbrev pub is_blank : ℕ → Bool
is_blank c = is_whitespace c || is_control c

unfoldable pub bad_identity_record : IdentityRecord → Bool
bad_identity_record identity =
    not (text_eq identity.schema "rigos.identity/v1")
    || not (text_eq identity.kind "mining_identity")
    || not (valid_slug identity.alias 64)
    || is_empty identity.value
    || ltb 512 (len identity.value)
    || any_char is_blank identity.value

unfoldable pub validate_identity : IdentityRecord → Result ConfigError (Unit {0})
unfolding bad_identity_record
validate_identity identity = fail_if (bad_identity_record identity) (
    error "RIGOS_FLIGHT_SHEET_UNRESOLVED_IDENTITY" none none (some "identity_ref")
      "invalid local mining identity")
