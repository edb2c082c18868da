-- ===== src/Config/Profile/Lines.antt =====
-- crates/rigos-config/src/lib.rs: the loop over the lines of rig.conf.
use Prim.Native.String
use text.Mathlib.Text.{◌==◌ as text_eq}
use rigos.Base.{
  ℕ, ◌+◌, String, Bool, true, false, not, ◌||◌, Option, none, some, List, [], ◌∷◌, Result, ok,
  ◌>>=◌, ◌>>◌, fail_if, ok_or, any, ◌==◌, if◌then◌else◌,
}
use rigos.Base.Text.{all_bytes, is_empty}
use rigos.Base.Text.Ascii.{is_ascii_uppercase}
use rigos.Base.Text.Search.{trim, contains, split_once}
use rigos.Config.Error.{ConfigError, error}
use rigos.Config.Names.{starts_with_char, contains_char}

-- An entry of the map of values, with the line it was read from.
pub record Entry : Type 0 where
  pub key : String
  pub field : String
  pub line : ℕ

abbrev pub conf_error : String → Option ℕ → Option String → String → ConfigError
conf_error code line key message = error code (some "rig.conf") line key message

abbrev pub supported : List String
supported =
    "RIGOS_CONFIG_VERSION" ∷ "NODE_NAME" ∷ "TIMEZONE" ∷ "FLIGHT_SOURCE" ∷ "FLIGHT_REF"
    ∷ "MINER_START_MODE" ∷ []

abbrev pub reserved : List String
reserved = "WATCHDOG_ENABLED" ∷ "AUTO_START" ∷ "ACTIVE_FLIGHT_SHEET" ∷ "IMPORT_FLIGHT_SHEET" ∷ []

abbrev pub member : String → List String → Bool
member key keys = any (λ k. text_eq k key) keys

-- `values.get(key)`.
unfoldable pub get : String → List Entry → Option Entry
get key [] = none
get key (e ∷ es) = if text_eq e.key key then some e else get key es

abbrev pub is_some {ℓ} : {A : Type ℓ} → Option A → Bool
is_some none = false
is_some (some a) = true

abbrev pub key_byte : ℕ → Bool
key_byte b = is_ascii_uppercase b || b == b'_'

unfoldable pub is_skipped : String → Bool
is_skipped value = is_empty value || starts_with_char b'#' value

unfoldable pub is_shell : String → Bool
is_shell value = contains "$(`" value || contains "$(" value || contains_char b'`' value

unfoldable pub bad_field : String → String → Bool
bad_field key field =
    is_empty key
    || not (all_bytes key_byte key)
    || not (text_eq (trim field) field)
    || contains_char 13 field
    || contains_char 10 field

-- A line that is neither blank nor a comment.
unfoldable pub read_entry : ℕ → String → List Entry → Result ConfigError (List Entry)
unfolding is_shell bad_field split_once get trim contains
read_entry line value values = do
  fail_if (is_shell value)
      (conf_error "RIGOS_CONFIG_SYNTAX" (some line) none "shell expansion is forbidden")
  split ←
      ok_or (split_once b'=' value)
        (conf_error "RIGOS_CONFIG_SYNTAX" (some line) none "expected KEY=VALUE")
  let key = split.0
  let field = split.1
  fail_if (bad_field key field)
      (conf_error "RIGOS_CONFIG_SYNTAX" (some line) (some key) "invalid key or unquoted value")
  fail_if (member key reserved) (
      conf_error "RIGOS_CONFIG_UNSUPPORTED_KEY" (some line) (some key)
        (String.◌++◌ "unsupported key " (String.◌++◌ key " in config version 1")))
  fail_if (not (member key supported)) (
      conf_error "RIGOS_CONFIG_UNKNOWN_KEY" (some line) (some key) (String.◌++◌ "unknown key " key))
  fail_if (is_some (get key values)) (
      conf_error "RIGOS_CONFIG_DUPLICATE_KEY" (some line) (some key)
        (String.◌++◌ "duplicate key " key))
  ok (record { key = key; field = field; line = line } ∷ values)

unfoldable pub read_line : ℕ → String → List Entry → Result ConfigError (List Entry)
unfolding trim is_skipped read_entry
read_line line raw values =
    if is_skipped (trim raw) then ok values else read_entry line (trim raw) values

unfoldable pub read_lines : ℕ → List String → List Entry → Result ConfigError (List Entry)
unfolding read_line
read_lines line [] values = ok values
read_lines line (raw ∷ rest) values =
    read_line line raw values >>= λ more. read_lines (line + 1) rest more
