-- ===== src/Config/Names.antt =====
-- crates/rigos-config/src/lib.rs: the tests of names, and the join of a name to a directory.
pub mod Slug
pub mod Safe
pub mod Host
pub mod Zone
use Prim.Native.Char.{code}
use Prim.Native.String
use Prim.Native.String.{len}
use text.Mathlib.Text.{◌==◌ as text_eq, starts_with}
use rigos.Base.{
  ℕ, String, Bool, true, false, not, ◌&&◌, ◌||◌, Option, none, some, List, [], ◌∷◌, ◌++◌, Result,
  ok, err, leb, ◌==◌, all, any, if◌then◌else◌,
}
use rigos.Base.Text.{all_bytes, first_byte, first_char, is_empty, is_some_and}
use rigos.Base.Text.Ascii.{is_ascii_alphanumeric}
use rigos.Base.Text.Search.{contains, ends_with, split}
use rigos.Config.Error.{ConfigError, error}

abbrev pub slug_byte : ℕ → Bool
slug_byte b = is_ascii_alphanumeric b || b == b'-'

unfoldable pub valid_slug : String → ℕ → Bool
valid_slug value max =
    not (is_empty value)
    && leb (len value) max
    && is_some_and (first_byte value) is_ascii_alphanumeric
    && all_bytes slug_byte value

abbrev pub zone_byte : ℕ → Bool
zone_byte b = is_ascii_alphanumeric b || b == b'_' || b == b'-' || b == b'+'

abbrev pub starts_with_char : ℕ → String → Bool
starts_with_char n s = is_some_and (first_char s) (λ c. c == n)

unfoldable pub valid_timezone_name : String → Bool
valid_timezone_name value =
    not (is_empty value)
    && leb (len value) 128
    && not (starts_with_char b'/' value)
    && not (contains ".." value)
    && all (λ p. not (is_empty p) && all_bytes zone_byte p) (split b'/' value)

abbrev pub contains_char : ℕ → String → Bool
contains_char n String.[] = false
contains_char n (String.◌∷◌ c s) = code c == n || contains_char n s

unfoldable pub valid_host : String → Bool
valid_host value =
    not (is_empty value)
    && leb (len value) 253
    && (contains_char b':' value
        || all (λ p. not (is_empty p) && leb (len p) 63 && all_bytes slug_byte p)
            (split b'.' value))

abbrev pub json_byte : ℕ → Bool
json_byte b = is_ascii_alphanumeric b || b == b'.' || b == b'-' || b == b'_'

unfoldable pub safe_json_basename : String → Bool
safe_json_basename name =
    not (starts_with_char b'.' name)
    && ends_with ".json" name
    && leb (len name) 128
    && not (contains ".." name)
    && all_bytes json_byte name

-- The components of `std::path`, on Unix.
pub data Component : Type 0 where
  root_dir cur_dir parent_dir : Component
  normal : String → Component

-- Empty pieces and dots are dropped.
unfoldable pub pieces : List String → List Component
pieces [] = []
pieces (p ∷ ps) =
    if is_empty p || text_eq p "."
    then pieces ps
    else (if text_eq p ".." then parent_dir else normal p) ∷ pieces ps

-- A leading dot counts, and a leading slash is the root.
unfoldable pub relative : List String → List Component
unfolding pieces
relative [] = []
relative (p ∷ ps) = if text_eq p "." then cur_dir ∷ pieces ps else pieces (p ∷ ps)

unfoldable pub components : String → List Component
unfolding relative split
components name =
    if starts_with_char b'/' name
    then root_dir ∷ pieces (split b'/' name)
    else relative (split b'/' name)

-- `root.join(name)` on Unix: an absolute name replaces the root.
unfoldable pub path_join : String → String → String
unfolding ends_with
path_join root name =
    if starts_with_char b'/' name
    then name
    else if is_empty root || ends_with "/" root
    then String.◌++◌ root name
    else String.◌++◌ root (String.◌++◌ "/" name)

abbrev pub not_normal : Component → Bool
not_normal (normal s) = false
not_normal _ = true

unfoldable pub safe_join : String → String → Result ConfigError String
unfolding components path_join
safe_join root name =
    if not (safe_json_basename name) || any not_normal (components name)
    then err (error "RIGOS_CONFIG_INVALID_VALUE" none none (some "FLIGHT_REF") "unsafe filename")
    else ok (path_join root name)
