-- ===== src/Base/Text/Ascii.antt =====
-- The ASCII classes of Rust's `u8` and `char`, and its Unicode white space.
use Prim.Native.Nat.{ℕ}
use mathlib.Core.Bool.{Bool, ◌||◌}
use rigos.Base.Tests.{ltb, ◌==◌, within}

abbrev pub is_ascii_uppercase : ℕ → Bool
is_ascii_uppercase b = within b'A' b'Z' b

abbrev pub is_ascii_lowercase : ℕ → Bool
is_ascii_lowercase b = within b'a' b'z' b

abbrev pub is_ascii_digit : ℕ → Bool
is_ascii_digit b = within b'0' b'9' b

abbrev pub is_ascii_alphanumeric : ℕ → Bool
is_ascii_alphanumeric b = is_ascii_uppercase b || is_ascii_lowercase b || is_ascii_digit b

-- `u8::is_ascii_whitespace`: space, tab, line feed, form feed, carriage return.
unfoldable pub is_ascii_whitespace : ℕ → Bool
is_ascii_whitespace b = b == 32 || b == 9 || b == 10 || b == 12 || b == 13

-- `char::is_whitespace`: the property White_Space.
unfoldable pub is_whitespace : ℕ → Bool
is_whitespace c =
    within 9 13 c
    || c == 32
    || c == 0x85
    || c == 0xa0
    || c == 0x1680
    || within 0x2000 0x200a c
    || c == 0x2028
    || c == 0x2029
    || c == 0x202f
    || c == 0x205f
    || c == 0x3000

-- `char::is_control`: the category Cc.
unfoldable pub is_control : ℕ → Bool
is_control c = ltb c 32 || within 0x7f 0x9f c
