-- ===== src/Base/Text.antt =====
-- Rust's `str` over the native texts: a text is a list of Unicode scalar values, `len` counts
-- the bytes of its UTF-8, and `bytes` are those bytes.
pub mod Chars
pub mod Ascii
pub mod Search
pub mod Format
pub mod Ip
pub mod Apart
pub mod Laws
pub mod Ends
pub mod Order
use Prim.Native.Char.{Char, code}
use Prim.Native.String
use Prim.Native.Nat.{ℕ, ◌+◌, ◌/◌, ◌%◌}
use mathlib.Core.Bool.{Bool, true, false, ◌&&◌, ◌||◌}
use mathlib.Core.Option.{Option, none, some}
use mathlib.Core.List.{List, [], ◌∷◌, ◌++◌}
use rigos.Base.Tests.{ltb, if◌then◌else◌}
use rigos.Base.Lists.{all}

-- The UTF-8 bytes of a scalar value.
pub utf8 : ℕ → List ℕ
utf8 n =
    if ltb n 128
    then n ∷ []
    else if ltb n 2048
    then (192 + n / 64) ∷ (128 + n % 64) ∷ []
    else if ltb n 65536
    then (224 + n / 4096) ∷ (128 + n / 64 % 64) ∷ (128 + n % 64) ∷ []
    else (240 + n / 262144) ∷ (128 + n / 4096 % 64) ∷ (128 + n / 64 % 64) ∷ (128 + n % 64) ∷ []

unfoldable pub bytes : String.String → List ℕ
unfolding utf8
bytes String.[] = []
bytes (String.◌∷◌ c s) = utf8 (code c) ++ bytes s

abbrev pub is_empty : String.String → Bool
is_empty String.[] = true
is_empty (String.◌∷◌ c s) = false

-- `s.chars().all(p)` and `s.chars().any(p)`, over the scalar values.
abbrev pub all_chars : (ℕ → Bool) → String.String → Bool
all_chars p String.[] = true
all_chars p (String.◌∷◌ c s) = p (code c) && all_chars p s

abbrev pub any_char : (ℕ → Bool) → String.String → Bool
any_char p String.[] = false
any_char p (String.◌∷◌ c s) = p (code c) || any_char p s

-- `s.bytes().all(p)`.
abbrev pub all_bytes : (ℕ → Bool) → String.String → Bool
all_bytes p s = all p (bytes s)

-- `s.chars().next()`.
abbrev pub first_char : String.String → Option ℕ
first_char String.[] = none
first_char (String.◌∷◌ c s) = some (code c)

-- `s.bytes().next()`.
abbrev pub first_byte : String.String → Option ℕ
first_byte s = elim (bytes s) [ [] ↦ none | b ∷ _ ↦ some b ]

-- `o.is_some_and(p)`.
abbrev pub is_some_and : Option ℕ → (ℕ → Bool) → Bool
is_some_and none p = false
is_some_and (some b) p = p b

-- `P` at every character, and at the first one, which is there.
abbrev pub AllChars : (ℕ → Type 0) → String.String → Type 0
AllChars P String.[] = Unit
AllChars P (String.◌∷◌ c s) = P (code c) × AllChars P s

abbrev pub StartsWith : (ℕ → Type 0) → String.String → Type 0
StartsWith P String.[] = ⊥
StartsWith P (String.◌∷◌ c s) = P (code c)
