-- ===== src/State/Ids.antt =====
-- crates/rigos-state/src/lib.rs: the comparisons of identifiers.
use Prim.Native.Char.{code}
use text.Mathlib.Text.{◌==◌ as text_eq}
use rigos.Base.{
  ℕ, ◌+◌, ◌-◌, ◌*◌, String, ◌≡◌, refl, Bool, true, false, Option, none, some, List, [], ◌∷◌, ltb,
  ◌==◌, within, if◌then◌else◌,
}
use rigos.Base.Text.{bytes}
use rigos.Base.Text.Chars.{eq_ignore_ascii_case}

abbrev pub opt_text_is : Option String → String → Bool
opt_text_is none b = false
opt_text_is (some a) b = text_eq a b

abbrev pub opt_nat_eq : Option ℕ → Option ℕ → Bool
opt_nat_eq none none = true
opt_nat_eq (some a) (some b) = a == b
opt_nat_eq _ _ = false

unfoldable pub eq_id : Option String → String → Bool
unfolding eq_ignore_ascii_case
eq_id none expected = false
eq_id (some value) expected = eq_ignore_ascii_case value expected

-- The two characters of the prefix are taken off where both are there.
unfoldable pub strip_hex_prefix : String → String
strip_hex_prefix (String.◌∷◌ a (String.◌∷◌ b rest)) =
    if code a == b'0'
    then (if code b == b'x'
        then rest
        else if code b == b'X'
        then rest
        else String.◌∷◌ a (String.◌∷◌ b rest))
    else String.◌∷◌ a (String.◌∷◌ b rest)
strip_hex_prefix value = value

unfoldable pub eq_disk_id : String → String → Bool
unfolding strip_hex_prefix eq_ignore_ascii_case
eq_disk_id observed expected =
    eq_ignore_ascii_case (strip_hex_prefix observed) (strip_hex_prefix expected)

abbrev hex_digit : ℕ → Option ℕ
hex_digit b =
    if within b'0' b'9' b
    then some (b - b'0')
    else if within b'a' b'f' b
    then some (b - b'a' + 10)
    else if within b'A' b'F' b
    then some (b - b'A' + 10)
    else none

abbrev shifted : ℕ → Option ℕ → Option ℕ
shifted acc none = none
shifted acc (some d) = let n = acc * 16 + d in if ltb 255 n then none else some n

hex_from : Option ℕ → List ℕ → Option ℕ
hex_from none bs = none
hex_from (some acc) [] = some acc
hex_from (some acc) (b ∷ bs) = hex_from (shifted acc (hex_digit b)) bs

-- `u8::from_str_radix(value, 16)`: a plus sign may stand before the digits.
from_hex : List ℕ → Option ℕ
unfolding hex_from
from_hex [] = none
from_hex (b ∷ []) = hex_from (some 0) (b ∷ [])
from_hex (b ∷ c ∷ bs) =
    if b == b'+' then hex_from (some 0) (c ∷ bs) else hex_from (some 0) (b ∷ c ∷ bs)

unfoldable pub parse_type : String → Option ℕ
unfolding strip_hex_prefix from_hex bytes
parse_type value = from_hex (bytes (strip_hex_prefix value))

abbrev pub and_then_parse : Option String → Option ℕ
and_then_parse none = none
and_then_parse (some value) = parse_type value

unfoldable pub eq_mbr_type : Option String → String → Bool
unfolding parse_type
eq_mbr_type observed expected = opt_nat_eq (and_then_parse observed) (parse_type expected)

types : parse_type "0x0c" ≡ some 12
unfolding parse_type
types = refl

types_wide : parse_type "0x100" ≡ none
unfolding parse_type
types_wide = refl
