-- ===== src/Base/Text/Format.antt =====
-- The texts that `format!` and `str::replace` make.
use Prim.Native.Nat.{ℕ, zero, suc, ◌-◌, ◌/◌, ◌%◌}
use Prim.Native.Char.{Char}
use Prim.Native.String
use text.Mathlib.Text.{starts_with}
use rigos.Base.Tests.{ltb, if◌then◌else◌}

unfoldable pub digit : ℕ → Char
digit zero = "0"
digit (suc zero) = "1"
digit (suc (suc zero)) = "2"
digit (suc (suc (suc zero))) = "3"
digit (suc (suc (suc (suc zero)))) = "4"
digit (suc (suc (suc (suc (suc zero))))) = "5"
digit (suc (suc (suc (suc (suc (suc zero)))))) = "6"
digit (suc (suc (suc (suc (suc (suc (suc zero))))))) = "7"
digit (suc (suc (suc (suc (suc (suc (suc (suc zero)))))))) = "8"
digit _ = "9"

-- The decimal digits of a number below 10 ^ fuel, before a text.
unfoldable pub digits_before : ℕ → ℕ → String.String → String.String
unfolding digit
digits_before zero n s = s
digits_before (suc fuel) n s =
    let more = digits_before fuel (n / 10) (String.◌∷◌ (digit (n % 10)) s) in
    if ltb n 10 then String.◌∷◌ (digit n) s else more

-- A u64 has at most 20 digits.
unfoldable pub decimal : ℕ → String.String
unfolding digits_before
decimal n = digits_before 20 n ""

abbrev chars : String.String → ℕ
chars String.[] = 0
chars (String.◌∷◌ c s) = suc (chars s)

-- `s.replace(pattern, text)` from a place on where `skip` more characters of a match are left out.
unfoldable pub replace_from : ℕ → String.String → String.String → String.String → String.String
replace_from skip pattern text String.[] = ""
replace_from (suc skip) pattern text (String.◌∷◌ c s) = replace_from skip pattern text s
replace_from zero pattern text (String.◌∷◌ c s) =
    let matched = String.◌++◌ text (replace_from (chars pattern - 1) pattern text s) in
    let kept = String.◌∷◌ c (replace_from zero pattern text s) in
    if starts_with (String.◌∷◌ c s) pattern then matched else kept

abbrev between : String.String → String.String → String.String
between text String.[] = text
between text (String.◌∷◌ c s) = String.◌++◌ text (String.◌∷◌ c (between text s))

-- `s.replace(pattern, text)`; an empty pattern matches before each character and at the end.
unfoldable pub replace : String.String → String.String → String.String → String.String
unfolding replace_from
replace String.[] text s = between text s
replace (String.◌∷◌ p pattern) text s = replace_from 0 (String.◌∷◌ p pattern) text s
