-- ===== src/Base/Utf8.antt =====
-- `str::from_utf8`: the decoder of the standard library, as an automaton over the bytes.
use Prim.Native.Nat.{ℕ, zero, suc, ◌+◌, ◌-◌, ◌*◌}
use Prim.Native.Char.{Char}
use Prim.Native.String.{String}
use mathlib.Core.Path.{◌≡◌, refl}
use mathlib.Core.Option.{Option, none, some}
use mathlib.Core.List.{List, [], ◌∷◌}
use rigos.Base.Tests.{ltb, ◌==◌, within, if◌then◌else◌}
use rigos.Base.Text.{bytes}
use rigos.Base.Text.Chars.{from_u32}

-- `left` bytes of a character are to come, the next one between `lo` and `hi`, and `acc` holds
-- the bits that were read.
pub record State : Type 0 where
  pub left : ℕ
  pub acc : ℕ
  pub lo : ℕ
  pub hi : ℕ

abbrev ready : State
ready = record { left = 0; acc = 0; lo = 0x80; hi = 0xbf }

-- A character is complete, or more bytes are to come, or the byte is refused.
pub data Move : Type 0 where
  emit : ℕ → Move
  more : State → Move
  refuse : Move

first : ℕ → Move
first b =
    if ltb b 0x80
    then emit b
    else if within 0xc2 0xdf b
    then more (record { left = 1; acc = b - 0xc0; lo = 0x80; hi = 0xbf })
    else if within 0xe0 0xef b
    then more (record {
      left = 2;
      acc = b - 0xe0;
      lo = if b == 0xe0 then 0xa0 else 0x80;
      hi = if b == 0xed then 0x9f else 0xbf;
    })
    else if within 0xf0 0xf4 b
    then more (record {
      left = 3;
      acc = b - 0xf0;
      lo = if b == 0xf0 then 0x90 else 0x80;
      hi = if b == 0xf4 then 0x8f else 0xbf;
    })
    else refuse

next : ℕ → ℕ → Move
next zero acc = emit acc
next (suc left) acc = more (record { left = suc left; acc = acc; lo = 0x80; hi = 0xbf })

step : ℕ → State → ℕ → Move
unfolding first next
step zero s b = first b
step (suc left) s b = if within s.lo s.hi b then next left (s.acc * 64 + (b - 0x80)) else refuse

abbrev consed : Option Char → Option String → Option String
consed (some c) (some s) = some (String.◌∷◌ c s)
consed _ _ = none

decode : State → List ℕ → Option String
unfolding step
decode s [] = if s.left == 0 then some "" else none
decode s (b ∷ bs) = elim (step s.left s b) [
  | emit n ↦ consed (from_u32 n) (decode ready bs)
  | more t ↦ decode t bs
  | refuse ↦ none
]

unfoldable pub from_utf8 : List ℕ → Option String
unfolding decode from_u32
from_utf8 bs = decode ready bs

decoded : from_utf8 (bytes "aé€𝄞z") ≡ some "aé€𝄞z"
unfolding from_utf8 bytes
decoded = refl

overlong : from_utf8 (0xc0 ∷ 0x80 ∷ []) ≡ none
unfolding from_utf8
overlong = refl

surrogate : from_utf8 (0xed ∷ 0xa0 ∷ 0x80 ∷ []) ≡ none
unfolding from_utf8
surrogate = refl
