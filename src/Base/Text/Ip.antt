-- ===== src/Base/Text/Ip.antt =====
-- `text.parse::<IpAddr>().is_ok()`: the grammar of core::net, over the bytes of the text.
use Prim.Native.Nat.{ℕ, zero, suc, ◌+◌, ◌-◌, ◌*◌}
use Prim.Native.String.{String}
use mathlib.Core.Bool.{Bool, true, false, not, ◌&&◌, ◌||◌}
use mathlib.Core.Option.{Option, none, some}
use mathlib.Core.List.{List, [], ◌∷◌}
use rigos.Base.Tests.{leb, ◌==◌, within, if◌then◌else◌}
use rigos.Base.Lists.{length}
use rigos.Base.Text.{bytes}

abbrev pub is_decimal : ℕ → Bool
is_decimal b = within b'0' b'9' b

abbrev pub is_hex : ℕ → Bool
is_hex b = is_decimal b || within b'a' b'f' b || within b'A' b'F' b

abbrev with_digit : ℕ → List ℕ × List ℕ → List ℕ × List ℕ
with_digit b (ds, rest) = (b ∷ ds, rest)

-- The digits at the start, and what follows.
unfoldable pub span : (ℕ → Bool) → List ℕ → List ℕ × List ℕ
span p [] = ([], [])
span p (b ∷ bs) = let more = with_digit b (span p bs) in if p b then more else ([], b ∷ bs)

abbrev decimal_value : ℕ → List ℕ → ℕ
decimal_value acc [] = acc
decimal_value acc (d ∷ ds) = decimal_value (acc * 10 + (d - b'0')) ds

abbrev leads_with_zero : List ℕ → Bool
leads_with_zero (d ∷ e ∷ ds) = d == b'0'
leads_with_zero _ = false

-- One to three digits, no zero before others, at most 255.
abbrev is_octet : List ℕ → Bool
is_octet ds = within 1 3 (length ds) && not (leads_with_zero ds) && leb (decimal_value 0 ds) 255

abbrev rest_if : Bool → List ℕ → Option (List ℕ)
rest_if true rest = some rest
rest_if false rest = none

unfoldable pub read_octet : List ℕ → Option (List ℕ)
unfolding span
read_octet l = let (ds, rest) = span is_decimal l in rest_if (is_octet ds) rest

-- One to four digits.
unfoldable pub read_group : List ℕ → Option (List ℕ)
unfolding span
read_group l = let (ds, rest) = span is_hex l in rest_if (within 1 4 (length ds)) rest

unfoldable pub read_char : ℕ → List ℕ → Option (List ℕ)
read_char c [] = none
read_char c (b ∷ bs) = if b == c then some bs else none

abbrev then_read : Option (List ℕ) → (List ℕ → Option (List ℕ)) → Option (List ℕ)
then_read none f = none
then_read (some l) f = f l

unfoldable pub read_ipv4 : List ℕ → Option (List ℕ)
unfolding read_octet read_char
read_ipv4 l =
    then_read
      (then_read
        (then_read
          (then_read (then_read (then_read (read_octet l) (read_char b'.')) read_octet)
            (read_char b'.'))
          read_octet)
        (read_char b'.'))
      read_octet

-- How many groups were read, whether the last two were an IPv4 address, and what follows.
pub record Groups : Type 0 where
  pub count : ℕ
  pub ipv4 : Bool
  pub rest : List ℕ

abbrev no_group : List ℕ → Groups
no_group l = record { count = 0; ipv4 = false; rest = l }

abbrev one_more : Groups → Groups
one_more g = record g { count = suc g.count }

abbrev separated : Bool → List ℕ → Option (List ℕ)
separated true l = some l
separated false l = read_char b':' l

abbrev tail_ipv4 : ℕ → Option (List ℕ) → Option (List ℕ)
tail_ipv4 zero o = none
tail_ipv4 (suc k) o = then_read o read_ipv4

-- `read_groups` into a slice of so many groups, the first of which has no colon before it.
unfoldable pub read_groups : ℕ → Bool → List ℕ → Groups
unfolding read_ipv4 read_group read_char
read_groups zero first l = no_group l
read_groups (suc k) first l = elim (tail_ipv4 k (separated first l)) [
  | some rest ↦ record { count = 2; ipv4 = true; rest = rest }
  | none ↦ elim (then_read (separated first l) read_group) [
    | some rest ↦ one_more (read_groups k false rest)
    | none ↦ no_group l
  ]
]

abbrev after_colons : ℕ → Option (List ℕ) → Option (List ℕ)
after_colons n none = none
after_colons n (some l) = some (read_groups (7 - n) true l).rest

abbrev of_head : Groups → Option (List ℕ)
of_head g =
    if g.count == 8
    then some g.rest
    else if g.ipv4
    then none
    else after_colons g.count (then_read (read_char b':' g.rest) (read_char b':'))

unfoldable pub read_ipv6 : List ℕ → Option (List ℕ)
unfolding read_groups read_char
read_ipv6 l = of_head (read_groups 8 true l)

abbrev at_end : Option (List ℕ) → Bool
at_end (some []) = true
at_end _ = false

unfoldable pub is_ip : String → Bool
unfolding read_ipv4 read_ipv6
is_ip s = at_end (read_ipv4 (bytes s)) || at_end (read_ipv6 (bytes s))
