-- ===== src/Base/Text/Chars.antt =====
-- Characters from numbers, and ASCII case mapping.
use Prim.Native.Nat.{ℕ, ◌+◌, Ordering, compare}
use Prim.Native.Char.{Char, char, code, IsLt}
use Prim.Native.String
use mathlib.Core.Path.{◌≡◌, refl, ap₂}
use mathlib.Core.Bool.{Bool}
use native.Mathlib.Omega.{arith}
use mathlib.Core.Option.{Option, none, some}
use text.Mathlib.Text.{◌==◌ as text_eq}
use rigos.Base.Tests.{within, if◌then◌else◌}

-- The same clauses as in the definition of `IsScalar`.
abbrev Both : Ordering → Ordering → Type 0
Both Ordering.lt o = IsLt o
Both Ordering.eq _ = ⊥
Both Ordering.gt _ = ⊥

abbrev Scalar : Ordering → Ordering → Ordering → Type 0
Scalar Ordering.lt _ _ = Unit
Scalar Ordering.eq o p = Both o p
Scalar Ordering.gt o p = Both o p

dec_lt : (o : Ordering) → Dec (IsLt o)
dec_lt Ordering.lt = yes tt
dec_lt Ordering.eq = no (λ h. h)
dec_lt Ordering.gt = no (λ h. h)

dec_both : (o p : Ordering) → Dec (Both o p)
dec_both Ordering.lt p = dec_lt p
dec_both Ordering.eq p = no (λ h. h)
dec_both Ordering.gt p = no (λ h. h)

dec_scalar : (o p q : Ordering) → Dec (Scalar o p q)
dec_scalar Ordering.lt p q = yes tt
dec_scalar Ordering.eq p q = dec_both p q
dec_scalar Ordering.gt p q = dec_both p q

-- `char::from_u32`.
unfoldable pub from_u32 : ℕ → Option Char
unfolding dec_scalar dec_both dec_lt
from_u32 n = elim (dec_scalar (compare n 55296) (compare 57343 n) (compare n 1114112)) [
  | yes h ↦ some (char n h)
  | no _ ↦ none
]

abbrev or_self : Char → Option Char → Char
or_self c none = c
or_self c (some d) = d

-- `char::to_ascii_lowercase`.
unfoldable pub to_ascii_lowercase_char : Char → Char
unfolding from_u32
to_ascii_lowercase_char c =
    if within b'A' b'Z' (code c) then or_self c (from_u32 (code c + 32)) else c

unfoldable pub to_ascii_lowercase : String.String → String.String
unfolding to_ascii_lowercase_char
to_ascii_lowercase String.[] = String.[]
to_ascii_lowercase (String.◌∷◌ c s) = String.◌∷◌ (to_ascii_lowercase_char c) (to_ascii_lowercase s)

-- `a.eq_ignore_ascii_case(b)`.
unfoldable pub eq_ignore_ascii_case : String.String → String.String → Bool
unfolding to_ascii_lowercase
eq_ignore_ascii_case a b = text_eq (to_ascii_lowercase a) (to_ascii_lowercase b)

lowered_pool : to_ascii_lowercase "Pool.É-Z[" ≡ "pool.É-z["
unfolding to_ascii_lowercase
lowered_pool = refl

-- The code of a lowered character.
pub code-to_ascii_lowercase_char :
    (c : Char)
    → code (to_ascii_lowercase_char c) ≡ (if within b'A' b'Z' (code c) then code c + 32 else code c)
unfolding to_ascii_lowercase_char
code-to_ascii_lowercase_char (char n h) = ground arith

pub to_ascii_lowercase_char_idem :
    (c : Char) → to_ascii_lowercase_char (to_ascii_lowercase_char c) ≡ to_ascii_lowercase_char c
unfolding to_ascii_lowercase_char
to_ascii_lowercase_char_idem c = ground (arith, code-to_ascii_lowercase_char c)

-- Lowering twice is lowering once.
pub to_ascii_lowercase_idem :
    (s : String.String) → to_ascii_lowercase (to_ascii_lowercase s) ≡ to_ascii_lowercase s
unfolding to_ascii_lowercase
to_ascii_lowercase_idem String.[] = refl
to_ascii_lowercase_idem (String.◌∷◌ c s) =
    ap₂ String.◌∷◌ (to_ascii_lowercase_char_idem c) (to_ascii_lowercase_idem s)
