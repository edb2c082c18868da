-- ===== src/Base/Text/Apart.antt =====
-- How two texts are told apart: by a function of them, the first character or the length.
use Prim.Native.Char.{Char, code}
use Prim.Native.Nat.{ℕ, suc, ◌+◌}
use Prim.Native.String
use Prim.Native.String.{String}
use Prim.Native.String.append
use mathlib.Core.Path.{◌≡◌, ap, ◌∙◌}
use mathlib.Core.Logic.{◌≢◌, inl, inr}
use mathlib.Core.Bool.{false}
use native.Mathlib.Omega.{arith}
use text.Mathlib.Text.{◌==◌ as text_eq}
use text.Mathlib.TextEquality.{eq_iff}
use rigos.Base.Tests.{Bool-cases}

-- Texts that a function tells apart are not equal.
pub differ : (f : String → ℕ) (s t : String) → f s ≢ f t → text_eq s t ≡ false
differ f s t h = elim (Bool-cases (text_eq s t)) [
  | inl e ↦ absurd (h (ap f ((eq_iff s t).0 e)))
  | inr e ↦ e
]

abbrev pub first : String → ℕ
first String.[] = 0
first (String.◌∷◌ c s) = code c

pub first-append : (c : Char) (s t : String) → first (String.◌++◌ (String.◌∷◌ c s) t) ≡ code c
first-append c s t = ap first (λ i. append.cons c s t i)

abbrev pub chars : String → ℕ
chars String.[] = 0
chars (String.◌∷◌ c s) = suc (chars s)

pub chars-append : (s t : String) → chars (String.◌++◌ s t) ≡ chars s + chars t
chars-append String.[] t = ap chars (λ i. append.nil t i) ∙ omega arith
chars-append (String.◌∷◌ c s) t =
    ap chars (λ i. append.cons c s t i) ∙ omega (arith, chars-append s t)
