-- ===== src/Base/Text/Ends.antt =====
-- What ends_with and starts_with find, as an equation of texts.
use Prim.Native.String
use Prim.Native.String.append
use text.Mathlib.Text.{◌==◌ as text_eq}
use text.Mathlib.TextEquality.{eq_iff}
use text.Mathlib.TextLemmas.{nil-append}
use mathlib.Core.Path.{◌≡◌, refl, sym, ◌∙◌, ap, subst}
use mathlib.Core.Logic.{◌↔◌, inl, inr}
use mathlib.Core.Bool.{true}
use rigos.Base.Tests.{Bool-cases, or_right, or_true_left, or_true_right}
use rigos.Base.Text.Search.{ends_with}

text_eq_refl : (s : String.String) → text_eq s s ≡ true
text_eq_refl s = (eq_iff s s).1 refl

ends_with_refl : (s : String.String) → ends_with s s ≡ true
unfolding ends_with
ends_with_refl String.[] = text_eq_refl ""
ends_with_refl (String.◌∷◌ c s) = or_true_left _ (text_eq_refl (String.◌∷◌ c s))

ends_with-append : (pat u : String.String) → ends_with pat (String.◌++◌ u pat) ≡ true
unfolding ends_with
ends_with-append pat String.[] = rw (nil-append pat) (ends_with_refl pat)
ends_with-append pat (String.◌∷◌ c u) =
    subst (λ s. ends_with pat s ≡ true) (sym (λ i. append.cons c u pat i))
      (or_true_right _ (ends_with-append pat u))

ends_with_sound :
    (pat s : String.String) → ends_with pat s ≡ true → (u : String.String) × (String.◌++◌ u pat ≡ s)
unfolding ends_with
ends_with_sound pat String.[] h = ("", nil-append pat ∙ (eq_iff pat "").0 h)
ends_with_sound pat (String.◌∷◌ c s) h = elim (Bool-cases (text_eq (String.◌∷◌ c s) pat)) [
  | inl e ↦ ("", nil-append pat ∙ sym ((eq_iff (String.◌∷◌ c s) pat).0 e))
  | inr e ↦
      let (u, k) = ends_with_sound pat s (or_right e h) in
      (String.◌∷◌ c u, (λ i. append.cons c u pat i) ∙ ap (String.◌∷◌ c) k)
]

-- A text ends with another exactly when it is some text followed by it.
pub ends_with_iff :
    (pat s : String.String)
    → (ends_with pat s ≡ true) ↔ ((u : String.String) × (String.◌++◌ u pat ≡ s))
ends_with_iff pat s = (
  ends_with_sound pat s,
  λ (u, e). subst (λ t. ends_with pat t ≡ true) e (ends_with-append pat u),
)
