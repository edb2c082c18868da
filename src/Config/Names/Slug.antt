-- ===== src/Config/Names/Slug.antt =====
-- valid_slug against an independent description of slugs.
use Prim.Native.Char.{Char, code}
use Prim.Native.String.{len}
use rigos.Base.{
  ℕ, ◌≤◌, String, ◌≡◌, refl, ◌↔◌, ◌⊎◌, true, ◌&&◌, arith, leb, and-eq-true, leb→le, le→leb,
  and_true, sym, ◌∙◌,
}
use rigos.Base.Text.{all_chars, AllChars, StartsWith}
use rigos.Base.Text.Ascii.{is_ascii_alphanumeric}
use rigos.Base.Text.Laws.{
  OnlyAscii, all_bytes-eq-all_chars, first_byte-utf8, all_chars→AllChars, AllChars→all_chars,
}
use rigos.Config.Names.{slug_byte, valid_slug}

-- An ASCII letter or digit.
abbrev pub IsAlphanumeric : ℕ → Type 0
IsAlphanumeric c = (b'A' ≤ c) × (c ≤ b'Z') ⊎ (b'a' ≤ c) × (c ≤ b'z') ⊎ (b'0' ≤ c) × (c ≤ b'9')

abbrev pub IsSlugChar : ℕ → Type 0
IsSlugChar c = IsAlphanumeric c ⊎ (c ≡ b'-')

-- Letters, digits and hyphens, the first no hyphen, in at most `max` bytes.
pub record IsSlug (max : ℕ) (s : String) : Type 0 where
  pub bounded : len s ≤ max
  pub starts : StartsWith IsAlphanumeric s
  pub chars : AllChars IsSlugChar s

pub is_ascii_alphanumeric_iff : (c : ℕ) → (is_ascii_alphanumeric c ≡ true) ↔ IsAlphanumeric c
is_ascii_alphanumeric_iff c = ground arith

pub slug_byte_iff : (c : ℕ) → (slug_byte c ≡ true) ↔ IsSlugChar c
slug_byte_iff c = ground arith

alphanumeric-OnlyAscii : OnlyAscii is_ascii_alphanumeric
alphanumeric-OnlyAscii b h = ground arith

pub slug_byte-OnlyAscii : OnlyAscii slug_byte
slug_byte-OnlyAscii b h = ground arith

module _ (c : Char) (s : String) (max : ℕ) where
  abbrev text : String
  text = String.◌∷◌ c s

  valid_slug_parts :
      valid_slug text max
      ≡ (leb (len text) max && is_ascii_alphanumeric (code c) && all_chars slug_byte text)
  unfolding valid_slug
  valid_slug_parts =
      rw (first_byte-utf8 is_ascii_alphanumeric alphanumeric-OnlyAscii c s)
        (rw (all_bytes-eq-all_chars slug_byte slug_byte-OnlyAscii text) refl)

-- A text passes `valid_slug` exactly when it is a slug within the bound.
pub valid_slug_iff : (s : String) (max : ℕ) → (valid_slug s max ≡ true) ↔ IsSlug max s
unfolding valid_slug
valid_slug_iff String.[] max = (λ h. ground arith, λ h. elim h.starts [ ])
valid_slug_iff (String.◌∷◌ c s) max = (
  λ h.
      let (ad, e) = and-eq-true _ _ (sym (valid_slug_parts c s max) ∙ h) in
      let (a, d) = and-eq-true _ _ ad in
      record {
        bounded = leb→le _ _ a;
        starts = (is_ascii_alphanumeric_iff (code c)).0 d;
        chars = all_chars→AllChars slug_byte IsSlugChar slug_byte_iff (String.◌∷◌ c s) e;
      },
  λ h.
      valid_slug_parts c s max
      ∙ and_true (and_true (le→leb _ _ h.bounded) ((is_ascii_alphanumeric_iff (code c)).1 h.starts))
          (AllChars→all_chars slug_byte IsSlugChar slug_byte_iff (String.◌∷◌ c s) h.chars),
)
