-- ===== src/Config/Names/Host.antt =====
-- valid_host against an independent description of pool hosts.
use Prim.Native.Char.{code}
use Prim.Native.String.{len}
use rigos.Base.{
  ℕ, ◌≤◌, String, ◌≡◌, refl, sym, ◌∙◌, ◌↔◌, ◌⊎◌, inl, inr, Bool, true, not, ◌&&◌, arith, leb, ◌==◌,
  and-eq-true, and_true, leb→le, le→leb, All, all_iff, Bool-cases, ==_iff, or_right, or_true_left,
  or_true_right,
}
use rigos.Base.Text.{all_bytes, is_empty, AllChars}
use rigos.Base.Text.Laws.{all_bytes-eq-all_chars, all_chars→AllChars, AllChars→all_chars}
use rigos.Base.Text.Search.{split}
use rigos.Config.Names.{slug_byte, contains_char, valid_host}
use rigos.Config.Names.Slug.{IsSlugChar, slug_byte_iff, slug_byte-OnlyAscii}

abbrev pub IsNonempty : String → Type 0
IsNonempty String.[] = ⊥
IsNonempty (String.◌∷◌ c s) = Unit

abbrev pub HasChar : ℕ → String → Type 0
HasChar n String.[] = ⊥
HasChar n (String.◌∷◌ c s) = (code c ≡ n) ⊎ HasChar n s

-- A label of a domain name, as the crate reads it.
pub record IsLabel (p : String) : Type 0 where
  pub nonempty : IsNonempty p
  pub bounded : len p ≤ 63
  pub chars : AllChars IsSlugChar p

-- At most 253 bytes, with a colon or made of labels.
pub record IsHost (s : String) : Type 0 where
  pub nonempty : IsNonempty s
  pub bounded : len s ≤ 253
  pub shape : HasChar b':' s ⊎ All IsLabel (split b'.' s)

pub is_empty_iff : (s : String) → (not (is_empty s) ≡ true) ↔ IsNonempty s
is_empty_iff String.[] = (λ h. cc, λ h. elim h [ ])
is_empty_iff (String.◌∷◌ c s) = (λ h. tt, λ h. refl)

pub contains_char_iff : (n : ℕ) (s : String) → (contains_char n s ≡ true) ↔ HasChar n s
contains_char_iff n String.[] = (λ h. cc, λ h. elim h [ ])
contains_char_iff n (String.◌∷◌ c s) = (
  λ h. elim (Bool-cases (code c == n)) [
    | inl e ↦ inl ((==_iff (code c) n).0 e)
    | inr e ↦ inr ((contains_char_iff n s).0 (ground arith))
  ],
  λ h. elim h [
    | inl e ↦ ground arith
    | inr k ↦ let r = (contains_char_iff n s).1 k in ground arith
  ],
)

label : String → Bool
label p = not (is_empty p) && leb (len p) 63 && all_bytes slug_byte p

label_iff : (p : String) → (label p ≡ true) ↔ IsLabel p
unfolding label
label_iff p = (
  λ h.
      let (ab, c) = and-eq-true _ _ h in
      let (a, b) = and-eq-true _ _ ab in
      record {
        nonempty = (is_empty_iff p).0 a;
        bounded = leb→le _ _ b;
        chars =
            all_chars→AllChars slug_byte IsSlugChar slug_byte_iff p
              (sym (all_bytes-eq-all_chars slug_byte slug_byte-OnlyAscii p) ∙ c);
      },
  λ h. and_true (and_true ((is_empty_iff p).1 h.nonempty) (le→leb _ _ h.bounded)) (
      all_bytes-eq-all_chars slug_byte slug_byte-OnlyAscii p
      ∙ AllChars→all_chars slug_byte IsSlugChar slug_byte_iff p h.chars),
)

-- A text passes `valid_host` exactly when it is a host.
pub valid_host_iff : (s : String) → (valid_host s ≡ true) ↔ IsHost s
unfolding valid_host label
valid_host_iff s = (
  λ h.
      let (ab, c) = and-eq-true _ _ h in
      let (a, b) = and-eq-true _ _ ab in
      record {
        nonempty = (is_empty_iff s).0 a;
        bounded = leb→le _ _ b;
        shape = elim (Bool-cases (contains_char b':' s)) [
          | inl e ↦ inl ((contains_char_iff b':' s).0 e)
          | inr e ↦ inr ((all_iff label IsLabel label_iff (split b'.' s)).0 (or_right e c))
        ];
      },
  λ h. and_true (and_true ((is_empty_iff s).1 h.nonempty) (le→leb _ _ h.bounded)) (elim h.shape [
    | inl k ↦ or_true_left _ ((contains_char_iff b':' s).1 k)
    | inr k ↦ or_true_right _ ((all_iff label IsLabel label_iff (split b'.' s)).1 k)
  ]),
)
