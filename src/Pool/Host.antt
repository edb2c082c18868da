-- ===== src/Pool/Host.antt =====
-- valid_host of crates/rigos-pool against a description of the hosts of a pool.
use Prim.Native.Char.{code}
use Prim.Native.String
use Prim.Native.String.{len}
use text.Mathlib.Text.{starts_with}
use text.Mathlib.TextEquality.{starts_with_iff}
use rigos.Base.{
  ℕ, ◌≤◌, String, ◌≡◌, refl, sym, ◌∙◌, ◌↔◌, ◌⊎◌, inl, inr, Bool, true, false, not, ◌||◌, arith,
  and-eq-true, and_true, leb→le, le→leb, All, all_iff, all, Bool-cases, or-eq-false, if◌then◌else◌,
}
use rigos.Base.Text.{any_char, is_empty, AllChars}
use rigos.Base.Text.Ascii.{is_whitespace}
use rigos.Base.Text.Ends.{ends_with_iff}
use rigos.Base.Text.Ip.{is_ip}
use rigos.Base.Text.Laws.{all_bytes-eq-all_chars, all_chars→AllChars, AllChars→all_chars}
use rigos.Base.Text.Search.{ends_with, split}
use rigos.Config.Names.Host.{IsNonempty, is_empty_iff}
use rigos.Config.Names.Slug.{IsSlugChar, slug_byte_iff, slug_byte-OnlyAscii}
use rigos.Pool.{label_byte, valid_label, url_char, valid_host}

-- A label of letters, digits and inner hyphens, of 63 bytes at most.
pub record IsLabel (p : String) : Type 0 where
  pub nonempty : IsNonempty p
  pub bounded : len p ≤ 63
  pub begins : (u : String) → String.◌++◌ "-" u ≡ p → ⊥
  pub ends : (u : String) → String.◌++◌ u "-" ≡ p → ⊥
  pub chars : AllChars IsSlugChar p

-- No white space and none of the characters of a URL.
abbrev pub IsPlain : ℕ → Type 0
IsPlain c = ((c ≡ b'/') ⊎ (c ≡ b'@') ⊎ (c ≡ b':') → ⊥) × (is_whitespace c ≡ false)

-- An address, or a name of labels.
pub record IsName (s : String) : Type 0 where
  pub nonempty : IsNonempty s
  pub plain : AllChars IsPlain s
  pub labels : All IsLabel (split b'.' s)

not-eq-true : (b : Bool) → not b ≡ true → b ≡ false
not-eq-true b h = ground arith

valid_label_iff : (p : String) → (valid_label p ≡ true) ↔ IsLabel p
valid_label_iff p = (
  λ h.
      let (abcd, e) = and-eq-true _ _ h in
      let (abc, d) = and-eq-true _ _ abcd in
      let (ab, c) = and-eq-true _ _ abc in
      let (a, b) = and-eq-true _ _ ab in
      record {
        nonempty = (is_empty_iff p).0 a;
        bounded = leb→le _ _ b;
        begins = λ u k. absurd (clash (not-eq-true _ c) ((starts_with_iff p "-").1 (u, k)));
        ends = λ u k. absurd (clash (not-eq-true _ d) ((ends_with_iff "-" p).1 (u, k)));
        chars =
            all_chars→AllChars label_byte IsSlugChar slug_byte_iff p
              (sym (all_bytes-eq-all_chars label_byte slug_byte-OnlyAscii p) ∙ e);
      },
  λ h.
      and_true
        (and_true
          (and_true (and_true ((is_empty_iff p).1 h.nonempty) (le→leb _ _ h.bounded)) (
            absent (starts_with p "-")
              (λ k. let (u, e) = (starts_with_iff p "-").0 k in h.begins u e)))
          (absent (ends_with "-" p) (λ k. let (u, e) = (ends_with_iff "-" p).0 k in h.ends u e)))
        (all_bytes-eq-all_chars label_byte slug_byte-OnlyAscii p
          ∙ AllChars→all_chars label_byte IsSlugChar slug_byte_iff p h.chars),
)
  where
    clash : {b : Bool} → b ≡ false → b ≡ true → ⊥
    clash h k = cc

    absent : (b : Bool) → (b ≡ true → ⊥) → not b ≡ true
    absent true h = absurd (h refl)
    absent false h = refl

url_char_iff : (c : ℕ) → ((url_char c || is_whitespace c) ≡ false) ↔ IsPlain c
url_char_iff c = (
  λ h. let (a, b) = or-eq-false (url_char c) (is_whitespace c) h in ((λ k. ground arith), b),
  λ h. elim (Bool-cases (url_char c)) [ inl e ↦ absurd (h.0 (ground arith)) | inr e ↦ rw e (h.1) ],
)

any_char_iff :
    (s : String) → ((any_char url_char s || any_char is_whitespace s) ≡ false) ↔ AllChars IsPlain s
any_char_iff String.[] = (λ h. tt, λ h. refl)
any_char_iff (String.◌∷◌ c s) = (
  λ h. ((url_char_iff (code c)).0 (ground arith), (any_char_iff s).0 (ground arith)),
  λ h. let a = (url_char_iff (code c)).1 h.0 in let b = (any_char_iff s).1 h.1 in ground arith,
)

sound :
    (s : String)
    → (if is_empty s || any_char url_char s || any_char is_whitespace s
        then false
        else all valid_label (split b'.' s))
      ≡ true
    → IsName s
sound s h = elim (Bool-cases (is_empty s || any_char url_char s || any_char is_whitespace s)) [
  | inl e ↦ absurd (ground arith)
  | inr e ↦ record {
    nonempty = (is_empty_iff s).0 (ground arith);
    plain = (any_char_iff s).0 (ground arith);
    labels = (all_iff valid_label IsLabel valid_label_iff (split b'.' s)).0 (ground arith);
  }
]

complete :
    (s : String)
    → IsName s
    → (if is_empty s || any_char url_char s || any_char is_whitespace s
        then false
        else all valid_label (split b'.' s))
      ≡ true
complete s h =
    let a = (is_empty_iff s).1 h.nonempty in
    let b = (any_char_iff s).1 h.plain in
    let c = (all_iff valid_label IsLabel valid_label_iff (split b'.' s)).1 h.labels in ground arith

-- valid_host accepts the addresses and the names made of labels, and nothing else.
pub valid_host_iff : (s : String) → (valid_host s ≡ true) ↔ ((is_ip s ≡ true) ⊎ IsName s)
unfolding valid_host
valid_host_iff s = elim (Bool-cases (is_ip s)) [
  | inl e ↦ (λ h. inl e, λ h. rw e refl)
  | inr e ↦ rw e (λ h. inr (sound s h), λ h. elim h [ inl f ↦ absurd (cc) | inr f ↦ complete s f ])
]
