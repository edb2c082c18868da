-- ===== src/Config/Names/Safe.antt =====
-- safe_join: an accepted file name is one normal component, so the join stays in its directory.
use Prim.Native.Char.{code}
use Prim.Native.String
use text.Mathlib.Text.{◌==◌ as text_eq}
use text.Mathlib.TextEquality.{eq_iff}
use rigos.Base.{
  ℕ, String, ◌≡◌, refl, sym, ◌∙◌, ap, inl, inr, true, false, ◌||◌, [], ◌∷◌, ok, err, arith,
  if◌then◌else◌, Bool-cases, and-eq-true, some, none,
}
use rigos.Base.Text.{all_chars, is_empty}
use rigos.Base.Text.Laws.{OnlyAscii, all_bytes-eq-all_chars}
use rigos.Base.Text.Search.{split, ends_with}
use rigos.Config.Error.{error}
use rigos.Config.Names.{
  normal, json_byte, safe_json_basename, components, safe_join, starts_with_char, contains_char,
}

json_byte-OnlyAscii : OnlyAscii json_byte
json_byte-OnlyAscii b h = ground arith

-- A text without the separator is one piece.
split_without : (n : ℕ) (s : String) → contains_char n s ≡ false → split n s ≡ s ∷ []
unfolding split
split_without n String.[] h = refl
split_without n (String.◌∷◌ c s) h = rw (split_without n s (ground arith)) (ground arith)

no_slash : (s : String) → all_chars json_byte s ≡ true → contains_char b'/' s ≡ false
no_slash String.[] h = refl
no_slash (String.◌∷◌ c s) h =
    let (a, b) = and-eq-true (json_byte (code c)) (all_chars json_byte s) h in
    let rest = no_slash s b in ground arith

starts-contains : (n : ℕ) (s : String) → contains_char n s ≡ false → starts_with_char n s ≡ false
starts-contains n String.[] h = refl
starts-contains n (String.◌∷◌ c s) h = ground arith

empty_unsafe : (s : String) → is_empty s ≡ true → safe_json_basename s ≡ false
unfolding safe_json_basename ends_with
empty_unsafe String.[] h = refl
empty_unsafe (String.◌∷◌ c s) h = cc

module _ (name : String) (safe : safe_json_basename name ≡ true) where
  pub safe_chars : all_chars json_byte name ≡ true
  unfolding safe_json_basename
  safe_chars =
      sym (all_bytes-eq-all_chars json_byte json_byte-OnlyAscii name) ∙ (and-eq-true _ _ safe).1

  pub safe-no_slash : contains_char b'/' name ≡ false
  safe-no_slash = no_slash name safe_chars

  no_dot : starts_with_char b'.' name ≡ false
  unfolding safe_json_basename
  no_dot = ground arith

  not_rooted : starts_with_char b'/' name ≡ false
  not_rooted = starts-contains b'/' name safe-no_slash

  ne_text : (t : String) → starts_with_char b'.' t ≡ true → text_eq name t ≡ false
  ne_text t h = elim (Bool-cases (text_eq name t)) [
    | inl e ↦ let p = ap (starts_with_char b'.') ((eq_iff name t).0 e) in absurd (cc (no_dot, p, h))
    | inr e ↦ e
  ]

  not_empty : is_empty name ≡ false
  not_empty = elim (Bool-cases (is_empty name)) [
    | inl e ↦ absurd (cc (empty_unsafe name e, safe))
    | inr e ↦ e
  ]

  -- An accepted name has one path component, itself.
  pub components-safe_json_basename : components name ≡ normal name ∷ []
  unfolding components
  components-safe_json_basename =
      rw (split_without b'/' name safe-no_slash)
        (ground (arith, not_rooted, not_empty, ne_text "." refl, ne_text ".." refl))

-- The guard of `safe_join` on the components refuses nothing that the test of the name lets
-- through, and an accepted name is joined below the root.
pub safe_join-eq-if :
    (root name : String)
    → safe_join root name ≡ (
        if safe_json_basename name
        then ok (
            if is_empty root || ends_with "/" root
            then String.◌++◌ root name
            else String.◌++◌ root (String.◌++◌ "/" name))
        else err
            (error "RIGOS_CONFIG_INVALID_VALUE" none none (some "FLIGHT_REF") "unsafe filename"))
unfolding safe_join
safe_join-eq-if root name = elim (Bool-cases (safe_json_basename name)) [
  | inl e ↦ rw (e, components-safe_json_basename name e, not_rooted name e)
  | inr e ↦ rw e
]
