-- ===== src/Config/Identity/Valid.antt =====
-- validate_identity against a description of identities.
use Prim.Native.String.{len}
use Prim.Native.Char.{code}
use text.Mathlib.Text.{◌==◌ as text_eq}
use text.Mathlib.TextEquality.{eq_iff}
use rigos.Base.{
  ℕ, ◌≤◌, String, ◌≡◌, refl, ap, ◌↔◌, false, not, ltb, ok, fail_if-ok, or-eq-false, not-eq-false,
  arith,
}
use rigos.Base.Text.{is_empty, any_char, AllChars}
use rigos.Config.Names.{valid_slug}
use rigos.Config.Names.Slug.{IsSlug, valid_slug_iff}
use rigos.Config.Names.Host.{IsNonempty, is_empty_iff}
use rigos.Config.Identity.{IdentityRecord, is_blank, bad_identity_record, validate_identity}

-- An identity with an alias that is a slug, and a value of at most 512 bytes without white space
-- and control characters.
pub record IsIdentity (identity : IdentityRecord) : Type 0 where
  pub schema : identity.schema ≡ "rigos.identity/v1"
  pub kind : identity.kind ≡ "mining_identity"
  pub alias : IsSlug 64 identity.alias
  pub nonempty : IsNonempty identity.value
  pub bounded : len identity.value ≤ 512
  pub printable : AllChars (λ c. is_blank c ≡ false) identity.value

no_blank : (s : String) → any_char is_blank s ≡ false → AllChars (λ c. is_blank c ≡ false) s
no_blank String.[] h = tt
no_blank (String.◌∷◌ c s) h =
    let (a, b) = or-eq-false (is_blank (code c)) (any_char is_blank s) h in (a, no_blank s b)

blank_free : (s : String) → AllChars (λ c. is_blank c ≡ false) s → any_char is_blank s ≡ false
blank_free String.[] h = refl
blank_free (String.◌∷◌ c s) h = rw h.0 (blank_free s h.1)

-- `validate_identity` accepts exactly the identities.
pub validate_identity_iff :
    (identity : IdentityRecord) → (validate_identity identity ≡ ok tt) ↔ IsIdentity identity
unfolding validate_identity bad_identity_record
validate_identity_iff identity = (
  λ h.
      let (l5, blank) =
        or-eq-false _ (any_char is_blank identity.value)
          (fail_if-ok (bad_identity_record identity) _ h) in
      let (l4, long) = or-eq-false _ (ltb 512 (len identity.value)) l5 in
      let (l3, empty) = or-eq-false _ (is_empty identity.value) l4 in
      let (l2, slug) = or-eq-false _ (not (valid_slug identity.alias 64)) l3 in
      let (schema, kind) = or-eq-false _ (not (text_eq identity.kind "mining_identity")) l2 in
      record {
        schema = (eq_iff identity.schema "rigos.identity/v1").0 (not-eq-false _ schema);
        kind = (eq_iff identity.kind "mining_identity").0 (not-eq-false _ kind);
        alias = (valid_slug_iff identity.alias 64).0 (not-eq-false _ slug);
        nonempty = (is_empty_iff identity.value).0 (ap not empty);
        bounded = ground arith;
        printable = no_blank identity.value blank;
      },
  λ d. rw (
    (eq_iff identity.schema "rigos.identity/v1").1 d.schema,
    (eq_iff identity.kind "mining_identity").1 d.kind,
    (valid_slug_iff identity.alias 64).1 d.alias,
    filled identity.value d.nonempty,
    short (len identity.value) d.bounded,
    blank_free identity.value d.printable,
  ),
)
  where
    filled : (s : String) → IsNonempty s → is_empty s ≡ false
    filled String.[] h = elim h [ ]
    filled (String.◌∷◌ c s) h = refl

    short : (n : ℕ) → n ≤ 512 → ltb 512 n ≡ false
    short n h = ground arith
