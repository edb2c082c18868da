-- ===== src/Pool/Usable.antt =====
-- validate_profile against a description of the profiles that a backend can use.
use text.Mathlib.Text.{◌==◌ as text_eq}
use text.Mathlib.TextEquality.{eq_iff}
use rigos.Base.{
  ℕ, ◌≤◌, String, ◌≡◌, refl, sym, ◌∙◌, ◌↔◌, ◌⊎◌, inl, inr, Bool, true, false, not, ◌||◌, arith, All,
  Any, any, List, [], ◌∷◌, Bool-cases, ok, fail_if-eq-ok, >>=-eq-ok, fail_if-ok, or-eq-false, map,
  is_empty as none_of,
}
use rigos.Base.Text.{all_bytes, any_char, is_empty, AllChars}
use rigos.Base.Text.Ascii.{is_whitespace}
use rigos.Base.Text.Laws.{OnlyAscii, all_bytes-eq-all_chars, all_chars→AllChars, AllChars→all_chars}
use rigos.Base.Text.Search.{trim}
use rigos.Config.Names.Host.{IsNonempty, is_empty_iff}
use rigos.Pool.{
  PoolEndpoint, PoolAuthentication, mining_identity, AlgorithmSelection, auto, explicit,
  PoolProfile, invalid_id, empty_display_name, missing_endpoint, invalid_authentication,
  unsupported_algorithm, BackendCapabilities, id_byte, bad_id, endpoint_key, check_endpoints,
  bad_authentication, unsupported, validate_profile,
}
use rigos.Pool.Endpoints.{IsEndpoint, AreDistinct, check_endpoints_iff}

-- A lowercase letter, a digit or a hyphen.
abbrev pub IsIdChar : ℕ → Type 0
IsIdChar c = (b'a' ≤ c) × (c ≤ b'z') ⊎ (b'0' ≤ c) × (c ≤ b'9') ⊎ (c ≡ b'-')

abbrev pub IsIdentity : PoolAuthentication → Type 0
IsIdentity (mining_identity identity credential_ref) =
    IsNonempty identity × AllChars (λ c. is_whitespace c ≡ false) identity

abbrev pub IsSupported : BackendCapabilities → AlgorithmSelection → Type 0
IsSupported capabilities auto = Unit
IsSupported capabilities (explicit algorithm) = Any (λ a. algorithm ≡ a) capabilities.algorithms

pub record IsUsable (capabilities : BackendCapabilities) (p : PoolProfile) : Type 0 where
  pub named : IsNonempty p.id × AllChars IsIdChar p.id
  pub shown : IsNonempty (trim p.display_name)
  pub some_endpoint : p.endpoints ≡ [] → ⊥
  pub each : All IsEndpoint p.endpoints
  pub distinct : AreDistinct (map endpoint_key p.endpoints)
  pub identity : IsIdentity p.authentication
  pub algorithm : IsSupported capabilities p.algorithm

id_byte_iff : (c : ℕ) → (id_byte c ≡ true) ↔ IsIdChar c
id_byte_iff c = ground arith

id_byte-OnlyAscii : OnlyAscii id_byte
id_byte-OnlyAscii b h = ground arith

bad_id_iff : (s : String) → (bad_id s ≡ false) ↔ (IsNonempty s × AllChars IsIdChar s)
unfolding bad_id
bad_id_iff s = (
  λ h.
      let (a, b) = or-eq-false (is_empty s) (not (all_bytes id_byte s)) h in
      (
        (is_empty_iff s).0 (ground arith),
        all_chars→AllChars id_byte IsIdChar id_byte_iff s
            (sym (all_bytes-eq-all_chars id_byte id_byte-OnlyAscii s) ∙ flip_not b),
      ),
  λ h.
      let a = (is_empty_iff s).1 h.0 in
      let b =
        all_bytes-eq-all_chars id_byte id_byte-OnlyAscii s
        ∙ AllChars→all_chars id_byte IsIdChar id_byte_iff s h.1 in
      neither (is_empty s) _ a b,
)
  where
    flip_not : {b : Bool} → not b ≡ false → b ≡ true
    flip_not h = ground arith

    neither : (a b : Bool) → not a ≡ true → b ≡ true → (a || not b) ≡ false
    neither a b h k = ground arith

empty_iff : (s : String) → (is_empty s ≡ false) ↔ IsNonempty s
empty_iff s =
    (λ h. (is_empty_iff s).0 (rw h refl), λ h. let a = (is_empty_iff s).1 h in ground arith)

none_of_iff : (es : List PoolEndpoint) → (none_of es ≡ false) ↔ (es ≡ [] → ⊥)
none_of_iff [] = (λ h. absurd (cc), λ h. absurd (h refl))
none_of_iff (e ∷ es) = (λ h k. cc, λ h. refl)

no_space_iff :
    (s : String) → (any_char is_whitespace s ≡ false) ↔ AllChars (λ c. is_whitespace c ≡ false) s
no_space_iff String.[] = (λ h. tt, λ h. refl)
no_space_iff (String.◌∷◌ c s) = (
  λ h. (ground arith, (no_space_iff s).0 (ground arith)),
  λ h. let a = h.0 in let b = (no_space_iff s).1 h.1 in ground arith,
)

bad_authentication_iff : (a : PoolAuthentication) → (bad_authentication a ≡ false) ↔ IsIdentity a
bad_authentication_iff (mining_identity identity credential_ref) = (
  λ h.
      let (a, b) = or-eq-false (is_empty identity) (any_char is_whitespace identity) h in
      ((empty_iff identity).0 a, (no_space_iff identity).0 b),
  λ h. let a = (empty_iff identity).1 h.0 in let b = (no_space_iff identity).1 h.1 in ground arith,
)

any_text_iff :
    (t : String) (xs : List String) → (not (any (text_eq t) xs) ≡ false) ↔ Any (λ a. t ≡ a) xs
any_text_iff t [] = (λ h. absurd (ground arith), λ h. elim h [ ])
any_text_iff t (x ∷ xs) = (
  λ h. elim (Bool-cases (text_eq t x)) [
    | inl e ↦ inl ((eq_iff t x).0 e)
    | inr e ↦ inr ((any_text_iff t xs).0 (ground arith))
  ],
  λ h. elim h [
    | inl e ↦ rw ((eq_iff t x).1 e) refl
    | inr k ↦ let r = (any_text_iff t xs).1 k in ground arith
  ],
)

unsupported_iff :
    (c : BackendCapabilities) (a : AlgorithmSelection) → (unsupported c a ≡ false) ↔ IsSupported c a
unsupported_iff c auto = (λ h. tt, λ h. refl)
unsupported_iff c (explicit algorithm) = any_text_iff algorithm c.algorithms

-- validate_profile accepts a profile exactly when its identifier is made of lowercase letters,
-- digits and hyphens, its name is not blank, it has an endpoint, each endpoint is a host and a port,
-- no two are equal but for the case of letters, its identity is a word, and the backend knows its
-- algorithm.
pub validate_profile_iff :
    (p : PoolProfile) (c : BackendCapabilities) → (validate_profile p c ≡ ok tt) ↔ IsUsable c p
unfolding validate_profile
validate_profile_iff p c = (
  λ h.
      let (a, h1) = fail_if-eq-ok (bad_id p.id) invalid_id _ h in
      let (b, h2) = fail_if-eq-ok (is_empty (trim p.display_name)) empty_display_name _ h1 in
      let (d, h3) = fail_if-eq-ok (none_of p.endpoints) missing_endpoint _ h2 in
      let (u, e, h4) = >>=-eq-ok (check_endpoints [] p.endpoints) _ h3 in
      let (f, h5) =
        fail_if-eq-ok (bad_authentication p.authentication) invalid_authentication _ h4 in
      let g = fail_if-ok (unsupported c p.algorithm) unsupported_algorithm h5 in
      let checked = (check_endpoints_iff [] p.endpoints).0 e in
      record {
        named = (bad_id_iff p.id).0 a;
        shown = (empty_iff (trim p.display_name)).0 b;
        some_endpoint = (none_of_iff p.endpoints).0 d;
        each = checked.each;
        distinct = checked.distinct;
        identity = (bad_authentication_iff p.authentication).0 f;
        algorithm = (unsupported_iff c p.algorithm).0 g;
      },
  λ h.
      rw
        (
          (bad_id_iff p.id).1 h.named,
          (empty_iff (trim p.display_name)).1 h.shown,
          (none_of_iff p.endpoints).1 h.some_endpoint,
          (check_endpoints_iff [] p.endpoints).1
              (record { each = h.each; fresh = none_met p.endpoints; distinct = h.distinct }),
          (bad_authentication_iff p.authentication).1 h.identity,
          (unsupported_iff c p.algorithm).1 h.algorithm,
        )
        refl,
)
  where
    none_met : (es : List PoolEndpoint) → All (λ e. All (λ y. endpoint_key e ≡ y → ⊥) []) es
    none_met [] = tt
    none_met (e ∷ es) = (tt, none_met es)
