-- ===== src/Xmrig/Arguments.antt =====
-- Which argument of a miner's command line names the configuration.
use Prim.Native.String
use Prim.Native.String.{len, slice}
use text.Mathlib.Text.{◌==◌ as text_eq, starts_with}
use text.Mathlib.TextEquality.{eq_iff, starts_with_iff}
use text.Mathlib.TextPositions.{slice-append_right, len-append}
use rigos.Base.{
  ◌+◌, String, ◌≡◌, refl, sym, ◌∙◌, ap, subst, ◌↔◌, inl, inr, false, Option, none, some, List, [],
  ◌∷◌, Bool-cases, Option-cases, arith,
}
use rigos.Config.Names.Host.{IsNonempty}
use rigos.Xmrig.{extract_config_path, next_path, strip_prefix, if_nonempty, or_else}

-- The path is not empty, and stands after the argument `--config`, or as the rest of `--config=`;
-- no argument before that one is `--config`, with or without a path after it, or is `--config=`
-- with a path.
pub data Names : List String → String → Type 0 where
  apart :
      (path : String) (rest : List String) → IsNonempty path → Names ("--config" ∷ path ∷ rest) path
  joined :
      (path : String) (rest : List String)
      → IsNonempty path
      → Names (String.◌++◌ "--config=" path ∷ rest) path
  later :
      (arg path : String) (rest : List String)
      → (arg ≡ "--config" → ⊥)
      → ((p : String) → IsNonempty p → String.◌++◌ "--config=" p ≡ arg → ⊥)
      → Names rest path
      → Names (arg ∷ rest) path

strip_prefix-append : (prefix p : String) → strip_prefix prefix (String.◌++◌ prefix p) ≡ some p
strip_prefix-append prefix p = rw ((starts_with_iff (String.◌++◌ prefix p) prefix).1 (p, refl)) (
    ap some (
      ap (slice (String.◌++◌ prefix p) (len prefix)) (len-append prefix p)
      ∙ slice-append_right prefix p))

strip_prefix_sound :
    (prefix arg p : String) → strip_prefix prefix arg ≡ some p → String.◌++◌ prefix p ≡ arg
strip_prefix_sound prefix arg p h = elim (Bool-cases (starts_with arg prefix)) [
  | inl e ↦
      let (u, f) = (starts_with_iff arg prefix).0 e in
      let g : some u ≡ some p =
        sym (strip_prefix-append prefix u) ∙ ap (strip_prefix prefix) f ∙ h in
      let same : u ≡ p = cc in ap (String.◌++◌ prefix) (sym same) ∙ f
  | inr e ↦ absurd (cc)
]

if_nonempty_iff :
    (o : Option String) (p : String) → (if_nonempty o ≡ some p) ↔ ((o ≡ some p) × IsNonempty p)
if_nonempty_iff none p = (λ h. absurd (cc), λ h. absurd (clash h.0))
  where
    clash : ◌≡◌ {A = Option String} none (some p) → ⊥
    clash h = cc
if_nonempty_iff (some String.[]) p =
    (λ h. absurd (cc), λ h. absurd (subst IsNonempty (sym (injective h.0)) h.1))
  where
    injective : {a b : String} → ◌≡◌ {A = Option String} (some a) (some b) → a ≡ b
    injective h = cc
if_nonempty_iff (some (String.◌∷◌ c s)) p = (λ h. (h, subst IsNonempty (injective h) tt), λ h. h.0)
  where
    injective : {a b : String} → ◌≡◌ {A = Option String} (some a) (some b) → a ≡ b
    injective h = cc

next_path_sound :
    (rest : List String) (p : String)
    → next_path rest ≡ some p
    → (more : List String) × (rest ≡ p ∷ more) × IsNonempty p
next_path_sound [] p h = absurd (cc)
next_path_sound (v ∷ more) p h =
    let (e, k) = (if_nonempty_iff (some v) p).0 h in
    let same : v ≡ p = cc in (more, ap (λ x. x ∷ more) same, k)

-- `--config=` and a path.
IsJoined : String → String → Type 0
IsJoined arg p = IsNonempty p × (String.◌++◌ "--config=" p ≡ arg)

if_if_nonempty-strip_prefix :
    (arg p : String) → (if_nonempty (strip_prefix "--config=" arg) ≡ some p) ↔ IsJoined arg p
unfolding IsJoined
if_if_nonempty-strip_prefix arg p = (
  λ h.
      let (e, k) = (if_nonempty_iff (strip_prefix "--config=" arg) p).0 h in
      (k, strip_prefix_sound "--config=" arg p e),
  λ h.
      (if_nonempty_iff (strip_prefix "--config=" arg) p).1
        (ap (strip_prefix "--config=") (sym h.1) ∙ strip_prefix-append "--config=" p, h.0),
)

unjoined :
    (arg : String) (rest : List String) (p : String) (o : Option String)
    → text_eq arg "--config" ≡ false
    → if_nonempty (strip_prefix "--config=" arg) ≡ o
    → or_else o (extract_config_path rest) ≡ some p
    → (extract_config_path rest ≡ some p → Names rest p)
    → Names (arg ∷ rest) p
unfolding IsJoined
unjoined arg rest p none e f k more =
    later arg p rest (λ g. let t = (eq_iff arg "--config").1 g in cc)
      (λ q n g.
        let t = (if_if_nonempty-strip_prefix arg q).1 (n, g) in absurd (clash q (sym f ∙ t)))
      (more k)
  where
    clash : (q : String) → ◌≡◌ {A = Option String} none (some q) → ⊥
    clash q h = cc
unjoined arg rest p (some v) e f k more =
    let (n, g) = (if_if_nonempty-strip_prefix arg v).0 f in
    let same : v ≡ p = cc in
    subst (λ (x : String). Names (arg ∷ rest) x) same
      (subst (λ (a : String). Names (a ∷ rest) v) g (joined v rest n))

sound : (args : List String) (p : String) → extract_config_path args ≡ some p → Names args p
unfolding extract_config_path
sound [] p h = absurd (cc)
sound (arg ∷ rest) p h = elim (Bool-cases (text_eq arg "--config")) [
  | inl e ↦
      let (more, f, k) = next_path_sound rest p (rw e at h) in
      subst (λ (xs : List String). Names xs p)
        (λ i. (sym ((eq_iff arg "--config").0 e)) i ∷ (sym f) i) (apart p more k)
  | inr e ↦ unjoined arg rest p _ e refl (rw e at h) (sound rest p)
]

text_eq-false : (a b : String) → (a ≡ b → ⊥) → text_eq a b ≡ false
text_eq-false a b h = elim (Bool-cases (text_eq a b)) [
  | inl e ↦ absurd (h ((eq_iff a b).0 e))
  | inr e ↦ e
]

-- The two forms differ in length.
forms_apart : (p : String) → String.◌++◌ "--config=" p ≡ "--config" → ⊥
forms_apart p h =
    let e : len "--config=" + len p ≡ len "--config" = sym (len-append "--config=" p) ∙ ap len h in
    omega (arith, e)

none_joined :
    (arg : String)
    → ((p : String) → IsNonempty p → String.◌++◌ "--config=" p ≡ arg → ⊥)
    → if_nonempty (strip_prefix "--config=" arg) ≡ none
unfolding IsJoined
none_joined arg h = elim (Option-cases (if_nonempty (strip_prefix "--config=" arg))) [
  | inl e ↦ e
  | inr (v, e) ↦ let (n, g) = (if_if_nonempty-strip_prefix arg v).0 e in absurd (h v n g)
]

complete : (args : List String) (p : String) → Names args p → extract_config_path args ≡ some p
unfolding extract_config_path IsJoined
complete _ _ (apart path rest n) = (if_nonempty_iff (some path) path).1 (refl, n)
complete _ _ (joined path rest n) =
    rw
      (
        text_eq-false (String.◌++◌ "--config=" path) "--config" (forms_apart path),
        (if_if_nonempty-strip_prefix (String.◌++◌ "--config=" path) path).1 (n, refl),
      )
      refl
complete _ _ (later arg path rest e f more) =
    rw (text_eq-false arg "--config" e, none_joined arg f) (complete rest path more)

-- extract_config_path finds a path exactly when the path is not empty and stands after `--config` or
-- as the rest of `--config=`, and no argument before it is `--config`, whatever follows that, or is
-- `--config=` with a path: a `--config` without a path ends the search.
pub extract_config_path_iff :
    (args : List String) (p : String) → (extract_config_path args ≡ some p) ↔ Names args p
extract_config_path_iff args p = (sound args p, complete args p)
