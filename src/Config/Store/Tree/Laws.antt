-- ===== src/Config/Store/Tree/Laws.antt =====
-- What stands at a path after a tree is moved or removed.
use text.Mathlib.Text.{◌==◌ as text_eq}
use text.Mathlib.TextEquality.{eq_iff}
use rigos.Base.{
  ◌≡◌, refl, sym, ◌∙◌, ap, Bool, true, false, Option, none, some, List, [], ◌∷◌, ◌++◌, any,
  if◌then◌else◌, Bool-cases, Option-cases, inl, inr, or-eq-false,
}
use mathlib.Core.Option.{some-injective}
use rigos.Config.Store.{FilePath, path_eq, Entry, Slot, get}
use rigos.Config.Store.Laws.{path_eq_sound}
use rigos.Config.Store.Tree.{strip, is_below, move_tree, prune}

-- Paths below one directory differ as their ends do.
pub path_eq-append : (p q r : FilePath) → path_eq (p ++ q) (p ++ r) ≡ path_eq q r
unfolding path_eq
path_eq-append [] q r = refl
path_eq-append (a ∷ p) q r = rw ((eq_iff a a).1 refl) (path_eq-append p q r)

pub strip-append : (p r : FilePath) → strip p (p ++ r) ≡ some r
unfolding strip
strip-append [] r = refl
strip-append (a ∷ p) r = rw ((eq_iff a a).1 refl) (strip-append p r)

pub strip_sound : (p q : FilePath) {r : FilePath} → strip p q ≡ some r → q ≡ p ++ r
unfolding strip
strip_sound [] q h = some-injective _ _ h
strip_sound (a ∷ p) [] h = cc
strip_sound (a ∷ p) (b ∷ q) {r} h = elim (Bool-cases (text_eq a b)) [
  | inl e ↦ let same = (eq_iff a b).0 e in let rest = strip_sound p q {r = r} (rw e at h) in cc
  | inr e ↦ absurd (cc (rw e at h))
]

-- A path that is not below `p` is no path of a file there.
pub outside-ne : (p q r : FilePath) → strip p q ≡ none → path_eq (p ++ r) q ≡ false
outside-ne p q r h = elim (Bool-cases (path_eq (p ++ r) q)) [
  | inl e ↦
      let same = path_eq_sound (p ++ r) q e in
      let there : strip p q ≡ some r = ap (strip p) (sym same) ∙ strip-append p r in absurd (cc)
  | inr e ↦ e
]

pub ne-outside : (p q r : FilePath) → strip p q ≡ none → path_eq q (p ++ r) ≡ false
ne-outside p q r h = elim (Bool-cases (path_eq q (p ++ r))) [
  | inl e ↦
      let same = path_eq_sound q (p ++ r) e in
      let there : strip p q ≡ some r = ap (strip p) same ∙ strip-append p r in absurd (cc)
  | inr e ↦ e
]

module _ {ℓ} {C : Type ℓ} (p q : FilePath) where
  -- A path outside both trees keeps what it has.
  pub get-move_tree_outside :
      (x : FilePath) (d : List (Slot C))
      → strip p x ≡ none
      → strip q x ≡ none
      → get x (move_tree p q d) ≡ get x d
  unfolding get move_tree
  get-move_tree_outside x [] h k = refl
  get-move_tree_outside x (s ∷ d) h k = elim (Option-cases (strip p s.path)) [
    | inl e ↦ rw e (
        ap (λ (o : Option (Entry C)). if path_eq s.path x then some s.entry else o)
          (get-move_tree_outside x d h k))
    | inr (r, e) ↦
        let at : path_eq s.path x ≡ false =
          ap (λ (y : FilePath). path_eq y x) (strip_sound p s.path e) ∙ outside-ne p x r h in
        rw (e, at, outside-ne q x r k) (get-move_tree_outside x d h k)
  ]

  -- What stood below `p` stands below `q`, where nothing stood before.
  pub get-move_tree :
      (x : FilePath) (d : List (Slot C))
      → any (is_below q) d ≡ false
      → get (q ++ x) (move_tree p q d) ≡ get (p ++ x) d
  unfolding get move_tree
  get-move_tree x [] free = refl
  get-move_tree x (s ∷ d) free = elim (Option-cases (strip p s.path)) [
    | inl e ↦
        let (here, rest) = or-eq-false (is_below q s) (any (is_below q) d) free in
        let free_name : strip q s.path ≡ none = clear (strip q s.path) here in
        rw (e, ne-outside q s.path x free_name, ne-outside p s.path x e) (get-move_tree x d rest)
    | inr (r, e) ↦
        let (here, rest) = or-eq-false (is_below q s) (any (is_below q) d) free in
        let from : path_eq s.path (p ++ x) ≡ path_eq r x =
          ap (λ (y : FilePath). path_eq y (p ++ x)) (strip_sound p s.path e)
          ∙ path_eq-append p r x in
        rw (e, from, path_eq-append q r x)
          (ap (λ (o : Option (Entry C)). if path_eq r x then some s.entry else o)
            (get-move_tree x d rest))
  ]
    where
      clear :
          (o : Option FilePath)
          → ◌≡◌ {A = Bool} (elim o [ none ↦ false | some r ↦ true ]) false
          → o ≡ none
      clear none h = refl
      clear (some r) h = cc

pub get-prune_outside {ℓ} :
    {C : Type ℓ} (p x : FilePath) (d : List (Slot C))
    → strip p x ≡ none
    → get x (prune p d) ≡ get x d
unfolding get prune
get-prune_outside p x [] h = refl
get-prune_outside {C = C} p x (s ∷ d) h = elim (Option-cases (strip p s.path)) [
  | inl e ↦ rw e (
      ap (λ (o : Option (Entry C)). if path_eq s.path x then some s.entry else o)
        (get-prune_outside p x d h))
  | inr (r, e) ↦
      let at : path_eq s.path x ≡ false =
        ap (λ (y : FilePath). path_eq y x) (strip_sound p s.path e) ∙ outside-ne p x r h in
      rw (e, at) (get-prune_outside p x d h)
]
