-- ===== src/Config/Hive/Lists.antt =====
-- The strict lists of an import: one value, or an array of values of one kind.
use rigos.Base.{
  ℕ, String, ◌≡◌, ◌≢◌, refl, sym, ap, subst, not, arith, suc, ◌∙◌, inl, inr, Bool, Option, none,
  some, List, [], ◌∷◌, map, All, length, replicate, length-replicate, ok, ok_or-eq-ok, >>=-eq-ok,
  ok_injective, ◌==◌, ==_iff, Bool-cases,
}
use mathlib.Core.Path.{ap₂}
use mathlib.Core.Option.{some-injective}
use rigos.Base.Text.{is_empty}
use rigos.Config.Error.{ConfigError}
use rigos.Config.Names.Host.{IsNonempty, is_empty_iff}
use rigos.Config.Hive.{
  Value, null, bool, number, string, array, object, Values, nil, cons, values, text_of, as_bool,
  collect, strict_string_list, strict_bool_list,
}

-- The list that a value spells: itself, where it is a string that is not empty, or the strings of
-- an array, at least one and none of them empty.
pub data Spells : Option Value → List String → Type 0 where
  single : {s : String} → IsNonempty s → Spells (some (string s)) (s ∷ [])
  listed :
      {vs : Values} {s : String} {ss : List String}
      → values vs ≡ map string (s ∷ ss)
      → All IsNonempty (s ∷ ss)
      → Spells (some (array vs)) (s ∷ ss)

text_of-eq-some : (v : Value) (s : String) → text_of v ≡ some s → (v ≡ string s) × IsNonempty s
text_of-eq-some null s h = cc
text_of-eq-some (bool b) s h = cc
text_of-eq-some (number n) s h = cc
text_of-eq-some (array vs) s h = cc
text_of-eq-some (object ms) s h = cc
text_of-eq-some (string t) s h = elim (Bool-cases (is_empty t)) [
  | inl e ↦ absurd (cc (rw e at h))
  | inr e ↦
      let same = some-injective t s (rw e at h) in
      (ap string same, (is_empty_iff s).0 (ap not (ap is_empty (sym same) ∙ e)))
]

as_bool-eq-some : (v : Value) (b : Bool) → as_bool v ≡ some b → v ≡ bool b
as_bool-eq-some null b h = cc
as_bool-eq-some (bool c) b h = ap bool (some-injective c b h)
as_bool-eq-some (number n) b h = cc
as_bool-eq-some (string s) b h = cc
as_bool-eq-some (array vs) b h = cc
as_bool-eq-some (object ms) b h = cc

-- What is collected is the value of each in turn.
Each : {A : Type 0} → (Value → Option A) → List Value → List A → Type 0
Each f [] [] = Unit
Each f (v ∷ vs) (a ∷ rest) = (f v ≡ some a) × Each f vs rest
Each f _ _ = ⊥

collect-Each :
    {A : Type 0} (f : Value → Option A) (e : ConfigError) (vs : List Value) (r : List A)
    → collect f e vs ≡ ok r
    → Each f vs r
unfolding collect Each
collect-Each f e [] [] h = tt
collect-Each f e [] (a ∷ r) h = cc
collect-Each f e (v ∷ vs) r h =
    let (a, at, h1) = ok_or-eq-ok (f v) e _ h in
    let (rest, more, h2) = >>=-eq-ok (collect f e vs) _ h1 in
    subst (Each f (v ∷ vs)) (ok_injective h2) (at, collect-Each f e vs rest more)

Each-texts :
    (vs : List Value) (ss : List String)
    → Each text_of vs ss
    → (vs ≡ map string ss) × All IsNonempty ss
unfolding Each
Each-texts [] [] h = (refl, tt)
Each-texts [] (s ∷ ss) h = elim h [ ]
Each-texts (v ∷ vs) [] h = elim h [ ]
Each-texts (v ∷ vs) (s ∷ ss) h =
    let (same, text) = text_of-eq-some v s h.0 in
    let (rest, texts) = Each-texts vs ss h.1 in (ap₂ ◌∷◌ same rest, (text, texts))

Each-bools : (vs : List Value) (bs : List Bool) → Each as_bool vs bs → vs ≡ map bool bs
unfolding Each
Each-bools [] [] h = refl
Each-bools [] (s ∷ ss) h = elim h [ ]
Each-bools (v ∷ vs) [] h = elim h [ ]
Each-bools (v ∷ vs) (b ∷ bs) h = ap₂ ◌∷◌ (as_bool-eq-some v b h.0) (Each-bools vs bs h.1)

listed_of :
    (vs : Values) (ss : List String)
    → (length (values vs) ≢ 0)
    → (values vs ≡ map string ss)
    → All IsNonempty ss
    → Spells (some (array vs)) ss
listed_of vs [] n e a = absurd (n (ap length e))
listed_of vs (s ∷ ss) n e a = listed e a

-- What `strict_string_list` accepts is one string or an array of strings, at least one and none of
-- them empty, and the list has just these in order.
pub strict_string_list-Spells :
    (value : Option Value) (filename key : String) (ss : List String)
    → strict_string_list value filename key ≡ ok ss
    → Spells value ss
unfolding strict_string_list
strict_string_list-Spells none filename key ss h = cc
strict_string_list-Spells (some null) filename key ss h = cc
strict_string_list-Spells (some (bool b)) filename key ss h = cc
strict_string_list-Spells (some (number n)) filename key ss h = cc
strict_string_list-Spells (some (object ms)) filename key ss h = cc
strict_string_list-Spells (some (string s)) filename key ss h = elim (Bool-cases (is_empty s)) [
  | inl e ↦ absurd (cc (rw e at h))
  | inr e ↦
      subst (Spells (some (string s))) (ok_injective (rw e at h))
        (single ((is_empty_iff s).0 (ap not e)))
]
strict_string_list-Spells (some (array nil)) filename key ss h = cc
strict_string_list-Spells (some (array (cons v vs))) filename key ss h =
    let (same, texts) =
      Each-texts (v ∷ values vs) ss (collect-Each text_of _ (v ∷ values vs) ss h) in
    listed_of (cons v vs) ss (λ z. ground arith) same texts

-- The list of a value of pool_ssl: one Boolean for each pool, or the Booleans of an array.
pub data Answers (count : ℕ) : Option Value → List Bool → Type 0 where
  shared : {b : Bool} → Answers count (some (bool b)) (replicate count b)
  each :
      {vs : Values} {bs : List Bool} → values vs ≡ map bool bs → Answers count (some (array vs)) bs

length-map_bool : (bs : List Bool) → length (map bool bs) ≡ length bs
length-map_bool [] = refl
length-map_bool (b ∷ bs) = ap suc (length-map_bool bs)

-- What `strict_bool_list` accepts is one Boolean or an array of Booleans; and the list has one
-- Boolean for each of the `count` pools: that one, or those of the array in order.
pub strict_bool_list-Answers :
    (value : Option Value) (count : ℕ) (filename : String) (bs : List Bool)
    → strict_bool_list value count filename ≡ ok bs
    → Answers count value bs × (length bs ≡ count)
unfolding strict_bool_list
strict_bool_list-Answers none count filename bs h = cc
strict_bool_list-Answers (some null) count filename bs h = cc
strict_bool_list-Answers (some (number n)) count filename bs h = cc
strict_bool_list-Answers (some (string s)) count filename bs h = cc
strict_bool_list-Answers (some (object ms)) count filename bs h = cc
strict_bool_list-Answers (some (bool b)) count filename bs h =
    subst (λ r. Answers count (some (bool b)) r × (length r ≡ count)) (ok_injective h)
      (shared, length-replicate count b)
strict_bool_list-Answers (some (array vs)) count filename bs h =
    elim (Bool-cases (length (values vs) == count)) [
      | inl e ↦
          let same =
            Each-bools (values vs) bs (collect-Each as_bool _ (values vs) bs (rw e at h)) in
          (each same, sym (length-map_bool bs) ∙ ap length (sym same) ∙ (==_iff _ _).0 e)
      | inr e ↦ absurd (cc (rw e at h))
    ]
