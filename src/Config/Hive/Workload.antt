-- ===== src/Config/Hive/Workload.antt =====
-- The workload of an import: the only item, or the whole object.
use text.Mathlib.Text.{◌==◌ as text_eq}
use rigos.Base.{
  String, ◌≡◌, refl, ap, subst, ◌∙◌, inl, inr, Bool, true, false, Option, none, some, List, [], ◌∷◌,
  All, any, find, ok, ok_or, ok_or-eq-ok, ok_injective, Bool-cases, not-eq-false,
}
use mathlib.Core.Option.{some-injective}
use rigos.Config.Error.{ConfigError}
use rigos.Config.Hive.{
  Value, null, bool, number, string, array, object, Values, values, Members, get, is_there,
  contains_key, keys, as_object, as_array, only, workload_of, hive_workload, allowed, is_unknown,
  and_object, known_only, hive_miner_config,
}

-- The workload is the envelope where it has no items, and otherwise its only item.
pub data IsWorkload (envelope : Members) : Members → Type 0 where
  whole : get "items" envelope ≡ none → IsWorkload envelope envelope
  item :
      {vs : Values} {workload : Members}
      → get "items" envelope ≡ some (array vs)
      → values vs ≡ object workload ∷ []
      → IsWorkload envelope workload

as_array-eq-some :
    (v : Value) (list : List Value)
    → as_array v ≡ some list
    → (vs : Values) × (v ≡ array vs) × (values vs ≡ list)
as_array-eq-some null list h = cc
as_array-eq-some (bool b) list h = cc
as_array-eq-some (number n) list h = cc
as_array-eq-some (string s) list h = cc
as_array-eq-some (array vs) list h = (vs, refl, some-injective _ _ h)
as_array-eq-some (object ms) list h = cc

as_object-eq-some : (v : Value) (ms : Members) → as_object v ≡ some ms → v ≡ object ms
as_object-eq-some null ms h = cc
as_object-eq-some (bool b) ms h = cc
as_object-eq-some (number n) ms h = cc
as_object-eq-some (string s) ms h = cc
as_object-eq-some (array vs) ms h = cc
as_object-eq-some (object x) ms h = ap object (some-injective x ms h)

only-eq-some : (list : List Value) (v : Value) → only list ≡ some v → list ≡ v ∷ []
only-eq-some [] v h = cc
only-eq-some (x ∷ []) v h = ap (λ y. y ∷ []) (some-injective x v h)
only-eq-some (x ∷ y ∷ rest) v h = cc

ok_or-some : {A : Type 0} (o : Option A) (e : ConfigError) (a : A) → ok_or o e ≡ ok a → o ≡ some a
ok_or-some none e a h = cc
ok_or-some (some b) e a h = ap some (ok_injective h)

workload_of-IsWorkload :
    (envelope : Members) (filename : String) (o : Option Value) (workload : Members)
    → get "items" envelope ≡ o
    → workload_of envelope filename o ≡ ok workload
    → IsWorkload envelope workload
workload_of-IsWorkload envelope filename none workload e h =
    subst (IsWorkload envelope) (ok_injective h) (whole e)
workload_of-IsWorkload envelope filename (some items) workload e h =
    let (list, array_at, h1) = ok_or-eq-ok (as_array items) _ _ h in
    let (v, one, h2) = ok_or-eq-ok (only list) _ _ h1 in
    let (vs, same, listed) = as_array-eq-some items list array_at in
    let object_at = as_object-eq-some v workload (ok_or-some (as_object v) _ workload h2) in
    item (e ∙ ap some same) (listed ∙ only-eq-some list v one ∙ ap (λ y. y ∷ []) object_at)

-- What `hive_workload` accepts is an envelope without items, whole, or the only item of one, an
-- object.
pub hive_workload-IsWorkload :
    (envelope : Members) (filename : String) (workload : Members)
    → hive_workload envelope filename ≡ ok workload
    → IsWorkload envelope workload
unfolding hive_workload
hive_workload-IsWorkload envelope filename workload h =
    workload_of-IsWorkload envelope filename (get "items" envelope) workload refl h

-- Where the envelope has items the configuration is the miner_config of the workload, of which each
-- key is supported; where it has none it is the workload.
pub data IsConfig (envelope workload : Members) : Members → Bool → Type 0 where
  own : get "items" envelope ≡ none → IsConfig envelope workload workload false
  nested :
      {config : Members}
      → contains_key "items" envelope ≡ true
      → get "miner_config" workload ≡ some (object config)
      → All (λ key. any (text_eq key) allowed ≡ true) (keys config)
      → IsConfig envelope workload config true

find-none :
    (ks : List String)
    → find is_unknown ks ≡ none
    → All (λ key. any (text_eq key) allowed ≡ true) ks
find-none [] h = tt
find-none (k ∷ ks) h = elim (Bool-cases (is_unknown k)) [
  | inl e ↦ absurd (cc (rw e at h))
  | inr e ↦ (not-eq-false _ e, find-none ks (rw e at h))
]

and_object-eq-some :
    (o : Option Value) (ms : Members) → and_object o ≡ some ms → o ≡ some (object ms)
and_object-eq-some none ms h = cc
and_object-eq-some (some v) ms h = ap some (as_object-eq-some v ms h)

is_there-none : (o : Option Value) → is_there o ≡ false → o ≡ none
is_there-none none h = refl
is_there-none (some v) h = cc

known :
    (envelope workload config c : Members) (filename : String) (b : Bool) (o : Option String)
    → contains_key "items" envelope ≡ true
    → get "miner_config" workload ≡ some (object config)
    → find is_unknown (keys config) ≡ o
    → known_only filename config o ≡ ok (c, b)
    → IsConfig envelope workload c b
known envelope workload config c filename b none there at e h =
    let same = ok_injective h in
    subst (λ (p : Members × Bool). IsConfig envelope workload p.0 p.1) same
      (nested there at (find-none (keys config) e))
known envelope workload config c filename b (some unknown) there at e h = cc

-- What `hive_miner_config` accepts is the workload itself where the envelope has no items, and
-- otherwise its miner_config, an object that has only supported keys.
pub hive_miner_config-IsConfig :
    (envelope workload config : Members) (filename : String) (b : Bool)
    → hive_miner_config envelope workload filename ≡ ok (config, b)
    → IsConfig envelope workload config b
unfolding hive_miner_config
hive_miner_config-IsConfig envelope workload config filename b h =
    elim (Bool-cases (contains_key "items" envelope)) [
      | inl e ↦
          let (c, at, h1) =
            ok_or-eq-ok (and_object (get "miner_config" workload)) _ _ (rw e at h) in
          known envelope workload c config filename b (find is_unknown (keys c)) e
            (and_object-eq-some (get "miner_config" workload) c at) refl h1
      | inr e ↦
          subst (λ (p : Members × Bool). IsConfig envelope workload p.0 p.1)
            (ok_injective (rw e at h)) (own (is_there-none _ e))
    ]
