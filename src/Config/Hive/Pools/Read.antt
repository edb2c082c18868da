-- ===== src/Config/Hive/Pools/Read.antt =====
-- The pools of a workload, from its members: no index is out of bounds, and what they are.
use rigos.Base.{
  ℕ, String, ◌>>=◌, err, ◌≡◌, ◌≢◌, refl, sym, Bool, Option, none, some, List, [], ◌∷◌, length,
  Result, ok, panic, >>=-eq-ok, NoPanic, NoPanic-ok, NoPanic-err, NoPanic-ok_or, NoPanic-bind,
  Bool-cases, inl, inr, ◌==◌,
}
use rigos.Base.Text.{is_empty}
use rigos.Config.Error.{ConfigError}
use rigos.Config.Sheet.{Pool}
use rigos.Config.Hive.{
  Value, null, bool, number, string, array, object, nil, cons, values, Members, get, as_bool,
  text_of, collect, strict_string_list, strict_bool_list,
}
use rigos.Config.Hive.Lists.{Spells, Answers, strict_string_list-Spells, strict_bool_list-Answers}
use rigos.Config.Hive.Pools.{or_value, hive_pools}
use rigos.Config.Hive.Pools.Endpoints.{Endpoints, import_pools-Endpoints, pools-NoPanic}

collect-NoPanic :
    {A : Type 0} (f : Value → Option A) (e : ConfigError) (vs : List Value)
    → NoPanic (collect f e vs)
unfolding collect
collect-NoPanic f e [] = NoPanic-ok []
collect-NoPanic f e (v ∷ vs) =
    NoPanic-bind _ _ (NoPanic-ok_or (f v) e)
      (λ a. NoPanic-bind _ _ (collect-NoPanic f e vs) (λ more. NoPanic-ok (a ∷ more)))

strings-NoPanic :
    (value : Option Value) (filename key : String) → NoPanic (strict_string_list value filename key)
unfolding strict_string_list
strings-NoPanic none filename key = NoPanic-err _
strings-NoPanic (some null) filename key = NoPanic-err _
strings-NoPanic (some (bool b)) filename key = NoPanic-err _
strings-NoPanic (some (number n)) filename key = NoPanic-err _
strings-NoPanic (some (object ms)) filename key = NoPanic-err _
strings-NoPanic (some (string s)) filename key = elim (Bool-cases (is_empty s)) [
  | inl e ↦ rw e (NoPanic-err _)
  | inr e ↦ rw e (NoPanic-ok _)
]
strings-NoPanic (some (array nil)) filename key = NoPanic-err _
strings-NoPanic (some (array (cons v vs))) filename key = collect-NoPanic text_of _ (v ∷ values vs)

bools-NoPanic :
    (value : Option Value) (count : ℕ) (filename : String)
    → NoPanic (strict_bool_list value count filename)
unfolding strict_bool_list
bools-NoPanic none count filename = NoPanic-err _
bools-NoPanic (some null) count filename = NoPanic-err _
bools-NoPanic (some (bool b)) count filename = NoPanic-ok _
bools-NoPanic (some (number n)) count filename = NoPanic-err _
bools-NoPanic (some (string s)) count filename = NoPanic-err _
bools-NoPanic (some (object ms)) count filename = NoPanic-err _
bools-NoPanic (some (array vs)) count filename = elim (Bool-cases (length (values vs) == count)) [
  | inl e ↦ rw e (collect-NoPanic as_bool _ (values vs))
  | inr e ↦ rw e (NoPanic-err _)
]

-- A step that may use what the step before it has returned.
NoPanic-known :
    {A B : Type 0} (m : Result ConfigError A) (f : A → Result ConfigError B)
    → NoPanic m
    → ((a : A) → m ≡ ok a → NoPanic (f a))
    → NoPanic (m >>= f)
NoPanic-known (ok a) f h k = k a refl
NoPanic-known (err e) f h k = NoPanic-err e
NoPanic-known panic f h k = absurd (NoPanic.holds h refl)

-- For whatever workload, the loop over its URLs does not panic: strict_bool_list gives a Boolean for
-- each URL, so no index is out of bounds.
pub hive_pools-not_panic :
    (filename : String) (workload : Members) → hive_pools filename workload ≢ panic
unfolding hive_pools
hive_pools-not_panic filename workload = NoPanic.holds (
    NoPanic-known _ _
      (strings-NoPanic (or_value (get "pool_urls" workload) (get "pools" workload)) filename
        "pool_urls")
      (λ urls e.
        NoPanic-known _ _ (bools-NoPanic (get "pool_ssl" workload) (length urls) filename) (λ tls f.
          pools-NoPanic filename urls tls 0
            (sym (strict_bool_list-Answers _ (length urls) filename tls f).1))))

-- The pools of a workload are those of its URLs, one for each and in order.
pub record Read (workload : Members) (pools : List Pool) : Type 0 where
  pub urls : List String
  pub spelled : Spells (or_value (get "pool_urls" workload) (get "pools" workload)) urls
  pub tls_values : List Bool
  pub answered : Answers (length urls) (get "pool_ssl" workload) tls_values
  pub matched : length tls_values ≡ length urls
  pub endpoints : Endpoints urls tls_values 0 pools

-- The pools that are read from a workload are those of its URLs, one for each and in order: the
-- strings of pool_urls or, where that is absent, of pools, at least one and none empty; TLS is the
-- Boolean of pool_ssl, or its Boolean for that URL, of which it has as many as there are URLs.
pub hive_pools-Read :
    (filename : String) (workload : Members) (pools : List Pool)
    → hive_pools filename workload ≡ ok pools
    → Read workload pools
unfolding hive_pools
hive_pools-Read filename workload pools h =
    let (urls, e, h1) =
      >>=-eq-ok
        (strict_string_list (or_value (get "pool_urls" workload) (get "pools" workload)) filename
          "pool_urls")
        _ h in
    let (tls, f, h2) =
      >>=-eq-ok (strict_bool_list (get "pool_ssl" workload) (length urls) filename) _ h1 in
    record {
      urls = urls;
      spelled = strict_string_list-Spells _ filename "pool_urls" urls e;
      tls_values = tls;
      answered = (strict_bool_list-Answers _ (length urls) filename tls f).0;
      matched = (strict_bool_list-Answers _ (length urls) filename tls f).1;
      endpoints = import_pools-Endpoints filename urls tls 0 pools h2;
    }
