-- ===== src/Xmrig/Examples.antt =====
-- Runs, some of them those of the tests of the crate.
use rigos.Base.{ℕ, String, ◌≡◌, ◌↔◌, refl, true, false, none, some, [], ◌∷◌, All, Result, ok}
use rigos.Base.Text.Search.{rsplit_once}
use rigos.Config.Hive.{Value, string, array, object, nil, cons, no_members, member, get}
use rigos.Xmrig.{
  Json, extract_config_path, redact_url, pool_urls, read_config, inspect_config, parse_api,
}
use rigos.Xmrig.Arguments.{Names, extract_config_path_iff}
use rigos.Xmrig.Hidden.{IsHidden, MaybeHidden, inspect_config-IsHidden}

apart_form : extract_config_path ("xmrig" ∷ "--config" ∷ "/a.json" ∷ []) ≡ some "/a.json"
unfolding extract_config_path
apart_form = refl

joined_form : extract_config_path ("xmrig" ∷ "--config=/b.json" ∷ []) ≡ some "/b.json"
unfolding extract_config_path
joined_form = refl

ended_by_empty : extract_config_path ("--config" ∷ "" ∷ "--config=/a" ∷ []) ≡ none
unfolding extract_config_path
ended_by_empty = refl

extract_config_path_iff_example :
    (extract_config_path ("xmrig" ∷ "--config=/b.json" ∷ []) ≡ some "/b.json")
    ↔ Names ("xmrig" ∷ "--config=/b.json" ∷ []) "/b.json"
extract_config_path_iff_example =
    extract_config_path_iff ("xmrig" ∷ "--config=/b.json" ∷ []) "/b.json"

redacts : redact_url "wallet:secret@pool:3333" ≡ "pool:3333"
unfolding redact_url rsplit_once
redacts = refl

abbrev configuration : Value
configuration = object (
    member "pools"
      (array (cons (object (member "url" (string "wallet:secret@pool:3333") no_members)) nil))
      no_members)

abbrev answer : Value
answer =
    object (
      member "connection" (object (member "pool" (string "wallet@pool:3333") no_members))
        no_members)

-- A decoder that reads every text as that configuration.
abbrev json : Json ℕ
json = record {
  decode = λ text. some configuration;
  as_u64 = λ v. none;
  as_f64 = λ v. none;
  is_finite = λ x. true;
}

abbrev read : String → Result String String
read path = ok "{}"

inspects : (inspect_config ℕ json read (some "/b.json")).0.pools ≡ "pool:3333" ∷ []
unfolding inspect_config read_config pool_urls redact_url rsplit_once get
inspects = refl

parses : (parse_api ℕ json answer true false).pool ≡ some "pool:3333"
unfolding parse_api redact_url rsplit_once get
parses = refl

inspect_config-IsHidden_example :
    All IsHidden (inspect_config ℕ json read (some "/b.json")).0.pools
    × MaybeHidden (parse_api ℕ json answer true false).pool
inspect_config-IsHidden_example =
    inspect_config-IsHidden ℕ json read (some "/b.json") answer true false
