-- ===== src/Xmrig/Hidden.antt =====
-- What is published of a miner's pools: no part before an `@`.
use Prim.Native.Char.{Char, code}
use rigos.Base.{
  ℕ, String, ◌≡◌, ◌⊎◌, refl, ap, subst, Bool, true, false, Option, none, some, List, [], ◌∷◌, All,
  inl, inr, ◌==◌, Result, ok, err, panic,
}
use rigos.Base.Text.Search.{rsplit_once, or_here}
use rigos.Config.Hive.{Value}
use rigos.Config.Names.{contains_char}
use rigos.Xmrig.{
  Json, redact_url, host_of_url, redacted, keep_some, pool_urls, array_items, as_str, get_key,
  read_config, inspect_config, opened_config, decoded_config, parse_api,
}

-- The text has no `@`.
abbrev pub IsHidden : String → Type 0
IsHidden s = contains_char b'@' s ≡ false

abbrev pub MaybeHidden : Option String → Type 0
MaybeHidden none = Unit
MaybeHidden (some s) = IsHidden s

or_here-none :
    (hit : Bool) (c : Char) (s : String) (o : Option (String × String))
    → or_here hit c s o ≡ none
    → (hit ≡ false) × (o ≡ none)
or_here-none true c s none h = absurd (cc)
or_here-none false c s none h = (refl, refl)
or_here-none hit c s (some (a, b)) h = absurd (cc)

or_here-some :
    (hit : Bool) (c : Char) (s a b : String) (o : Option (String × String))
    → or_here hit c s o ≡ some (a, b)
    → ((o ≡ none) × (s ≡ b)) ⊎ ((x : String) × (o ≡ some (x, b)))
or_here-some true c s a b none h =
    let same : ◌≡◌ {A = String × String} ("", s) (a, b) = cc in
    inl (refl, ap (λ (p : String × String). p.1) same)
or_here-some false c s a b none h = absurd (cc)
or_here-some hit c s a b (some (x, y)) h =
    let same : ◌≡◌ {A = String × String} (String.◌∷◌ c x, y) (a, b) = cc in
    inr (x, ap (λ z. some (x, z)) (ap (λ (p : String × String). p.1) same))

-- Without an occurrence the text has none.
rsplit_once-none : (n : ℕ) (s : String) → rsplit_once n s ≡ none → contains_char n s ≡ false
unfolding rsplit_once
rsplit_once-none n String.[] h = refl
rsplit_once-none n (String.◌∷◌ c s) h =
    let (e, f) = or_here-none (code c == n) c s (rsplit_once n s) h in
    rw (e, rsplit_once-none n s f) refl

-- What follows the last occurrence has none.
rsplit_once-host :
    (n : ℕ) (s a b : String) → rsplit_once n s ≡ some (a, b) → contains_char n b ≡ false
unfolding rsplit_once
rsplit_once-host n String.[] a b h = absurd (cc)
rsplit_once-host n (String.◌∷◌ c s) a b h =
    elim (or_here-some (code c == n) c s a b (rsplit_once n s) h) [
      | inl (e, same) ↦ subst (λ t. contains_char n t ≡ false) same (rsplit_once-none n s e)
      | inr (x, e) ↦ rsplit_once-host n s x b e
    ]

redact_url-IsHidden : (url : String) → IsHidden (redact_url url)
unfolding redact_url
redact_url-IsHidden url = go (rsplit_once b'@' url) refl
  where
    go : (o : Option (String × String)) → rsplit_once b'@' url ≡ o → IsHidden (host_of_url url o)
    go none e = rsplit_once-none b'@' url e
    go (some (user, host)) e = rsplit_once-host b'@' url user host e

redacted-MaybeHidden : (o : Option String) → MaybeHidden (redacted o)
redacted-MaybeHidden none = tt
redacted-MaybeHidden (some url) = redact_url-IsHidden url

keep_some-IsHidden :
    (o : Option String) (rest : List String)
    → MaybeHidden o
    → All IsHidden rest
    → All IsHidden (keep_some o rest)
keep_some-IsHidden none rest h k = k
keep_some-IsHidden (some s) rest h k = (h, k)

pool_urls-IsHidden : (vs : List Value) → All IsHidden (pool_urls vs)
unfolding pool_urls
pool_urls-IsHidden [] = tt
pool_urls-IsHidden (v ∷ vs) =
    keep_some-IsHidden _ (pool_urls vs) (redacted-MaybeHidden (as_str (get_key "url" (some v))))
      (pool_urls-IsHidden vs)

-- Whatever the configuration is, no pool in its inspection has an `@` in it; nor has the pool that
-- the answer of the API names.
pub inspect_config-IsHidden :
    (F : Type 0) (json : Json F) (read : String → Result String String) (path : Option String)
    (answer : Value) (auth wildcard : Bool)
    → All IsHidden (inspect_config F json read path).0.pools
      × MaybeHidden (parse_api F json answer auth wildcard).pool
unfolding inspect_config read_config parse_api
inspect_config-IsHidden F json read path answer auth wildcard = (
  config path,
  redacted-MaybeHidden (as_str (get_key "pool" (get_key "connection" (some answer)))),
)
  where
    decoded : (p : String) (o : Option Value) → All IsHidden (decoded_config F json p o).0.pools
    decoded p none = tt
    decoded p (some raw) = pool_urls-IsHidden (array_items (get_key "pools" (some raw)))

    opened :
        (p : String) (r : Result String String) → All IsHidden (opened_config F json p r).0.pools
    opened p (ok text) = decoded p (json.decode text)
    opened p (err kind) = tt
    opened p panic = tt

    config : (o : Option String) → All IsHidden (inspect_config F json read o).0.pools
    config none = tt
    config (some p) = opened p (read p)
