-- ===== src/Config/Hive/Pools.antt =====
-- crates/rigos-config/src/lib.rs: the loop of import_hive_style over the pool URLs.
pub mod Endpoints
pub mod Read
use Prim.Native.String.{len, slice}
use text.Mathlib.Text.{starts_with}
use rigos.Base.{
  ℕ, ◌+◌, ◌-◌, ◌*◌, ◌%◌, ◌^◌, String, Bool, true, false, not, Option, none, some, List, [], ◌∷◌,
  ltb, within, ◌==◌, if◌then◌else◌, Result, ok, err, panic, ◌>>=◌, ◌>>◌, fail_if, ok_or, length,
}
use rigos.Base.Text.{bytes}
use rigos.Base.Text.Search.{rsplit_once}
use rigos.Config.Error.{ConfigError}
use rigos.Config.Hive.{Value, Members, get, strict_string_list, strict_bool_list}
use rigos.Config.Profile.Lines.{is_some}
use rigos.Config.Sheet.{Pool, invalid}

-- `s.strip_prefix(t)` where `s` starts with `t`.
abbrev pub after_prefix : String → String → String
after_prefix s t = slice s (len t) (len s)

-- The URL without its scheme, and what the scheme says of TLS.
unfoldable pub scheme_of : String → String × Option Bool
scheme_of raw =
    if starts_with raw "stratum+ssl://"
    then (after_prefix raw "stratum+ssl://", some true)
    else if starts_with raw "stratum+tcp://"
    then (after_prefix raw "stratum+tcp://", some false)
    else (raw, none)

abbrev pub conflicts : Option Bool → Bool → Bool
conflicts none tls = false
conflicts (some scheme) tls = if scheme then not tls else tls

abbrev pub digits_from : Option ℕ → List ℕ → Option ℕ
digits_from none bs = none
digits_from (some n) [] = some n
digits_from (some n) (b ∷ bs) =
    let next = n * 10 + (b - b'0') in
    digits_from (if within b'0' b'9' b then (if ltb 65535 next then none else some next) else none)
      bs

-- `port.parse::<u16>()`: a plus sign may stand before the digits.
unfoldable pub parse_u16 : List ℕ → Option ℕ
parse_u16 [] = none
parse_u16 (b ∷ []) = digits_from (some 0) (b ∷ [])
parse_u16 (b ∷ c ∷ bs) =
    if b == b'+' then digits_from (some 0) (c ∷ bs) else digits_from (some 0) (b ∷ c ∷ bs)

unfoldable pub endpoint : String → String → Bool → ℕ → Result ConfigError Pool
unfolding scheme_of parse_u16 rsplit_once bytes
endpoint filename raw tls index = do
  fail_if (conflicts (scheme_of raw).1 tls)
      (invalid filename (some "pool_ssl") "pool URL scheme conflicts with pool_ssl")
  split ←
      ok_or (rsplit_once b':' (scheme_of raw).0)
        (invalid filename (some "pool_urls") "pool endpoint must be host:port")
  port ← ok_or (parse_u16 (bytes split.1)) (invalid filename (some "pool_urls") "invalid pool port")
  ok (record { host = split.0; port = port; tls = tls; priority = index % 2 ^ 16 })

-- One turn of the loop where `tls_values` has no such index: it is read for a URL with a scheme,
-- else once host and port are there.
unfoldable pub endpoint_without_tls : String → String → Result ConfigError (List Pool)
unfolding scheme_of parse_u16 rsplit_once bytes
endpoint_without_tls filename raw = if is_some (scheme_of raw).1 then panic else do
  split ←
      ok_or (rsplit_once b':' (scheme_of raw).0)
        (invalid filename (some "pool_urls") "pool endpoint must be host:port")
  port ← ok_or (parse_u16 (bytes split.1)) (invalid filename (some "pool_urls") "invalid pool port")
  panic

unfoldable pub import_pools : String → List String → List Bool → ℕ → Result ConfigError (List Pool)
unfolding endpoint endpoint_without_tls
import_pools filename [] tls_values index = ok []
import_pools filename (raw ∷ urls) [] index = endpoint_without_tls filename raw
import_pools filename (raw ∷ urls) (tls ∷ tls_values) index =
    let rest = import_pools filename urls tls_values (index + 1) in
    do pool ← endpoint filename raw tls index; pools ← rest; ok (pool ∷ pools)

abbrev pub or_value : Option Value → Option Value → Option Value
or_value none other = other
or_value (some v) other = some v

-- The pools of a workload: the URLs, a Boolean for each, and the loop.
unfoldable pub hive_pools : String → Members → Result ConfigError (List Pool)
unfolding import_pools get strict_string_list strict_bool_list
hive_pools filename workload = do
  urls ←
      strict_string_list (or_value (get "pool_urls" workload) (get "pools" workload)) filename
        "pool_urls"
  tls_values ← strict_bool_list (get "pool_ssl" workload) (length urls) filename
  import_pools filename urls tls_values 0
