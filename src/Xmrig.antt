-- ===== src/Xmrig.antt =====
-- crates/rigos-xmrig/src/lib.rs: what is read of a running miner. The files of /proc and the
-- configuration are what `read` gives, and serde_json decodes.
pub mod Arguments
pub mod Hidden
mod Examples
use Prim.Native.String
use text.Mathlib.Text.{◌==◌ as text_eq, starts_with}
use Prim.Native.String.{len, slice}
use rigos.Base.{
  ℕ, ◌-◌, String, Bool, true, false, not, ◌&&◌, ◌||◌, Option, none, some, List, [], ◌∷◌, find,
  if◌then◌else◌, Result, ok, err, panic,
}
use rigos.Base.Text.{is_empty}
use rigos.Base.Text.Search.{rsplit_once, lines, split, ends_with}
use rigos.Config.Hive.{
  Value, null, bool, string, array, object, Values, nil, cons, values, get, as_bool,
}
use rigos.Core.{Diagnostic, warning_diagnostic}

pub data ConfigParseState : Type 0 where
  absent valid malformed unreadable : ConfigParseState

pub record ConfigInspection : Type 0 where
  pub path : Option String
  pub parse_state : ConfigParseState
  pub pools : List String
  pub algorithm : Option String
  pub huge_pages_requested : Option Bool
  pub thread_hint : Option ℕ
  pub log_path : Option String

pub data ApiState : Type 0 where
  not_configured disabled : ApiState
  reachable wildcard_reachable : Bool → String → ApiState
  unsupported_non_loopback_endpoint connection_refused timeout authentication_rejected
        malformed_response :
      ApiState
  unavailable : String → ApiState

-- `F` is the type of the floating-point numbers.
pub record ApiObservation (F : Type 0) : Type 0 where
  pub state : Option ApiState
  pub version : Option String
  pub algorithm : Option String
  pub hashrate : Option F
  pub accepted : Option ℕ
  pub rejected : Option ℕ
  pub pool : Option String

-- serde_json: the decoder, and what a number is read as.
pub record Json (F : Type 0) : Type 0 where
  pub decode : String → Option Value
  pub as_u64 : Value → Option ℕ
  pub as_f64 : Value → Option F
  pub is_finite : F → Bool

-- `args.get(index + 1).filter(|v| !v.is_empty())`
abbrev pub next_path : List String → Option String
next_path [] = none
next_path (v ∷ rest) = if is_empty v then none else some v

-- `arg.strip_prefix(prefix)`
abbrev pub strip_prefix : String → String → Option String
strip_prefix prefix arg =
    if starts_with arg prefix then some (slice arg (len prefix) (len arg)) else none

abbrev pub if_nonempty : Option String → Option String
if_nonempty none = none
if_nonempty (some v) = if is_empty v then none else some v

abbrev pub or_else : Option String → Option String → Option String
or_else none other = other
or_else (some v) other = some v

unfoldable pub extract_config_path : List String → Option String
extract_config_path [] = none
extract_config_path (arg ∷ rest) =
    let later = extract_config_path rest in
    if text_eq arg "--config"
    then next_path rest
    else or_else (if_nonempty (strip_prefix "--config=" arg)) later

abbrev pub host_of_url : String → Option (String × String) → String
host_of_url value none = value
host_of_url value (some (user, host)) = host

unfoldable pub redact_url : String → String
unfolding rsplit_once
redact_url value = host_of_url value (rsplit_once b'@' value)

-- `value.get(key)`
abbrev pub get_key : String → Option Value → Option Value
get_key key (some (object ms)) = get key ms
get_key key _ = none

-- The last step of the pointer `/hashrate/total/0`.
abbrev pub get_first : Option Value → Option Value
get_first (some (array (cons v vs))) = some v
get_first (some (object ms)) = get "0" ms
get_first _ = none

abbrev pub as_str : Option Value → Option String
as_str (some (string s)) = some s
as_str _ = none

abbrev pub array_items : Option Value → List Value
array_items (some (array vs)) = values vs
array_items _ = []

abbrev pub redacted : Option String → Option String
redacted none = none
redacted (some url) = some (redact_url url)

abbrev pub keep_some : Option String → List String → List String
keep_some none rest = rest
keep_some (some s) rest = s ∷ rest

unfoldable pub pool_urls : List Value → List String
unfolding redact_url get
pool_urls [] = []
pool_urls (v ∷ vs) = keep_some (redacted (as_str (get_key "url" (some v)))) (pool_urls vs)

abbrev pub bool_at : Option Value → Option Bool
bool_at none = none
bool_at (some v) = as_bool v

-- A configuration that was not read.
abbrev pub without_config : Option String → ConfigParseState → ConfigInspection
without_config path parse_state = record {
  path = path;
  parse_state = parse_state;
  pools = [];
  algorithm = none;
  huge_pages_requested = none;
  thread_hint = none;
  log_path = none;
}

module _ (F : Type 0) (json : Json F) where
  abbrev pub u64_at : Option Value → Option ℕ
  u64_at none = none
  u64_at (some v) = json.as_u64 v

  abbrev pub finite : Option F → Option F
  finite none = none
  finite (some x) = if json.is_finite x then some x else none

  abbrev pub f64_at : Option Value → Option F
  f64_at none = none
  f64_at (some v) = json.as_f64 v

  unfoldable pub read_config : String → Value → ConfigInspection
  unfolding pool_urls get
  read_config path raw = record {
    path = some path;
    parse_state = valid;
    pools = pool_urls (array_items (get_key "pools" (some raw)));
    algorithm = as_str (get_key "algo" (some raw));
    huge_pages_requested = bool_at (get_key "huge-pages" (get_key "randomx" (some raw)));
    thread_hint = u64_at (get_key "threads" (some raw));
    log_path = as_str (get_key "log-file" (some raw));
  }

  -- The inspection, the configuration for the query of the API, and the diagnostics added.
  abbrev pub decoded_config :
      String → Option Value → ConfigInspection × Option Value × List Diagnostic
  decoded_config path none = (
    without_config (some path) malformed,
    none,
    warning_diagnostic "xmrig.config.malformed_json" "xmrig_config"
          "XMRig configuration contains malformed JSON."
        ∷ [],
  )
  decoded_config path (some raw) = (read_config path raw, some raw, [])

  -- A file that cannot be read has the kind of the error.
  abbrev pub opened_config :
      String → Result String String → ConfigInspection × Option Value × List Diagnostic
  opened_config path (ok text) = decoded_config path (json.decode text)
  opened_config path (err kind) = (
    without_config (some path) unreadable,
    none,
    warning_diagnostic "xmrig.config.unreadable" "xmrig_config"
          (String.◌++◌ "XMRig configuration is unreadable: " (String.◌++◌ kind "."))
        ∷ [],
  )
  opened_config path panic = (without_config (some path) unreadable, none, [])

  unfoldable pub inspect_config :
      (String → Result String String)
      → Option String
      → ConfigInspection × Option Value × List Diagnostic
  unfolding read_config
  inspect_config read none = (without_config none absent, none, [])
  inspect_config read (some path) = opened_config path (read path)

  abbrev pub difference : Option ℕ → Option ℕ → Option ℕ
  difference (some total) (some good) = some (total - good)
  difference _ _ = none

  unfoldable pub parse_api : Value → Bool → Bool → ApiObservation F
  unfolding redact_url get
  parse_api value auth wildcard =
      let results = get_key "results" (some value) in
      record {
        state =
            some
              (if wildcard then wildcard_reachable auth "accepted" else reachable auth "accepted");
        version = as_str (get_key "version" (some value));
        algorithm = as_str (get_key "algo" (some value));
        hashrate = finite (f64_at (get_first (get_key "total" (get_key "hashrate" (some value)))));
        accepted = u64_at (get_key "shares_good" results);
        rejected =
            difference (u64_at (get_key "shares_total" results))
              (u64_at (get_key "shares_good" results));
        pool = redacted (as_str (get_key "pool" (get_key "connection" (some value))));
      }
