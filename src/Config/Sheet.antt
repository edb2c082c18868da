-- ===== src/Config/Sheet.antt =====
-- crates/rigos-config/src/lib.rs: flight sheets and their validation. The numbers of a sheet are
-- the u16 and u8 that its decoder gives.
pub mod Valid
pub mod Pools
pub mod Laws
use Prim.Native.String
use Prim.Native.String.{len}
use text.Mathlib.Text.{◌==◌ as text_eq}
use rigos.Base.{
  ℕ, String, Bool, true, false, not, ◌&&◌, ◌||◌, Option, none, some, List, [], ◌∷◌, Result, ok, err,
  ◌>>=◌, ◌>>◌, fail_if, ok_or, ◌*◌, ltb, leb, ◌==◌, within, any, length, if◌then◌else◌,
}
use rigos.Base.Sort.{sort}
use rigos.Base.Text.{is_empty}
use rigos.Base.Text.Chars.{to_ascii_lowercase}
use rigos.Config.Error.{ConfigError, error}
use rigos.Config.Names.{valid_slug, valid_host}

pub record Pool : Type 0 where
  pub host : String
  pub port : ℕ
  pub tls : Bool
  pub priority : ℕ

pub data Threads : Type 0 where
  auto : String → Threads
  count : ℕ → Threads

pub record CpuPolicy : Type 0 where
  pub threads : Threads
  pub huge_pages : Bool
  pub max_threads_hint : ℕ

pub record FlightSheet : Type 0 where
  pub schema : String
  pub name : String
  pub coin : String
  pub backend : String
  pub algorithm : String
  pub pools : List Pool
  pub identity_ref : String
  pub worker_template : String
  pub cpu : CpuPolicy

abbrev pub invalid : String → Option String → String → ConfigError
invalid filename key message = error "RIGOS_FLIGHT_SHEET_INVALID" (some filename) none key message

-- The loop over the pools: hosts are lowered in place, and the priorities that were met are kept.
unfoldable pub check_pools : String → List ℕ → List Pool → Result ConfigError (List Pool)
check_pools filename priorities [] = ok []
check_pools filename priorities (p ∷ ps) =
    let pool : Pool = record p { host = to_ascii_lowercase p.host } in
    let rest = check_pools filename (pool.priority ∷ priorities) ps in
    do
      fail_if
          (not (valid_host pool.host) || pool.port == 0 || any (λ q. q == pool.priority) priorities)
          (invalid filename (some "pools") "invalid host port or duplicate priority")
      checked ← rest
      ok (pool ∷ checked)

abbrev pub by_priority : Pool → Pool → Bool
by_priority p q = leb p.priority q.priority

abbrev pub valid_threads : Threads → Bool
valid_threads (auto value) = text_eq value "auto"
valid_threads (count value) = within 1 1024 value

unfoldable pub bad_metadata : FlightSheet → Bool
bad_metadata sheet =
    not (text_eq sheet.schema "rigos.flight-sheet/v1")
    || not (valid_slug sheet.name 64)
    || not (text_eq sheet.backend "xmrig")
    || is_empty sheet.coin
    || ltb 16 (len sheet.coin)
    || is_empty sheet.algorithm
    || ltb 64 (len sheet.algorithm)

unfoldable pub bad_identity : FlightSheet → Bool
bad_identity sheet =
    not (valid_slug sheet.identity_ref 64)
    || not (
        text_eq sheet.worker_template "{node_name}"
        || text_eq sheet.worker_template "{node_name}.rig")

unfoldable pub bad_number : FlightSheet → Bool
bad_number sheet = length sheet.pools == 0 || ltb 16 (length sheet.pools)

abbrev pub pools_sorted : FlightSheet → List Pool → FlightSheet
pools_sorted sheet checked = record sheet { pools = sort by_priority checked }

-- The sheet comes back as the caller's mutable sheet is left; callers drop it on an error.
unfoldable pub validate_sheet : FlightSheet → String → Result ConfigError FlightSheet
validate_sheet sheet filename = do
  fail_if (bad_metadata sheet) (invalid filename none "unsupported schema backend or metadata")
  fail_if (bad_identity sheet)
      (invalid filename (some "identity_ref") "invalid identity reference or worker template")
  fail_if (bad_number sheet) (invalid filename (some "pools") "one to sixteen pools are required")
  checked ← check_pools filename [] sheet.pools
  let sorted = pools_sorted sheet checked
  fail_if (not (valid_threads sorted.cpu.threads))
      (invalid filename (some "cpu.threads") "threads must be auto or 1 through 1024")
  fail_if (not (within 1 100 sorted.cpu.max_threads_hint))
      (invalid filename (some "cpu.max_threads_hint") "max threads hint must be 1 through 100")
  ok sorted

abbrev pub max_sheet_bytes : ℕ
max_sheet_bytes = 1024 * 1024

-- `from_slice` stands for serde_json's decoder of flight sheets.
unfoldable pub parse_flight_sheet :
    (List ℕ → Option FlightSheet) → List ℕ → String → Result ConfigError FlightSheet
unfolding validate_sheet
parse_flight_sheet from_slice bytes filename = do
  fail_if (ltb max_sheet_bytes (length bytes))
      (error "RIGOS_CONFIG_FILE_TOO_LARGE" (some filename) none none "flight sheet exceeds 1 MiB")
  sheet ← ok_or (from_slice bytes) (invalid filename none "invalid RIGOS flight sheet JSON")
  validate_sheet sheet filename
