-- ===== src/Config/Proposal.antt =====
-- crates/rigos-config/src/lib.rs: a proposal, and the two documents that the miner runs by.
pub mod Built
pub mod Urls
mod Examples
use Prim.Native.String
use text.Mathlib.Text.{◌==◌ as text_eq, starts_with}
use rigos.Base.{
  ℕ, String, Bool, true, false, not, ◌&&◌, Option, none, some, List, [], ◌∷◌, Result, ok, err,
  ◌>>=◌, ◌>>◌, fail_if,
}
use rigos.Base.Text.Format.{decimal, replace}
use rigos.Config.Error.{ConfigError, error}
use rigos.Config.Hive.{
  Value, bool, number, string, array, object, Values, nil, cons, Members, no_members, member,
}
use rigos.Config.Identity.{IdentityRecord, validate_identity}
use rigos.Config.Profile.Fields.{RigProfile, MinerStartMode, manual, on_boot}
use rigos.Config.Sheet.{FlightSheet, Pool, Threads, auto, count, CpuPolicy}

pub record ExternalReference : Type 0 where
  pub source : String
  pub external_type : String
  pub external_value : String

pub record ImportProvenance : Type 0 where
  pub schema : String
  pub source_type : String
  pub source_filename : String
  pub source_sha256 : String
  pub imported_at : String
  pub warnings : List String
  pub external_reference : Option ExternalReference

pub record Proposal : Type 0 where
  pub schema : String
  pub profile : RigProfile
  pub flight_sheet : FlightSheet
  pub provenance : Option ImportProvenance
  pub source_sha256 : String

-- The identity is not the one that the sheet names, and the sheet names one.
unfoldable pub unresolved : String → String → Bool
unresolved alias reference =
    not (text_eq alias reference)
    && not (text_eq reference "unresolved")
    && not (starts_with reference "hive-wal-")

unfoldable pub unresolved_identity : ConfigError
unfolding error
unresolved_identity =
    error "RIGOS_FLIGHT_SHEET_UNRESOLVED_IDENTITY" none none (some "identity_ref")
      "selected identity alias does not match the flight sheet"

abbrev pub start_mode_text : MinerStartMode → String
start_mode_text manual = "manual"
start_mode_text on_boot = "on_boot"

unfoldable pub worker_of : Proposal → String
unfolding replace
worker_of proposal =
    replace "{node_name}" proposal.profile.node_name proposal.flight_sheet.worker_template

unfoldable pub policy_of : Proposal → IdentityRecord → Value
policy_of proposal identity = object (
    member "schema" (string "rigos.policy/v1") (
      member "node_name" (string proposal.profile.node_name) (
        member "timezone" (string proposal.profile.timezone) (
          member "active_flight_sheet" (string proposal.flight_sheet.name) (
            member "identity_ref" (string identity.alias) (
              member "miner_start_mode" (string (start_mode_text proposal.profile.miner_start_mode))
                no_members))))))

unfoldable pub pool_url : Pool → String
unfolding decimal
pool_url pool = String.◌++◌ pool.host (String.◌++◌ ":" (decimal pool.port))

abbrev pub pool_of : FlightSheet → String → String → Pool → Value
pool_of sheet user worker pool = object (
    member "url" (string (pool_url pool)) (
      member "user" (string user) (
        member "pass" (string worker) (
          member "tls" (bool pool.tls)
            (member "keepalive" (bool true) (member "algo" (string sheet.algorithm) no_members))))))

unfoldable pub pools_of : FlightSheet → String → String → List Pool → Values
unfolding pool_url
pools_of sheet user worker [] = nil
pools_of sheet user worker (pool ∷ pools) =
    cons (pool_of sheet user worker pool) (pools_of sheet user worker pools)

-- A count of threads takes the place of the hint.
abbrev pub threads_hint : Threads → ℕ → ℕ
threads_hint (auto _) hint = hint
threads_hint (count n) hint = n

unfoldable pub cpu_of : CpuPolicy → Value
unfolding decimal
cpu_of cpu = object (
    member "enabled" (bool true) (
      member "huge-pages" (bool cpu.huge_pages) (
        member "max-threads-hint" (number (decimal (threads_hint cpu.threads cpu.max_threads_hint)))
          no_members)))

unfoldable pub xmrig_of : Proposal → IdentityRecord → Value
unfolding worker_of pools_of cpu_of
xmrig_of proposal identity = object (
    member "autosave" (bool false) (
      member "background" (bool false) (
        member "cpu" (cpu_of proposal.flight_sheet.cpu) (
          member "pools"
            (array (
              pools_of proposal.flight_sheet identity.value (worker_of proposal)
                proposal.flight_sheet.pools))
            (member "api" (object (member "worker-id" (string (worker_of proposal)) no_members))
              (member "http" (object (member "enabled" (bool false) no_members)) no_members))))))

-- The policy and the configuration of the miner; the members of an object are those of `json!`.
unfoldable pub build_runtime : Proposal → IdentityRecord → Result ConfigError (Value × Value)
unfolding validate_identity unresolved unresolved_identity policy_of xmrig_of
build_runtime proposal identity = do
  validate_identity identity
  fail_if (unresolved identity.alias proposal.flight_sheet.identity_ref) unresolved_identity
  ok (policy_of proposal identity, xmrig_of proposal identity)
