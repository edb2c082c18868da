-- ===== src/Config/Stored.antt =====
-- What the files of the state directory hold, once they are decoded.
use rigos.Base.{String, Bool, Option}
use rigos.Config.Hive.{Value}
use rigos.Config.Identity.{IdentityRecord}
use rigos.Config.Proposal.{ImportProvenance}
use rigos.Config.Sheet.{FlightSheet}
use rigos.Config.Store.{FilePath}

-- crates/rigos-config/src/main.rs: the state of the runtime before a transaction.
pub record RuntimeSnapshot : Type 0 where
  pub schema : String
  pub boot_id : String
  pub previous_revision : Option FilePath
  pub timezone : String
  pub miner_enabled : Bool
  pub miner_active : Bool

pub data Stored : Type 0 where
  runtime_snapshot : RuntimeSnapshot → Stored
  json : Value → Stored
  sheet : FlightSheet → Stored
  identity : IdentityRecord → Stored
  provenance : ImportProvenance → Stored
