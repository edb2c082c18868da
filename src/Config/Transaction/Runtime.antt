-- ===== src/Config/Transaction/Runtime.antt =====
-- crates/rigos-config/src/main.rs: the trait RuntimeOps, and what its implementations promise.
use rigos.Base.{String, Bool, false, ◌≡◌}
use rigos.Config.Store.{Io, done, left}

-- The operations on a runtime whose state is `R`.
pub record RuntimeOps (R : Type 0) : Type 0 where
  pub timezone : Io R String
  pub set_timezone : String → Io R (Unit {0})
  pub miner_enabled : Io R Bool
  pub set_miner_enabled : Bool → Io R (Unit {0})
  pub miner_active : Io R Bool
  pub stop_miner : Io R (Unit {0})
  pub start_miner : Io R (Unit {0})

-- What the operations of a runtime do: the queries change nothing, and where they succeed they
-- answer with the time zone, with whether the miner is enabled, and with whether it is active. Each
-- of the others, where it succeeds, sets the one it is for and leaves the rest; a start need not
-- leave the miner active. Nothing is said of these where they fail.
pub record Lawful {R : Type 0} (ops : RuntimeOps R) : Type 0 where
  pub zone : R → String
  pub enabled : R → Bool
  pub active : R → Bool
  pub timezone_kept :
      (r : R)
      → (zone (left (ops.timezone r)) ≡ zone r)
        × (enabled (left (ops.timezone r)) ≡ enabled r)
        × (active (left (ops.timezone r)) ≡ active r)
  pub timezone_done : (r s : R) (z : String) → ops.timezone r ≡ done z s → z ≡ zone r
  pub miner_enabled_kept :
      (r : R)
      → (zone (left (ops.miner_enabled r)) ≡ zone r)
        × (enabled (left (ops.miner_enabled r)) ≡ enabled r)
        × (active (left (ops.miner_enabled r)) ≡ active r)
  pub miner_enabled_done : (r s : R) (b : Bool) → ops.miner_enabled r ≡ done b s → b ≡ enabled r
  pub miner_active_kept :
      (r : R)
      → (zone (left (ops.miner_active r)) ≡ zone r)
        × (enabled (left (ops.miner_active r)) ≡ enabled r)
        × (active (left (ops.miner_active r)) ≡ active r)
  pub miner_active_done : (r s : R) (b : Bool) → ops.miner_active r ≡ done b s → b ≡ active r
  pub set_timezone_done :
      (r s : R) (z : String)
      → ops.set_timezone z r ≡ done tt s
      → (zone s ≡ z) × (enabled s ≡ enabled r) × (active s ≡ active r)
  pub set_miner_enabled_done :
      (r s : R) (b : Bool)
      → ops.set_miner_enabled b r ≡ done tt s
      → (enabled s ≡ b) × (zone s ≡ zone r) × (active s ≡ active r)
  pub stop_miner_done :
      (r s : R)
      → ops.stop_miner r ≡ done tt s
      → (active s ≡ false) × (zone s ≡ zone r) × (enabled s ≡ enabled r)
  pub start_miner_done :
      (r s : R) → ops.start_miner r ≡ done tt s → (zone s ≡ zone r) × (enabled s ≡ enabled r)
