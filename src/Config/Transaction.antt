-- ===== src/Config/Transaction.antt =====
-- crates/rigos-config/src/main.rs: the transaction that commits a configuration, its rollback, and
-- the recovery after a crash.
pub mod Runtime
pub mod Rollback
pub mod Pending
pub mod Looks
pub mod Atomic
pub mod Applied
pub mod Recover
pub mod Request
mod Examples
use text.Mathlib.Text.{◌==◌ as text_eq}
use Prim.Native.String
use rigos.Base.{
  ℕ, ◌+◌, String, Bool, true, false, not, ◌&&◌, ◌||◌, Option, none, some, List, [], ◌∷◌, any,
  if◌then◌else◌,
}
use rigos.Config.Error.{ConfigError, error}
use rigos.Config.Profile.Fields.{RigProfile, MinerStartMode, manual, on_boot}
use rigos.Config.Store.{
  FilePath, World, Ran, done, failed, Io, ◌>>=◌, ◌>>◌, pure, throw, map_err, left, ignored,
  fail_when, io_failure, invalid_json, tick, remove_file, create_symlink, rename, write_new,
  read_file, read_link, exists, is_file, then_do,
}
use rigos.Config.Stored.{RuntimeSnapshot, Stored, runtime_snapshot}
use rigos.Config.Transaction.Runtime.{RuntimeOps}

unfoldable pub transaction_error : String → String → ConfigError
transaction_error stage message = error "RIGOS_CONFIG_APPLY_FAILED" none none (some stage) message

abbrev pub starts_mining : MinerStartMode → Bool
starts_mining manual = false
starts_mining on_boot = true

abbrev pub blocking : String → Bool
blocking item = text_eq item "rigos.nomine=1" || text_eq item "rigos.stateless=1"

-- The words of the kernel's command line, none where it cannot be read.
unfoldable pub cmdline_blocks_mining : List String → Bool
cmdline_blocks_mining words = any blocking words

unfoldable pub state_allows_config : String → Bool
state_allows_config outcome = text_eq outcome "ready" || text_eq outcome "grown"

abbrev pub pending : FilePath
pending = ".pending-transaction.json" ∷ []

abbrev pub current : FilePath
current = "current" ∷ []

abbrev pub public_names : List String
public_names =
    "current" ∷ "policy.json" ∷ "xmrig.json" ∷ "flight-sheets" ∷ "identities"
    ∷ "external-identity-map.json" ∷ []

abbrev pub key_of : ConfigError → String
key_of e = elim e.diagnostic.key [ some key ↦ key | none ↦ "unknown" ]

unfoldable pub rollback_failed : ConfigError → ConfigError → ConfigError
unfolding transaction_error
rollback_failed failure rollback_failure = transaction_error (key_of failure) (
    String.◌++◌ failure.diagnostic.message
      (String.◌++◌ "; rollback failed at " (key_of rollback_failure)))

abbrev pub in_world : {R A : Type 0} → World Stored R → Ran R A → Ran (World Stored R) A
in_world w (done a r) = done a (record w { runtime = r })
in_world w (failed e r) = failed e (record w { runtime = r })

-- An operation of the runtime, which leaves the disk alone.
abbrev pub on_runtime : {R A : Type 0} → Io R A → Io (World Stored R) A
on_runtime m w = in_world w (m w.runtime)

-- The environment: which system calls fail, the id of this boot, the identifiers that
-- `Uuid::new_v4` draws, the operations of the runtime, and the words of the command line.
module _ {R : Type 0} (faults : ℕ → Bool) (boot_id : String) (fresh : ℕ → String)
    (ops : RuntimeOps R) (words : List String) where
  abbrev pub W : Type 0
  W = World Stored R

  -- The file of the kernel with the id of the boot.
  abbrev pub read_boot_id : Io W String
  read_boot_id w =
      if faults w.clock then failed io_failure (tick faults w) else done boot_id (tick faults w)

  -- `started`: where it is true, the miner is started and must be active.
  unfoldable pub begin : Bool → Io W Bool
  unfolding transaction_error
  begin false = pure false
  begin true = do
    map_err (transaction_error "miner_start" "miner start failed") (on_runtime ops.start_miner)
    active ← on_runtime ops.miner_active
    fail_when (not active) (transaction_error "miner_start" "miner did not become active")
    pure true

  unfoldable pub apply_new_runtime : RigProfile → Io W Bool
  unfolding cmdline_blocks_mining transaction_error begin
  apply_new_runtime profile = do
    map_err (transaction_error "timezone" "timezone apply failed")
        (on_runtime (ops.set_timezone profile.timezone))
    let enabled = starts_mining profile.miner_start_mode
    map_err (transaction_error "enabled_state" "miner enabled state apply failed")
        (on_runtime (ops.set_miner_enabled enabled))
    begin (enabled && not (cmdline_blocks_mining words))

  -- The previous link is put in place in one step, or the names are removed as far as they go.
  abbrev pub remove_all : List String → Io W (Unit {0})
  remove_all [] = pure tt
  remove_all (name ∷ names) = ignored (remove_file faults (name ∷ [])) >> remove_all names

  unfoldable pub restore_pointer : Option FilePath → Io W (Unit {0})
  restore_pointer none w = remove_all public_names w
  restore_pointer (some previous) w =
      let temporary = String.◌++◌ ".rollback-" (fresh w.clock) ∷ [] in
      (create_symlink faults previous temporary >> rename faults temporary current) w

  unfoldable pub start_again : Bool → Io W (Unit {0})
  unfolding transaction_error
  start_again false = pure tt
  start_again true =
      map_err
        (transaction_error "rollback_running_state" "previous running state could not be restored")
        (on_runtime ops.start_miner)

  unfoldable pub restore_runtime : RuntimeSnapshot → Bool → Io W (Unit {0})
  unfolding transaction_error start_again
  restore_runtime snapshot restore_running = do
    map_err (transaction_error "rollback_timezone" "previous timezone could not be restored")
        (on_runtime (ops.set_timezone snapshot.timezone))
    map_err
        (transaction_error "rollback_enabled_state" "previous enabled state could not be restored")
        (on_runtime (ops.set_miner_enabled snapshot.miner_enabled))
    start_again (restore_running && snapshot.miner_active)

  -- `read_to_string(..).map(..).unwrap_or(false)`.
  abbrev pub is_boot : RuntimeSnapshot → Ran W String → Ran W Bool
  is_boot snapshot (done id w) = done (text_eq id snapshot.boot_id) w
  is_boot snapshot (failed e w) = done false w

  abbrev pub same_boot : RuntimeSnapshot → Io W Bool
  same_boot snapshot w = is_boot snapshot (read_boot_id w)

  -- After the first error, a last attempt to stop the miner.
  abbrev pub stopped : Ran W (Unit {0}) → Ran W (Unit {0})
  stopped (done u w) = done u w
  stopped (failed e w) = (ignored (on_runtime ops.stop_miner) >> throw e) w

  -- A failed step leaves out the later ones; only the id of the boot is read all the same, for
  -- which `ticked` stands.
  abbrev pub ticked : Ran W (Unit {0}) → Ran W (Unit {0})
  ticked (done u w) = done u w
  ticked (failed e w) = failed e (tick faults w)

  unfoldable pub retract : RuntimeSnapshot → Io W (Unit {0})
  unfolding restore_pointer transaction_error
  retract snapshot = do
    map_err (transaction_error "rollback_stop" "miner could not be stopped")
        (on_runtime ops.stop_miner)
    map_err (transaction_error "rollback_pointer" "previous revision could not be restored")
        (restore_pointer snapshot.previous_revision)

  unfoldable pub resume : RuntimeSnapshot → Io W (Unit {0})
  unfolding restore_runtime
  resume snapshot = do same ← same_boot snapshot; restore_runtime snapshot same

  unfoldable pub rollback_transaction : RuntimeSnapshot → Io W (Unit {0})
  unfolding retract resume
  rollback_transaction snapshot w =
      stopped (then_do (ticked (retract snapshot w)) (λ _. resume snapshot))

  unfoldable pub snapshot_now : Io W RuntimeSnapshot
  snapshot_now = do
    id ← read_boot_id
    previous ← read_link faults current
    timezone ← on_runtime ops.timezone
    enabled ← on_runtime ops.miner_enabled
    active ← on_runtime ops.miner_active
    pure (record {
      schema = "rigos.runtime-snapshot/v1";
      boot_id = id;
      previous_revision = previous;
      timezone = timezone;
      miner_enabled = enabled;
      miner_active = active;
    })

  -- After the operation: the pending file goes, unless a rollback fails.
  abbrev pub rolled_back : {A : Type 0} → ConfigError → Ran W (Unit {0}) → Ran W A
  rolled_back failure (done u w) = failed failure (left (remove_file faults pending w))
  rolled_back failure (failed e w) = failed (rollback_failed failure e) w

  abbrev pub concluded : {A : Type 0} → RuntimeSnapshot → Ran W A → Ran W A
  concluded snapshot (done a w) = (remove_file faults pending >> pure a) w
  concluded snapshot (failed failure w) = rolled_back failure (rollback_transaction snapshot w)

  -- `commit` stands for commit_revision on the proposal and the identity of the request.
  module _ (commit : Io W String) where
    unfoldable pub operation : RigProfile → Io W (String × Bool)
    unfolding apply_new_runtime transaction_error
    operation profile = do
      map_err (transaction_error "stop_before_commit" "miner could not be stopped before commit")
          (on_runtime ops.stop_miner)
      active ← on_runtime ops.miner_active
      fail_when active
          (transaction_error "stop_before_commit" "miner remained active before commit")
      revision ←
          map_err (transaction_error "pointer_swap" "configuration revision commit failed") commit
      started ← apply_new_runtime profile
      pure (revision, started)

    unfoldable pub transact : RigProfile → Io W (String × Bool)
    unfolding operation snapshot_now rollback_transaction rollback_failed transaction_error
    transact profile = do
      incomplete ← exists faults pending
      fail_when incomplete
          (transaction_error "snapshot" "an incomplete configuration transaction already exists")
      snapshot ← snapshot_now
      write_new faults pending (runtime_snapshot snapshot)
      λ w. concluded snapshot (operation profile w)

  -- A file that decodes to something else is no snapshot.
  abbrev pub as_snapshot : Stored → Io W RuntimeSnapshot
  as_snapshot (runtime_snapshot s) = pure s
  as_snapshot _ = throw invalid_json

  unfoldable pub read_snapshot : Io W RuntimeSnapshot
  read_snapshot = read_file faults pending >>= as_snapshot

  unfoldable pub recover_file : Bool → Io W (Unit {0})
  unfolding rollback_transaction read_snapshot
  recover_file false = pure tt
  recover_file true = do
    snapshot ← read_snapshot
    rollback_transaction snapshot
    remove_file faults pending

  unfoldable pub recover_pending : Io W (Unit {0})
  unfolding recover_file
  recover_pending = is_file faults pending >>= recover_file
