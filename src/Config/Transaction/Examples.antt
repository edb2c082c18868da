-- ===== src/Config/Transaction/Examples.antt =====
-- A runtime as in the tests of crates/rigos-config/src/main.rs, and the theorems in it.
use rigos.Base.{ℕ, String, ◌≡◌, refl, Bool, true, false, none, some, [], ◌∷◌}
use rigos.Config.Error.{ConfigError}
use rigos.Config.Profile.Fields.{RigProfile, interactive, on_boot}
use rigos.Config.Store.{
  World, Ran, done, failed, Io, left, get, file, link, put, remove, path_eq, io_failure, exists,
  is_file, read_link, read_file, write_new, remove_file, create_symlink, rename, create_new,
  write_all,
}
use rigos.Config.Store.Keeps.{Keeps}
use rigos.Config.Store.Laws.{get-put_other}
use rigos.Config.Transaction.{
  pending, current, transact, rollback_transaction, recover_pending, read_snapshot, snapshot_now,
  operation, apply_new_runtime, begin, cmdline_blocks_mining,
}
use rigos.Config.Stored.{RuntimeSnapshot, Stored, runtime_snapshot}
use rigos.Config.Transaction.Runtime.{RuntimeOps, Lawful}
use rigos.Config.Transaction.Rollback.{Restored, rollback_transaction-Restored}
use rigos.Config.Transaction.Atomic.{Failure, transact-Failure}
use rigos.Config.Transaction.Applied.{Transacted, transact-Transacted}
use rigos.Config.Transaction.Recover.{Recovered, recover_pending-Recovered, recover_pending-keeps}
use rigos.Config.Transaction.Request.{transact_request, Configured, transact_request-Configured}
use rigos.Base.Text.{bytes}
use rigos.Base.Text.Ascii.{is_whitespace, is_control}
use rigos.Base.Text.Search.{contains, ends_with}
use rigos.Base.Text.Format.{decimal, replace}
use rigos.Config.Names.{valid_slug, safe_json_basename}
use rigos.Config.Revision.{commit_revision, write_json}
use rigos.Config.Revision.Samples.{owner, proposal}
use rigos.Config.Store.Tree.{
  create_dir, create_dir_all, rename_dir, remove_dir_all, copy, sync, read_dir, symlink_metadata,
  is_directory,
}

record Fake : Type 0 where
  zone : String
  enabled : Bool
  active : Bool

abbrev refuses_zone : Bool → String → Io Fake (Unit {0})
refuses_zone true z r = failed io_failure r
refuses_zone false z r = done tt (record r { zone = z })

-- A runtime that sets time zones or refuses to.
abbrev fake : Bool → RuntimeOps Fake
fake refuses = record {
  timezone = λ r. done r.zone r;
  set_timezone = refuses_zone refuses;
  miner_enabled = λ r. done r.enabled r;
  set_miner_enabled = λ b r. done tt (record r { enabled = b });
  miner_active = λ r. done r.active r;
  stop_miner = λ r. done tt (record r { active = false });
  start_miner = λ r. done tt (record r { active = true });
}

fake_zone :
    (refuses : Bool) (r s : Fake) (z : String)
    → refuses_zone refuses z r ≡ done tt s
    → (s.zone ≡ z) × (s.enabled ≡ r.enabled) × (s.active ≡ r.active)
fake_zone true r s z h = cc
fake_zone false r s z h = (cc, cc, cc)

fake-Lawful : (refuses : Bool) → Lawful (fake refuses)
fake-Lawful refuses = record {
  zone = λ r. r.zone;
  enabled = λ r. r.enabled;
  active = λ r. r.active;
  timezone_kept = λ r. (refl, refl, refl);
  timezone_done = λ r s z h. cc;
  miner_enabled_kept = λ r. (refl, refl, refl);
  miner_enabled_done = λ r s b h. cc;
  miner_active_kept = λ r. (refl, refl, refl);
  miner_active_done = λ r s b h. cc;
  set_timezone_done = fake_zone refuses;
  set_miner_enabled_done = λ r s b h. (cc, cc, cc);
  stop_miner_done = λ r s h. (cc, cc, cc);
  start_miner_done = λ r s h. (cc, cc);
}

abbrev healthy : ℕ → Bool
healthy n = false

abbrev always : ℕ → Bool
always n = true

abbrev fresh : ℕ → String
fresh n = "id"

abbrev rig : World Stored Fake
rig = record {
  disk = put current (link ("revisions" ∷ "old" ∷ [])) [];
  runtime = record { zone = "UTC"; enabled = false; active = true };
  clock = 0;
}

abbrev profile : RigProfile
profile = record {
  node_name = "rig01";
  timezone = "Asia/Bangkok";
  flight_source = interactive;
  flight_ref = none;
  miner_start_mode = on_boot;
}

-- A commit that moves the link to a new revision.
abbrev commit : Io (World Stored Fake) String
commit w = done "new" (record w { disk = put current (link ("revisions" ∷ "new" ∷ [])) w.disk })

commit-Keeps : Keeps pending commit
unfolding path_eq
commit-Keeps = record {
  holds = λ w. get-put_other current pending (link ("revisions" ∷ "new" ∷ [])) w.disk refl;
}

abbrev applied : Ran (World Stored Fake) (String × Bool)
applied = transact healthy "boot" fresh (fake false) [] commit profile rig

succeeds : applied ≡ done ("new", true) (left applied)
unfolding transact exists snapshot_now read_link write_new operation apply_new_runtime begin
    remove_file get put remove path_eq cmdline_blocks_mining
succeeds = refl

transact-Transacted_example :
    Transacted healthy "boot" fresh []
      (fake-Lawful false)
      commit
      (λ w. refl)
      profile
      "new"
      true
      (left applied)
transact-Transacted_example =
    transact-Transacted healthy "boot" fresh [] (fake-Lawful false) commit (λ w. refl) profile "new"
      true rig (left applied) succeeds

abbrev undone : Ran (World Stored Fake) (String × Bool)
undone = transact healthy "boot" fresh (fake true) [] commit profile rig

abbrev error_of : {A : Type 0} → Ran (World Stored Fake) A → ConfigError
error_of (done a w) = io_failure
error_of (failed e w) = e

fails : undone ≡ failed (error_of undone) (left undone)
unfolding transact exists snapshot_now read_link write_new operation apply_new_runtime begin
    remove_file get put remove path_eq cmdline_blocks_mining rollback_transaction create_symlink
    rename
fails = refl

transact-Failure_example : Failure (fake-Lawful true) healthy "boot" rig (left undone)
transact-Failure_example =
    transact-Failure healthy "boot" fresh [] (fake-Lawful true) commit commit-Keeps profile rig
      (left undone) (error_of undone) fails

abbrev snapshot : RuntimeSnapshot
snapshot = record {
  schema = "rigos.runtime-snapshot/v1";
  boot_id = "boot";
  previous_revision = some ("revisions" ∷ "old" ∷ []);
  timezone = "UTC";
  miner_enabled = false;
  miner_active = true;
}

-- After a crash: the new revision is in place, and the snapshot is in the pending file.
abbrev crashed : World Stored Fake
crashed = record {
  disk =
      put pending (file (runtime_snapshot snapshot))
        (put current (link ("revisions" ∷ "new" ∷ [])) []);
  runtime = record { zone = "Asia/Bangkok"; enabled = true; active = true };
  clock = 0;
}

abbrev rolled : Ran (World Stored Fake) (Unit {0})
rolled = rollback_transaction healthy "boot" fresh (fake false) [] snapshot crashed

rolls : rolled ≡ done tt (left rolled)
unfolding rollback_transaction get put remove path_eq create_symlink rename
rolls = refl

rollback_transaction-Restored_example : Restored (fake-Lawful false) "boot" snapshot (left rolled)
rollback_transaction-Restored_example =
    rollback_transaction-Restored healthy "boot" fresh (fake false) [] (fake-Lawful false) snapshot
      crashed (left rolled) rolls

abbrev recovery : Bool → Ran (World Stored Fake) (Unit {0})
recovery refuses = recover_pending healthy "boot" fresh (fake refuses) [] crashed

recovers : recovery false ≡ done tt (left (recovery false))
unfolding recover_pending rollback_transaction get put remove path_eq is_file read_file
    read_snapshot create_symlink rename remove_file
recovers = refl

recover_pending-Recovered_example :
    Recovered (fake-Lawful false) healthy "boot" crashed (left (recovery false))
recover_pending-Recovered_example =
    recover_pending-Recovered healthy "boot" fresh [] (fake-Lawful false) crashed
      (left (recovery false)) recovers

recovery_fails : recovery true ≡ failed (error_of (recovery true)) (left (recovery true))
unfolding recover_pending rollback_transaction get put remove path_eq is_file read_file
    read_snapshot create_symlink rename remove_file
recovery_fails = refl

recover_pending-keeps_example : get pending (left (recovery true)).disk ≡ get pending crashed.disk
recover_pending-keeps_example =
    recover_pending-keeps healthy "boot" fresh [] (fake-Lawful true) crashed (left (recovery true))
      (error_of (recovery true)) recovery_fails

-- The same rig, with the commit of a revision.
abbrev configured : Ran (World Stored Fake) (String × Bool)
configured = transact_request healthy "boot" fresh always (fake false) [] proposal owner rig

configures : configured ≡ done ("id", true) (left configured)
unfolding transact_request commit_revision decimal replace bytes is_whitespace is_control contains
    ends_with valid_slug safe_json_basename create_symlink rename read_link exists create_dir
    create_dir_all rename_dir remove_dir_all copy sync read_dir symlink_metadata is_directory
    write_json path_eq create_new write_all transact snapshot_now write_new operation
    apply_new_runtime begin remove_file get put remove cmdline_blocks_mining
configures = refl

transact_request-Configured_example :
    Configured (fake-Lawful false) [] proposal owner "id" true (left configured)
transact_request-Configured_example =
    transact_request-Configured healthy "boot" fresh always [] (fake-Lawful false) proposal owner
      "id" true rig (left configured) configures
