-- ===== src/Config/Transaction/Request.antt =====
-- crates/rigos-config/src/main.rs: transact on a request, with the commit of its revision.
use rigos.Base.{ℕ, String, ◌≡◌, refl, ◌∙◌, ap, Bool, none, List, ◌++◌}
use rigos.Config.Error.{ConfigError}
use rigos.Config.Identity.{IdentityRecord}
use rigos.Config.Proposal.{Proposal}
use rigos.Config.Store.{path_eq, World, done, failed, Io, get, remove}
use rigos.Config.Store.Laws.{get-remove_other}
use rigos.Config.Store.Quiet.{Quiet}
use rigos.Config.Stored.{Stored}
use rigos.Config.Revision.{current, final_dir, commit_revision}
use rigos.Config.Revision.Apart.{commit_revision-Quiet}
use rigos.Config.Revision.Paths.{name_ne_final}
use rigos.Config.Revision.Pending.{commit_revision-Keeps}
use rigos.Config.Revision.Stands.{new_pointer, moved_on}
use rigos.Config.Revision.Committed.{Committed, commit_revision-Committed}
use rigos.Config.Transaction.{pending, transact}
use rigos.Config.Transaction.Runtime.{RuntimeOps, Lawful}
use rigos.Config.Transaction.Applied.{Applied, transact-Transacted}
use rigos.Config.Transaction.Atomic.{Failure, transact-Failure}

module _ {R : Type 0} (faults : ℕ → Bool) (boot_id : String) (fresh : ℕ → String)
    (chowns : ℕ → Bool) (ops : RuntimeOps R) (words : List String) (proposal : Proposal)
    (owner : IdentityRecord) where
  unfoldable pub transact_request : Io (World Stored R) (String × Bool)
  unfolding transact commit_revision
  transact_request =
      transact faults boot_id fresh ops words (commit_revision faults fresh chowns proposal owner)
        proposal.profile

-- The revision is complete and the current one, the runtime is as the profile of the proposal says,
-- and no transaction is pending.
pub record Configured {R : Type 0} {ops : RuntimeOps R} (laws : Lawful ops) (words : List String)
    (proposal : Proposal) (owner : IdentityRecord) (revision : String) (started : Bool)
    (w : World Stored R) : Type 0 where
  pub committed : Committed proposal owner revision w
  pub applied : Applied laws words proposal.profile started w
  pub clean : get pending w.disk ≡ none

module _ {R : Type 0} (faults : ℕ → Bool) (boot_id : String) (fresh : ℕ → String)
    (chowns : ℕ → Bool) {ops : RuntimeOps R} (words : List String) (laws : Lawful ops)
    (proposal : Proposal) (owner : IdentityRecord) where
  -- The removal of the pending file leaves the revision.
  without_pending :
      (id : String) (w v : World Stored R)
      → v.disk ≡ remove pending w.disk
      → Committed proposal owner id w
      → Committed proposal owner id v
  unfolding path_eq
  without_pending id w v e c = record {
    policy = c.policy;
    xmrig = c.xmrig;
    built = c.built;
    stands =
        moved_on R faults fresh chowns c.policy c.xmrig proposal owner id (new_pointer id) w v
          (ap (get current) e ∙ get-remove_other pending current w.disk refl)
          (λ x.
            ap (get (final_dir id ++ x)) e
            ∙ get-remove_other pending (final_dir id ++ x) w.disk (name_ne_final _ id x))
          c.stands;
  }

  -- A request that succeeds leaves the rig configured: `current` comes to a revision that holds the
  -- documents of the proposal and the identity; the time zone and the start mode are those of the
  -- profile, and the miner is active exactly when the mode is on_boot and no word of the command
  -- line forbids mining; no transaction is pending.
  pub transact_request-Configured :
      (revision : String) (started : Bool) (w end : World Stored R)
      → transact_request faults boot_id fresh chowns ops words proposal owner w
        ≡ done (revision, started) end
      → Configured laws words proposal owner revision started end
  unfolding transact_request
  transact_request-Configured revision started w end h =
      let commit = commit_revision {R = R} faults fresh chowns proposal owner in
      let t =
        transact-Transacted faults boot_id fresh words laws commit
          (Quiet.holds (commit_revision-Quiet faults fresh chowns proposal owner)) proposal.profile
          revision started w end h in
      record {
        committed = without_pending revision t.committed end t.disk (
            commit_revision-Committed R faults fresh chowns proposal owner t.before t.committed
              revision t.run);
        applied = t.profile_applied;
        clean = t.clean;
      }

  -- A request that fails has touched neither the runtime nor the link `current`; or it is rolled
  -- back to a snapshot of the runtime before it; or such a snapshot is in the pending file, from
  -- which recover_pending can roll back.
  pub transact_request-Failure :
      (w end : World Stored R) (e : ConfigError)
      → transact_request faults boot_id fresh chowns ops words proposal owner w ≡ failed e end
      → Failure laws faults boot_id w end
  unfolding transact_request
  transact_request-Failure w end e h =
      transact-Failure faults boot_id fresh words laws
        (commit_revision faults fresh chowns proposal owner)
        (commit_revision-Keeps faults fresh chowns proposal owner) proposal.profile w end e h
