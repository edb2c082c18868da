-- ===== src/Config/Transaction/Applied.antt =====
-- transact and recover_pending where they succeed.
use rigos.Base.{
  ℕ, String, ◌≡◌, refl, sym, ◌∙◌, ap, subst, Bool, true, false, not, ◌&&◌, none, List, not-eq-false,
}
use rigos.Config.Error.{ConfigError}
use rigos.Config.Profile.Fields.{RigProfile}
use rigos.Config.Store.{
  path_eq, World, Ran, done, failed, Io, map_err, fail_when, left, get, remove, exists, write_new,
  remove_file, with_disk,
}
use rigos.Config.Store.Laws.{
  then_do-eq-done, done_injective, caught-eq-done, remove_file-eq-done, get-remove,
}
use rigos.Config.Transaction.{
  pending, on_runtime, starts_mining, cmdline_blocks_mining, begin, apply_new_runtime,
  rollback_transaction, operation, snapshot_now, rolled_back, concluded, transact,
}
use rigos.Config.Stored.{RuntimeSnapshot, Stored, runtime_snapshot}
use rigos.Config.Transaction.Runtime.{RuntimeOps, Lawful}
use rigos.Config.Transaction.Rollback.{on_runtime-eq-done}

fail_when-eq-done :
    {W : Type 0} (b : Bool) (e : ConfigError) (w end : W)
    → fail_when b e w ≡ done tt end
    → (b ≡ false) × (w ≡ end)
fail_when-eq-done true e w end h = cc
fail_when-eq-done false e w end h = (refl, (done_injective h).1)

-- The profile is applied, and the miner is started exactly when the profile says so and the
-- command line does not forbid it.
pub record Applied {R : Type 0} {ops : RuntimeOps R} (laws : Lawful ops) (words : List String)
    (profile : RigProfile) (started : Bool) (end : World Stored R) : Type 0 where
  pub zone : laws.zone end.runtime ≡ profile.timezone
  pub enabled : laws.enabled end.runtime ≡ starts_mining profile.miner_start_mode
  pub starts :
      started ≡ (starts_mining profile.miner_start_mode && not (cmdline_blocks_mining words))
  pub running : laws.active end.runtime ≡ started

module _ {R : Type 0} (faults : ℕ → Bool) (boot_id : String) (fresh : ℕ → String)
    {ops : RuntimeOps R} (words : List String) (laws : Lawful ops) where
  begun :
      (b started : Bool) (w end : World Stored R)
      → begin faults boot_id fresh ops words b w ≡ done started end
      → laws.active w.runtime ≡ false
      → (started ≡ b)
        × (laws.active end.runtime ≡ b)
        × (laws.zone end.runtime ≡ laws.zone w.runtime)
        × (laws.enabled end.runtime ≡ laws.enabled w.runtime)
        × (end.disk ≡ w.disk)
  unfolding begin
  begun false started w end h idle =
      let (s, e) = done_injective h in
      (sym s, subst (λ (x : World Stored R). laws.active x.runtime ≡ false) e idle, cc, cc, cc)
  begun true started w end h idle =
      let (u1, w1, r1, h1) = then_do-eq-done (map_err _ (on_runtime ops.start_miner) w) _ h in
      let (active, w2, r2, h2) = then_do-eq-done (on_runtime ops.miner_active w1) _ h1 in
      let (u3, w3, r3, h3) = then_do-eq-done (fail_when (not active) _ w2) _ h2 in
      let (s1, run1, e1) = on_runtime-eq-done ops.start_miner w w1 (caught-eq-done _ _ r1) in
      let (s2, run2, e2) = on_runtime-eq-done ops.miner_active w1 w2 r2 in
      let (up, e3) = fail_when-eq-done (not active) _ w2 w3 r3 in
      let (s, e4) = done_injective h3 in
      let (z1, n1) = laws.start_miner_done w.runtime s1 run1 in
      let kept =
        subst
          (λ (ran : Ran R Bool).
            (laws.zone (left ran) ≡ laws.zone w1.runtime)
            × (laws.enabled (left ran) ≡ laws.enabled w1.runtime)
            × (laws.active (left ran) ≡ laws.active w1.runtime))
          run2 (laws.miner_active_kept w1.runtime) in
      let answer = laws.miner_active_done w1.runtime s2 active run2 in
      let at_end : end ≡ w2 = sym e4 ∙ sym e3 in
      (
        sym s,
        ap (λ (x : World Stored R). laws.active x.runtime) (at_end ∙ e2)
            ∙ kept.2
            ∙ sym answer
            ∙ not-eq-false active up,
        ap (λ (x : World Stored R). laws.zone x.runtime) (at_end ∙ e2)
            ∙ kept.0
            ∙ ap (λ (x : World Stored R). laws.zone x.runtime) e1
            ∙ z1,
        ap (λ (x : World Stored R). laws.enabled x.runtime) (at_end ∙ e2)
            ∙ kept.1
            ∙ ap (λ (x : World Stored R). laws.enabled x.runtime) e1
            ∙ n1,
        ap (λ (x : World Stored R). x.disk) (at_end ∙ e2) ∙ ap (λ (x : World Stored R). x.disk) e1,
      )

  applied :
      (profile : RigProfile) (started : Bool) (w end : World Stored R)
      → apply_new_runtime faults boot_id fresh ops words profile w ≡ done started end
      → laws.active w.runtime ≡ false
      → Applied laws words profile started end × (end.disk ≡ w.disk)
  unfolding apply_new_runtime
  applied profile started w end h idle =
      let enabled = starts_mining profile.miner_start_mode in
      let (u1, w1, r1, h1) =
        then_do-eq-done (map_err _ (on_runtime (ops.set_timezone profile.timezone)) w) _ h in
      let (u2, w2, r2, h2) =
        then_do-eq-done (map_err _ (on_runtime (ops.set_miner_enabled enabled)) w1) _ h1 in
      let (s1, run1, e1) =
        on_runtime-eq-done (ops.set_timezone profile.timezone) w w1 (caught-eq-done _ _ r1) in
      let (s2, run2, e2) =
        on_runtime-eq-done (ops.set_miner_enabled enabled) w1 w2 (caught-eq-done _ _ r2) in
      let (z1, n1, a1) = laws.set_timezone_done w.runtime s1 profile.timezone run1 in
      let (n2, z2, a2) = laws.set_miner_enabled_done w1.runtime s2 enabled run2 in
      let still : laws.active w2.runtime ≡ false = cc in
      let (st, up, z3, n3, d3) =
        begun (enabled && not (cmdline_blocks_mining words)) started w2 end h2 still in
      (record { zone = cc; enabled = cc; starts = st; running = up ∙ sym st }, cc)

  active_answer :
      (w end : World Stored R) (b : Bool)
      → on_runtime ops.miner_active w ≡ done b end
      → (b ≡ laws.active w.runtime) × (laws.active end.runtime ≡ laws.active w.runtime)
  active_answer w end b h =
      let (s, run, e) = on_runtime-eq-done ops.miner_active w end h in
      let kept =
        subst (λ (ran : Ran R Bool). laws.active (left ran) ≡ laws.active w.runtime) run
          (laws.miner_active_kept w.runtime).2 in
      (
        laws.miner_active_done w.runtime s b run,
        ap (λ (x : World Stored R). laws.active x.runtime) e ∙ kept,
      )

  module _ (commit : Io (World Stored R) String)
      (apart : (w : World Stored R) → (left (commit w)).runtime ≡ w.runtime)
      (profile : RigProfile) where
    -- What a successful transaction has done: the revision is committed, in a state where the miner
    -- was stopped, and the disk that the commit left stands at the end, but for the pending file; the
    -- profile is applied.
    pub record Transacted (revision : String) (started : Bool) (end : World Stored R) : Type 0 where
      pub before : World Stored R
      pub committed : World Stored R
      pub idle : laws.active before.runtime ≡ false
      pub run : commit before ≡ done revision committed
      pub disk : end.disk ≡ remove pending committed.disk
      pub profile_applied : Applied laws words profile started end
      pub clean : get pending end.disk ≡ none

    finished :
        (revision : String) (started : Bool) (w mid end : World Stored R)
        → operation faults boot_id fresh ops words commit profile w ≡ done (revision, started) mid
        → remove_file faults pending mid ≡ done tt end
        → Transacted revision started end
    unfolding operation path_eq
    finished revision started w mid end h removal =
        let (u1, w1, r1, h1) = then_do-eq-done (map_err _ (on_runtime ops.stop_miner) w) _ h in
        let (active, w2, r2, h2) = then_do-eq-done (on_runtime ops.miner_active w1) _ h1 in
        let (u3, w3, r3, h3) = then_do-eq-done (fail_when active _ w2) _ h2 in
        let (rev, w4, r4, h4) = then_do-eq-done (map_err _ commit w3) _ h3 in
        let (st, w5, r5, h5) =
          then_do-eq-done (apply_new_runtime faults boot_id fresh ops words profile w4) _ h4 in
        let (same, e6) = done_injective h5 in
        let (s1, run1, e1) = on_runtime-eq-done ops.stop_miner w w1 (caught-eq-done _ _ r1) in
        let stopped = (laws.stop_miner_done w.runtime s1 run1).0 in
        let (answer, kept) = active_answer w1 w2 active r2 in
        let e3 = (fail_when-eq-done active _ w2 w3 r3).1 in
        let idle : laws.active w3.runtime ≡ false =
          ap (λ (x : World Stored R). laws.active x.runtime) (sym e3)
          ∙ kept
          ∙ ap (λ (x : World Stored R). laws.active x.runtime) e1
          ∙ stopped in
        let run = caught-eq-done _ _ r4 in
        let idle4 : laws.active w4.runtime ≡ false =
          ap laws.active (
            subst (λ (ran : Ran (World Stored R) String). (left ran).runtime ≡ w3.runtime) run
              (apart w3))
          ∙ idle in
        let (ready, disk) = applied profile st w4 w5 r5 idle4 in
        let gone = remove_file-eq-done faults pending mid end removal in
        let runtime : end.runtime ≡ w5.runtime =
          ap (λ (x : World Stored R). x.runtime)
            (gone ∙ ap (λ x. with_disk faults (remove pending mid.disk) x) (sym e6)) in
        record {
          before = w3;
          committed = w4;
          idle = idle;
          run = run ∙ ap (λ r. done r w4) (ap (λ (p : String × Bool). p.0) same);
          disk =
              ap (λ (x : World Stored R). x.disk) gone
              ∙ ap (λ (x : World Stored R). remove pending x.disk) (sym e6)
              ∙ ap (remove pending) disk;
          profile_applied = record {
            zone = ap laws.zone runtime ∙ ready.zone;
            enabled = ap laws.enabled runtime ∙ ready.enabled;
            starts = ap (λ (p : String × Bool). p.1) (sym same) ∙ ready.starts;
            running = ap laws.active runtime ∙ ready.running ∙ ap (λ (p : String × Bool). p.1) same;
          };
          clean =
              ap (λ (x : World Stored R). get pending x.disk) gone ∙ get-remove pending mid.disk;
        }

    concluded-done :
        (s : RuntimeSnapshot) (w end : World Stored R) (ran : Ran (World Stored R) (String × Bool))
        (result : String × Bool)
        → operation faults boot_id fresh ops words commit profile w ≡ ran
        → concluded faults boot_id fresh ops words s ran ≡ done result end
        → Transacted result.0 result.1 end
    concluded-done s w end (done a mid) result run h =
        let (u, last, removal, h1) = then_do-eq-done (remove_file faults pending mid) _ h in
        let (same, e) = done_injective h1 in
        finished result.0 result.1 w mid end (run ∙ ap (λ r. done r mid) same)
          (removal ∙ ap (λ x. done tt x) e)
    concluded-done s w end (failed failure mid) result run h =
        absurd (never (rollback_transaction faults boot_id fresh ops words s mid) h)
      where
        never :
            (ran : Ran (World Stored R) (Unit {0}))
            → rolled_back faults boot_id fresh ops words failure ran ≡ done result end
            → ⊥
        never (done u x) g = cc
        never (failed e x) g = cc

    -- A transaction that succeeds has stopped the miner, committed the revision and applied the
    -- profile: its time zone, its start mode, and the miner active exactly when the mode is on_boot
    -- and no word of the command line forbids mining. The disk is the one the commit left, without
    -- the pending file. The commit must leave the runtime alone.
    pub transact-Transacted :
        (revision : String) (started : Bool) (w end : World Stored R)
        → transact faults boot_id fresh ops words commit profile w ≡ done (revision, started) end
        → Transacted revision started end
    unfolding transact
    transact-Transacted revision started w end h =
        let (there, w1, r1, h1) = then_do-eq-done (exists faults pending w) _ h in
        let (u2, w2, r2, h2) = then_do-eq-done (fail_when there _ w1) _ h1 in
        let (s, w3, r3, h3) =
          then_do-eq-done (snapshot_now faults boot_id fresh ops words w2) _ h2 in
        let (u4, w4, r4, h4) =
          then_do-eq-done (write_new faults pending (runtime_snapshot s) w3) _ h3 in
        concluded-done s w4 end (operation faults boot_id fresh ops words commit profile w4)
          (revision, started) refl h4
