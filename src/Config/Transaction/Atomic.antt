-- ===== src/Config/Transaction/Atomic.antt =====
-- transact: how a failed transaction leaves the runtime, the link and the pending file.
use mathlib.Core.Path.{ap₂}
use rigos.Base.{
  ℕ, ◌+◌, String, ◌≡◌, refl, sym, ◌∙◌, ap, Bool, true, false, Option, none, some, List, inl, inr,
  Bool-cases, if◌then◌else◌, arith,
}
use rigos.Config.Error.{ConfigError}
use rigos.Config.Profile.Fields.{RigProfile}
use rigos.Config.Store.{
  FilePath, path_eq, World, Ran, done, failed, Io, then_do, fail_when, left, link_of, Entry, get,
  file, exists, read_link, write_new, remove_file, removed,
}
use rigos.Config.Store.Laws.{
  then_do-eq-done, then_do-eq-failed, done_injective, failed_injective, write_new-eq-done,
  remove_file-eq-failed, call-runtime,
}
use rigos.Config.Store.Keeps.{Keeps, Keeps-remove_file}
use rigos.Config.Transaction.{
  pending, current, on_runtime, read_boot_id, rollback_transaction, operation, snapshot_now,
  rolled_back, concluded, transact,
}
use rigos.Config.Stored.{RuntimeSnapshot, Stored, runtime_snapshot}
use rigos.Config.Transaction.Runtime.{RuntimeOps, Lawful}
use rigos.Config.Transaction.Rollback.{
  PointsTo, Restored, rollback_transaction-Restored, on_runtime-eq-done,
}
use rigos.Config.Transaction.Looks.{
  Untouched, IsSnapshotOf, Looks, looks_done, looks_failed, same, after, Looks-exists,
  Looks-fail_when, Looks-snapshot_now, Looks-write_new, Looks-boot_id, Looks-read_link,
  Looks-timezone, Looks-enabled,
}
use rigos.Config.Transaction.Pending.{operation-Keeps, rollback-Keeps}

-- How a transaction may fail: before it touches anything; rolled back to a snapshot of the state
-- before; or with such a snapshot in the pending file, for recover_pending.
pub data Failure {R : Type 0} {ops : RuntimeOps R} (laws : Lawful ops) (faults : ℕ → Bool)
    (boot_id : String) (w end : World Stored R) : Type 0 where
  refused : Untouched laws w end → Failure laws faults boot_id w end
  restored :
      (s : RuntimeSnapshot)
      → IsSnapshotOf laws faults boot_id (w.clock + 2) s w
      → Restored laws boot_id s end
      → Failure laws faults boot_id w end
  recoverable :
      (s : RuntimeSnapshot)
      → IsSnapshotOf laws faults boot_id (w.clock + 2) s w
      → get pending end.disk ≡ some (file (runtime_snapshot s))
      → Failure laws faults boot_id w end

module _ {R : Type 0} (faults : ℕ → Bool) (boot_id : String) (fresh : ℕ → String)
    {ops : RuntimeOps R} (words : List String) (laws : Lawful ops) where
  abbrev W : Type 0
  W = World Stored R

  boot_read :
      (w w1 : W) (id : String)
      → read_boot_id faults boot_id fresh ops words w ≡ done id w1
      → (id ≡ boot_id) × (w1.clock ≡ w.clock + 1)
  boot_read w w1 id h = elim (Bool-cases (faults w.clock)) [
    | inl e ↦ absurd (cc (rw e at h))
    | inr e ↦ let (a, b) = done_injective (rw e at h) in (sym a, sym (ap (λ (x : W). x.clock) b))
  ]

  link_read :
      (w w1 : W) (previous : Option FilePath)
      → read_link faults current w ≡ done previous w1
      → previous ≡ (if faults w.clock then none else link_of (get current w.disk))
  unfolding read_link
  link_read w w1 previous h = sym (done_injective h).0

  snapshot_holds :
      (w end : W) (s : RuntimeSnapshot)
      → snapshot_now faults boot_id fresh ops words w ≡ done s end
      → IsSnapshotOf laws faults boot_id (w.clock + 1) s w
  unfolding snapshot_now
  snapshot_holds w end s h =
      let (id, w1, r1, h1) = then_do-eq-done (read_boot_id faults boot_id fresh ops words w) _ h in
      let (previous, w2, r2, h2) = then_do-eq-done (read_link faults current w1) _ h1 in
      let (zone, w3, r3, h3) = then_do-eq-done (on_runtime ops.timezone w2) _ h2 in
      let (enabled, w4, r4, h4) = then_do-eq-done (on_runtime ops.miner_enabled w3) _ h3 in
      let (active, w5, r5, h5) = then_do-eq-done (on_runtime ops.miner_active w4) _ h4 in
      let u1 =
        looks_done laws (read_boot_id faults boot_id fresh ops words) w w1
          (Looks-boot_id faults boot_id fresh words laws) r1 in
      let u2 = after laws w w1 w2 u1 (
        looks_done laws (read_link faults current) w1 w2
          (Looks-read_link faults boot_id fresh words laws) r2) in
      let u3 =
        after laws w w2 w3 u2
          (looks_done laws (on_runtime ops.timezone) w2 w3 (Looks-timezone laws) r3) in
      let u4 =
        after laws w w3 w4 u3
          (looks_done laws (on_runtime ops.miner_enabled) w3 w4 (Looks-enabled laws) r4) in
      let (a, b1, c1) = on_runtime-eq-done ops.timezone w2 w3 r3 in
      let (a2, b2, c2) = on_runtime-eq-done ops.miner_enabled w3 w4 r4 in
      let (a3, b3, c3) = on_runtime-eq-done ops.miner_active w4 w5 r5 in
      let same_snapshot = (done_injective h5).0 in
      let e1 = boot_read w w1 id r1 in
      record {
        boot = sym (ap (λ (x : RuntimeSnapshot). x.boot_id) same_snapshot) ∙ e1.0;
        previous =
            sym (ap (λ (x : RuntimeSnapshot). x.previous_revision) same_snapshot)
            ∙ link_read w1 w2 previous r2
            ∙ ap₂ (λ (n : ℕ) (o : Option (Entry Stored)). if faults n then none else link_of o) e1.1
                u1.link;
        zone =
            sym (ap (λ (x : RuntimeSnapshot). x.timezone) same_snapshot)
            ∙ laws.timezone_done w2.runtime a zone b1
            ∙ u2.zone;
        enabled =
            sym (ap (λ (x : RuntimeSnapshot). x.miner_enabled) same_snapshot)
            ∙ laws.miner_enabled_done w3.runtime a2 enabled b2
            ∙ u3.enabled;
        active =
            sym (ap (λ (x : RuntimeSnapshot). x.miner_active) same_snapshot)
            ∙ laws.miner_active_done w4.runtime a3 active b3
            ∙ u4.active;
      }

  removal :
      (end w : W)
      → end ≡ left (remove_file faults pending w)
      → (end.runtime ≡ w.runtime) × (get current end.disk ≡ get current w.disk)
  unfolding remove_file path_eq
  removal end w e = (
    ap (λ (x : W). x.runtime) e
        ∙ call-runtime faults (removed pending (get pending w.disk) w.disk) w,
    ap (λ (x : W). get current x.disk) e
        ∙ Keeps.holds (Keeps-remove_file current faults pending refl) w,
  )

  points :
      (previous : Option FilePath) (w end : W)
      → get current end.disk ≡ get current w.disk
      → PointsTo previous w
      → PointsTo previous end
  points none w end e h = tt
  points (some previous) w end e h = e ∙ h

  -- The removal of the pending file leaves what was restored.
  pub removal-Restored :
      (s : RuntimeSnapshot) (w end : W)
      → end ≡ left (remove_file faults pending w)
      → Restored laws boot_id s w
      → Restored laws boot_id s end
  removal-Restored s w end e h =
      let (runtime, link) = removal end w e in
      record {
        zone = ap laws.zone runtime ∙ h.zone;
        enabled = ap laws.enabled runtime ∙ h.enabled;
        pointer = points s.previous_revision w end link h.pointer;
        idle = elim h.idle [ inl x ↦ inl (ap laws.active runtime ∙ x) | inr x ↦ inr x ];
      }

  module _ (w : W) (s : RuntimeSnapshot)
      (noted : IsSnapshotOf laws faults boot_id (w.clock + 2) s w) where
    -- After the rollback, whether it failed or not.
    retreat :
        (failure e : ConfigError) (ran : Ran W (Unit {0})) (end : W)
        → ((mid : W) → ran ≡ done tt mid → Restored laws boot_id s mid)
        → get pending (left ran).disk ≡ some (file (runtime_snapshot s))
        → ◌≡◌ {A = Ran W (String × Bool)}
            (rolled_back faults boot_id fresh ops words failure ran)
            (failed e end)
        → Failure laws faults boot_id w end
    retreat failure e (done u mid) end back kept h =
        restored s noted (removal-Restored s mid end (sym (failed_injective h)) (back mid refl))
    retreat failure e (failed d mid) end back kept h =
        recoverable s noted (ap (λ (x : W). get pending x.disk) (sym (failed_injective h)) ∙ kept)

    unwound :
        (e : ConfigError) (ran : Ran W (String × Bool)) (end : W)
        → get pending (left ran).disk ≡ some (file (runtime_snapshot s))
        → concluded faults boot_id fresh ops words s ran ≡ failed e end
        → Failure laws faults boot_id w end
    unwound e (done a mid) end kept h =
        elim (then_do-eq-failed (remove_file faults pending mid) _ h) [
          | inl f ↦
              recoverable s noted
                (ap (get pending) (remove_file-eq-failed faults pending mid end e f) ∙ kept)
          | inr (u, last, f, g) ↦ absurd (cc g)
        ]
    unwound e (failed failure mid) end kept h =
        let rollback = rollback_transaction faults boot_id fresh ops words s mid in
        retreat failure e rollback end
          (λ x f. rollback_transaction-Restored faults boot_id fresh ops words laws s mid x f)
          (Keeps.holds (rollback-Keeps faults boot_id fresh ops words s) mid ∙ kept) h

  next_clock : (m n : ℕ) → m ≡ n + 1 → m + 1 ≡ n + 2
  next_clock m n h = omega (arith, h)

  carried :
      (w mid : W) (s : RuntimeSnapshot)
      → Untouched laws w mid
      → (mid.clock ≡ w.clock + 1)
      → IsSnapshotOf laws faults boot_id (mid.clock + 1) s mid
      → IsSnapshotOf laws faults boot_id (w.clock + 2) s w
  carried w mid s u clock h = record {
    boot = h.boot;
    previous =
        h.previous
        ∙ ap₂ (λ (n : ℕ) (o : Option (Entry Stored)). if faults n then none else link_of o)
            (next_clock mid.clock w.clock clock) u.link;
    zone = h.zone ∙ u.zone;
    enabled = h.enabled ∙ u.enabled;
    active = h.active ∙ u.active;
  }

  -- The clock after the test for a pending file.
  tested :
      (w w1 w2 : W) (there : Bool) (e : ConfigError) (u : Unit {0})
      → exists faults pending w ≡ done there w1
      → ◌≡◌ {A = Ran W (Unit {0})} (fail_when there e w1) (done u w2)
      → w2.clock ≡ w.clock + 1
  unfolding exists
  tested w w1 w2 true e u h k = absurd (cc k)
  tested w w1 w2 false e u h k =
      sym (ap (λ (x : W). x.clock) (done_injective k).1)
      ∙ sym (ap (λ (x : W). x.clock) (done_injective h).1)

  -- A step that only looks fails with nothing touched, or the chain goes on.
  go_on :
      {A : Type 0} (m : Io W A) (f : A → Io W (String × Bool)) (w mid end : W) (e : ConfigError)
      → Looks laws m
      → Untouched laws w mid
      → then_do (m mid) f ≡ failed e end
      → ((a : A) (next : W)
          → m mid ≡ done a next
          → Untouched laws w next
          → f a next ≡ failed e end
          → Failure laws faults boot_id w end)
      → Failure laws faults boot_id w end
  go_on m f w mid end e looks u h k = elim (then_do-eq-failed (m mid) f h) [
    | inl g ↦ refused (after laws w mid end u (looks_failed laws m mid end looks g))
    | inr (a, next, r, g) ↦
        k a next r (after laws w mid next u (looks_done laws m mid next looks r)) g
  ]

  -- A transaction that fails has touched neither the runtime nor the link `current`; or it is
  -- rolled back to a snapshot taken before it; or such a snapshot is in the pending file, from
  -- which recover_pending can roll back. The snapshot has the id of the boot, the target of the
  -- link (none where the call that reads it fails), and the time zone and the two states of the
  -- miner as they were; a rollback where it has no link is not said to restore the link. The
  -- commit of the revision must leave the pending file alone.
  pub transact-Failure :
      (commit : Io W String)
      → Keeps pending commit
      → (profile : RigProfile) (w end : W) (e : ConfigError)
      → transact faults boot_id fresh ops words commit profile w ≡ failed e end
      → Failure laws faults boot_id w end
  unfolding transact
  transact-Failure commit kept profile w end e h =
      go_on (exists faults pending) _ w w end e (Looks-exists faults boot_id fresh words laws)
        (same laws w) h
        (λ there w1 r1 u1 h1.
          go_on (fail_when there _) _ w w1 end e (Looks-fail_when laws there _) u1 h1
            (λ u w2 r2 u2 h2.
              go_on (snapshot_now faults boot_id fresh ops words) _ w w2 end e
                (Looks-snapshot_now faults boot_id fresh words laws) u2 h2
                (λ s w3 r3 u3 h3.
                  go_on (write_new faults pending (runtime_snapshot s)) _ w w3 end e
                    (Looks-write_new faults boot_id fresh words laws (runtime_snapshot s)) u3 h3
                    (λ v w4 r4 u4 h4.
                      unwound w s
                        (carried w w2 s u2 (tested w w1 w2 there _ u r1 r2)
                          (snapshot_holds w2 w3 s r3))
                        e (operation faults boot_id fresh ops words commit profile w4) end
                        (Keeps.holds
                            (operation-Keeps faults boot_id fresh ops words commit kept profile) w4
                          ∙ write_new-eq-done faults pending (runtime_snapshot s) w3 w4 r4)
                        h4))))
