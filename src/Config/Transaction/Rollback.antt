-- ===== src/Config/Transaction/Rollback.antt =====
-- rollback_transaction: a rollback that succeeds restores what the snapshot holds.
use text.Mathlib.TextEquality.{eq_iff}
use Prim.Native.String
use rigos.Base.{
  ℕ, String, ◌≡◌, refl, sym, ◌∙◌, ap, ◌⊎◌, inl, inr, Bool, true, false, ◌&&◌, Option, none, some,
  List, [], ◌∷◌, Bool-cases, and-eq-true,
}
use rigos.Config.Store.{
  FilePath, World, Ran, done, failed, Io, then_do, map_err, get, link, create_symlink, rename, tick,
  remove, removed, remove_file,
}
use rigos.Config.Store.Laws.{
  then_do-eq-done, caught-eq-done, done_injective, create_symlink-eq-done, rename-eq-done, get-put,
  call-runtime,
}
use rigos.Config.Transaction.{
  current, on_runtime, in_world, remove_all, public_names, restore_pointer, restore_runtime,
  start_again, same_boot, retract, resume, stopped, ticked, rollback_transaction,
}
use rigos.Config.Stored.{RuntimeSnapshot, Stored}
use rigos.Config.Transaction.Runtime.{RuntimeOps, Lawful}

-- The link `current` is the one of the snapshot, where the snapshot has one.
abbrev pub PointsTo : {R : Type 0} → Option FilePath → World Stored R → Type 0
PointsTo none w = Unit
PointsTo (some previous) w = get current w.disk ≡ some (link previous)

pub record Restored {R : Type 0} {ops : RuntimeOps R} (laws : Lawful ops) (boot_id : String)
    (snapshot : RuntimeSnapshot) (w : World Stored R) : Type 0 where
  pub zone : laws.zone w.runtime ≡ snapshot.timezone
  pub enabled : laws.enabled w.runtime ≡ snapshot.miner_enabled
  pub pointer : PointsTo snapshot.previous_revision w
  pub idle :
      (laws.active w.runtime ≡ false)
      ⊎ (snapshot.miner_active ≡ true) × (snapshot.boot_id ≡ boot_id)

ran_eq :
    {R A : Type 0} (ran : Ran R A) (w : World Stored R) {end : World Stored R} {a : A}
    → in_world w ran ≡ done a end
    → (r : R) × (ran ≡ done a r) × (end ≡ record w { runtime = r })
ran_eq (done b r) w h = let (x, y) = done_injective h in (r, cc, sym y)
ran_eq (failed d r) w h = cc

-- An operation of the runtime that succeeds changes the runtime only.
pub on_runtime-eq-done :
    {R A : Type 0} (m : Io R A) (w end : World Stored R) {a : A}
    → on_runtime m w ≡ done a end
    → (r : R) × (m w.runtime ≡ done a r) × (end ≡ record w { runtime = r })
on_runtime-eq-done m w end h = ran_eq (m w.runtime) w h

pub points_on :
    {R : Type 0} (previous : Option FilePath) (w end : World Stored R)
    → end.disk ≡ w.disk
    → PointsTo previous w
    → PointsTo previous end
points_on none w end e h = tt
points_on (some previous) w end e h = ap (get current) e ∙ h

module _ {R : Type 0} (faults : ℕ → Bool) where
  -- The link is created under another name and then moved in place.
  replaced :
      (previous temporary : FilePath) (w end : World Stored R)
      → then_do (create_symlink faults previous temporary w) (λ _. rename faults temporary current)
        ≡ done tt end
      → (get current end.disk ≡ some (link previous)) × (end.runtime ≡ w.runtime)
  replaced previous temporary w end h =
      let (u, mid, first, second) =
        then_do-eq-done (create_symlink faults previous temporary w) _ h in
      let e1 = create_symlink-eq-done faults previous temporary w mid first in
      let (e, at, e2) = rename-eq-done faults temporary current mid end second in
      let put_there = get-put temporary (link previous) w.disk in
      let entry : some e ≡ some (link previous) =
        sym at ∙ ap (λ (x : World Stored R). get temporary x.disk) e1 ∙ put_there in
      (
        ap (λ (x : World Stored R). get current x.disk) e2
            ∙ get-put current e (remove temporary mid.disk)
            ∙ entry,
        ap (λ (x : World Stored R). x.runtime) e2 ∙ ap (λ (x : World Stored R). x.runtime) e1,
      )

module _ {R : Type 0} (faults : ℕ → Bool) (boot_id : String) (fresh : ℕ → String)
    (ops : RuntimeOps R) (words : List String) where
  removed_all :
      (names : List String) (w end : World Stored R)
      → remove_all faults boot_id fresh ops words names w ≡ done tt end
      → end.runtime ≡ w.runtime
  unfolding remove_file
  removed_all [] w end h = ap (λ (x : World Stored R). x.runtime) (sym (done_injective h).1)
  removed_all (name ∷ names) w end h =
      removed_all names _ end h
      ∙ call-runtime faults (removed (name ∷ []) (get (name ∷ []) w.disk) w.disk) w

  module _ (laws : Lawful ops) (snapshot : RuntimeSnapshot) where
    pointed :
        (previous : Option FilePath) (w end : World Stored R)
        → restore_pointer faults boot_id fresh ops words previous w ≡ done tt end
        → PointsTo previous end × (end.runtime ≡ w.runtime)
    unfolding restore_pointer
    pointed none w end h = (tt, removed_all public_names w end h)
    pointed (some previous) w end h =
        replaced faults previous (String.◌++◌ ".rollback-" (fresh w.clock) ∷ []) w end h

    started :
        (b : Bool) (w end : World Stored R)
        → start_again faults boot_id fresh ops words b w ≡ done tt end
        → (laws.zone end.runtime ≡ laws.zone w.runtime)
          × (laws.enabled end.runtime ≡ laws.enabled w.runtime)
          × (end.disk ≡ w.disk)
          × ((laws.active end.runtime ≡ laws.active w.runtime) ⊎ (b ≡ true))
    unfolding start_again
    started false w end h = let e = sym (done_injective h).1 in (cc, cc, cc, inl cc)
    started true w end h =
        let (r, run, e) = on_runtime-eq-done ops.start_miner w end (caught-eq-done _ _ h) in
        let (z, en) = laws.start_miner_done w.runtime r run in (cc, cc, cc, inr refl)

    runtime_restored :
        (b : Bool) (w end : World Stored R)
        → restore_runtime faults boot_id fresh ops words snapshot b w ≡ done tt end
        → (laws.zone end.runtime ≡ snapshot.timezone)
          × (laws.enabled end.runtime ≡ snapshot.miner_enabled)
          × (end.disk ≡ w.disk)
          × ((laws.active end.runtime ≡ laws.active w.runtime)
              ⊎ ((b && snapshot.miner_active) ≡ true))
    unfolding restore_runtime
    runtime_restored b w end h =
        let (u1, w1, s1, h1) =
          then_do-eq-done (map_err _ (on_runtime (ops.set_timezone snapshot.timezone)) w) _ h in
        let (u2, w2, s2, h2) =
          then_do-eq-done (map_err _ (on_runtime (ops.set_miner_enabled snapshot.miner_enabled)) w1)
            _ h1 in
        let (r1, run1, e1) =
          on_runtime-eq-done (ops.set_timezone snapshot.timezone) w w1 (caught-eq-done _ _ s1) in
        let (r2, run2, e2) =
          on_runtime-eq-done (ops.set_miner_enabled snapshot.miner_enabled) w1 w2
            (caught-eq-done _ _ s2) in
        let (z1, n1, a1) = laws.set_timezone_done w.runtime r1 snapshot.timezone run1 in
        let (n2, z2, a2) = laws.set_miner_enabled_done w1.runtime r2 snapshot.miner_enabled run2 in
        let (z3, n3, d3, a3) = started (b && snapshot.miner_active) w2 end h2 in
        (cc, cc, cc, elim a3 [ inl e ↦ inl cc | inr e ↦ inr e ])

    same_boot-eq-done :
        (w end : World Stored R) (b : Bool)
        → same_boot faults boot_id fresh ops words snapshot w ≡ done b end
        → (end ≡ tick faults w) × ((b ≡ true) → boot_id ≡ snapshot.boot_id)
    same_boot-eq-done w end b h = elim (Bool-cases (faults w.clock)) [
      | inl e ↦ let (x, y) = done_injective (rw e at h) in (sym y, λ t. cc)
      | inr e ↦
          let (x, y) = done_injective (rw e at h) in
          (sym y, λ t. (eq_iff boot_id snapshot.boot_id).0 (x ∙ t))
    ]

    undone :
        (ran : Ran (World Stored R) (Unit {0})) (end : World Stored R)
        → stopped faults boot_id fresh ops words ran ≡ done tt end
        → ran ≡ done tt end
    undone (done u w) end h = h
    undone (failed e w) end h = cc

    unticked :
        (ran : Ran (World Stored R) (Unit {0})) (end : World Stored R)
        → ticked faults boot_id fresh ops words ran ≡ done tt end
        → ran ≡ done tt end
    unticked (done u w) end h = h
    unticked (failed e w) end h = cc

    -- A rollback that succeeds has restored the time zone, whether the miner is enabled, and the
    -- link `current` of the snapshot where it has one; and the miner is stopped, unless the
    -- snapshot was taken in this boot and the miner was active then.
    pub rollback_transaction-Restored :
        (w end : World Stored R)
        → rollback_transaction faults boot_id fresh ops words snapshot w ≡ done tt end
        → Restored laws boot_id snapshot end
    unfolding rollback_transaction retract resume
    rollback_transaction-Restored w end h =
        let (u0, w2, first, second) =
          then_do-eq-done
            (ticked faults boot_id fresh ops words
              (retract faults boot_id fresh ops words snapshot w))
            _ (undone _ end h) in
        let (u1, w1, stop, point) =
          then_do-eq-done (map_err _ (on_runtime ops.stop_miner) w) _ (unticked _ w2 first) in
        let (r1, run, e1) = on_runtime-eq-done ops.stop_miner w w1 (caught-eq-done _ _ stop) in
        let (idle, z1, n1) = laws.stop_miner_done w.runtime r1 run in
        let (at, e2) = pointed snapshot.previous_revision w1 w2 (caught-eq-done _ _ point) in
        let (same, w3, booted, restore) =
          then_do-eq-done (same_boot faults boot_id fresh ops words snapshot w2) _ second in
        let (e3, boot) = same_boot-eq-done w2 w3 same booted in
        let (zone, enabled, disk, active) = runtime_restored same w3 end restore in
        record {
          zone = zone;
          enabled = enabled;
          pointer =
              points_on snapshot.previous_revision w2 end
                (disk ∙ ap (λ (x : World Stored R). x.disk) e3) at;
          idle = elim active [
            | inl e ↦ inl cc
            | inr e ↦ let (a, b) = and-eq-true _ _ e in inr (b, sym (boot a))
          ];
        }
