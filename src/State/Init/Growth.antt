-- ===== src/State/Init/Growth.antt =====
-- The outcome `grown`: the partition has grown to the intended size, and was verified again.
use text.Mathlib.Text.{◌==◌ as text_eq}
use rigos.Base.{
  ℕ, ◌<◌, String, ◌≡◌, refl, Bool, true, false, Option, none, some, List, [], any, Result, ok, err,
  panic, not-eq-false, or-eq-false, ltb, ==_iff, arith,
}
use rigos.Base.Text.Chars.{eq_ignore_ascii_case}
use rigos.State.Manifest.{ImageLayout}
use rigos.State.Device.{LsblkDocument, SfdiskDocument, VerifiedLayout}
use rigos.State.Layout.{validate_layout}
use rigos.State.Geometry.{InitError, intended_size}
use rigos.State.Geometry.Aligned.{IsIntended, intended_size-IsIntended}
use rigos.State.Init.{
  grown, Step, attest, lock, got, Env, Args, done, ask, checked, computed, refuse_if, need, first,
  take, find_disk, differs, grow, grow_if, take_unless, outcome_of, fill, size_and_fill, prepare,
  attested, locate, execute, resize_partition, update_kernel, settle, check_filesystem,
  resize_filesystem, set_label, make_mountpoint, mount, record_state, unlock,
}
use rigos.State.Init.Order.{Proven}
use rigos.State.Init.Verified.{
  then_run-eq-done, ask-eq-done, checked-eq-done, refuse_if-eq-done, result_eq, proven,
}

computed-eq-done {ℓ} :
    {A : Type ℓ} (r : Result InitError A) (s t : List Step) {a : A}
    → computed r s ≡ done a t
    → r ≡ ok a
computed-eq-done (ok b) s t h = cc
computed-eq-done (err e) s t h = cc
computed-eq-done panic s t h = cc

-- The growth of the state partition of a layout: to the intended size, which is larger than its
-- size before, as a verification of what lsblk and sfdisk answer the second time has it, with its
-- start and its identifier kept.
pub record HasGrown (env : Env) (manifest : ImageLayout) (boot : String) (v : VerifiedLayout)
    : Type 0 where
  pub size : ℕ
  pub intended :
      IsIntended v.disk_size_bytes manifest.logical_sector_size manifest.alignment_lba
        v.state_start_lba size
  pub larger : v.state_size_lba < size
  pub observed : LsblkDocument
  pub observed_again : env.lsblk 1 ≡ got observed
  pub table : SfdiskDocument
  pub table_again : env.sfdisk 1 v.disk_path ≡ got table
  pub refreshed : VerifiedLayout
  pub verified : validate_layout manifest observed table boot ≡ ok refreshed
  pub start_kept : refreshed.state_start_lba ≡ v.state_start_lba
  pub size_reached : refreshed.state_size_lba ≡ size
  pub id_kept : eq_ignore_ascii_case refreshed.state_unique_guid v.state_unique_guid ≡ true

need-eq-done {ℓ} :
    {A : Type ℓ} (o : Option A) (e : InitError) (s t : List Step) {a : A}
    → need o e s ≡ done a t
    → o ≡ some a
need-eq-done none e s t h = cc
need-eq-done (some b) e s t h = cc

-- A run that reports growth, from the verified layout on.
pub record Growth (env : Env) (args : Args) : Type 0 where
  pub layout : VerifiedLayout
  pub found : Proven env args layout
  pub manifest : ImageLayout
  pub boot : String
  pub manifest_read : env.manifest ≡ got manifest
  pub filesystems : List String
  pub filesystems_read : env.findmnt ≡ got filesystems
  pub booted : first filesystems ≡ some boot
  pub has_grown : HasGrown env manifest boot layout
  pub no_dry_run : args.dry_run ≡ false

grown_true : (b : Bool) → outcome_of b ≡ grown → b ≡ true
grown_true true h = refl
grown_true false h = cc

module _ (env : Env) (args : Args) (manifest : ImageLayout) (boot : String)
    (v : VerifiedLayout) where
  grow-HasGrown :
      (size : ℕ) (b c : Bool) (s t : List Step)
      → IsIntended v.disk_size_bytes manifest.logical_sector_size manifest.alignment_lba
          v.state_start_lba size
      → ltb v.state_size_lba size ≡ b
      → grow_if env args manifest boot v size b s ≡ done c t
      → c ≡ true
      → HasGrown env manifest boot v
  unfolding grow_if grow differs
  grow-HasGrown size false c s t i e h up = absurd (cc (result_eq h, up))
  grow-HasGrown size true c s t i e h up =
      let (u1, t1, r1, h1) =
        then_run-eq-done (take env args (resize_partition v.disk_path v.state_start_lba size) s) _
          h in
      let (u2, t2, r2, h2) = then_run-eq-done (take env args (update_kernel v.disk_path) t1) _ h1 in
      let (u3, t3, r3, h3) = then_run-eq-done (take env args settle t2) _ h2 in
      let (observed, t4, r4, h4) = then_run-eq-done (ask (env.lsblk 1) t3) _ h3 in
      let (table, t5, r5, h5) = then_run-eq-done (ask (env.sfdisk 1 v.disk_path) t4) _ h4 in
      let (refreshed, t6, r6, h6) =
        then_run-eq-done (checked (validate_layout manifest observed table boot) t5) _ h5 in
      let (u7, t7, r7, h7) = then_run-eq-done (refuse_if (differs refreshed v size) _ t6) _ h6 in
      let (l1, id) = or-eq-false _ _ (refuse_if-eq-done (differs refreshed v size) _ t6 t7 r7) in
      let (start, reached) = or-eq-false _ _ l1 in
      record {
        size = size;
        intended = i;
        larger = ground (arith, e);
        observed = observed;
        observed_again = ask-eq-done (env.lsblk 1) t3 t4 r4;
        table = table;
        table_again = ask-eq-done (env.sfdisk 1 v.disk_path) t4 t5 r5;
        refreshed = refreshed;
        verified = checked-eq-done _ t5 t6 r6;
        start_kept = (==_iff _ _).0 (not-eq-false _ start);
        size_reached = (==_iff _ _).0 (not-eq-false _ reached);
        id_kept = not-eq-false _ id;
      }

  fill-HasGrown :
      (size : ℕ) (s t : List Step)
      → IsIntended v.disk_size_bytes manifest.logical_sector_size manifest.alignment_lba
          v.state_start_lba size
      → fill env args manifest boot v size s ≡ done grown t
      → HasGrown env manifest boot v
  unfolding fill
  fill-HasGrown size s t i h =
      let (up, t1, r1, h1) =
        then_run-eq-done (grow_if env args manifest boot v size (ltb v.state_size_lba size) s) _
          h in
      let (u2, t2, r2, h2) =
        then_run-eq-done (take env args (check_filesystem v.state_path) t1) _ h1 in
      let (u3, t3, r3, h3) =
        then_run-eq-done (take env args (resize_filesystem v.state_path) t2) _ h2 in
      let (blkid, t4, r4, h4) = then_run-eq-done (ask (env.blkid_lines v.state_path) t3) _ h3 in
      let (u5, t5, r5, h5) =
        then_run-eq-done
          (take_unless env args (any (λ line. text_eq line "LABEL=RIGOS_STATE") blkid)
            (set_label v.state_path) t4)
          _ h4 in
      let (u0, t0, r0, h0) =
        then_run-eq-done (take env args (make_mountpoint args.mountpoint) t5) _ h5 in
      let (mounted, t6, r6, h6) = then_run-eq-done (ask env.is_mounted t0) _ h0 in
      let (u7, t7, r7, h7) =
        then_run-eq-done (take_unless env args mounted (mount v.state_path) t6) _ h6 in
      let (u8, t8, r8, h8) = then_run-eq-done (take env args (record_state size) t7) _ h7 in
      let (u9, t9, r9, h9) = then_run-eq-done (take env args unlock t8) _ h8 in
      grow-HasGrown size _ up s t1 i refl r1 (grown_true up (result_eq h9))

  prepare-HasGrown :
      (s t : List Step)
      → prepare env args manifest boot v s ≡ done grown t
      → HasGrown env manifest boot v
  unfolding prepare size_and_fill
  prepare-HasGrown s t h =
      let (u1, t1, r1, h1) = then_run-eq-done (take env args (lock v.disk_path) s) _ h in
      let sizes =
        intended_size v.disk_size_bytes manifest.logical_sector_size manifest.alignment_lba
          v.state_start_lba in
      let (size, t2, r2, h2) = then_run-eq-done (computed sizes t1) _ h1 in
      fill-HasGrown size t2 t
        (intended_size-IsIntended v.disk_size_bytes manifest.logical_sector_size
          manifest.alignment_lba v.state_start_lba size (computed-eq-done sizes t1 t2 r2))
        h2

  attested-HasGrown :
      (b : Bool) (s t : List Step)
      → attested env args manifest boot v b s ≡ done grown t
      → (b ≡ false) × HasGrown env manifest boot v
  unfolding attested
  attested-HasGrown true s t h = absurd (cc (result_eq h))
  attested-HasGrown false s t h = (refl, prepare-HasGrown s t h)

module _ (env : Env) (args : Args) where
  locate-Growth : (b : Bool) (t : List Step) → locate env args b [] ≡ done grown t → Growth env args
  unfolding locate
  locate-Growth true t h = absurd (cc (result_eq h))
  locate-Growth false t h =
      let (manifest, t1, r1, h1) = then_run-eq-done (ask env.manifest []) _ h in
      let (filesystems, t2, r2, h2) = then_run-eq-done (ask env.findmnt t1) _ h1 in
      let (boot, t3, r3, h3) = then_run-eq-done (need (first filesystems) _ t2) _ h2 in
      let (v, t4, r4, h4) = then_run-eq-done (find_disk env args manifest boot t3) _ h3 in
      let (u5, t5, r5, h5) = then_run-eq-done (take env args (attest v) t4) _ h4 in
      let m = ask-eq-done env.manifest [] t1 r1 in
      let (dry, has) = attested-HasGrown env args manifest boot v args.dry_run t5 t h5 in
      record {
        layout = v;
        found = proven env args manifest boot v t3 t4 m r4;
        manifest = manifest;
        boot = boot;
        manifest_read = m;
        filesystems = filesystems;
        filesystems_read = ask-eq-done env.findmnt t1 t2 r2;
        booted = need-eq-done (first filesystems) _ t2 t3 r3;
        has_grown = has;
        no_dry_run = dry;
      }

  -- A run reports growth only where it is no dry run and the state partition of the verified layout
  -- has grown: a verification of what lsblk and, for the disk of that layout, sfdisk answer the
  -- second time has the partition at its start, under its identifier, and larger than before, with
  -- the size that fills the disk to the last sector that the alignment allows.
  pub execute-Growth : (t : List Step) → execute env args [] ≡ done grown t → Growth env args
  unfolding execute
  execute-Growth t h =
      locate-Growth (any (λ word. text_eq word "rigos.stateless=1") env.cmdline) t h
