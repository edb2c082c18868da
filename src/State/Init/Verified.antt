-- ===== src/State/Init/Verified.antt =====
-- The run as a whole: only a disk that is verified is attested, locked and changed.
use text.Mathlib.Text.{◌==◌ as text_eq}
use rigos.Base.{
  String, ◌≡◌, refl, sym, subst, ap, Bool, true, false, not, List, [], ◌∷◌, any, Result, ok, err,
  panic, not-eq-false,
}
use rigos.State.Manifest.{ImageLayout}
use rigos.State.Device.{node, VerifiedLayout, LayoutError}
use rigos.State.Layout.{boot_parent_disk}
use rigos.State.Geometry.{InitError}
use rigos.State.Init.{
  Step, attest, Reply, got, lost, Env, Args, Run, done, failed, panicked, Act, then_run, ask,
  checked, refuse_if, need, first, take, verify, find_disk, attested, locate, execute,
}
use rigos.State.Init.Order.{
  steps, Quiet, Quiet-ask, Quiet-need, find_disk-Quiet, steps-take, prepare_tail, Proven, Ordered,
  untouched, only_attested, prepared,
}

pub then_run-eq-done {ℓ κ} :
    {A : Type ℓ} {B : Type κ} (run : Run A) (f : A → Act B) {b : B} {t : List Step}
    → then_run run f ≡ done b t
    → (a : A) × (s : List Step) × (run ≡ done a s) × (f a s ≡ done b t)
then_run-eq-done (done a s) f h = (a, s, refl, h)
then_run-eq-done (failed e s) f h = cc
then_run-eq-done (panicked s) f h = cc

pub ask-eq-done {ℓ} :
    {A : Type ℓ} (r : Reply A) (s t : List Step) {a : A} → ask r s ≡ done a t → r ≡ got a
ask-eq-done (got b) s t h = cc
ask-eq-done (lost e) s t h = cc

pub checked-eq-done {ℓ} :
    {A : Type ℓ} (r : Result LayoutError A) (s t : List Step) {a : A}
    → checked r s ≡ done a t
    → r ≡ ok a
checked-eq-done (ok b) s t h = cc
checked-eq-done (err e) s t h = cc
checked-eq-done panic s t h = cc

pub refuse_if-eq-done :
    (b : Bool) (e : InitError) (s t : List Step) → refuse_if b e s ≡ done tt t → b ≡ false
refuse_if-eq-done true e s t h = cc
refuse_if-eq-done false e s t h = refl

pub result_eq {ℓ} :
    {A : Type ℓ} {a b : A} {s t : List Step} → ◌≡◌ {A = Run A} (done a s) (done b t) → a ≡ b
result_eq h = cc

-- A step that is quiet leaves the trace, and the chain goes on with it.
quiet_then :
    {A B : Type 0} (P : List Step → Type 0) (t : List Step) (run : Run A) (f : A → Act B)
    → steps run ≡ t
    → P t
    → ((a : A) → run ≡ done a t → P (steps (f a t)))
    → P (steps (then_run run f))
quiet_then P t (done a s) f e p k =
    subst (λ s. P (steps (f a s))) (sym e) (k a (ap (λ s. done a s) e))
quiet_then P t (failed x s) f e p k = subst P (sym e) p
quiet_then P t (panicked s) f e p k = subst P (sym e) p

module _ (env : Env) (args : Args) where
  pub proven :
      (manifest : ImageLayout) (boot : String) (v : VerifiedLayout) (s t : List Step)
      → env.manifest ≡ got manifest
      → find_disk env args manifest boot s ≡ done v t
      → Proven env args v
  unfolding find_disk verify
  proven manifest boot v s t m h =
      let (observed, t1, r1, h1) = then_run-eq-done (ask (env.lsblk 0) s) _ h in
      let (found, t2, r2, h2) =
        then_run-eq-done (need (boot_parent_disk observed boot) _ t1) _ h1 in
      let (table, t3, r3, h3) = then_run-eq-done (ask (env.sfdisk 0 (node found).path) t2) _ h2 in
      let (w, t4, r4, h4) =
        then_run-eq-done (verify env args manifest boot observed table t3) _ h3 in
      let (udev, t5, r5, h5) = then_run-eq-done (ask (env.udev_lines w.disk_path) t4) _ h4 in
      let (u, t6, r6, h6) =
        then_run-eq-done (refuse_if (not (any (λ line. text_eq line "ID_BUS=usb") udev)) _ t5) _
          h5 in
      subst (Proven env args) (result_eq h6) (record {
        manifest = manifest;
        manifest_read = m;
        boot = boot;
        observed = observed;
        observed_read = ask-eq-done (env.lsblk 0) s t1 r1;
        disk = found;
        table = table;
        table_read = ask-eq-done (env.sfdisk 0 (node found).path) t2 t3 r3;
        verified = checked-eq-done _ t3 t4 r4;
        udev = udev;
        udev_read = ask-eq-done (env.udev_lines w.disk_path) t4 t5 r5;
        on_usb = not-eq-false _ (refuse_if-eq-done _ _ t5 t6 r6);
      })

  attested-Ordered :
      (manifest : ImageLayout) (boot : String) (v : VerifiedLayout) (b : Bool)
      → args.dry_run ≡ b
      → Proven env args v
      → Ordered env args (steps (attested env args manifest boot v b (attest v ∷ [])))
  unfolding attested
  attested-Ordered manifest boot v true e p = only_attested v p refl
  attested-Ordered manifest boot v false e p =
      let (after, same) = prepare_tail env args manifest boot v (attest v ∷ []) in
      prepared v p e after same

  locate-Ordered : (b : Bool) → Ordered env args (steps (locate env args b []))
  unfolding locate
  locate-Ordered true = untouched refl
  locate-Ordered false =
      quiet_then (Ordered env args) [] (ask env.manifest []) _
        (Quiet.holds (Quiet-ask env.manifest) []) (untouched refl)
        (λ manifest m.
          quiet_then (Ordered env args) [] (ask env.findmnt []) _
            (Quiet.holds (Quiet-ask env.findmnt) []) (untouched refl)
            (λ filesystems f.
              quiet_then (Ordered env args) [] (need (first filesystems) _ []) _
                (Quiet.holds (Quiet-need (first filesystems) _) []) (untouched refl)
                (λ boot g.
                  quiet_then (Ordered env args) [] (find_disk env args manifest boot []) _
                    (Quiet.holds (find_disk-Quiet env args manifest boot) []) (untouched refl)
                    (λ v h.
                      let p = proven manifest boot v [] [] (ask-eq-done env.manifest [] [] m) h in
                      with_attest manifest boot v p (take env args (attest v) [])
                        (steps-take env args (attest v) [])))))
    where
      with_attest :
          (manifest : ImageLayout) (boot : String) (v : VerifiedLayout)
          → Proven env args v
          → (run : Run (Unit {0})) → steps run ≡ attest v ∷ []
          → Ordered env args
              (steps (then_run run (λ _. attested env args manifest boot v args.dry_run)))
      with_attest manifest boot v p run e =
          quiet_then (Ordered env args) (attest v ∷ []) run
            (λ _. attested env args manifest boot v args.dry_run) e (only_attested v p refl)
            (λ u g. attested-Ordered manifest boot v args.dry_run refl p)

  -- Whatever the system answers and whichever step fails, a run takes no step; or its first step is
  -- the attestation of a layout that the verification returned, for a disk that udev has on the USB
  -- bus; and where there is a second step the run is no dry run, and that step locks the disk of
  -- the layout.
  pub execute-Ordered : Ordered env args (steps (execute env args []))
  unfolding execute
  execute-Ordered = locate-Ordered (any (λ word. text_eq word "rigos.stateless=1") env.cmdline)
