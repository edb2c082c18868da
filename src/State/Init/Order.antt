-- ===== src/State/Init/Order.antt =====
-- The order of the steps: nothing is changed before the disk is verified and locked.
use text.Mathlib.Text.{◌==◌ as text_eq}
use mathlib.Core.List.{append_assoc}
use rigos.Base.{
  ℕ, String, ◌≡◌, refl, sym, ◌∙◌, ap, Bool, true, false, Option, none, some, List, [], ◌∷◌, ◌++◌,
  any, Result, ok, err, panic, if◌then◌else◌,
}
use rigos.State.Manifest.{ImageLayout}
use rigos.State.Device.{
  BlockDevice, node, LsblkDocument, SfdiskDocument, VerifiedLayout, LayoutError,
}
use rigos.State.Layout.{validate_layout, validate_layout_for_attestation}
use rigos.State.Geometry.{InitError}
use rigos.State.Init.{
  Step, attest, lock, Reply, got, lost, Env, Args, Run, done, failed, panicked, Act, then_run,
  ◌>>=◌, pure, ask, checked, computed, refuse_if, need, answered, take, verify, find_disk, grow,
  grow_if, take_unless, fill, size_and_fill, prepare,
}

abbrev pub steps {ℓ} : {A : Type ℓ} → Run A → List Step
steps (done a t) = t
steps (failed e t) = t
steps (panicked t) = t

-- An action that only adds steps to those before it.
pub record Extends {ℓ} {A : Type ℓ} (m : Act A) : Type 0 where
  pub holds : (t : List Step) → (after : List Step) × (steps (m t) ≡ after ++ t)

-- An action that takes no step.
pub record Quiet {ℓ} {A : Type ℓ} (m : Act A) : Type 0 where
  pub holds : (t : List Step) → steps (m t) ≡ t

then_run-Quiet {ℓ κ} :
    {A : Type ℓ} {B : Type κ} (run : Run A) (f : A → Act B)
    → ((a : A) → Quiet (f a))
    → steps (then_run run f) ≡ steps run
then_run-Quiet (done a t) f k = Quiet.holds (k a) t
then_run-Quiet (failed e t) f k = refl
then_run-Quiet (panicked t) f k = refl

then_run-Extends {ℓ κ} :
    {A : Type ℓ} {B : Type κ} (run : Run A) (f : A → Act B)
    → ((a : A) → Extends (f a))
    → (after : List Step) × (steps (then_run run f) ≡ after ++ steps run)
then_run-Extends (done a t) f k = Extends.holds (k a) t
then_run-Extends (failed e t) f k = ([], refl)
then_run-Extends (panicked t) f k = ([], refl)

module _ {ℓ κ} {A : Type ℓ} {B : Type κ} where
  pub Quiet-bind : (m : Act A) (f : A → Act B) → Quiet m → ((a : A) → Quiet (f a)) → Quiet (m >>= f)
  Quiet-bind m f h k = record { holds = λ t. then_run-Quiet (m t) f k ∙ Quiet.holds h t }

  pub Extends-bind :
      (m : Act A) (f : A → Act B) → Extends m → ((a : A) → Extends (f a)) → Extends (m >>= f)
  Extends-bind m f h k = record {
    holds = λ t.
        let (a, e) = Extends.holds h t in
        let (b, g) = then_run-Extends (m t) f k in
        (b ++ a, g ∙ ap (λ x. b ++ x) e ∙ sym (append_assoc b a t));
  }

pub Quiet-Extends {ℓ} : {A : Type ℓ} (m : Act A) → Quiet m → Extends m
Quiet-Extends m h = record { holds = λ t. ([], Quiet.holds h t) }

module _ {ℓ} {A : Type ℓ} where
  pub Quiet-pure : (a : A) → Quiet (pure a)
  Quiet-pure a = record { holds = λ t. refl }

  pub Quiet-ask : (r : Reply A) → Quiet (ask r)
  Quiet-ask (got a) = record { holds = λ t. refl }
  Quiet-ask (lost e) = record { holds = λ t. refl }

  pub Quiet-checked : (r : Result LayoutError A) → Quiet (checked r)
  Quiet-checked (ok a) = record { holds = λ t. refl }
  Quiet-checked (err e) = record { holds = λ t. refl }
  Quiet-checked panic = record { holds = λ t. refl }

  pub Quiet-computed : (r : Result InitError A) → Quiet (computed r)
  Quiet-computed (ok a) = record { holds = λ t. refl }
  Quiet-computed (err e) = record { holds = λ t. refl }
  Quiet-computed panic = record { holds = λ t. refl }

  pub Quiet-need : (o : Option A) (e : InitError) → Quiet (need o e)
  Quiet-need none e = record { holds = λ t. refl }
  Quiet-need (some a) e = record { holds = λ t. refl }

pub Quiet-refuse_if : (b : Bool) (e : InitError) → Quiet (refuse_if b e)
Quiet-refuse_if true e = record { holds = λ t. refl }
Quiet-refuse_if false e = record { holds = λ t. refl }

steps-answered : (r : Reply (Unit {0})) (t : List Step) → steps (answered r t) ≡ t
steps-answered (got u) t = refl
steps-answered (lost e) t = refl

ruleset quiet =
    (Quiet-bind, Quiet-pure, Quiet-ask, Quiet-checked, Quiet-computed, Quiet-need, Quiet-refuse_if)

module _ (env : Env) (args : Args) where
  pub steps-take : (s : Step) (t : List Step) → steps (take env args s t) ≡ s ∷ t
  steps-take s t = steps-answered (env.takes s) (s ∷ t)

  Extends-take : (s : Step) → Extends (take env args s)
  Extends-take s = record { holds = λ t. (s ∷ [], steps-take s t) }

  Extends-take_unless : (b : Bool) (s : Step) → Extends (take_unless env args b s)
  unfolding take_unless
  Extends-take_unless true s = Quiet-Extends _ (Quiet-pure tt)
  Extends-take_unless false s = Extends-take s

  pub find_disk-Quiet :
      (manifest : ImageLayout) (boot : String) → Quiet (find_disk env args manifest boot)
  unfolding find_disk verify
  find_disk-Quiet manifest boot = search quiet depth 20

  grow-Extends :
      (manifest : ImageLayout) (boot : String) (v : VerifiedLayout) (n : ℕ)
      → Extends (grow env args manifest boot v n)
  unfolding grow
  grow-Extends manifest boot v n =
      search (Extends-bind, Extends-take, Quiet-Extends, quiet) depth 20

  grow_if-Extends :
      (manifest : ImageLayout) (boot : String) (v : VerifiedLayout) (n : ℕ) (b : Bool)
      → Extends (grow_if env args manifest boot v n b)
  unfolding grow_if
  grow_if-Extends manifest boot v n true = grow-Extends manifest boot v n
  grow_if-Extends manifest boot v n false = Quiet-Extends _ (Quiet-pure false)

  fill-Extends :
      (manifest : ImageLayout) (boot : String) (v : VerifiedLayout) (n : ℕ)
      → Extends (fill env args manifest boot v n)
  unfolding fill
  fill-Extends manifest boot v n =
      search
        (Extends-bind, Extends-take, Extends-take_unless, grow_if-Extends, Quiet-Extends, quiet)
        depth 30

  size-Extends :
      (manifest : ImageLayout) (boot : String) (v : VerifiedLayout)
      → Extends (size_and_fill env args manifest boot v)
  unfolding size_and_fill
  size-Extends manifest boot v = search (Extends-bind, fill-Extends, Quiet-Extends, quiet) depth 10

  pub prepare_tail :
      (manifest : ImageLayout) (boot : String) (v : VerifiedLayout) (t : List Step)
      → (after : List Step) × (steps (prepare env args manifest boot v t)
          ≡ after ++ (lock v.disk_path ∷ t))
  unfolding prepare
  prepare_tail manifest boot v t =
      let l = lock v.disk_path in
      let (after, e) =
        then_run-Extends (take env args l t) (λ _. size_and_fill env args manifest boot v)
          (λ _. size-Extends manifest boot v) in
      (after, e ∙ ap (λ x. after ++ x) (steps-take l t))

  -- What the disk has passed before anything is done to it.
  pub record Proven (v : VerifiedLayout) : Type 0 where
    pub manifest : ImageLayout
    pub manifest_read : env.manifest ≡ got manifest
    pub boot : String
    pub observed : LsblkDocument
    pub observed_read : env.lsblk 0 ≡ got observed
    pub disk : BlockDevice
    pub table : SfdiskDocument
    pub table_read : env.sfdisk 0 (node disk).path ≡ got table
    pub verified :
        (if args.attestation_only
          then validate_layout_for_attestation manifest observed table boot args.mountpoint
          else validate_layout manifest observed table boot)
        ≡ ok v
    pub udev : List String
    pub udev_read : env.udev_lines v.disk_path ≡ got udev
    pub on_usb : any (λ line. text_eq line "ID_BUS=usb") udev ≡ true

  -- The order of the steps, the last one first.
  pub data Ordered (t : List Step) : Type 0 where
    untouched : t ≡ [] → Ordered t
    only_attested : (v : VerifiedLayout) → Proven v → t ≡ attest v ∷ [] → Ordered t
    prepared :
        (v : VerifiedLayout)
        → Proven v
        → args.dry_run ≡ false
        → (after : List Step) → t ≡ after ++ (lock v.disk_path ∷ attest v ∷ [])
        → Ordered t
