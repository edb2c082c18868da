-- ===== src/State/Init.antt =====
-- crates/rigos-state/src/main.rs: the run of the program, with the steps that it takes on the
-- system in their order.
pub mod Order
pub mod Verified
pub mod Growth
mod Examples
use text.Mathlib.Text.{◌==◌ as text_eq}
use rigos.Base.{
  ℕ, ◌+◌, ◌-◌, ◌*◌, String, Bool, true, false, not, ◌||◌, Option, none, some, List, [], ◌∷◌, any,
  ltb, ◌==◌, if◌then◌else◌, Result, ok, err, panic,
}
use rigos.Base.Text.Chars.{eq_ignore_ascii_case}
use rigos.State.Manifest.{ImageLayout}
use rigos.State.Device.{
  BlockDevice, node, LsblkDocument, SfdiskDocument, VerifiedLayout, LayoutError,
  ambiguous_boot_device, not_writable_usb,
}
use rigos.State.Layout.{boot_parent_disk, validate_layout, validate_layout_for_attestation}
use rigos.State.Geometry.{InitError, io, json, layout, discovery, command, intended_size}

pub data StateOutcome : Type 0 where
  ready grown limited_capacity stateless blocked_layout_mismatch blocked_ambiguous_boot_device :
      StateOutcome

-- The steps that change something: the attestation file, the lock of the disk, the commands that
-- write, and the records in the state partition.
pub data Step : Type 0 where
  attest : VerifiedLayout → Step
  lock : String → Step
  resize_partition : String → ℕ → ℕ → Step
  update_kernel : String → Step
  settle : Step
  check_filesystem : String → Step
  resize_filesystem : String → Step
  set_label : String → Step
  make_mountpoint : String → Step
  mount : String → Step
  record_state : ℕ → Step
  unlock : Step

pub data Reply {ℓ} (A : Type ℓ) : Type ℓ where
  got : A → Reply A
  lost : InitError → Reply A

-- What the system answers: the documents and outputs that are read, the first and the second time
-- where it is done twice, and whether each step succeeds.
pub record Env : Type 0 where
  pub cmdline : List String
  pub manifest : Reply ImageLayout
  pub findmnt : Reply (List String)
  pub lsblk : ℕ → Reply LsblkDocument
  pub sfdisk : ℕ → String → Reply SfdiskDocument
  pub udev_lines : String → Reply (List String)
  pub blkid_lines : String → Reply (List String)
  pub is_mounted : Reply Bool
  pub takes : Step → Reply (Unit {0})

pub record Args : Type 0 where
  pub mountpoint : String
  pub dry_run : Bool
  pub attestation_only : Bool

-- A run with the steps so far, the last one first.
pub data Run {ℓ} (A : Type ℓ) : Type ℓ where
  done : A → List Step → Run A
  failed : InitError → List Step → Run A
  panicked : List Step → Run A

abbrev pub Act {ℓ} : Type ℓ → Type ℓ
Act A = List Step → Run A

abbrev pub then_run {ℓ κ} : {A : Type ℓ} {B : Type κ} → Run A → (A → Act B) → Run B
then_run (done a t) f = f a t
then_run (failed e t) f = failed e t
then_run (panicked t) f = panicked t

infixl 5 ◌>>=◌ ◌>>◌
abbrev pub ◌>>=◌ {ℓ κ} : {A : Type ℓ} {B : Type κ} → Act A → (A → Act B) → Act B
(m >>= f) t = then_run (m t) f

abbrev pub ◌>>◌ {ℓ} : {B : Type ℓ} → Act (Unit {0}) → Act B → Act B
(m >> k) = m >>= λ _. k

abbrev pub pure {ℓ} : {A : Type ℓ} → A → Act A
pure a t = done a t

abbrev pub ask {ℓ} : {A : Type ℓ} → Reply A → Act A
ask (got a) t = done a t
ask (lost e) t = failed e t

abbrev pub checked {ℓ} : {A : Type ℓ} → Result LayoutError A → Act A
checked (ok a) t = done a t
checked (err e) t = failed (layout e) t
checked panic t = panicked t

abbrev pub computed {ℓ} : {A : Type ℓ} → Result InitError A → Act A
computed (ok a) t = done a t
computed (err e) t = failed e t
computed panic t = panicked t

abbrev pub refuse_if : Bool → InitError → Act (Unit {0})
refuse_if true e t = failed e t
refuse_if false e t = done tt t

abbrev pub need {ℓ} : {A : Type ℓ} → Option A → InitError → Act A
need none e t = failed e t
need (some a) e t = done a t

abbrev pub first : List String → Option String
first [] = none
first (x ∷ xs) = some x

abbrev pub answered : Reply (Unit {0}) → Act (Unit {0})
answered (got u) t = done tt t
answered (lost e) t = failed e t

-- The post-grow test: the same start and identifier, and the intended size.
unfoldable pub differs : VerifiedLayout → VerifiedLayout → ℕ → Bool
unfolding eq_ignore_ascii_case
differs refreshed verified size =
    not (refreshed.state_start_lba == verified.state_start_lba)
    || not (refreshed.state_size_lba == size)
    || not (eq_ignore_ascii_case refreshed.state_unique_guid verified.state_unique_guid)

abbrev pub outcome_of : Bool → StateOutcome
outcome_of b = if b then grown else ready

module _ (env : Env) (args : Args) where
  -- A step stays in the trace where it fails: it may have been taken in part.
  abbrev pub take : Step → Act (Unit {0})
  take s t = answered (env.takes s) (s ∷ t)

  unfoldable pub verify : ImageLayout → String → LsblkDocument → SfdiskDocument → Act VerifiedLayout
  verify manifest boot observed table = checked (
      if args.attestation_only
      then validate_layout_for_attestation manifest observed table boot args.mountpoint
      else validate_layout manifest observed table boot)

  -- From the manifest to the layout of the verified disk, which must be on the USB bus.
  unfoldable pub find_disk : ImageLayout → String → Act VerifiedLayout
  unfolding verify
  find_disk manifest boot = do
    observed ← ask (env.lsblk 0)
    found ← need (boot_parent_disk observed boot) (discovery "boot parent disk was not found")
    table ← ask (env.sfdisk 0 (node found).path)
    verified ← verify manifest boot observed table
    udev ← ask (env.udev_lines verified.disk_path)
    refuse_if (not (any (λ line. text_eq line "ID_BUS=usb") udev)) (layout not_writable_usb)
    pure verified

  -- The growth of the partition, and the second verification after it.
  unfoldable pub grow : ImageLayout → String → VerifiedLayout → ℕ → Act Bool
  unfolding differs
  grow manifest boot verified size = do
    take (resize_partition verified.disk_path verified.state_start_lba size)
    take (update_kernel verified.disk_path)
    take settle
    observed ← ask (env.lsblk 1)
    table ← ask (env.sfdisk 1 verified.disk_path)
    refreshed ← checked (validate_layout manifest observed table boot)
    refuse_if (differs refreshed verified size)
        (discovery "post-grow geometry did not match the intended monotonic update")
    pure true

  unfoldable pub grow_if : ImageLayout → String → VerifiedLayout → ℕ → Bool → Act Bool
  unfolding grow
  grow_if manifest boot verified size false = pure false
  grow_if manifest boot verified size true = grow manifest boot verified size

  unfoldable pub take_unless : Bool → Step → Act (Unit {0})
  take_unless true s = pure tt
  take_unless false s = take s

  unfoldable pub fill : ImageLayout → String → VerifiedLayout → ℕ → Act StateOutcome
  unfolding grow_if take_unless
  fill manifest boot verified size = do
    has_grown ← grow_if manifest boot verified size (ltb verified.state_size_lba size)
    take (check_filesystem verified.state_path)
    take (resize_filesystem verified.state_path)
    blkid ← ask (env.blkid_lines verified.state_path)
    take_unless (any (λ line. text_eq line "LABEL=RIGOS_STATE") blkid)
        (set_label verified.state_path)
    take (make_mountpoint args.mountpoint)
    mounted ← ask env.is_mounted
    take_unless mounted (mount verified.state_path)
    take (record_state size)
    take unlock
    pure (outcome_of has_grown)

  unfoldable pub size_and_fill : ImageLayout → String → VerifiedLayout → Act StateOutcome
  unfolding intended_size fill
  size_and_fill manifest boot verified = do
    size ← computed (
        intended_size verified.disk_size_bytes manifest.logical_sector_size manifest.alignment_lba
          verified.state_start_lba)
    fill manifest boot verified size

  -- After the attestation, with the lock of the disk.
  unfoldable pub prepare : ImageLayout → String → VerifiedLayout → Act StateOutcome
  unfolding size_and_fill
  prepare manifest boot verified =
      take (lock verified.disk_path) >> size_and_fill manifest boot verified

  unfoldable pub attested : ImageLayout → String → VerifiedLayout → Bool → Act StateOutcome
  unfolding prepare
  attested manifest boot verified true = pure ready
  attested manifest boot verified false = prepare manifest boot verified

  unfoldable pub locate : Bool → Act StateOutcome
  unfolding find_disk attested
  locate true = pure stateless
  locate false = do
    manifest ← ask env.manifest
    filesystems ← ask env.findmnt
    boot ← need (first filesystems) (discovery "live medium has no block identity")
    verified ← find_disk manifest boot
    take (attest verified)
    attested manifest boot verified args.dry_run

  unfoldable pub execute : Act StateOutcome
  unfolding locate
  execute = locate (any (λ word. text_eq word "rigos.stateless=1") env.cmdline)

-- `main`: the outcome that is written to the status file.
unfoldable pub outcome : Run StateOutcome → Option StateOutcome
outcome (done o t) = some o
outcome (failed (layout ambiguous_boot_device) t) = some blocked_ambiguous_boot_device
outcome (failed (discovery m) t) = some blocked_ambiguous_boot_device
outcome (failed (layout e) t) = some blocked_layout_mismatch
outcome (failed e t) = some limited_capacity
outcome (panicked t) = none
