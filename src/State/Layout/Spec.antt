-- ===== src/State/Layout/Spec.antt =====
-- validate_layout: what a verified layout says of the disk and of the tables.
use text.Mathlib.TextEquality.{eq_iff}
use rigos.Base.{
  ℕ, ◌/◌, ◌≤◌, String, ◌≡◌, refl, sym, ap, subst, ◌∙◌, ◌⊎◌, inl, inr, Bool, true, false, Option,
  some, none, List, [], ◌∷◌, ok, not-eq-false, or-eq-false, and-eq-true, any, any-eq-false, find,
  find_sound, arith, Bool-cases, or_right, All, All-map, Any, length,
}
use mathlib.Core.Option.{some-injective}
use rigos.State.Manifest.{ImageLayout}
use rigos.State.Device.{
  Node, BlockDevice, node, children, LsblkDocument, SfdiskDocument, VerifiedLayout,
}
use rigos.State.Ids.{eq_disk_id}
use rigos.State.Layout.{
  boot_parent_disk, is_boot, is_boot_parent, is_root, is_part, max_start, max_opt,
  has_foreign_mount, foreign_mount, is_mount_of, validate_layout_with_state_mount, or_zero,
  or_default,
}
use rigos.State.Layout.Table.{IsTableEntry, Numbered, not_below, table-Numbered}
use rigos.State.Layout.Guards.{counts, is_usb, schemas, tables, disk_tables}
use rigos.State.Layout.Run.{Run, validate-Run}
use rigos.State.Layout.Verified.{
  opt_nat, either_text, IsRootLabel, IsStateLabel, IsChild, check_children-All, div-eq-ok,
}

-- A mount point that may stand: none, an empty one, or that of the state partition.
abbrev pub MayMount : ImageLayout → Option String → Node → Option String → Type 0
MayMount manifest verified child none = Unit
MayMount manifest verified child (some mount) =
    (mount ≡ "") ⊎ (child.partn ≡ some manifest.final_state_partition) × (verified ≡ some mount)

-- No start, or one that is no later than `last`.
abbrev pub OptLe : Option ℕ → Option ℕ → Type 0
OptLe none last = Unit
OptLe (some s) none = ⊥
OptLe (some s) (some m) = s ≤ m

abbrev pub StartsBy : Option ℕ → Node → Type 0
StartsBy last child = OptLe child.start last

pub record IsVerified (manifest : ImageLayout) (observed : LsblkDocument) (sfdisk : SfdiskDocument)
    (boot : String) (verified : Option String) (v : VerifiedLayout) : Type 0 where
  pub schema : (manifest.schema ≡ "rigos.image-layout/v2") × (manifest.partition_table ≡ "mbr")
  pub table :
      (sfdisk.partitiontable.label ≡ "dos")
      × (eq_disk_id sfdisk.partitiontable.id manifest.disk_guid ≡ true)
  pub found : BlockDevice
  pub observed_disk : Any (λ d. d ≡ found) observed.blockdevices
  pub kind : (node found).device_type ≡ "disk"
  pub usb : (node found).tran ≡ some "usb"
  pub writable : (node found).ro ≡ false
  pub large : manifest.minimum_media_size_bytes ≤ (node found).size
  pub counted :
      (length (children found) ≡ length manifest.partitions)
      × (length sfdisk.partitiontable.partitions ≡ length manifest.partitions)
  pub parts : All (IsChild manifest) (children found)
  pub entries : Numbered (IsTableEntry manifest) 1 sfdisk.partitiontable.partitions
  pub root : Any (λ (c : Node). (c.major_minor ≡ boot) × IsRootLabel c.label) (children found)
  pub state : Node
  pub state_child : Any (λ c. c ≡ state) (children found)
  pub disk_table :
      ((node found).pttype ≡ some "dos")
      × (id : String) × ((node found).ptuuid ≡ some id)
      × (eq_disk_id id manifest.disk_guid ≡ true)
  pub state_label : IsStateLabel state.label
  pub state_number : state.partn ≡ some manifest.final_state_partition
  pub last : All (StartsBy state.start) (children found)
  pub mounts :
      All
        (λ (c : Node). (c.major_minor ≡ boot) ⊎ All (MayMount manifest verified c) c.mountpoints)
        (children found)
  pub efi : Node
  pub efi_child : Any (λ c. c ≡ efi) (children found)
  pub efi_number : efi.partn ≡ some 1
  pub efi_path : (v.efi_path ≡ efi.path) × (v.efi_major_minor ≡ efi.major_minor)
  pub disk_number : (v.disk_major_minor ≡ (node found).major_minor) × (v.root_major_minor ≡ boot)
  pub disk_size : v.disk_size_bytes ≡ (node found).size
  pub disk_path : v.disk_path ≡ (node found).path
  pub state_path : v.state_path ≡ state.path
  pub state_size : v.state_size_lba ≡ state.size / manifest.logical_sector_size
  pub state_start : v.state_start_lba ≡ or_zero state.start
  pub state_ids :
      (v.state_unique_guid ≡ or_default state.partuuid)
      × (v.state_type_guid ≡ or_default state.parttype)
  pub disk_ids :
      (v.disk_ptuuid ≡ or_default (node found).ptuuid) × (v.efi_partuuid ≡ or_default efi.partuuid)

find→Any :
    {A : Type 0} (p : A → Bool) (ds : List A) (d : A) → find p ds ≡ some d → Any (λ e. e ≡ d) ds
find→Any p [] d h = cc
find→Any p (e ∷ ds) d h = elim (Bool-cases (p e)) [
  | inl t ↦ inl (some-injective e d (rw t at h))
  | inr t ↦ inr (find→Any p ds d (rw t at h))
]

mount_of : (o : Option String) (mount : String) → is_mount_of o mount ≡ true → o ≡ some mount
mount_of none mount h = cc
mount_of (some m) mount h = ap some ((eq_iff m mount).0 h)

module _ (manifest : ImageLayout) where
  module _ (boot : String) (verified : Option String) where
    may_mount :
        (c : Node) (m : Option String)
        → foreign_mount manifest verified c m ≡ false
        → MayMount manifest verified c m
    unfolding foreign_mount
    may_mount c none h = tt
    may_mount c (some String.[]) h = inl refl
    may_mount c (some (String.◌∷◌ x s)) h =
        let (part, own) = and-eq-true _ _ (not-eq-false _ h) in
        inr (opt_nat c.partn _ part, mount_of verified _ own)

    child_mounts :
        (c : Node)
        → has_foreign_mount manifest boot verified c ≡ false
        → (c.major_minor ≡ boot) ⊎ All (MayMount manifest verified c) c.mountpoints
    unfolding has_foreign_mount
    child_mounts c h = elim (Bool-cases (is_boot boot c)) [
      | inl e ↦ inl ((eq_iff c.major_minor boot).0 e)
      | inr e ↦ inr (
          All-map (λ m. foreign_mount manifest verified c m ≡ false) (MayMount manifest verified c)
            c.mountpoints (may_mount c)
            (any-eq-false (foreign_mount manifest verified c) c.mountpoints (rw e at h)))
    ]

OptLe-max_right : (s a b : Option ℕ) → OptLe s b → OptLe s (max_opt a b)
OptLe-max_right none a b h = tt
OptLe-max_right (some s) none b h = h
OptLe-max_right (some s) (some a) (some b) h = ground arith
OptLe-max_right (some s) (some a) none h = elim h [ ]

OptLe-max_left : (a b : Option ℕ) → OptLe a (max_opt a b)
OptLe-max_left none b = tt
OptLe-max_left (some a) none = omega arith
OptLe-max_left (some a) (some b) = ground arith

max_start-All : (cs : List Node) → All (StartsBy (max_start cs)) cs
unfolding max_start
max_start-All [] = tt
max_start-All (c ∷ cs) = (
  OptLe-max_left c.start (max_start cs),
  All-map (StartsBy (max_start cs)) (StartsBy (max_opt c.start (max_start cs))) cs
      (λ d. OptLe-max_right d.start c.start (max_start cs)) (max_start-All cs),
)

root_child :
    (boot : String) (c : Node)
    → is_root boot c ≡ true
    → (c.major_minor ≡ boot) × IsRootLabel c.label
root_child boot c h =
    let (own, label) = and-eq-true _ _ h in
    ((eq_iff c.major_minor boot).0 own, either_text c.label "RIGOS_ROOT_A" "RIGOS_ROOT_B" label)

Any-root :
    (boot : String) (cs : List Node)
    → any (is_root boot) cs ≡ true
    → Any (λ (c : Node). (c.major_minor ≡ boot) × IsRootLabel c.label) cs
Any-root boot [] h = cc
Any-root boot (c ∷ cs) h = elim (Bool-cases (is_root boot c)) [
  | inl e ↦ inl (root_child boot c e)
  | inr e ↦ inr (Any-root boot cs (or_right e h))
]

module _ (manifest : ImageLayout) (observed : LsblkDocument) (sfdisk : SfdiskDocument)
    (boot : String) (verified : Option String) (v : VerifiedLayout) where
  parent :
      (d : BlockDevice)
      → boot_parent_disk observed boot ≡ some d
      → Any (λ e. e ≡ d) observed.blockdevices × ((node d).device_type ≡ "disk")
  unfolding boot_parent_disk
  parent d h =
      let (disk, own) =
        and-eq-true _ _ (find_sound (is_boot_parent boot) observed.blockdevices h) in
      (
        find→Any (is_boot_parent boot) observed.blockdevices d h,
        (eq_iff (node d).device_type "disk").0 disk,
      )

  Run-IsVerified :
      Run manifest observed sfdisk boot verified v
      → IsVerified manifest observed sfdisk boot verified v
  Run-IsVerified r =
      let cs = children r.found in
      let (last, label) = or-eq-false _ _ r.last in
      let latest : r.state.start ≡ max_start cs = opt_nat _ _ (not-eq-false _ last) in
      let (listed, kind) = parent r.found r.at in
      let (usb, writable) = is_usb (node r.found) r.usb in
      record {
        schema = schemas manifest r.schema;
        table = tables manifest sfdisk r.table;
        found = r.found;
        observed_disk = listed;
        kind = kind;
        usb = usb;
        writable = writable;
        large = not_below (node r.found).size manifest.minimum_media_size_bytes r.room;
        counted = counts manifest cs sfdisk r.count;
        parts = check_children-All manifest cs r.parts;
        entries = table-Numbered manifest 1 sfdisk.partitiontable.partitions r.entries;
        root = Any-root boot cs r.root;
        state = r.state;
        state_child = find→Any (is_part manifest.final_state_partition) cs r.state r.state_at;
        disk_table = disk_tables manifest (node r.found) r.disk_table;
        state_label =
            either_text r.state.label "RIGOS_STATE_SEED" "RIGOS_STATE" (not-eq-false _ label);
        state_number =
            opt_nat _ _ (find_sound (is_part manifest.final_state_partition) cs r.state_at);
        last = subst (λ m. All (StartsBy m) cs) (sym latest) (max_start-All cs);
        mounts =
            All-map (λ c. has_foreign_mount manifest boot verified c ≡ false)
              (λ (c : Node).
                (c.major_minor ≡ boot) ⊎ All (MayMount manifest verified c) c.mountpoints)
              cs (child_mounts manifest boot verified)
              (any-eq-false (has_foreign_mount manifest boot verified) cs r.mounts);
        efi = r.efi;
        efi_child = find→Any (is_part 1) cs r.efi r.efi_at;
        efi_number = opt_nat _ _ (find_sound (is_part 1) cs r.efi_at);
        efi_path = (
          sym (ap (λ (w : VerifiedLayout). w.efi_path) r.result),
          sym (ap (λ (w : VerifiedLayout). w.efi_major_minor) r.result),
        );
        disk_number = (
          sym (ap (λ (w : VerifiedLayout). w.disk_major_minor) r.result),
          sym (ap (λ (w : VerifiedLayout). w.root_major_minor) r.result),
        );
        disk_size = sym (ap (λ (w : VerifiedLayout). w.disk_size_bytes) r.result);
        state_start = sym (ap (λ (w : VerifiedLayout). w.state_start_lba) r.result);
        state_ids = (
          sym (ap (λ (w : VerifiedLayout). w.state_unique_guid) r.result),
          sym (ap (λ (w : VerifiedLayout). w.state_type_guid) r.result),
        );
        disk_ids = (
          sym (ap (λ (w : VerifiedLayout). w.disk_ptuuid) r.result),
          sym (ap (λ (w : VerifiedLayout). w.efi_partuuid) r.result),
        );
        disk_path = sym (ap (λ (w : VerifiedLayout). w.disk_path) r.result);
        state_path = sym (ap (λ (w : VerifiedLayout). w.state_path) r.result);
        state_size =
            sym (ap (λ (w : VerifiedLayout). w.state_size_lba) r.result)
            ∙ sym (div-eq-ok r.state.size manifest.logical_sector_size r.size r.sized);
      }

  -- A layout is verified only for a manifest of version 2 with an MBR, and a writable USB disk,
  -- large enough, whose MBR has the identifier of the manifest, and that holds the boot partition
  -- as a root. It has as many partitions as the manifest, each of which is one of the manifest in
  -- lsblk's view; sfdisk's entries are those of the manifest, number by number. The state partition
  -- is one of the disk's, under its number and label, and none of them starts after it; none but
  -- the boot partition is mounted, except the state partition at the mount point that is given; and
  -- the layout is of that disk, that partition and the first partition.
  pub validate-IsVerified :
      validate_layout_with_state_mount manifest observed sfdisk boot verified ≡ ok v
      → IsVerified manifest observed sfdisk boot verified v
  validate-IsVerified h = Run-IsVerified (validate-Run manifest observed sfdisk boot verified v h)
