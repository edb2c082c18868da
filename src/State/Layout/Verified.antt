-- ===== src/State/Layout/Verified.antt =====
-- What a verified layout says of the disk, apart from the tests of the code.
use text.Mathlib.TextEquality.{eq_iff}
use rigos.Base.{
  ℕ, ◌/◌, ◌≤◌, String, ◌≡◌, ◌≢◌, refl, ap, ◌⊎◌, inl, inr, true, false, ◌||◌, Option, some, none,
  List, [], ◌∷◌, ok, fail_if-eq-ok, ok_or-eq-ok, >>=-eq-ok, not-eq-false, or-eq-false, ltb, ◌==◌,
  arith, Bool-cases, or_right, fail_if, All, ==_iff,
}
use rigos.State.Manifest.{ImageLayout, ImagePartition}
use rigos.State.Device.{Node, LayoutError}
use rigos.State.Ids.{opt_text_is, opt_nat_eq, eq_id, eq_mbr_type}
use rigos.State.Layout.{div, contract_of, child_differs, check_child, check_children, label_matches}

pub opt_text : (o : Option String) (t : String) → opt_text_is o t ≡ true → o ≡ some t
opt_text none t h = cc
opt_text (some a) t h = ap some ((eq_iff a t).0 h)

pub opt_nat : (a b : Option ℕ) → opt_nat_eq a b ≡ true → a ≡ b
opt_nat none none h = refl
opt_nat none (some b) h = cc
opt_nat (some a) none h = cc
opt_nat (some a) (some b) h = ap some ((==_iff a b).0 h)

abbrev pub IsStateLabel : Option String → Type 0
IsStateLabel label = (label ≡ some "RIGOS_STATE_SEED") ⊎ (label ≡ some "RIGOS_STATE")

abbrev pub IsRootLabel : Option String → Type 0
IsRootLabel label = (label ≡ some "RIGOS_ROOT_A") ⊎ (label ≡ some "RIGOS_ROOT_B")

pub either_text :
    (o : Option String) (s t : String)
    → (opt_text_is o s || opt_text_is o t) ≡ true
    → (o ≡ some s) ⊎ (o ≡ some t)
either_text o s t h = elim (Bool-cases (opt_text_is o s)) [
  | inl e ↦ inl (opt_text o s e)
  | inr e ↦ inr (opt_text o t (or_right e h))
]

-- The contract of a partition, but for its size: its kind, label, identifiers and start.
pub record Fits (manifest : ImageLayout) (number : ℕ) (contract : ImagePartition) (child : Node)
    : Type 0 where
  pub kind : child.device_type ≡ "part"
  pub labelled :
      (number ≡ manifest.final_state_partition) × IsStateLabel child.label
      ⊎ (number ≢ manifest.final_state_partition) × (child.label ≡ some contract.label)
  pub type : eq_mbr_type child.parttype contract.type_guid ≡ true
  pub unique : eq_id child.partuuid contract.unique_guid ≡ true
  pub start : child.start ≡ some contract.start_lba

-- A child of the disk is the partition that the manifest describes under its number, and no
-- smaller than it asks.
pub record IsChild (manifest : ImageLayout) (child : Node) : Type 0 where
  pub number : ℕ
  pub numbered : child.partn ≡ some number
  pub contract : ImagePartition
  pub listed : contract_of number manifest.partitions ≡ some contract
  pub fits : Fits manifest number contract child
  pub room : contract.minimum_size_lba ≤ child.size / manifest.logical_sector_size

pub div-eq-ok : (a b n : ℕ) → div a b ≡ ok n → a / b ≡ n
div-eq-ok a b n h = ground arith

module _ (manifest : ImageLayout) where
  label_fits :
      (number : ℕ) (contract : ImagePartition) (child : Node)
      → label_matches manifest number contract child ≡ true
      → (number ≡ manifest.final_state_partition) × IsStateLabel child.label
        ⊎ (number ≢ manifest.final_state_partition) × (child.label ≡ some contract.label)
  unfolding label_matches
  label_fits number contract child h =
      elim (Bool-cases (number == manifest.final_state_partition)) [
        | inl e ↦
            inl (
              (==_iff _ _).0 e,
              either_text child.label "RIGOS_STATE_SEED" "RIGOS_STATE" (rw e at h),
            )
        | inr e ↦ inr (ground (arith, e), opt_text child.label contract.label (rw e at h))
      ]

  same-Fits :
      (number : ℕ) (contract : ImagePartition) (child : Node)
      → child_differs manifest number contract child ≡ false
      → Fits manifest number contract child
  unfolding child_differs
  same-Fits number contract child h =
      let (l3, start) = or-eq-false _ _ h in
      let (l2, unique) = or-eq-false _ _ l3 in
      let (l1, type) = or-eq-false _ _ l2 in
      let (kind, label) = or-eq-false _ _ l1 in
      record {
        kind = (eq_iff _ _).0 (not-eq-false _ kind);
        labelled = label_fits number contract child (not-eq-false _ label);
        type = not-eq-false _ type;
        unique = not-eq-false _ unique;
        start = opt_nat child.start _ (not-eq-false _ start);
      }

  big_enough :
      (least bytes size : ℕ) (e : LayoutError)
      → div bytes manifest.logical_sector_size ≡ ok size
      → fail_if (ltb size least) e ≡ ok tt
      → least ≤ bytes / manifest.logical_sector_size
  big_enough least bytes size e sized h =
      ground (arith, div-eq-ok bytes manifest.logical_sector_size size sized)

  check_child-IsChild : (child : Node) → check_child manifest child ≡ ok tt → IsChild manifest child
  unfolding check_child
  check_child-IsChild child h =
      let (number, numbered, h1) = ok_or-eq-ok child.partn _ _ h in
      let (contract, listed, h2) = ok_or-eq-ok (contract_of number manifest.partitions) _ _ h1 in
      let (same, h3) = fail_if-eq-ok (child_differs manifest number contract child) _ _ h2 in
      let (size, sized, h4) = >>=-eq-ok (div child.size manifest.logical_sector_size) _ h3 in
      record {
        number = number;
        numbered = numbered;
        contract = contract;
        listed = listed;
        fits = same-Fits number contract child same;
        room = big_enough contract.minimum_size_lba child.size size _ sized h4;
      }

  pub check_children-All :
      (cs : List Node) → check_children manifest cs ≡ ok tt → All (IsChild manifest) cs
  unfolding check_children
  check_children-All [] h = tt
  check_children-All (c ∷ cs) h =
      let (u, first, rest) = >>=-eq-ok (check_child manifest c) _ h in
      (check_child-IsChild c first, check_children-All cs rest)
