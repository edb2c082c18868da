-- ===== src/State/Layout/Table.antt =====
-- The loop of validate_layout over the entries of sfdisk.
use rigos.Base.{
  ℕ, ◌+◌, ◌≤◌, ◌≡◌, Bool, true, false, not, some, List, [], ◌∷◌, ok, fail_if-ok, fail_if-eq-ok,
  ok_or-eq-ok, >>=-eq-ok, not-eq-false, or-eq-false, ltb, ◌==◌, arith, ==_iff, if◌then◌else◌,
}
use rigos.State.Manifest.{ImageLayout, ImagePartition}
use rigos.State.Device.{SfdiskPartition}
use rigos.State.Ids.{eq_mbr_type}
use rigos.State.Layout.{contract_of, entry_differs, check_entry, check_table}

-- An entry of the partition table, under its number: start, size and type as the manifest says,
-- and only the first entry is active.
pub record IsTableEntry (manifest : ImageLayout) (number : ℕ) (p : SfdiskPartition) : Type 0 where
  pub contract : ImagePartition
  pub listed : contract_of number manifest.partitions ≡ some contract
  pub start : p.start ≡ contract.start_lba
  pub room : contract.minimum_size_lba ≤ p.size
  pub type : eq_mbr_type (some p.partition_type) contract.type_guid ≡ true
  pub active : p.bootable ≡ (number == 1)

abbrev pub Numbered : (ℕ → SfdiskPartition → Type 0) → ℕ → List SfdiskPartition → Type 0
Numbered P n [] = Unit
Numbered P n (p ∷ ps) = P n p × Numbered P (n + 1) ps

pub not_below : (a b : ℕ) → ltb a b ≡ false → b ≤ a
not_below a b h = ground arith

active_first : (b t : Bool) → (if t then not b else b) ≡ false → b ≡ t
active_first b t h = ground arith

module _ (manifest : ImageLayout) where
  differs :
      (n : ℕ) (c : ImagePartition) (p : SfdiskPartition)
      → entry_differs manifest n c p ≡ false
      → (p.start ≡ c.start_lba)
        × (c.minimum_size_lba ≤ p.size)
        × (eq_mbr_type (some p.partition_type) c.type_guid ≡ true)
        × (p.bootable ≡ (n == 1))
  unfolding entry_differs
  differs n c p h =
      let (l2, active) = or-eq-false _ _ h in
      let (l1, type) = or-eq-false _ _ l2 in
      let (start, room) = or-eq-false _ _ l1 in
      (
        (==_iff p.start c.start_lba).0 (not-eq-false _ start),
        not_below p.size c.minimum_size_lba room,
        not-eq-false _ type,
        active_first p.bootable (n == 1) active,
      )

  entry-IsTableEntry :
      (n : ℕ) (p : SfdiskPartition) → check_entry manifest n p ≡ ok tt → IsTableEntry manifest n p
  unfolding check_entry
  entry-IsTableEntry n p h =
      let (small, h1) = fail_if-eq-ok (ltb 4294967295 n) _ _ h in
      let (contract, listed, h2) = ok_or-eq-ok (contract_of n manifest.partitions) _ _ h1 in
      let d = differs n contract p (fail_if-ok _ _ h2) in
      record {
        contract = contract;
        listed = listed;
        start = d.0;
        room = d.1;
        type = d.2;
        active = d.3;
      }

  pub table-Numbered :
      (n : ℕ) (ps : List SfdiskPartition)
      → check_table manifest n ps ≡ ok tt
      → Numbered (IsTableEntry manifest) n ps
  unfolding check_table
  table-Numbered n [] h = tt
  table-Numbered n (p ∷ ps) h =
      let (u, first, rest) = >>=-eq-ok (check_entry manifest n p) _ h in
      (entry-IsTableEntry n p first, table-Numbered (n + 1) ps rest)
