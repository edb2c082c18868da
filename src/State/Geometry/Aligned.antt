-- ===== src/State/Geometry/Aligned.antt =====
-- The intended size fills the disk to its last aligned sector, and no further.
use native.Mathlib.Nat.{div-mul-le_self, lt-div-mul-add, le-div_iff_mul-le}
use rigos.Base.{
  ℕ, ◌+◌, ◌*◌, ◌/◌, ◌≤◌, ◌<◌, ◌≡◌, sym, ap, ◌∙◌, ok, ok_or, >>=-eq-ok, ok_or-eq-ok, some, arith,
}
use rigos.State.Geometry.{InitError, checked_sub, quotient, plus_one, intended_size}

pub record IsIntended (disk_size_bytes sector_size alignment start size : ℕ) : Type 0 where
  pub end : start + size ≡ disk_size_bytes / sector_size / alignment * alignment
  pub some_sectors : 1 ≤ size
  pub fits : (start + size) * sector_size ≤ disk_size_bytes
  pub widest : disk_size_bytes / sector_size < start + size + alignment

quotient-eq-ok : (a b n : ℕ) → quotient a b ≡ ok n → (0 < b) × (a / b ≡ n)
quotient-eq-ok a b n h = (ground arith, ground arith)

size_end :
    (count end start size : ℕ) (e : InitError)
    → checked_sub count 1 ≡ some end
    → ok_or (plus_one (checked_sub end start)) e ≡ ok size
    → (start + size ≡ count) × (1 ≤ size)
size_end count end start size e h k = (ground arith, ground arith)

-- A size that is computed is positive, and the partition then ends at the last multiple of the
-- alignment that the disk has room for: it fits on the disk, and one more alignment would not.
pub intended_size-IsIntended :
    (disk_size_bytes sector_size alignment start size : ℕ)
    → intended_size disk_size_bytes sector_size alignment start ≡ ok size
    → IsIntended disk_size_bytes sector_size alignment start size
unfolding intended_size
intended_size-IsIntended disk sector alignment start size h =
    let (sectors, r1, h1) = >>=-eq-ok (quotient disk sector) _ h in
    let (blocks, r2, h2) = >>=-eq-ok (quotient sectors alignment) _ h1 in
    let (last, r3, h3) = ok_or-eq-ok (checked_sub (blocks * alignment) 1) _ _ h2 in
    let (sector_some, e1) = quotient-eq-ok disk sector sectors r1 in
    let (alignment_some, e2) = quotient-eq-ok sectors alignment blocks r2 in
    let (total, positive) = size_end (blocks * alignment) last start size _ r3 h3 in
    let same : start + size ≡ disk / sector / alignment * alignment =
      total ∙ ap (λ b. b * alignment) (sym e2 ∙ ap (λ s. s / alignment) (sym e1)) in
    record {
      end = same;
      some_sectors = positive;
      fits =
          (le-div_iff_mul-le sector_some).0
            (ground (arith, same, div-mul-le_self (disk / sector) alignment));
      widest =
          ground (arith, same, lt-div-mul-add {a = disk / sector} {b = alignment} alignment_some);
    }
