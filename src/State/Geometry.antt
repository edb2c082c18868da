-- ===== src/State/Geometry.antt =====
-- crates/rigos-state/src/main.rs: the size that the state partition is to have.
pub mod Aligned
use rigos.Base.{
  ℕ, ◌+◌, ◌-◌, ◌*◌, ◌/◌, String, Bool, true, false, Result, ok, err, panic, ◌>>=◌, ok_or, Option,
  some, none, ltb, ◌==◌, if◌then◌else◌,
}
use rigos.State.Device.{LayoutError}

-- The errors of the program. What an error of the system or of a decoder says is left out.
pub data InitError : Type 0 where
  io json : InitError
  layout : LayoutError → InitError
  discovery : String → InitError
  command : String → InitError

-- `a.checked_sub(b)`.
abbrev pub checked_sub : ℕ → ℕ → Option ℕ
checked_sub a b = if ltb a b then none else some (a - b)

-- Division of u64, which panics at 0.
abbrev pub quotient : ℕ → ℕ → Result InitError ℕ
quotient a b = if b == 0 then panic else ok (a / b)

-- `value.checked_add(1)`, which does not overflow: the value is below a difference of u64.
abbrev pub plus_one : Option ℕ → Option ℕ
plus_one none = none
plus_one (some value) = some (value + 1)

-- The number of sectors from `start` to the last one that alignment and disk allow.
unfoldable pub intended_size : ℕ → ℕ → ℕ → ℕ → Result InitError ℕ
intended_size disk_size_bytes sector_size alignment start = do
  disk_sectors ← quotient disk_size_bytes sector_size
  blocks ← quotient disk_sectors alignment
  aligned_end ← ok_or (checked_sub (blocks * alignment) 1) (discovery "invalid disk geometry")
  ok_or (plus_one (checked_sub aligned_end start)) (discovery "invalid state geometry")
