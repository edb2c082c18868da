-- ===== src/Config/Store.antt =====
-- The state directory as crates/rigos-config uses it: paths below it, what stands at a path, and
-- the operations of std::fs, each of which may fail.
pub mod Laws
pub mod Keeps
pub mod Tree
pub mod Leaves
pub mod Ends
pub mod Quiet
use text.Mathlib.Text.{◌==◌ as text_eq}
use rigos.Base.{
  ℕ, ◌+◌, String, Bool, true, false, not, ◌&&◌, ◌||◌, Option, none, some, List, [], ◌∷◌, ◌++◌,
  if◌then◌else◌,
}
use rigos.Config.Error.{ConfigError, error}

-- A path by its components, from the state directory on.
abbrev pub FilePath : Type 0
FilePath = List String

unfoldable pub path_eq : FilePath → FilePath → Bool
path_eq [] [] = true
path_eq (a ∷ p) (b ∷ q) = text_eq a b && path_eq p q
path_eq _ _ = false

-- `C` are the contents that files have; a write that fails leaves a file that no reader takes.
pub data Entry {ℓ} (C : Type ℓ) : Type ℓ where
  file : C → Entry C
  torn : Entry C
  link : FilePath → Entry C
  dir : Entry C

pub record Slot {ℓ} (C : Type ℓ) : Type ℓ where
  pub path : FilePath
  pub entry : Entry C

-- What the operations act on: the disk, the runtime behind `RuntimeOps`, and the number of system
-- calls made, by which the environment says which of them fail.
pub record World {ℓ κ} (C : Type ℓ) (R : Type κ) : Type (ℓ ⊔ κ) where
  pub disk : List (Slot C)
  pub runtime : R
  pub clock : ℕ

pub data Ran {ℓ κ} (W : Type κ) (A : Type ℓ) : Type (ℓ ⊔ κ) where
  done : A → W → Ran W A
  failed : ConfigError → W → Ran W A

abbrev pub Io {ℓ κ} : Type κ → Type ℓ → Type (ℓ ⊔ κ)
Io W A = W → Ran W A

abbrev pub then_do {ℓ κ ν} :
    {W : Type κ} {A : Type ℓ} {B : Type ν} → Ran W A → (A → Io W B) → Ran W B
then_do (done a w) f = f a w
then_do (failed e w) f = failed e w

infixl 5 ◌>>=◌ ◌>>◌
abbrev pub ◌>>=◌ {ℓ κ ν} : {W : Type κ} {A : Type ℓ} {B : Type ν} → Io W A → (A → Io W B) → Io W B
(m >>= f) w = then_do (m w) f

abbrev pub ◌>>◌ {κ ν} : {W : Type κ} {B : Type ν} → Io W (Unit {0}) → Io W B → Io W B
(m >> k) = m >>= λ _. k

abbrev pub pure {ℓ κ} : {W : Type κ} {A : Type ℓ} → A → Io W A
pure a w = done a w

abbrev pub throw {ℓ κ} : {W : Type κ} {A : Type ℓ} → ConfigError → Io W A
throw e w = failed e w

abbrev pub caught {ℓ κ} : {W : Type κ} {A : Type ℓ} → ConfigError → Ran W A → Ran W A
caught e (done a w) = done a w
caught e (failed d w) = failed e w

-- `m.map_err(|_| e)`.
abbrev pub map_err {ℓ κ} : {W : Type κ} {A : Type ℓ} → ConfigError → Io W A → Io W A
map_err e m w = caught e (m w)

abbrev pub left {ℓ κ} : {W : Type κ} {A : Type ℓ} → Ran W A → W
left (done a w) = w
left (failed e w) = w

-- `let _ = m;`
abbrev pub ignored {ℓ κ} : {W : Type κ} {A : Type ℓ} → Io W A → Io W (Unit {0})
ignored m w = done tt (left (m w))

-- `if b { return Err(e); }`
abbrev pub fail_when {κ} : {W : Type κ} → Bool → ConfigError → Io W (Unit {0})
fail_when true e w = failed e w
fail_when false e w = done tt w

-- The text of the operating system's error, after the colon in the source, is left out of the
-- message.
unfoldable pub io_failure : ConfigError
io_failure = error "RIGOS_CONFIG_INVALID_VALUE" none none none "I/O operation failed"

unfoldable pub invalid_json : ConfigError
invalid_json = error "RIGOS_CONFIG_INVALID_VALUE" none none none "required JSON state is invalid"

unfoldable pub write_failed : ConfigError
write_failed = error "RIGOS_CONFIG_INVALID_VALUE" none none none "proposal write failed"

module _ {ℓ} {C : Type ℓ} where
  unfoldable pub get : FilePath → List (Slot C) → Option (Entry C)
  get p [] = none
  get p (s ∷ d) = if path_eq s.path p then some s.entry else get p d

  unfoldable pub remove : FilePath → List (Slot C) → List (Slot C)
  remove p [] = []
  remove p (s ∷ d) = let rest = remove p d in if path_eq s.path p then rest else s ∷ rest

  unfoldable pub put : FilePath → Entry C → List (Slot C) → List (Slot C)
  unfolding remove
  put p e d = record { path = p; entry = e } ∷ remove p d

  abbrev pub is_dir : Option (Entry C) → Bool
  is_dir (some dir) = true
  is_dir _ = false

  abbrev pub removed : FilePath → Option (Entry C) → List (Slot C) → Option (List (Slot C))
  removed p none d = none
  removed p (some e) d = if is_dir (some e) then none else some (remove p d)

  abbrev pub linked :
      FilePath → FilePath → Option (Entry C) → List (Slot C) → Option (List (Slot C))
  linked target p none d = some (put p (link target) d)
  linked target p (some _) d = none

  abbrev pub moved :
      FilePath
      → FilePath
      → Option (Entry C)
      → Option (Entry C)
      → List (Slot C)
      → Option (List (Slot C))
  moved p q none at d = none
  moved p q (some e) at d =
      if is_dir (some e) || is_dir at then none else some (put q e (remove p d))

  abbrev pub to_write : Option (Entry C) → FilePath → List (Slot C) → Option (List (Slot C))
  to_write none p d = some (put p torn d)
  to_write (some _) p d = none

  abbrev pub link_of : Option (Entry C) → Option FilePath
  link_of (some (link t)) = some t
  link_of _ = none

  abbrev pub is_there : Option (Entry C) → Bool
  is_there none = false
  is_there (some _) = true

  abbrev pub is_plain : Option (Entry C) → Bool
  is_plain (some (file _)) = true
  is_plain (some torn) = true
  is_plain _ = false

-- `faults n` says whether the n-th system call fails.
module _ {ℓ κ} {C : Type ℓ} {R : Type κ} (faults : ℕ → Bool) where
  abbrev pub tick : World C R → World C R
  tick w = record w { clock = w.clock + 1 }

  abbrev pub with_disk : List (Slot C) → World C R → World C R
  with_disk d w = record w { disk = d; clock = w.clock + 1 }

  -- One system call: it fails, or it leaves the disk `d`.
  unfoldable pub call : Option (List (Slot C)) → Io (World C R) (Unit {0})
  call none w = failed io_failure (tick w)
  call (some d) w = if faults w.clock then failed io_failure (tick w) else done tt (with_disk d w)

  unfoldable pub remove_file : FilePath → Io (World C R) (Unit {0})
  unfolding call get remove
  remove_file p w = call (removed p (get p w.disk) w.disk) w

  unfoldable pub create_symlink : FilePath → FilePath → Io (World C R) (Unit {0})
  unfolding call get put
  create_symlink target p w = call (linked target p (get p w.disk) w.disk) w

  -- `fs::rename` of what is no directory.
  unfoldable pub rename : FilePath → FilePath → Io (World C R) (Unit {0})
  unfolding call get remove put
  rename p q w = call (moved p q (get p w.disk) (get q w.disk) w.disk) w

  unfoldable pub create_new : FilePath → Io (World C R) (Unit {0})
  unfolding call get put
  create_new p w = call (to_write (get p w.disk) p w.disk) w

  unfoldable pub write_all : FilePath → C → Io (World C R) (Unit {0})
  unfolding call put
  write_all p c w = call (some (put p (file c) w.disk)) w

  -- `write_private_json`: a new file, and the write, which leaves the file torn where it fails.
  unfoldable pub write_new : FilePath → C → Io (World C R) (Unit {0})
  unfolding create_new write_all
  write_new p c = create_new p >> map_err write_failed (write_all p c)

  abbrev pub content : Option (Entry C) → Io (World C R) C
  content (some (file c)) w = done c w
  content (some torn) w = failed invalid_json w
  content _ w = failed io_failure w

  -- `read_json`, of a file within its bound of 2 MiB.
  unfoldable pub read_file : FilePath → Io (World C R) C
  unfolding get
  read_file p w =
      if faults w.clock then failed io_failure (tick w) else content (get p w.disk) (tick w)

  -- `read_link(p).ok()`: an error is none.
  unfoldable pub read_link : FilePath → Io (World C R) (Option FilePath)
  unfolding get
  read_link p w = done (if faults w.clock then none else link_of (get p w.disk)) (tick w)

  -- `Path::exists` and `Path::is_file`: an error is false.
  unfoldable pub exists : FilePath → Io (World C R) Bool
  unfolding get
  exists p w = done (if faults w.clock then false else is_there (get p w.disk)) (tick w)

  unfoldable pub is_file : FilePath → Io (World C R) Bool
  unfolding get
  is_file p w = done (if faults w.clock then false else is_plain (get p w.disk)) (tick w)
