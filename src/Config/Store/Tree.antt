-- ===== src/Config/Store/Tree.antt =====
-- Directories of the store: their creation, listing, copies into them, and the rename and the
-- removal of a whole tree.
pub mod Laws
pub mod Keeps
use text.Mathlib.Text.{◌==◌ as text_eq}
use rigos.Base.{
  ℕ, ◌+◌, String, Bool, true, false, not, ◌&&◌, ◌||◌, Option, none, some, List, [], ◌∷◌, ◌++◌, any,
  if◌then◌else◌,
}
use rigos.Config.Store.{
  FilePath, path_eq, Entry, file, torn, link, dir, Slot, World, Ran, done, failed, Io, ◌>>=◌, ◌>>◌,
  io_failure, get, put, is_dir, is_plain, tick, call,
}

-- What follows `p` in a path below it.
unfoldable pub strip : FilePath → FilePath → Option FilePath
strip [] q = some q
strip (a ∷ p) [] = none
strip (a ∷ p) (b ∷ q) = let rest = strip p q in if text_eq a b then rest else none

abbrev pub rebased : FilePath → Option FilePath → FilePath → FilePath
rebased q none path = path
rebased q (some r) path = q ++ r

abbrev pub with_name : Option FilePath → List String → List String
with_name (some (name ∷ [])) names = name ∷ names
with_name _ names = names

module _ {ℓ} {C : Type ℓ} where
  abbrev pub is_below : FilePath → Slot C → Bool
  is_below p s = elim (strip p s.path) [ none ↦ false | some r ↦ true ]

  -- What stands below `p` stands below `q`.
  unfoldable pub move_tree : FilePath → FilePath → List (Slot C) → List (Slot C)
  unfolding strip
  move_tree p q [] = []
  move_tree p q (s ∷ d) =
      record { path = rebased q (strip p s.path) s.path; entry = s.entry } ∷ move_tree p q d

  abbrev pub unless_below : Option FilePath → Slot C → List (Slot C) → List (Slot C)
  unless_below none s d = s ∷ d
  unless_below (some r) s d = d

  unfoldable pub prune : FilePath → List (Slot C) → List (Slot C)
  unfolding strip
  prune p [] = []
  prune p (s ∷ d) = unless_below (strip p s.path) s (prune p d)

  -- The names that stand in the directory `p`.
  unfoldable pub names_in : FilePath → List (Slot C) → List String
  unfolding strip
  names_in p [] = []
  names_in p (s ∷ d) = with_name (strip p s.path) (names_in p d)

  abbrev pub made : FilePath → Option (Entry C) → List (Slot C) → Option (List (Slot C))
  made p none d = some (put p dir d)
  made p (some _) d = none

  abbrev pub made_all : FilePath → Option (Entry C) → List (Slot C) → Option (List (Slot C))
  made_all p none d = some (put p dir d)
  made_all p (some dir) d = some d
  made_all p (some _) d = none

  abbrev pub moved_tree :
      FilePath → FilePath → Option (Entry C) → List (Slot C) → Option (List (Slot C))
  moved_tree p q (some dir) d = if any (is_below q) d then none else some (move_tree p q d)
  moved_tree p q _ d = none

  abbrev pub opened : FilePath → Option (Entry C) → List (Slot C) → Option (List (Slot C))
  opened q o d = if is_plain o then some (put q torn d) else none

  abbrev pub copied : FilePath → Option (Entry C) → List (Slot C) → Option (List (Slot C))
  copied q (some (file c)) d = some (put q (file c) d)
  copied q (some torn) d = some (put q torn d)
  copied q _ d = none

  -- The link at the start of a path is followed, as the system does for the parents of a file.
  abbrev pub followed : FilePath → Option (Entry C) → FilePath
  followed rest (some (link target)) = target ++ rest
  followed rest _ = rest

-- The system calls. The name that a directory is renamed to is to be free.
module _ {ℓ κ} {C : Type ℓ} {R : Type κ} (faults : ℕ → Bool) where
  unfoldable pub create_dir : FilePath → Io (World C R) (Unit {0})
  unfolding call get put
  create_dir p w = call faults (made p (get p w.disk) w.disk) w

  unfoldable pub create_dir_all : FilePath → Io (World C R) (Unit {0})
  unfolding call get put
  create_dir_all p w = call faults (made_all p (get p w.disk) w.disk) w

  unfoldable pub rename_dir : FilePath → FilePath → Io (World C R) (Unit {0})
  unfolding call get move_tree strip
  rename_dir p q w = call faults (moved_tree p q (get p w.disk) w.disk) w

  unfoldable pub remove_dir_all : FilePath → Io (World C R) (Unit {0})
  unfolding call prune strip
  remove_dir_all p w = call faults (some (prune p w.disk)) w

  -- `fs::copy`: the new file is torn until its content is there.
  unfoldable pub copy : FilePath → FilePath → Io (World C R) (Unit {0})
  unfolding call get put
  copy p q = (λ w. call faults (opened q (get p w.disk) w.disk) w) >> λ w.
      call faults (copied q (get p w.disk) w.disk) w

  -- A call that changes nothing, and whose answer is read off the disk.
  abbrev pub ask {μ} : {A : Type μ} → (List (Slot C) → A) → Io (World C R) A
  ask f w =
      if faults w.clock then failed io_failure (tick faults w) else done (f w.disk) (tick faults w)

  -- `sync_all` of an open directory.
  unfoldable pub sync : Io (World C R) (Unit {0})
  sync = ask (λ d. tt)

  unfoldable pub read_dir : FilePath → Io (World C R) (List String)
  unfolding names_in strip
  read_dir p = ask (names_in p)

  unfoldable pub symlink_metadata : FilePath → Io (World C R) (Option (Entry C))
  unfolding get
  symlink_metadata p = ask (get p)

  -- `Path::is_dir`: an error is false.
  unfoldable pub is_directory : FilePath → Io (World C R) Bool
  unfolding get
  is_directory p w = done (if faults w.clock then false else is_dir (get p w.disk)) (tick faults w)
