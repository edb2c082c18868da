-- ===== src/Config/Store/Quiet.antt =====
-- Chains of operations that leave the runtime, whether they fail or not.
use rigos.Base.{ℕ, ◌≡◌, refl, ◌∙◌, ap, Bool, true, false, Option, some, List, Bool-cases, inl, inr}
use rigos.Config.Error.{ConfigError}
use rigos.Config.Store.{
  FilePath, Slot, World, Ran, done, failed, Io, then_do, left, get, put, file, call, moved, linked,
  to_write, create_symlink, rename, create_new, write_all, read_link, exists, map_err, fail_when,
  pure, throw, ◌>>=◌,
}
use rigos.Config.Store.Laws.{call-runtime}
use rigos.Config.Store.Keeps.{left-caught}
use rigos.Config.Store.Tree.{
  made, made_all, moved_tree, opened, copied, prune, create_dir, create_dir_all, rename_dir,
  remove_dir_all, copy, ask, sync, read_dir, symlink_metadata, is_directory,
}

pub record Quiet {ℓ κ ν} {C : Type ℓ} {R : Type κ} {A : Type ν} (m : Io (World C R) A)
    : Type (ℓ ⊔ κ) where
  pub holds : (w : World C R) → (left (m w)).runtime ≡ w.runtime

module _ {ℓ κ} {C : Type ℓ} {R : Type κ} where
  pub then_do-Quiet {ν μ} :
      {A : Type ν} {B : Type μ} (ran : Ran (World C R) A) (f : A → Io (World C R) B)
      → ((a : A) → Quiet (f a))
      → (left (then_do ran f)).runtime ≡ (left ran).runtime
  then_do-Quiet (done a w) f k = Quiet.holds (k a) w
  then_do-Quiet (failed e w) f k = refl

  pub Quiet-bind {ν μ} :
      {A : Type ν} {B : Type μ} (m : Io (World C R) A) (f : A → Io (World C R) B)
      → Quiet m
      → ((a : A) → Quiet (f a))
      → Quiet (m >>= f)
  Quiet-bind m f h k = record { holds = λ w. then_do-Quiet (m w) f k ∙ Quiet.holds h w }

  pub Quiet-pure {ν} : {A : Type ν} (a : A) → Quiet {C = C} {R = R} (pure a)
  Quiet-pure a = record { holds = λ w. refl }

  pub Quiet-throw {ν} : {A : Type ν} (e : ConfigError) → Quiet {C = C} {R = R} {A = A} (throw e)
  Quiet-throw e = record { holds = λ w. refl }

  pub Quiet-fail_when : (b : Bool) (e : ConfigError) → Quiet {C = C} {R = R} (fail_when b e)
  Quiet-fail_when true e = record { holds = λ w. refl }
  Quiet-fail_when false e = record { holds = λ w. refl }

  pub Quiet-map_err {ν} :
      {A : Type ν} (e : ConfigError) (m : Io (World C R) A) → Quiet m → Quiet (map_err e m)
  Quiet-map_err e m h = record {
    holds = λ w. ap (λ (x : World C R). x.runtime) (left-caught e (m w)) ∙ Quiet.holds h w;
  }

  module _ (faults : ℕ → Bool) where
    pub Quiet-call :
        (f : List (Slot C) → Option (List (Slot C)))
        → Quiet {C = C} {R = R} (λ w. call faults (f w.disk) w)
    Quiet-call f = record { holds = λ w. call-runtime faults (f w.disk) w }

    pub Quiet-ask {μ} : {A : Type μ} (f : List (Slot C) → A) → Quiet {C = C} {R = R} (ask faults f)
    Quiet-ask f = record {
      holds = λ w. elim (Bool-cases (faults w.clock)) [ inl e ↦ rw e | inr e ↦ rw e ];
    }

    pub Quiet-sync : Quiet {C = C} {R = R} (sync faults)
    unfolding sync
    Quiet-sync = Quiet-ask _

    pub Quiet-exists : (p : FilePath) → Quiet {C = C} {R = R} (exists faults p)
    unfolding exists
    Quiet-exists p = record { holds = λ w. refl }

    pub Quiet-read_link : (p : FilePath) → Quiet {C = C} {R = R} (read_link faults p)
    unfolding read_link
    Quiet-read_link p = record { holds = λ w. refl }

    pub Quiet-is_directory : (p : FilePath) → Quiet {C = C} {R = R} (is_directory faults p)
    unfolding is_directory
    Quiet-is_directory p = record { holds = λ w. refl }

    pub Quiet-read_dir : (p : FilePath) → Quiet {C = C} {R = R} (read_dir faults p)
    unfolding read_dir
    Quiet-read_dir p = Quiet-ask _

    pub Quiet-symlink_metadata : (p : FilePath) → Quiet {C = C} {R = R} (symlink_metadata faults p)
    unfolding symlink_metadata
    Quiet-symlink_metadata p = Quiet-ask _

    pub Quiet-create_symlink :
        (target p : FilePath) → Quiet {C = C} {R = R} (create_symlink faults target p)
    unfolding create_symlink
    Quiet-create_symlink target p = Quiet-call (λ d. linked target p (get p d) d)

    pub Quiet-rename : (p q : FilePath) → Quiet {C = C} {R = R} (rename faults p q)
    unfolding rename
    Quiet-rename p q = Quiet-call (λ d. moved p q (get p d) (get q d) d)

    pub Quiet-create_new : (p : FilePath) → Quiet {C = C} {R = R} (create_new faults p)
    unfolding create_new
    Quiet-create_new p = Quiet-call (λ d. to_write (get p d) p d)

    pub Quiet-write_all : (p : FilePath) (c : C) → Quiet {R = R} (write_all faults p c)
    unfolding write_all
    Quiet-write_all p c = Quiet-call (λ d. some (put p (file c) d))

    pub Quiet-create_dir : (p : FilePath) → Quiet {C = C} {R = R} (create_dir faults p)
    unfolding create_dir
    Quiet-create_dir p = Quiet-call (λ d. made p (get p d) d)

    pub Quiet-create_dir_all : (p : FilePath) → Quiet {C = C} {R = R} (create_dir_all faults p)
    unfolding create_dir_all
    Quiet-create_dir_all p = Quiet-call (λ d. made_all p (get p d) d)

    pub Quiet-rename_dir : (p q : FilePath) → Quiet {C = C} {R = R} (rename_dir faults p q)
    unfolding rename_dir
    Quiet-rename_dir p q = Quiet-call (λ d. moved_tree p q (get p d) d)

    pub Quiet-remove_dir_all : (p : FilePath) → Quiet {C = C} {R = R} (remove_dir_all faults p)
    unfolding remove_dir_all
    Quiet-remove_dir_all p = Quiet-call (λ d. some (prune p d))

    pub Quiet-copy : (p q : FilePath) → Quiet {C = C} {R = R} (copy faults p q)
    unfolding copy
    Quiet-copy p q =
        Quiet-bind (λ w. call faults (opened q (get p w.disk) w.disk) w)
          (λ _ w. call faults (copied q (get p w.disk) w.disk) w)
          (Quiet-call (λ d. opened q (get p d) d)) (λ _. Quiet-call (λ d. copied q (get p d) d))

pub ruleset quiet = (
  Quiet-bind, Quiet-pure, Quiet-throw, Quiet-fail_when, Quiet-map_err, Quiet-sync, Quiet-exists,
  Quiet-read_link, Quiet-is_directory, Quiet-read_dir, Quiet-symlink_metadata, Quiet-create_symlink,
  Quiet-rename, Quiet-create_new, Quiet-write_all, Quiet-create_dir, Quiet-create_dir_all,
  Quiet-rename_dir, Quiet-remove_dir_all, Quiet-copy,
)
