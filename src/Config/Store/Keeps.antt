-- ===== src/Config/Store/Keeps.antt =====
-- Chains of operations that leave what stands at a path, whether they fail or not.
use rigos.Base.{ℕ, ◌≡◌, refl, sym, ◌∙◌, ap, Bool, true, false, Option, none, some, List}
use mathlib.Core.Option.{some-injective}
use rigos.Config.Error.{ConfigError}
use rigos.Config.Store.{
  FilePath, path_eq, Entry, file, torn, link, Slot, World, Ran, done, failed, Io, then_do, caught,
  left, get, remove, put, remove_file, create_symlink, rename, create_new, write_all, write_failed,
  write_new, read_link, exists, is_file, linked, moved, removed, to_write, map_err, ignored,
  fail_when, pure, throw, ◌>>=◌,
}
use rigos.Config.Store.Laws.{
  call-disk, linked-eq-some, moved-eq-some, removed-eq-some, get-put_other, get-remove_other,
}

pub record Keeps {ℓ κ ν} {C : Type ℓ} {R : Type κ} {A : Type ν} (p : FilePath)
    (m : Io (World C R) A) : Type (ℓ ⊔ κ) where
  pub holds : (w : World C R) → get p (left (m w)).disk ≡ get p w.disk

pub then_do-Keeps {ℓ κ ν μ} :
    {C : Type ℓ} {R : Type κ} {A : Type ν} {B : Type μ} (p : FilePath) (ran : Ran (World C R) A)
    (f : A → Io (World C R) B)
    → ((a : A) → Keeps p (f a))
    → get p (left (then_do ran f)).disk ≡ get p (left ran).disk
then_do-Keeps p (done a w) f k = Keeps.holds (k a) w
then_do-Keeps p (failed e w) f k = refl

pub left-caught {κ ν} :
    {W : Type κ} {A : Type ν} (e : ConfigError) (ran : Ran W A) → left (caught e ran) ≡ left ran
left-caught e (done a w) = refl
left-caught e (failed d w) = refl

created {ℓ} :
    {C : Type ℓ} (p q : FilePath)
    → path_eq q p ≡ false
    → (o : Option (Entry C)) (d : List (Slot C)) {x : List (Slot C)} → to_write o q d ≡ some x
    → get p x ≡ get p d
created p q other none d e =
    ap (get p) (sym (some-injective _ _ e)) ∙ get-put_other q p torn d other
created p q other (some t) d e = cc

module _ {ℓ κ} {C : Type ℓ} {R : Type κ} (p : FilePath) where
  pub Keeps-bind {ν μ} :
      {A : Type ν} {B : Type μ} (m : Io (World C R) A) (f : A → Io (World C R) B)
      → Keeps p m
      → ((a : A) → Keeps p (f a))
      → Keeps p (m >>= f)
  Keeps-bind m f h k = record { holds = λ w. then_do-Keeps p (m w) f k ∙ Keeps.holds h w }

  pub Keeps-pure {ν} : {A : Type ν} (a : A) → Keeps {C = C} {R = R} p (pure a)
  Keeps-pure a = record { holds = λ w. refl }

  pub Keeps-throw {ν} : {A : Type ν} (e : ConfigError) → Keeps {C = C} {R = R} {A = A} p (throw e)
  Keeps-throw e = record { holds = λ w. refl }

  pub Keeps-fail_when : (b : Bool) (e : ConfigError) → Keeps {C = C} {R = R} p (fail_when b e)
  Keeps-fail_when true e = record { holds = λ w. refl }
  Keeps-fail_when false e = record { holds = λ w. refl }

  pub Keeps-map_err {ν} :
      {A : Type ν} (e : ConfigError) (m : Io (World C R) A) → Keeps p m → Keeps p (map_err e m)
  Keeps-map_err e m h = record {
    holds = λ w. ap (λ (x : World C R). get p x.disk) (left-caught e (m w)) ∙ Keeps.holds h w;
  }

  pub Keeps-ignored {ν} : {A : Type ν} (m : Io (World C R) A) → Keeps p m → Keeps p (ignored m)
  Keeps-ignored m h = record { holds = λ w. Keeps.holds h w }

  module _ (faults : ℕ → Bool) where
    pub Keeps-exists : (q : FilePath) → Keeps {C = C} {R = R} p (exists faults q)
    unfolding exists
    Keeps-exists q = record { holds = λ w. refl }

    pub Keeps-is_file : (q : FilePath) → Keeps {C = C} {R = R} p (is_file faults q)
    unfolding is_file
    Keeps-is_file q = record { holds = λ w. refl }

    pub Keeps-read_link : (q : FilePath) → Keeps {C = C} {R = R} p (read_link faults q)
    unfolding read_link
    Keeps-read_link q = record { holds = λ w. refl }

    module _ (q : FilePath) (other : path_eq q p ≡ false) where
      pub Keeps-remove_file : Keeps {C = C} {R = R} p (remove_file faults q)
      unfolding remove_file
      Keeps-remove_file = record {
        holds = λ w.
            call-disk faults (λ d. get p d ≡ get p w.disk) (removed q (get q w.disk) w.disk) w refl
              (λ x e.
                ap (get p) (removed-eq-some q (get q w.disk) w.disk e)
                ∙ get-remove_other q p w.disk other);
      }

      pub Keeps-create_symlink :
          (target : FilePath) → Keeps {C = C} {R = R} p (create_symlink faults target q)
      unfolding create_symlink
      Keeps-create_symlink target = record {
        holds = λ w.
            call-disk faults (λ d. get p d ≡ get p w.disk) (linked target q (get q w.disk) w.disk) w
              refl
              (λ x e.
                ap (get p) (linked-eq-some target q (get q w.disk) w.disk e)
                ∙ get-put_other q p (link target) w.disk other);
      }

      pub Keeps-rename :
          (r : FilePath) → path_eq r p ≡ false → Keeps {C = C} {R = R} p (rename faults q r)
      unfolding rename
      Keeps-rename r away = record {
        holds = λ w.
            call-disk faults (λ d. get p d ≡ get p w.disk)
              (moved q r (get q w.disk) (get r w.disk) w.disk) w refl
              (λ x e.
                let (entry, at, same) = moved-eq-some q r (get q w.disk) (get r w.disk) w.disk e in
                ap (get p) same
                ∙ get-put_other r p entry (remove q w.disk) away
                ∙ get-remove_other q p w.disk other);
      }

      pub Keeps-create_new : Keeps {C = C} {R = R} p (create_new faults q)
      unfolding create_new
      Keeps-create_new = record {
        holds = λ w.
            call-disk faults (λ d. get p d ≡ get p w.disk) (to_write (get q w.disk) q w.disk) w refl
              (λ x e. created p q other (get q w.disk) w.disk e);
      }

      pub Keeps-write_all : (c : C) → Keeps {C = C} {R = R} p (write_all faults q c)
      unfolding write_all
      Keeps-write_all c = record {
        holds = λ w.
            call-disk faults (λ d. get p d ≡ get p w.disk) (some (put q (file c) w.disk)) w refl
              (λ x e.
                ap (get p) (sym (some-injective _ _ e)) ∙ get-put_other q p (file c) w.disk other);
      }

      pub Keeps-write_new : (c : C) → Keeps {C = C} {R = R} p (write_new faults q c)
      unfolding write_new
      Keeps-write_new c =
          Keeps-bind (create_new faults q) (λ _. map_err write_failed (write_all faults q c))
            Keeps-create_new
            (λ _. Keeps-map_err write_failed (write_all faults q c) (Keeps-write_all c))
