-- ===== src/Config/Store/Leaves.antt =====
-- What a chain of operations has left at a path where it succeeds.
use rigos.Base.{ℕ, ◌≡◌, sym, ◌∙◌, ap, Bool, some}
use mathlib.Core.Option.{some-injective}
use rigos.Config.Error.{ConfigError}
use rigos.Config.Store.{
  FilePath, Entry, file, World, Ran, done, failed, Io, ◌>>=◌, map_err, left, get, put, write_all,
}
use rigos.Config.Store.Laws.{then_do-eq-done, caught-eq-done, call-eq-done, get-put}
use rigos.Config.Store.Keeps.{Keeps}

pub record Leaves {ℓ κ ν} {C : Type ℓ} {R : Type κ} {A : Type ν} (p : FilePath) (e : Entry C)
    (m : Io (World C R) A) : Type (ℓ ⊔ κ ⊔ ν) where
  pub holds : (w end : World C R) (a : A) → m w ≡ done a end → get p end.disk ≡ some e

-- What keeps a path keeps it where it succeeds, too.
pub Keeps-done {ℓ κ ν} :
    {C : Type ℓ} {R : Type κ} {A : Type ν} (p : FilePath) (m : Io (World C R) A) (w end : World C R)
    {a : A}
    → Keeps p m
    → m w ≡ done a end
    → get p end.disk ≡ get p w.disk
Keeps-done p m w end k h =
    ap (λ (ran : Ran (World _ _) _). get p (left ran).disk) (sym h) ∙ Keeps.holds k w

pub Keeps-failed {ℓ κ ν} :
    {C : Type ℓ} {R : Type κ} {A : Type ν} (p : FilePath) (m : Io (World C R) A) (w end : World C R)
    {e : ConfigError}
    → Keeps p m
    → m w ≡ failed e end
    → get p end.disk ≡ get p w.disk
Keeps-failed p m w end k h =
    ap (λ (ran : Ran (World _ _) _). get p (left ran).disk) (sym h) ∙ Keeps.holds k w

module _ {ℓ κ} {C : Type ℓ} {R : Type κ} (p : FilePath) (e : Entry C) where
  pub Leaves-last {ν μ} :
      {A : Type ν} {B : Type μ} (m : Io (World C R) A) (f : A → Io (World C R) B)
      → ((a : A) → Leaves p e (f a))
      → Leaves p e (m >>= f)
  Leaves-last m f h = record {
    holds = λ w end b g.
        let (a, mid, first, second) = then_do-eq-done (m w) f g in
        Leaves.holds (h a) mid end b second;
  }

  pub Leaves-then {ν μ} :
      {A : Type ν} {B : Type μ} (m : Io (World C R) A) (f : A → Io (World C R) B)
      → Leaves p e m
      → ((a : A) → Keeps p (f a))
      → Leaves p e (m >>= f)
  Leaves-then m f h k = record {
    holds = λ w end b g.
        let (a, mid, first, second) = then_do-eq-done (m w) f g in
        Keeps-done p (f a) mid end (k a) second ∙ Leaves.holds h w mid a first;
  }

  pub Leaves-map_err {ν} :
      {A : Type ν} (d : ConfigError) (m : Io (World C R) A)
      → Leaves p e m
      → Leaves p e (map_err d m)
  Leaves-map_err d m h = record {
    holds = λ w end a g. Leaves.holds h w end a (caught-eq-done d (m w) g);
  }

pub Leaves-write_all {ℓ κ} :
    {C : Type ℓ} {R : Type κ} (faults : ℕ → Bool) (p : FilePath) (c : C)
    → Leaves {R = R} p (file c) (write_all faults p c)
unfolding write_all
Leaves-write_all faults p c = record {
  holds = λ w end a g.
      let (d, e, f) = call-eq-done faults (some (put p (file c) w.disk)) w end g in
      ap (λ (x : World _ _). get p x.disk) f
      ∙ ap (get p) (sym (some-injective _ _ e))
      ∙ get-put p (file c) w.disk;
}
