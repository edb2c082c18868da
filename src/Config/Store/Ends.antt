-- ===== src/Config/Store/Ends.antt =====
-- How a chain of operations may end: a postcondition of its success, and one of its failure.
use rigos.Base.{◌≡◌, refl}
use rigos.Config.Error.{ConfigError}
use rigos.Config.Store.{Ran, done, failed, Io, then_do, caught}

module _ {ℓ κ μ} {W : Type κ} {A : Type ℓ} (Done : A → W → Type μ) (Fail : W → Type μ) where
  abbrev pub Ends : Ran W A → Type μ
  Ends (done a w) = Done a w
  Ends (failed e w) = Fail w

  pub Ends-intro :
      (ran : Ran W A)
      → ((a : A) (w : W) → ran ≡ done a w → Done a w)
      → ((e : ConfigError) (w : W) → ran ≡ failed e w → Fail w)
      → Ends ran
  Ends-intro (done a w) h k = h a w refl
  Ends-intro (failed e w) h k = k e w refl

  pub Ends-caught : (d : ConfigError) (ran : Ran W A) → Ends ran → Ends (caught d ran)
  Ends-caught d (done a w) h = h
  Ends-caught d (failed e w) h = h

pub Ends-mono {ℓ κ μ} :
    {W : Type κ} {A : Type ℓ} (Done Done2 : A → W → Type μ) (Fail Fail2 : W → Type μ)
    (ran : Ran W A)
    → Ends Done Fail ran
    → ((a : A) (w : W) → Done a w → Done2 a w)
    → ((w : W) → Fail w → Fail2 w)
    → Ends Done2 Fail2 ran
Ends-mono Done Done2 Fail Fail2 (done a w) h d f = d a w h
Ends-mono Done Done2 Fail Fail2 (failed e w) h d f = f w h

pub Ends-bind {ℓ κ μ ν} :
    {W : Type κ} {A : Type ℓ} {B : Type ν} (Mid : A → W → Type μ) (Done : B → W → Type μ)
    (Fail : W → Type μ) (ran : Ran W A) (f : A → Io W B)
    → Ends Mid Fail ran
    → ((a : A) (w : W) → Mid a w → Ends Done Fail (f a w))
    → Ends Done Fail (then_do ran f)
Ends-bind Mid Done Fail (done a w) f h k = k a w h
Ends-bind Mid Done Fail (failed e w) f h k = h
