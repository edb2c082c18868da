-- ===== src/Base/Outcome.antt =====
-- Rust's `Result`, with a third outcome for code that panics, and the steps of its `?` chains.
use mathlib.Core.Path.{◌≡◌, refl}
use mathlib.Core.Bool.{Bool, true, false}
use mathlib.Core.Option.{Option, none, some}

pub data Result {ℓ κ} (E : Type κ) (A : Type ℓ) : Type (ℓ ⊔ κ) where
  ok : A → Result E A
  err : E → Result E A
  panic : Result E A

infixl 5 ◌>>=◌ ◌>>◌
abbrev pub ◌>>=◌ {ℓ κ ν} :
    {E : Type κ} {A : Type ℓ} {B : Type ν} → Result E A → (A → Result E B) → Result E B
ok a >>= f = f a
err e >>= f = err e
panic >>= f = panic

abbrev pub ◌>>◌ {κ ν} : {E : Type κ} {B : Type ν} → Result E (Unit {0}) → Result E B → Result E B
m >> k = m >>= λ _. k

-- `if b { return Err(e); }`
abbrev pub fail_if {κ} : {E : Type κ} → Bool → E → Result E (Unit {0})
fail_if true e = err e
fail_if false e = ok tt

-- `o.ok_or(e)?`
abbrev pub ok_or {ℓ κ} : {E : Type κ} {A : Type ℓ} → Option A → E → Result E A
ok_or none e = err e
ok_or (some a) e = ok a

-- Inversion of a successful step.
pub >>=-eq-ok {ℓ κ ν} :
    {E : Type κ} {A : Type ℓ} {B : Type ν} (step : Result E A) (next : A → Result E B) {r : B}
    → (step >>= next) ≡ ok r
    → (given : A) × (step ≡ ok given) × (next given ≡ ok r)
>>=-eq-ok (ok given) next run = (given, refl, run)
>>=-eq-ok (err e) next run = cc
>>=-eq-ok panic next run = cc

pub fail_if-eq-ok {κ ν} :
    {E : Type κ} {B : Type ν} (b : Bool) (e : E) (k : Result E B) {r : B}
    → (fail_if b e >> k) ≡ ok r
    → (b ≡ false) × (k ≡ ok r)
fail_if-eq-ok true e k h = cc
fail_if-eq-ok false e k h = (refl, h)

pub ok_or-eq-ok {ℓ κ ν} :
    {E : Type κ} {A : Type ℓ} {B : Type ν} (o : Option A) (e : E) (f : A → Result E B) {r : B}
    → (ok_or o e >>= f) ≡ ok r
    → (a : A) × (o ≡ some a) × (f a ≡ ok r)
ok_or-eq-ok none e f h = cc
ok_or-eq-ok (some a) e f h = (a, refl, h)

pub ok_injective {ℓ κ} :
    {E : Type κ} {A : Type ℓ} {a b : A} → ◌≡◌ {A = Result E A} (ok a) (ok b) → a ≡ b
ok_injective h = cc

-- A step that does not panic.
pub record NoPanic {ℓ κ} {E : Type κ} {A : Type ℓ} (m : Result E A) : Type (ℓ ⊔ κ) where
  pub holds : ◌≡◌ {A = Result E A} m panic → ⊥

module _ {ℓ κ} {E : Type κ} {A : Type ℓ} where
  pub NoPanic-ok : (a : A) → NoPanic {E = E} (ok a)
  NoPanic-ok a = record { holds = λ h. cc }

  pub NoPanic-err : (e : E) → NoPanic {A = A} (err e)
  NoPanic-err e = record { holds = λ h. cc }

  pub NoPanic-ok_or : (o : Option A) (e : E) → NoPanic (ok_or o e)
  NoPanic-ok_or none e = NoPanic-err e
  NoPanic-ok_or (some a) e = NoPanic-ok a

pub NoPanic-fail_if {κ} : {E : Type κ} (b : Bool) (e : E) → NoPanic (fail_if b e)
NoPanic-fail_if true e = NoPanic-err e
NoPanic-fail_if false e = NoPanic-ok tt

pub NoPanic-bind {ℓ κ ν} :
    {E : Type κ} {A : Type ℓ} {B : Type ν} (m : Result E A) (f : A → Result E B)
    → NoPanic m
    → ((a : A) → NoPanic (f a))
    → NoPanic (m >>= f)
NoPanic-bind (ok a) f h k = k a
NoPanic-bind (err e) f h k = NoPanic-err e
NoPanic-bind panic f h k = absurd (h.holds refl)

pub ruleset no_panic = (NoPanic-ok, NoPanic-err, NoPanic-ok_or, NoPanic-fail_if, NoPanic-bind)

pub fail_if-ok {κ} : {E : Type κ} (b : Bool) (e : E) → fail_if b e ≡ ok tt → b ≡ false
fail_if-ok true e h = cc
fail_if-ok false e h = refl
