-- ===== src/Config/Store/Laws.antt =====
-- What the operations of the store leave at a path, and how a chain of them succeeds.
use text.Mathlib.TextEquality.{eq_iff}
use rigos.Base.{
  ℕ, ◌≡◌, refl, sym, ◌∙◌, ap, Bool, true, false, Option, none, some, List, [], ◌∷◌, Bool-cases, inl,
  inr, ◌⊎◌, and-eq-true, arith, and_true,
}
use mathlib.Core.Option.{some-injective}
use rigos.Config.Error.{ConfigError}
use rigos.Config.Store.{
  FilePath, path_eq, Entry, file, link, Slot, World, Ran, done, failed, Io, then_do, caught, left,
  get, remove, put, call, remove_file, create_symlink, rename, create_new, write_all, write_failed,
  map_err, write_new, with_disk, linked, moved, removed,
}

pub then_do-eq-done {ℓ κ ν} :
    {W : Type κ} {A : Type ℓ} {B : Type ν} (ran : Ran W A) (next : A → Io W B) {b : B} {end : W}
    → then_do ran next ≡ done b end
    → (a : A) × (mid : W) × (ran ≡ done a mid) × (next a mid ≡ done b end)
then_do-eq-done (done a mid) next h = (a, mid, refl, h)
then_do-eq-done (failed e mid) next h = cc

pub caught-eq-done {ℓ κ} :
    {W : Type κ} {A : Type ℓ} (e : ConfigError) (ran : Ran W A) {a : A} {end : W}
    → caught e ran ≡ done a end
    → ran ≡ done a end
caught-eq-done e (done a w) h = h
caught-eq-done e (failed d w) h = cc

pub done_injective {ℓ κ} :
    {W : Type κ} {A : Type ℓ} {a b : A} {v w : W}
    → ◌≡◌ {A = Ran W A} (done a v) (done b w)
    → (a ≡ b) × (v ≡ w)
done_injective h = (cc, cc)

pub failed_injective {ℓ κ} :
    {W : Type κ} {A : Type ℓ} {d e : ConfigError} {v w : W}
    → ◌≡◌ {A = Ran W A} (failed d v) (failed e w)
    → v ≡ w
failed_injective h = cc

pub then_do-eq-failed {ℓ κ ν} :
    {W : Type κ} {A : Type ℓ} {B : Type ν} (ran : Ran W A) (next : A → Io W B) {e : ConfigError}
    {end : W}
    → then_do ran next ≡ failed e end
    → (ran ≡ failed e end) ⊎ (a : A) × (mid : W) × (ran ≡ done a mid) × (next a mid ≡ failed e end)
then_do-eq-failed (done a mid) next h = inr (a, mid, refl, h)
then_do-eq-failed (failed d mid) next h = inl cc

pub path_eq_refl : (p : FilePath) → path_eq p p ≡ true
unfolding path_eq
path_eq_refl [] = refl
path_eq_refl (a ∷ p) = and_true ((eq_iff a a).1 refl) (path_eq_refl p)

pub path_eq_sound : (p q : FilePath) → path_eq p q ≡ true → p ≡ q
unfolding path_eq
path_eq_sound [] [] h = refl
path_eq_sound [] (b ∷ q) h = cc
path_eq_sound (a ∷ p) [] h = cc
path_eq_sound (a ∷ p) (b ∷ q) h =
    let (first, rest) = and-eq-true _ _ h in
    let e = (eq_iff a b).0 first in let es = path_eq_sound p q rest in cc

module _ {ℓ} {C : Type ℓ} where
  pub get-remove_other :
      (p q : FilePath) (d : List (Slot C)) → path_eq p q ≡ false → get q (remove p d) ≡ get q d
  unfolding get remove
  get-remove_other p q [] h = refl
  get-remove_other p q (s ∷ d) h = elim (Bool-cases (path_eq s.path p)) [
    | inl e ↦
        let same = path_eq_sound s.path p e in
        let other : path_eq s.path q ≡ false = rw same h in rw (e, other) (get-remove_other p q d h)
    | inr e ↦ elim (Bool-cases (path_eq s.path q)) [
      | inl f ↦ rw (e, f)
      | inr f ↦ rw (e, f) (get-remove_other p q d h)
    ]
  ]

  pub get-remove : (p : FilePath) (d : List (Slot C)) → get p (remove p d) ≡ none
  unfolding get remove
  get-remove p [] = refl
  get-remove p (s ∷ d) = elim (Bool-cases (path_eq s.path p)) [
    | inl e ↦ rw e (get-remove p d)
    | inr e ↦ rw (e, e) (get-remove p d)
  ]

  pub get-put : (p : FilePath) (e : Entry C) (d : List (Slot C)) → get p (put p e d) ≡ some e
  unfolding get put
  get-put p e d = rw (path_eq_refl p)

  pub get-put_other :
      (p q : FilePath) (e : Entry C) (d : List (Slot C))
      → path_eq p q ≡ false
      → get q (put p e d) ≡ get q d
  unfolding get put
  get-put_other p q e d h = rw h (get-remove_other p q d h)

module _ {ℓ κ} {C : Type ℓ} {R : Type κ} (faults : ℕ → Bool) where
  -- A call that succeeds leaves the disk it was to leave.
  pub call-eq-done :
      (d : Option (List (Slot C))) (w end : World C R)
      → call faults d w ≡ done tt end
      → (disk : List (Slot C)) × (d ≡ some disk) × (end ≡ with_disk faults disk w)
  unfolding call
  call-eq-done none w end h = cc
  call-eq-done (some d) w end h = elim (Bool-cases (faults w.clock)) [
    | inl e ↦ absurd (cc (rw e at h))
    | inr e ↦ (d, refl, sym (done_injective (rw e at h)).1)
  ]

module _ {ℓ} {C : Type ℓ} where
  pub linked-eq-some :
      (target p : FilePath) (o : Option (Entry C)) (d : List (Slot C)) {d1 : List (Slot C)}
      → linked target p o d ≡ some d1
      → d1 ≡ put p (link target) d
  linked-eq-some target p none d h = cc
  linked-eq-some target p (some e) d h = cc

  pub moved-eq-some :
      (p q : FilePath) (o t : Option (Entry C)) (d : List (Slot C)) {d1 : List (Slot C)}
      → moved p q o t d ≡ some d1
      → (e : Entry C) × (o ≡ some e) × (d1 ≡ put q e (remove p d))
  moved-eq-some p q none t d h = cc
  moved-eq-some p q (some e) t d h = (e, refl, ground arith)

  pub removed-eq-some :
      (p : FilePath) (o : Option (Entry C)) (d : List (Slot C)) {d1 : List (Slot C)}
      → removed p o d ≡ some d1
      → d1 ≡ remove p d
  removed-eq-some p none d h = cc
  removed-eq-some p (some e) d h = ground arith

module _ {ℓ κ} {C : Type ℓ} {R : Type κ} (faults : ℕ → Bool) where
  pub create_symlink-eq-done :
      (target p : FilePath) (w end : World C R)
      → create_symlink faults target p w ≡ done tt end
      → end ≡ with_disk faults (put p (link target) w.disk) w
  unfolding create_symlink
  create_symlink-eq-done target p w end h =
      let (d, e, f) = call-eq-done faults (linked target p (get p w.disk) w.disk) w end h in
      f ∙ ap (λ x. with_disk faults x w) (linked-eq-some target p (get p w.disk) w.disk e)

  pub rename-eq-done :
      (p q : FilePath) (w end : World C R)
      → rename faults p q w ≡ done tt end
      → (e : Entry C) × (get p w.disk ≡ some e)
        × (end ≡ with_disk faults (put q e (remove p w.disk)) w)
  unfolding rename
  rename-eq-done p q w end h =
      let (d, g, f) =
        call-eq-done faults (moved p q (get p w.disk) (get q w.disk) w.disk) w end h in
      let (e, at, same) = moved-eq-some p q (get p w.disk) (get q w.disk) w.disk g in
      (e, at, f ∙ ap (λ x. with_disk faults x w) same)

  pub remove_file-eq-done :
      (p : FilePath) (w end : World C R)
      → remove_file faults p w ≡ done tt end
      → end ≡ with_disk faults (remove p w.disk) w
  unfolding remove_file
  remove_file-eq-done p w end h =
      let (d, e, f) = call-eq-done faults (removed p (get p w.disk) w.disk) w end h in
      f ∙ ap (λ x. with_disk faults x w) (removed-eq-some p (get p w.disk) w.disk e)

  -- A call, whether it fails or not, leaves the runtime as it is.
  pub call-runtime :
      (d : Option (List (Slot C))) (w : World C R) → (left (call faults d w)).runtime ≡ w.runtime
  unfolding call
  call-runtime none w = refl
  call-runtime (some d) w = elim (Bool-cases (faults w.clock)) [ inl e ↦ rw e | inr e ↦ rw e ]

  -- What holds of the disk before, and of the disk that the call is to leave, holds after it.
  pub call-disk {μ} :
      (P : List (Slot C) → Type μ) (d : Option (List (Slot C))) (w : World C R)
      → P w.disk
      → ((x : List (Slot C)) → d ≡ some x → P x)
      → P (left (call faults d w)).disk
  unfolding call
  call-disk P none w h k = h
  call-disk P (some d) w h k = elim (Bool-cases (faults w.clock)) [
    | inl e ↦ rw e h
    | inr e ↦ rw e (k d refl)
  ]

  call-eq-failed :
      (d : Option (List (Slot C))) (w end : World C R) (e : ConfigError)
      → call faults d w ≡ failed e end
      → end.disk ≡ w.disk
  unfolding call
  call-eq-failed none w end e h = ap (λ (x : World C R). x.disk) (sym (failed_injective h))
  call-eq-failed (some d) w end e h = elim (Bool-cases (faults w.clock)) [
    | inl f ↦ ap (λ (x : World C R). x.disk) (sym (failed_injective (rw f at h)))
    | inr f ↦ absurd (cc (rw f at h))
  ]

  -- A removal that fails leaves the disk.
  pub remove_file-eq-failed :
      (p : FilePath) (w end : World C R) (e : ConfigError)
      → remove_file faults p w ≡ failed e end
      → end.disk ≡ w.disk
  unfolding remove_file
  remove_file-eq-failed p w end e h = call-eq-failed (removed p (get p w.disk) w.disk) w end e h

  -- So does a rename.
  pub rename-eq-failed :
      (p q : FilePath) (w end : World C R) (e : ConfigError)
      → rename faults p q w ≡ failed e end
      → end.disk ≡ w.disk
  unfolding rename
  rename-eq-failed p q w end e h =
      call-eq-failed (moved p q (get p w.disk) (get q w.disk) w.disk) w end e h

  pub write_new-eq-done :
      (p : FilePath) (c : C) (w end : World C R)
      → write_new faults p c w ≡ done tt end
      → get p end.disk ≡ some (file c)
  unfolding write_new write_all
  write_new-eq-done p c w end h =
      let (u, mid, first, second) =
        then_do-eq-done (create_new faults p w) (λ _. map_err write_failed (write_all faults p c))
          h in
      let (d, e, f) =
        call-eq-done faults (some (put p (file c) mid.disk)) mid end
          (caught-eq-done write_failed _ second) in
      ap (λ (x : World C R). get p x.disk) f
      ∙ ap (get p) (sym (some-injective _ _ e))
      ∙ get-put p (file c) mid.disk
