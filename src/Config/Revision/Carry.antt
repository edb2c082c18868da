-- ===== src/Config/Revision/Carry.antt =====
-- The identities of the revision before are taken over.
use text.Mathlib.Text.{◌==◌ as text_eq}
use text.Mathlib.TextEquality.{eq_iff}
use rigos.Base.{
  ℕ, ◌+◌, String, ◌≡◌, refl, sym, ◌∙◌, ap, subst, Bool, true, false, ◌&&◌, Option, none, some, List,
  [], ◌∷◌, ◌++◌, inl, inr, Any, if◌then◌else◌, Bool-cases,
}
use mathlib.Core.Option.{some-injective}
use rigos.Config.Store.{
  FilePath, path_eq, Entry, file, dir, Slot, World, Ran, done, ◌>>=◌, map_err, get, call, is_plain,
  is_dir,
}
use rigos.Config.Store.Laws.{
  call-eq-done, get-put, then_do-eq-done, caught-eq-done, done_injective, path_eq_sound,
}
use rigos.Config.Store.Keeps.{Keeps}
use rigos.Config.Store.Leaves.{Keeps-done}
use rigos.Config.Store.Tree.{
  strip, opened, copied, copy, names_in, with_name, symlink_metadata, read_dir, ask, is_directory,
}
use rigos.Config.Store.Tree.Laws.{outside-ne, strip-append, path_eq-append}
use rigos.Config.Store.Tree.Keeps.{opened_kept}
use rigos.Config.Revision.Fill.{carry-Keeps, carry_one-Keeps}
use rigos.Config.Stored.{Stored}
use rigos.Config.Revision.{
  io_error, W, prior_identities, carries, carry_if, carry, carry_all, carry_from, carry_identities,
}

-- A name of the directory is listed.
pub names_in_complete {ℓ} :
    {C : Type ℓ} (p : FilePath) (name : String) (d : List (Slot C)) {e : Entry C}
    → get (p ++ name ∷ []) d ≡ some e
    → Any (λ n. n ≡ name) (names_in p d)
unfolding get names_in
names_in_complete p name [] h = cc
names_in_complete p name (s ∷ d) {e} h = elim (Bool-cases (path_eq s.path (p ++ name ∷ []))) [
  | inl here ↦
      let at : strip p s.path ≡ some (name ∷ []) =
        ap (strip p) (path_eq_sound s.path (p ++ name ∷ []) here) ∙ strip-append p (name ∷ []) in
      rw at (inl refl)
  | inr away ↦
      later (strip p s.path) (names_in p d) (names_in_complete p name d {e = e} (rw away at h))
]
  where
    later :
        (o : Option FilePath) (names : List String)
        → Any (λ n. n ≡ name) names
        → Any (λ n. n ≡ name) (with_name o names)
    later none names k = k
    later (some []) names k = k
    later (some (a ∷ [])) names k = inr k
    later (some (a ∷ b ∷ r)) names k = k

copied-file {ℓ} :
    {C : Type ℓ} (q : FilePath) (c : C) (o : Option (Entry C)) (d : List (Slot C))
    {e : List (Slot C)}
    → o ≡ some (file c)
    → copied q o d ≡ some e
    → get q e ≡ some (file c)
copied-file q c o d {e} h k =
    let f : copied q (some (file c)) d ≡ some e = subst (λ o. copied q o d ≡ some e) h k in
    ap (get q) (sym (some-injective _ _ f)) ∙ get-put q (file c) d

module _ {R : Type 0} (faults : ℕ → Bool) where
  pub ask-eq-done :
      {A : Type 0} (f : List (Slot Stored) → A) (w end : World Stored R) (a : A)
      → ask faults f w ≡ done a end
      → (a ≡ f w.disk) × (end.disk ≡ w.disk)
  ask-eq-done f w end a h = elim (Bool-cases (faults w.clock)) [
    | inl e ↦ absurd (cc (rw e at h))
    | inr e ↦ answered (rw e at h)
  ]
    where
      answered :
          ◌≡◌ {A = Ran (World Stored R) _}
            (done (f w.disk) (record w { clock = w.clock + 1 }))
            (done a end)
          → (a ≡ f w.disk) × (end.disk ≡ w.disk)
      answered e =
          let (x, y) = done_injective e in (sym x, ap (λ (v : World Stored R). v.disk) (sym y))

  copy-file :
      (from to : FilePath) (c : Stored) (w end : World Stored R)
      → path_eq to from ≡ false
      → get from w.disk ≡ some (file c)
      → copy faults from to w ≡ done tt end
      → get to end.disk ≡ some (file c)
  unfolding copy
  copy-file from to c w end other h k =
      let (u, mid, first, second) =
        then_do-eq-done (call faults (opened to (get from w.disk) w.disk) w) _ k in
      let (d, e, f) = call-eq-done faults (copied to (get from mid.disk) mid.disk) mid end second in
      let (d1, e1, f1) = call-eq-done faults (opened to (get from w.disk) w.disk) w mid first in
      let still : get from mid.disk ≡ some (file c) =
        ap (λ (v : World Stored R). get from v.disk) f1
        ∙ opened_kept from to other (get from w.disk) w.disk e1
        ∙ h in
      ap (λ (v : World Stored R). get to v.disk) f
      ∙ copied-file to c (get from mid.disk) mid.disk still e

module _ (R : Type 0) (faults : ℕ → Bool) (fresh : ℕ → String) (chowns : ℕ → Bool) (alias : String)
    (prior base : FilePath) (out : (n : String) → strip base (prior ++ n ∷ []) ≡ none) where
  source-Keeps :
      (name n : String)
      → Keeps {R = R} (prior ++ name ∷ []) (carry faults fresh chowns alias prior base n)
  source-Keeps name n =
      carry-Keeps faults fresh chowns (prior ++ name ∷ []) base alias prior
        (λ m. outside-ne base (prior ++ name ∷ []) _ (out name)) n

  module _ (name : String) (c : Stored) (carried : carries alias name ≡ true) where
    carry-file :
        (w end : World Stored R)
        → get (prior ++ name ∷ []) w.disk ≡ some (file c)
        → carry faults fresh chowns alias prior base name w ≡ done tt end
        → get (base ++ "identities" ∷ name ∷ []) end.disk ≡ some (file c)
    unfolding carry symlink_metadata
    carry-file w end h k =
        let (entry, mid, first, second) =
          then_do-eq-done (map_err io_error (symlink_metadata faults (prior ++ name ∷ [])) w) _ k in
        let (is, same) =
          ask-eq-done faults (get (prior ++ name ∷ [])) w mid entry
            (caught-eq-done io_error _ first) in
        let plain : (is_plain entry && carries alias name) ≡ true =
          ap (λ (o : Option (Entry Stored)). is_plain o && carries alias name) (is ∙ h) ∙ carried in
        let copies : map_err io_error
              (copy faults (prior ++ name ∷ []) (base ++ "identities" ∷ name ∷ [])) mid
            ≡ done tt end =
          ap
            (λ b.
              carry_if {R = R} faults fresh chowns b (prior ++ name ∷ [])
                (base ++ "identities" ∷ name ∷ []) mid)
            (sym plain)
          ∙ second in
        copy-file faults (prior ++ name ∷ []) (base ++ "identities" ∷ name ∷ []) c mid end
          (outside-ne base (prior ++ name ∷ []) _ (out name))
          (ap (get (prior ++ name ∷ [])) same ∙ h) (caught-eq-done io_error _ copies)

    -- A later step leaves the copy, or makes it again.
    carry-again :
        (n : String) (w end : World Stored R)
        → get (prior ++ name ∷ []) w.disk ≡ some (file c)
        → get (base ++ "identities" ∷ name ∷ []) w.disk ≡ some (file c)
        → carry faults fresh chowns alias prior base n w ≡ done tt end
        → get (base ++ "identities" ∷ name ∷ []) end.disk ≡ some (file c)
    unfolding path_eq
    carry-again n w end h there k = elim (Bool-cases (text_eq n name)) [
      | inl e ↦ carry-file w end h (
          subst (λ x. carry faults fresh chowns alias prior base x w ≡ done tt end)
            ((eq_iff n name).0 e) k)
      | inr e ↦
          Keeps-done (base ++ "identities" ∷ name ∷ [])
            (carry faults fresh chowns alias prior base n) w end
            (carry_one-Keeps faults fresh chowns (base ++ "identities" ∷ name ∷ []) base alias prior
              n (path_eq-append base _ _ ∙ rw e refl))
            k
          ∙ there
    ]

    carry_all-again :
        (names : List String) (w end : World Stored R)
        → get (prior ++ name ∷ []) w.disk ≡ some (file c)
        → get (base ++ "identities" ∷ name ∷ []) w.disk ≡ some (file c)
        → carry_all faults fresh chowns alias prior base names w ≡ done tt end
        → get (base ++ "identities" ∷ name ∷ []) end.disk ≡ some (file c)
    unfolding carry_all
    carry_all-again [] w end h there k =
        ap (λ (v : World Stored R). get (base ++ "identities" ∷ name ∷ []) v.disk)
          (sym (done_injective k).1)
        ∙ there
    carry_all-again (n ∷ names) w end h there k =
        let (u, mid, first, second) =
          then_do-eq-done (carry faults fresh chowns alias prior base n w) _ k in
        carry_all-again names mid end
          (Keeps-done (prior ++ name ∷ []) (carry faults fresh chowns alias prior base n) w mid
              (source-Keeps name n) first
            ∙ h)
          (carry-again n w mid h there first) second

    carry_all-file :
        (names : List String)
        → Any (λ n. n ≡ name) names
        → (w end : World Stored R) → get (prior ++ name ∷ []) w.disk ≡ some (file c)
        → carry_all faults fresh chowns alias prior base names w ≡ done tt end
        → get (base ++ "identities" ∷ name ∷ []) end.disk ≡ some (file c)
    unfolding carry_all
    carry_all-file [] m w end h k = absurd m
    carry_all-file (n ∷ names) m w end h k =
        let (u, mid, first, second) =
          then_do-eq-done (carry faults fresh chowns alias prior base n w) _ k in
        let still =
          Keeps-done (prior ++ name ∷ []) (carry faults fresh chowns alias prior base n) w mid
            (source-Keeps name n) first
          ∙ h in
        elim m [
          | inl e ↦
              carry_all-again names mid end still
                (carry-file w mid h (
                  subst (λ x. carry faults fresh chowns alias prior base x w ≡ done tt mid) e
                    first))
                second
          | inr later ↦ carry_all-file names later mid end still second
        ]

    -- Where no call fails and the directory is there, its file is taken over.
    pub carry_identities-file :
        ((n : ℕ) → faults n ≡ false)
        → (w end : World Stored R) → prior_identities faults fresh chowns w ≡ prior
        → get prior w.disk ≡ some dir
        → get (prior ++ name ∷ []) w.disk ≡ some (file c)
        → carry_identities faults fresh chowns alias base w ≡ done tt end
        → get (base ++ "identities" ∷ name ∷ []) end.disk ≡ some (file c)
    unfolding carry_identities is_directory carry_from read_dir
    carry_identities-file calm w end is there h k =
        let asked : W R = record w { clock = w.clock + 1 } in
        let same : carry_from faults fresh chowns alias prior base true asked ≡ done tt end =
          ap (λ b. carry_from {R = R} faults fresh chowns alias prior base b asked)
            (sym (
              ap (λ (b : Bool). if b then false else is_dir (get prior w.disk)) (calm w.clock)
              ∙ ap is_dir there))
          ∙ subst
              (λ (q : FilePath).
                (is_directory faults q >>= carry_from {R = R} faults fresh chowns alias q base) w
                ≡ done tt end)
              is k in
        let (names, mid, first, second) =
          then_do-eq-done (map_err io_error (read_dir faults prior) asked) _ same in
        let (listed, disk) =
          ask-eq-done faults (names_in prior) asked mid names (caught-eq-done io_error _ first) in
        carry_all-file names
          (subst (λ l. Any (λ n. n ≡ name) l) (sym listed)
            (names_in_complete prior name w.disk {e = file c} h))
          mid end (ap (get (prior ++ name ∷ [])) disk ∙ h) second
