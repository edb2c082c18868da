-- ===== src/Config/Transaction/Pending.antt =====
-- The pending file through the steps of a transaction: only its end removes it.
use rigos.Base.{
  ℕ, String, ◌≡◌, refl, sym, arith, ◌∙◌, ap, Bool, true, false, Option, none, some, List, [], ◌∷◌,
  Bool-cases, inl, inr, All,
}
use Prim.Native.String
use Prim.Native.String.append
use Prim.Native.Char.{Char, code}
use text.Mathlib.Text.{◌==◌ as text_eq}
use text.Mathlib.TextEquality.{eq_iff}
use rigos.Config.Profile.Fields.{RigProfile}
use rigos.Config.Store.{
  FilePath, path_eq, World, Ran, done, failed, Io, then_do, map_err, fail_when, pure, ◌>>=◌, left,
  get, create_symlink, rename,
}
use rigos.Config.Store.Keeps.{
  then_do-Keeps, Keeps, Keeps-bind, Keeps-pure, Keeps-throw, Keeps-fail_when, Keeps-map_err,
  Keeps-ignored, Keeps-remove_file, Keeps-create_symlink, Keeps-rename,
}
use rigos.Config.Transaction.{
  pending, current, public_names, in_world, on_runtime, begin, apply_new_runtime, remove_all,
  restore_pointer, start_again, restore_runtime, same_boot, retract, resume, stopped, ticked,
  rollback_transaction, operation, transaction_error,
}
use rigos.Config.Stored.{RuntimeSnapshot, Stored}
use rigos.Config.Transaction.Runtime.{RuntimeOps}

-- The second character of a text.
abbrev second : String → ℕ
second (String.◌∷◌ a (String.◌∷◌ b s)) = code b
second _ = 0

clash : ◌≡◌ {A = ℕ} b'r' b'p' → ⊥
clash h = omega arith

second-append :
    (a b : Char) (s t : String) → second (String.◌++◌ (String.◌∷◌ a (String.◌∷◌ b s)) t) ≡ code b
second-append a b s t =
    ap second (λ i. append.cons a (String.◌∷◌ b s) t i)
    ∙ ap (λ r. second (String.◌∷◌ a r)) (λ i. append.cons b s t i)

module _ {R : Type 0} where
  left-in_world :
      {A : Type 0} (p : FilePath) (w : World Stored R) (ran : Ran R A)
      → get p (left (in_world w ran)).disk ≡ get p w.disk
  left-in_world p w (done a r) = refl
  left-in_world p w (failed e r) = refl

  pub Keeps-on_runtime : {A : Type 0} (p : FilePath) (m : Io R A) → Keeps {A = A} p (on_runtime m)
  Keeps-on_runtime p m = record { holds = λ w. left-in_world p w (m w.runtime) }

ruleset keeps = (
  Keeps-bind, Keeps-pure, Keeps-throw, Keeps-fail_when, Keeps-map_err, Keeps-ignored,
  Keeps-on_runtime,
)

module _ {R : Type 0} (faults : ℕ → Bool) (boot_id : String) (fresh : ℕ → String)
    (ops : RuntimeOps R) (words : List String) where
  begin-Keeps : (b : Bool) → Keeps pending (begin faults boot_id fresh ops words b)
  unfolding begin
  begin-Keeps false = Keeps-pure _ _
  begin-Keeps true = search keeps

  apply-Keeps :
      (profile : RigProfile)
      → Keeps pending (apply_new_runtime faults boot_id fresh ops words profile)
  unfolding apply_new_runtime
  apply-Keeps profile = search (keeps, begin-Keeps)

  tail-Keeps :
      (profile : RigProfile) (revision : String)
      → Keeps {A = String × Bool} pending (
          apply_new_runtime faults boot_id fresh ops words profile >>= λ started.
          pure (revision, started))
  tail-Keeps profile revision =
      Keeps-bind _ _ _ (apply-Keeps profile) (λ started. Keeps-pure _ (revision, started))

  pub operation-Keeps :
      (commit : Io (World Stored R) String)
      → Keeps pending commit
      → (profile : RigProfile)
      → Keeps pending (operation faults boot_id fresh ops words commit profile)
  unfolding operation
  operation-Keeps commit kept profile =
      Keeps-bind pending
        (map_err (transaction_error "stop_before_commit" "miner could not be stopped before commit")
          (on_runtime ops.stop_miner))
        _ (search keeps)
        (λ _. Keeps-bind pending (on_runtime ops.miner_active) _ (search keeps) (λ active.
          Keeps-bind pending
            (fail_when active
              (transaction_error "stop_before_commit" "miner remained active before commit"))
            _ (search keeps)
            (λ _.
              Keeps-bind pending
                (map_err (transaction_error "pointer_swap" "configuration revision commit failed")
                  commit)
                _ (Keeps-map_err _ _ _ kept) (tail-Keeps profile))))

  remove_all-Keeps :
      (names : List String)
      → All (λ name. path_eq (name ∷ []) pending ≡ false) names
      → Keeps pending (remove_all faults boot_id fresh ops words names)
  remove_all-Keeps [] h = Keeps-pure _ _
  remove_all-Keeps (name ∷ names) h =
      Keeps-bind _ _ _ (Keeps-ignored _ _ (Keeps-remove_file _ faults _ h.0))
        (λ _. remove_all-Keeps names h.1)

  away : (id : String) → path_eq (String.◌++◌ ".rollback-" id ∷ []) pending ≡ false
  unfolding path_eq
  away id = elim (Bool-cases (text_eq (String.◌++◌ ".rollback-" id) ".pending-transaction.json")) [
    | inl e ↦
        let same =
          ap second ((eq_iff (String.◌++◌ ".rollback-" id) ".pending-transaction.json").0 e) in
        let letter : second (String.◌++◌ ".rollback-" id) ≡ b'r' = second-append _ _ _ id in
        let apart : ◌≡◌ {A = ℕ} b'r' b'p' = sym letter ∙ same in absurd (clash apart)
    | inr e ↦ rw e
  ]

  pointer-Keeps :
      (previous : Option FilePath)
      → Keeps pending (restore_pointer faults boot_id fresh ops words previous)
  unfolding restore_pointer path_eq
  pointer-Keeps none = record {
    holds = λ w.
        Keeps.holds
          (remove_all-Keeps public_names (refl, (refl, (refl, (refl, (refl, (refl, tt))))))) w;
  }
  pointer-Keeps (some previous) = record {
    holds = λ w.
        let temporary = String.◌++◌ ".rollback-" (fresh w.clock) ∷ [] in
        Keeps.holds
          (Keeps-bind pending (create_symlink faults previous temporary)
            (λ _. rename faults temporary current)
            (Keeps-create_symlink pending faults temporary (away (fresh w.clock)) previous)
            (λ _. Keeps-rename pending faults temporary (away (fresh w.clock)) current refl))
          w;
  }

  start-Keeps : (b : Bool) → Keeps pending (start_again faults boot_id fresh ops words b)
  unfolding start_again
  start-Keeps false = Keeps-pure _ _
  start-Keeps true = search keeps

  module _ (snapshot : RuntimeSnapshot) where
    restore-Keeps :
        (b : Bool) → Keeps pending (restore_runtime faults boot_id fresh ops words snapshot b)
    unfolding restore_runtime
    restore-Keeps b = search (keeps, start-Keeps)

    boot-Keeps : Keeps pending (same_boot faults boot_id fresh ops words snapshot)
    boot-Keeps = record {
      holds = λ w. elim (Bool-cases (faults w.clock)) [ inl e ↦ rw e | inr e ↦ rw e ];
    }

    stopped-disk :
        (ran : Ran (World Stored R) (Unit {0}))
        → get pending (left (stopped faults boot_id fresh ops words ran)).disk
          ≡ get pending (left ran).disk
    stopped-disk (done u w) = refl
    stopped-disk (failed e w) = Keeps.holds (Keeps-on_runtime pending ops.stop_miner) w

    ticked-disk :
        (ran : Ran (World Stored R) (Unit {0}))
        → get pending (left (ticked faults boot_id fresh ops words ran)).disk
          ≡ get pending (left ran).disk
    ticked-disk (done u w) = refl
    ticked-disk (failed e w) = refl

    retract-Keeps : Keeps pending (retract faults boot_id fresh ops words snapshot)
    unfolding retract
    retract-Keeps = search (keeps, pointer-Keeps)

    resume-Keeps : Keeps pending (resume faults boot_id fresh ops words snapshot)
    unfolding resume
    resume-Keeps = search (keeps, boot-Keeps, restore-Keeps)

    pub rollback-Keeps :
        Keeps pending (rollback_transaction faults boot_id fresh ops words snapshot)
    unfolding rollback_transaction
    rollback-Keeps = record {
      holds = λ w.
          let first = retract faults boot_id fresh ops words snapshot w in
          let half = ticked faults boot_id fresh ops words first in
          stopped-disk (then_do half (λ _. resume faults boot_id fresh ops words snapshot))
          ∙ then_do-Keeps pending half (λ _. resume faults boot_id fresh ops words snapshot)
              (λ _. resume-Keeps)
          ∙ ticked-disk first
          ∙ Keeps.holds retract-Keeps w;
    }
