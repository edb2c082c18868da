-- ===== src/Config/Store/Tree/Keeps.antt =====
-- The operations on directories leave what stands elsewhere.
use rigos.Base.{
  ℕ, ◌≡◌, refl, sym, ◌∙◌, ap, Bool, false, Option, none, some, List, any, Bool-cases, inl, inr,
}
use mathlib.Core.Option.{some-injective}
use rigos.Config.Store.{FilePath, path_eq, Entry, file, torn, link, dir, Slot, get, put, call}
use rigos.Config.Store.Laws.{call-disk, get-put_other}
use rigos.Config.Store.Keeps.{Keeps, Keeps-bind}
use rigos.Config.Store.Tree.{
  strip, made, made_all, moved_tree, opened, copied, prune, is_below, create_dir, create_dir_all,
  rename_dir, remove_dir_all, copy, ask, sync, read_dir, symlink_metadata, is_directory,
}
use rigos.Config.Store.Tree.Laws.{get-move_tree_outside, get-prune_outside}

module _ {ℓ} {C : Type ℓ} (p q : FilePath) (other : path_eq q p ≡ false) where
  put_kept :
      (e : Entry C) (d : List (Slot C)) {x : List (Slot C)}
      → ◌≡◌ {A = Option (List (Slot C))} (some (put q e d)) (some x)
      → get p x ≡ get p d
  put_kept e d h = ap (get p) (sym (some-injective _ _ h)) ∙ get-put_other q p e d other

  pub made_kept :
      (o : Option (Entry C)) (d : List (Slot C)) {x : List (Slot C)}
      → made q o d ≡ some x
      → get p x ≡ get p d
  made_kept none d h = put_kept dir d h
  made_kept (some e) d h = cc

  pub made_all_kept :
      (o : Option (Entry C)) (d : List (Slot C)) {x : List (Slot C)}
      → made_all q o d ≡ some x
      → get p x ≡ get p d
  made_all_kept none d h = put_kept dir d h
  made_all_kept (some dir) d h = ap (get p) (sym (some-injective _ _ h))
  made_all_kept (some (file c)) d h = cc
  made_all_kept (some torn) d h = cc
  made_all_kept (some (link t)) d h = cc

  pub opened_kept :
      (o : Option (Entry C)) (d : List (Slot C)) {x : List (Slot C)}
      → opened q o d ≡ some x
      → get p x ≡ get p d
  opened_kept none d h = cc
  opened_kept (some (file c)) d h = put_kept torn d h
  opened_kept (some torn) d h = put_kept torn d h
  opened_kept (some (link t)) d h = cc
  opened_kept (some dir) d h = cc

  pub copied_kept :
      (o : Option (Entry C)) (d : List (Slot C)) {x : List (Slot C)}
      → copied q o d ≡ some x
      → get p x ≡ get p d
  copied_kept none d h = cc
  copied_kept (some (file c)) d h = put_kept (file c) d h
  copied_kept (some torn) d h = put_kept torn d h
  copied_kept (some (link t)) d h = cc
  copied_kept (some dir) d h = cc

moved_tree_kept {ℓ} :
    {C : Type ℓ} (p q r : FilePath)
    → strip q p ≡ none
    → strip r p ≡ none
    → (o : Option (Entry C)) (d : List (Slot C)) {x : List (Slot C)} → moved_tree q r o d ≡ some x
    → get p x ≡ get p d
moved_tree_kept p q r h k none d e = cc
moved_tree_kept p q r h k (some (file c)) d e = cc
moved_tree_kept p q r h k (some torn) d e = cc
moved_tree_kept p q r h k (some (link t)) d e = cc
moved_tree_kept p q r h k (some dir) d e = elim (Bool-cases (any (is_below r) d)) [
  | inl taken ↦ absurd (cc (rw taken at e))
  | inr free ↦
      ap (get p) (sym (some-injective _ _ (rw free at e))) ∙ get-move_tree_outside q r p d h k
]

module _ {ℓ κ} {C : Type ℓ} {R : Type κ} (p : FilePath) (faults : ℕ → Bool) where
  pub Keeps-ask {μ} : {A : Type μ} (f : List (Slot C) → A) → Keeps {C = C} {R = R} p (ask faults f)
  Keeps-ask f = record {
    holds = λ w. elim (Bool-cases (faults w.clock)) [ inl e ↦ rw e | inr e ↦ rw e ];
  }

  pub Keeps-sync : Keeps {C = C} {R = R} p (sync faults)
  unfolding sync
  Keeps-sync = Keeps-ask (λ d. tt)

  pub Keeps-read_dir : (q : FilePath) → Keeps {C = C} {R = R} p (read_dir faults q)
  unfolding read_dir
  Keeps-read_dir q = Keeps-ask _

  pub Keeps-symlink_metadata : (q : FilePath) → Keeps {C = C} {R = R} p (symlink_metadata faults q)
  unfolding symlink_metadata
  Keeps-symlink_metadata q = Keeps-ask _

  pub Keeps-is_directory : (q : FilePath) → Keeps {C = C} {R = R} p (is_directory faults q)
  unfolding is_directory
  Keeps-is_directory q = record { holds = λ w. refl }

  -- A call that keeps `p` wherever it may leave a disk.
  pub Keeps-call :
      (f : List (Slot C) → Option (List (Slot C)))
      → ((d x : List (Slot C)) → f d ≡ some x → get p x ≡ get p d)
      → Keeps {C = C} {R = R} p (λ w. call faults (f w.disk) w)
  Keeps-call f h = record {
    holds =
        λ w. call-disk faults (λ d. get p d ≡ get p w.disk) (f w.disk) w refl (λ x e. h w.disk x e);
  }

  pub Keeps-rename_dir :
      (q r : FilePath)
      → strip q p ≡ none
      → strip r p ≡ none
      → Keeps {C = C} {R = R} p (rename_dir faults q r)
  unfolding rename_dir
  Keeps-rename_dir q r h k =
      Keeps-call (λ d. moved_tree q r (get q d) d)
        (λ d x e. moved_tree_kept p q r h k (get q d) d e)

  pub Keeps-remove_dir_all :
      (q : FilePath) → strip q p ≡ none → Keeps {C = C} {R = R} p (remove_dir_all faults q)
  unfolding remove_dir_all
  Keeps-remove_dir_all q h =
      Keeps-call (λ d. some (prune q d))
        (λ d x e. ap (get p) (sym (some-injective _ _ e)) ∙ get-prune_outside q p d h)

  module _ (q : FilePath) (other : path_eq q p ≡ false) where
    pub Keeps-create_dir : Keeps {C = C} {R = R} p (create_dir faults q)
    unfolding create_dir
    Keeps-create_dir =
        Keeps-call (λ d. made q (get q d) d) (λ d x e. made_kept p q other (get q d) d e)

    pub Keeps-create_dir_all : Keeps {C = C} {R = R} p (create_dir_all faults q)
    unfolding create_dir_all
    Keeps-create_dir_all =
        Keeps-call (λ d. made_all q (get q d) d) (λ d x e. made_all_kept p q other (get q d) d e)

    pub Keeps-copy : (from : FilePath) → Keeps {C = C} {R = R} p (copy faults from q)
    unfolding copy
    Keeps-copy from =
        Keeps-bind p (λ w. call faults (opened q (get from w.disk) w.disk) w)
          (λ _ w. call faults (copied q (get from w.disk) w.disk) w)
          (Keeps-call (λ d. opened q (get from d) d)
            (λ d x e. opened_kept p q other (get from d) d e))
          (λ _.
            Keeps-call (λ d. copied q (get from d) d)
              (λ d x e. copied_kept p q other (get from d) d e))
