-- ===== src/Config/Revision/Publish.antt =====
-- From the directory that is filled to the link `current`: what each step of publish leaves.
use Prim.Native.String
use rigos.Base.{
  ℕ, String, ◌≡◌, refl, sym, ◌∙◌, ap, Bool, true, false, Option, none, some, List, [], ◌∷◌, ◌++◌,
  any, All, Bool-cases, inl, inr,
}
use mathlib.Core.Option.{some-injective}
use rigos.Config.Store.{
  FilePath, path_eq, Entry, link, file, torn, dir, Slot, World, Ran, done, failed, left, get,
}
use rigos.Config.Store.Laws.{call-eq-done}
use rigos.Config.Store.Keeps.{
  Keeps, Keeps-bind, Keeps-pure, Keeps-map_err, Keeps-create_symlink, Keeps-rename, Keeps-exists,
}
use rigos.Config.Store.Tree.{moved_tree, is_below, rename_dir, symlink_metadata}
use rigos.Config.Store.Tree.Laws.{get-move_tree}
use rigos.Config.Store.Tree.Keeps.{Keeps-symlink_metadata}
use rigos.Config.Stored.{Stored}
use rigos.Config.Revision.{
  keep_previous, is_err, absent, link_unless, ensure_public_link, ensure_public_links,
}

tree_moved {ℓ} :
    {C : Type ℓ} (p q x : FilePath) (o : Option (Entry C)) (d : List (Slot C)) {e : List (Slot C)}
    → moved_tree p q o d ≡ some e
    → get (q ++ x) e ≡ get (p ++ x) d
tree_moved p q x none d h = cc
tree_moved p q x (some (file c)) d h = cc
tree_moved p q x (some torn) d h = cc
tree_moved p q x (some (link t)) d h = cc
tree_moved p q x (some dir) d h = elim (Bool-cases (any (is_below q) d)) [
  | inl taken ↦ absurd (cc (rw taken at h))
  | inr free ↦
      ap (get (q ++ x)) (sym (some-injective _ _ (rw free at h))) ∙ get-move_tree p q x d free
]

module _ {ℓ κ} {C : Type ℓ} {R : Type κ} (faults : ℕ → Bool) where
  -- The renamed directory holds what it held.
  pub rename_dir-get :
      (p q : FilePath) (w end : World C R)
      → rename_dir faults p q w ≡ done tt end
      → (x : FilePath) → get (q ++ x) end.disk ≡ get (p ++ x) w.disk
  unfolding rename_dir
  rename_dir-get p q w end h x =
      let (d, e, f) = call-eq-done faults (moved_tree p q (get p w.disk) w.disk) w end h in
      ap (λ (v : World C R). get (q ++ x) v.disk) f ∙ tree_moved p q x (get p w.disk) w.disk e

module _ {R : Type 0} (faults : ℕ → Bool) (fresh : ℕ → String) (chowns : ℕ → Bool)
    (p : FilePath) where
  module _ (id : String) (hidden : path_eq (String.◌++◌ ".previous-" id ∷ []) p ≡ false)
      (old : path_eq ("previous" ∷ []) p ≡ false) where
    pub keep_previous-Keeps :
        (o : Option FilePath) → Keeps {R = R} p (keep_previous faults fresh chowns id o)
    unfolding keep_previous
    keep_previous-Keeps none = Keeps-pure p _
    keep_previous-Keeps (some target) =
        Keeps-bind p _ _ (Keeps-map_err p _ _ (Keeps-create_symlink p faults _ hidden target))
          (λ _. Keeps-map_err p _ _ (Keeps-rename p faults _ hidden _ old))

  link_unless-Keeps :
      (b : Bool) (target q : FilePath)
      → path_eq q p ≡ false
      → Keeps {R = R} p (link_unless faults fresh chowns b target q)
  link_unless-Keeps true target q other = Keeps-pure p _
  link_unless-Keeps false target q other =
      Keeps-map_err p _ _ (Keeps-create_symlink p faults q other target)

  is_err-disk :
      (ran : Ran (World Stored R) (Option (Entry Stored)))
      → get p (left (is_err faults fresh chowns ran)).disk ≡ get p (left ran).disk
  is_err-disk (done o w) = refl
  is_err-disk (failed e w) = refl

  absent-Keeps : (b : Bool) (q : FilePath) → Keeps {R = R} p (absent faults fresh chowns b q)
  absent-Keeps true q = record { holds = λ w. refl }
  absent-Keeps false q = record {
    holds = λ w.
        is_err-disk (symlink_metadata faults q w)
        ∙ Keeps.holds (Keeps-symlink_metadata p faults q) w;
  }

  pub ensure_public_link-Keeps :
      (name : String)
      → path_eq (name ∷ []) p ≡ false
      → Keeps {R = R} p (ensure_public_link faults fresh chowns name)
  unfolding ensure_public_link
  ensure_public_link-Keeps name other =
      Keeps-bind p _ _ (Keeps-exists p faults (name ∷ [])) (λ there.
        Keeps-bind p _ _ (absent-Keeps there (name ∷ []))
          (λ missing. link_unless-Keeps _ _ _ other))

  pub ensure_public_links-Keeps :
      (names : List String)
      → All (λ name. path_eq (name ∷ []) p ≡ false) names
      → Keeps {R = R} p (ensure_public_links faults fresh chowns names)
  unfolding ensure_public_links
  ensure_public_links-Keeps [] h = Keeps-pure p _
  ensure_public_links-Keeps (name ∷ names) h =
      Keeps-bind p _ _ (ensure_public_link-Keeps name h.0)
        (λ _. ensure_public_links-Keeps names h.1)
