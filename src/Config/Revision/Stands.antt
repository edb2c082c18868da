-- ===== src/Config/Revision/Stands.antt =====
-- The link `current` and the revision that it comes to: the steps that leave both, and the step
-- in which the link changes.
use Prim.Native.String
use rigos.Base.{ℕ, String, ◌≡◌, refl, sym, ◌∙◌, ap, subst, Bool, Option, some, [], ◌∷◌, ◌++◌}
use mathlib.Core.Path.{fun_ext}
use rigos.Config.Hive.{Value}
use rigos.Config.Identity.{IdentityRecord}
use rigos.Config.Proposal.{Proposal}
use rigos.Config.Store.{
  FilePath, path_eq, Entry, link, World, done, Io, map_err, get, create_symlink, rename,
}
use rigos.Config.Store.Laws.{
  get-put, create_symlink-eq-done, rename-eq-done, rename-eq-failed, caught-eq-done,
}
use rigos.Config.Store.Keeps.{Keeps, Keeps-map_err, Keeps-create_symlink, Keeps-rename}
use rigos.Config.Store.Leaves.{Keeps-done, Keeps-failed}
use rigos.Config.Store.Ends.{Ends, Ends-intro, Ends-caught}
use rigos.Config.Stored.{Stored}
use rigos.Config.Revision.{
  current, final_dir, io_error, keep_previous, ensure_public_links, public_links,
}
use rigos.Config.Revision.Paths.{hidden_ne_current, name_ne_final, names_ne_final}
use rigos.Config.Revision.Filled.{IsFilled}
use rigos.Config.Revision.Publish.{keep_previous-Keeps, ensure_public_links-Keeps}

-- What the link `current` is, and that the revision `id` holds the documents.
pub record StandsAt {R : Type 0} (entry : Option (Entry Stored)) (id : String)
    (policy xmrig : Value) (proposal : Proposal) (owner : IdentityRecord) (w : World Stored R)
    : Type 0 where
  pub pointer : get current w.disk ≡ entry
  pub revision : IsFilled (λ x. get (final_dir id ++ x) w.disk) policy xmrig proposal owner

-- A chain that leaves the link and the revision.
pub record Leaving {R A : Type 0} (id : String) (m : Io (World Stored R) A) : Type 0 where
  pub pointer : Keeps current m
  pub below : (x : FilePath) → Keeps (final_dir id ++ x) m

abbrev pub new_pointer : String → Option (Entry Stored)
new_pointer id = some (link (final_dir id))

abbrev pub hidden_name : String → FilePath
hidden_name id = String.◌++◌ ".current-" id ∷ []

module _ (R : Type 0) (faults : ℕ → Bool) (fresh : ℕ → String) (chowns : ℕ → Bool)
    (policy xmrig : Value) (proposal : Proposal) (owner : IdentityRecord) (id : String) where
  abbrev pub At : Option (Entry Stored) → World Stored R → Type 0
  At entry w = StandsAt entry id policy xmrig proposal owner w

  pub refilled :
      (w v : World Stored R)
      → ((x : FilePath) → get (final_dir id ++ x) v.disk ≡ get (final_dir id ++ x) w.disk)
      → IsFilled (λ x. get (final_dir id ++ x) w.disk) policy xmrig proposal owner
      → IsFilled (λ x. get (final_dir id ++ x) v.disk) policy xmrig proposal owner
  refilled w v same h =
      subst (λ (at : FilePath → Option (Entry Stored)). IsFilled at policy xmrig proposal owner)
        (fun_ext (λ x. sym (same x))) h

  pub moved_on :
      (entry : Option (Entry Stored)) (w v : World Stored R)
      → get current v.disk ≡ get current w.disk
      → ((x : FilePath) → get (final_dir id ++ x) v.disk ≡ get (final_dir id ++ x) w.disk)
      → At entry w
      → At entry v
  moved_on entry w v e f h = record {
    pointer = e ∙ h.pointer;
    revision = refilled w v f h.revision;
  }

  pub leaving :
      {A : Type 0} (entry : Option (Entry Stored)) (m : Io (World Stored R) A) (w : World Stored R)
      → Leaving id m
      → At entry w
      → Ends (λ a v. At entry v) (At entry) (m w)
  leaving entry m w h k =
      Ends-intro (λ a v. At entry v) (At entry) (m w)
        (λ a v e.
          moved_on entry w v (Keeps-done current m w v h.pointer e)
            (λ x. Keeps-done (final_dir id ++ x) m w v (h.below x) e) k)
        (λ e v f.
          moved_on entry w v (Keeps-failed current m w v h.pointer f)
            (λ x. Keeps-failed (final_dir id ++ x) m w v (h.below x) f) k)

  pub link-Leaving :
      (target : FilePath)
      → Leaving {R = R} id (map_err io_error (create_symlink faults target (hidden_name id)))
  link-Leaving target = record {
    pointer = Keeps-map_err current _ _ (
        Keeps-create_symlink current faults (hidden_name id) (hidden_ne_current "current-" id)
          target);
    below = λ x.
        Keeps-map_err _ _ _
          (Keeps-create_symlink _ faults (hidden_name id) (name_ne_final _ id x) target);
  }

  -- The one step in which `current` changes.
  swapped :
      (entry : Option (Entry Stored)) (w v : World Stored R)
      → get (hidden_name id) w.disk ≡ new_pointer id
      → At entry w
      → rename faults (hidden_name id) current w ≡ done tt v
      → At (new_pointer id) v
  swapped entry w v h k e =
      let (moved, at, same) = rename-eq-done faults (hidden_name id) current w v e in
      let pointed : get current v.disk ≡ new_pointer id =
        ap (λ (u : World Stored R). get current u.disk) same
        ∙ get-put current moved _
        ∙ sym at
        ∙ h in
      let kept : (x : FilePath) → get (final_dir id ++ x) v.disk ≡ get (final_dir id ++ x) w.disk =
        λ x.
          Keeps-done _ _ w v
            (Keeps-rename (final_dir id ++ x) faults (hidden_name id) (name_ne_final _ id x) current
              (name_ne_final _ id x))
            e in
      record { pointer = pointed; revision = refilled w v kept k.revision }

  pub swap-Ends :
      (entry : Option (Entry Stored)) (w : World Stored R)
      → get (hidden_name id) w.disk ≡ new_pointer id
      → At entry w
      → Ends
          (λ a v. At (new_pointer id) v)
          (At entry)
          (map_err io_error (rename faults (hidden_name id) current) w)
  swap-Ends entry w h k =
      Ends-caught (λ a v. At (new_pointer id) v) (At entry) io_error
        (rename faults (hidden_name id) current w)
        (Ends-intro (λ a v. At (new_pointer id) v) (At entry)
          (rename faults (hidden_name id) current w) (λ a v e. swapped entry w v h k e)
          (λ e v f.
            let same = rename-eq-failed faults (hidden_name id) current w v e f in
            moved_on entry w v (ap (get current) same) (λ x. ap (get (final_dir id ++ x)) same) k))

  -- The hidden link stands where it could be made.
  pub linked-Ends :
      (entry : Option (Entry Stored)) (w : World Stored R)
      → At entry w
      → Ends
          (λ a v. At entry v × (get (hidden_name id) v.disk ≡ new_pointer id))
          (At entry)
          (map_err io_error (create_symlink faults (final_dir id) (hidden_name id)) w)
  linked-Ends entry w k =
      let make : Io (World Stored R) (Unit {0}) =
        map_err io_error (create_symlink faults (final_dir id) (hidden_name id)) in
      Ends-intro (λ a v. At entry v × (get (hidden_name id) v.disk ≡ new_pointer id)) (At entry)
        (make w)
        (λ a v e. (
          moved_on entry w v (Keeps-done current make w v (link-Leaving (final_dir id)).pointer e)
              (λ x. Keeps-done _ make w v ((link-Leaving (final_dir id)).below x) e) k,
          ap (λ (u : World Stored R). get (hidden_name id) u.disk)
                (create_symlink-eq-done faults (final_dir id) (hidden_name id) w v
                  (caught-eq-done io_error _ e))
              ∙ get-put (hidden_name id) (link (final_dir id)) w.disk,
        ))
        (λ e v f.
          moved_on entry w v (Keeps-failed current make w v (link-Leaving (final_dir id)).pointer f)
            (λ x. Keeps-failed _ make w v ((link-Leaving (final_dir id)).below x) f) k)

  pub links-Leaving : Leaving {R = R} id (ensure_public_links faults fresh chowns public_links)
  unfolding path_eq
  links-Leaving = record {
    pointer =
        ensure_public_links-Keeps faults fresh chowns current public_links
          (refl, (refl, (refl, (refl, (refl, tt)))));
    below = λ x.
        ensure_public_links-Keeps faults fresh chowns (final_dir id ++ x) public_links
          (names_ne_final public_links id x);
  }

  pub previous-Leaving :
      (o : Option FilePath) → Leaving {R = R} id (keep_previous faults fresh chowns id o)
  unfolding path_eq
  previous-Leaving o = record {
    pointer =
        keep_previous-Keeps faults fresh chowns current id (hidden_ne_current "previous-" id) refl
          o;
    below = λ x.
        keep_previous-Keeps faults fresh chowns (final_dir id ++ x) id (name_ne_final _ id x)
          (name_ne_final _ id x) o;
  }
