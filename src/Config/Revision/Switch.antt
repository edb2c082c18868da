-- ===== src/Config/Revision/Switch.antt =====
-- publish: from a directory that is filled to the link `current`.
use rigos.Base.{ℕ, String, ◌≡◌, refl, sym, ◌∙◌, subst, Bool, Option, ◌++◌, ◌⊎◌, inl, inr}
use mathlib.Core.Path.{fun_ext}
use rigos.Config.Hive.{Value}
use rigos.Config.Identity.{IdentityRecord}
use rigos.Config.Proposal.{Proposal}
use rigos.Config.Store.{
  FilePath, Entry, World, Ran, Io, map_err, get, create_symlink, rename, read_link,
}
use rigos.Config.Store.Laws.{caught-eq-done}
use rigos.Config.Store.Keeps.{Keeps, Keeps-map_err, Keeps-read_link}
use rigos.Config.Store.Leaves.{Keeps-done, Keeps-failed}
use rigos.Config.Store.Ends.{Ends, Ends-intro, Ends-mono, Ends-bind}
use rigos.Config.Store.Tree.{rename_dir, sync}
use rigos.Config.Store.Tree.Keeps.{Keeps-rename_dir, Keeps-sync}
use rigos.Config.Stored.{Stored}
use rigos.Config.Revision.{
  current, final_dir, staging, io_error, publish, finish, switch, link_revision, keep_previous,
  ensure_public_links, public_links,
}
use rigos.Config.Revision.Paths.{staging_outside_current, final_outside_current}
use rigos.Config.Revision.Filled.{IsFilled}
use rigos.Config.Revision.Publish.{rename_dir-get}
use rigos.Config.Revision.Stands.{
  StandsAt, Leaving, new_pointer, hidden_name, leaving, swap-Ends, linked-Ends, links-Leaving,
  previous-Leaving,
}

module _ (R : Type 0) (faults : ℕ → Bool) (fresh : ℕ → String) (chowns : ℕ → Bool)
    (policy xmrig : Value) (proposal : Proposal) (owner : IdentityRecord) (id : String) where
  abbrev pub At : Option (Entry Stored) → World Stored R → Type 0
  At entry w = StandsAt entry id policy xmrig proposal owner w

  -- The revision may have become the current one.
  abbrev pub OldOrNew : Option (Entry Stored) → World Stored R → Type 0
  OldOrNew entry w = (get current w.disk ≡ entry) ⊎ At (new_pointer id) w

  abbrev pub Published : String → World Stored R → Type 0
  Published r w = (r ≡ id) × At (new_pointer id) w

  weaken :
      {A : Type 0} (Done : A → World Stored R → Type 0) (entry : Option (Entry Stored))
      (ran : Ran (World Stored R) A)
      → Ends Done (At entry) ran
      → Ends Done (OldOrNew entry) ran
  weaken Done entry ran h =
      Ends-mono Done Done (At entry) (OldOrNew entry) ran h (λ a w k. k) (λ w k. inl k.pointer)

  sync-Leaving : Leaving {R = R} id (map_err io_error (sync faults))
  sync-Leaving = record {
    pointer = Keeps-map_err current _ _ (Keeps-sync current faults);
    below = λ x. Keeps-map_err _ _ _ (Keeps-sync _ faults);
  }

  abbrev Still : {A : Type 0} → Option (Entry Stored) → A → World Stored R → Type 0
  Still entry a w = At entry w

  finish-Ends :
      (w : World Stored R)
      → At (new_pointer id) w
      → Ends Published (At (new_pointer id)) (finish faults fresh chowns id w)
  unfolding finish
  finish-Ends w h =
      Ends-bind (Still (new_pointer id)) Published (At (new_pointer id)) _ _
        (leaving R faults fresh chowns policy xmrig proposal owner id (new_pointer id)
          (ensure_public_links faults fresh chowns public_links) w
          (links-Leaving R faults fresh chowns policy xmrig proposal owner id) h)
        (λ a v k.
          Ends-bind (Still (new_pointer id)) Published (At (new_pointer id)) _ _
            (leaving R faults fresh chowns policy xmrig proposal owner id (new_pointer id)
              (map_err io_error (sync faults)) v sync-Leaving k)
            (λ b u l. (refl, l)))

  switch-Ends :
      (entry : Option (Entry Stored)) (w : World Stored R)
      → At entry w
      → Ends Published (OldOrNew entry) (switch faults fresh chowns id w)
  unfolding switch
  switch-Ends entry w h =
      Ends-bind (λ a v. At entry v × (get (hidden_name id) v.disk ≡ new_pointer id)) Published
        (OldOrNew entry)
        (map_err io_error (create_symlink faults (final_dir id) (hidden_name id)) w) _
        (weaken (λ a v. At entry v × (get (hidden_name id) v.disk ≡ new_pointer id)) entry _
          (linked-Ends R faults fresh chowns policy xmrig proposal owner id entry w h))
        (λ a v k.
          Ends-bind (Still (new_pointer id)) Published (OldOrNew entry)
            (map_err io_error (rename faults (hidden_name id) current) v) _
            (weaken (Still (new_pointer id)) entry _
              (swap-Ends R faults fresh chowns policy xmrig proposal owner id entry v k.1 k.0))
            (λ b u l.
              Ends-mono Published Published (At (new_pointer id)) (OldOrNew entry)
                (finish faults fresh chowns id u) (finish-Ends u l) (λ c x m. m) (λ x m. inr m)))

  link_revision-Ends :
      (entry : Option (Entry Stored)) (w : World Stored R)
      → At entry w
      → Ends Published (OldOrNew entry) (link_revision faults fresh chowns id w)
  unfolding link_revision
  link_revision-Ends entry w h =
      Ends-bind (Still entry) Published (OldOrNew entry) (read_link faults current w) _
        (weaken (Still entry) entry _ (
          leaving R faults fresh chowns policy xmrig proposal owner id entry
            (read_link faults current) w
            (record {
              pointer = Keeps-read_link current faults current;
              below = λ x. Keeps-read_link (final_dir id ++ x) faults current;
            })
            h))
        (λ o v k.
          Ends-bind (Still entry) Published (OldOrNew entry)
            (keep_previous faults fresh chowns id o v) _
            (weaken (Still entry) entry _ (
              leaving R faults fresh chowns policy xmrig proposal owner id entry
                (keep_previous faults fresh chowns id o) v
                (previous-Leaving R faults fresh chowns policy xmrig proposal owner id o) k))
            (λ b u l. switch-Ends entry u l))

  pub publish-Ends :
      (entry : Option (Entry Stored)) (w : World Stored R)
      → get current w.disk ≡ entry
      → IsFilled (λ x. get (staging id ++ x) w.disk) policy xmrig proposal owner
      → Ends Published (OldOrNew entry) (publish faults fresh chowns id w)
  unfolding publish
  publish-Ends entry w h k =
      let move : Io (World Stored R) (Unit {0}) =
        map_err io_error (rename_dir faults (staging id) (final_dir id)) in
      let kept : Keeps current move = Keeps-map_err current io_error _ (
        Keeps-rename_dir current faults (staging id) (final_dir id) (staging_outside_current id)
          (final_outside_current id)) in
      Ends-bind (Still entry) Published (OldOrNew entry) (move w) after_renamed
        (Ends-intro (Still entry) (OldOrNew entry) (move w)
          (λ a v e. record {
            pointer = Keeps-done current move w v kept e ∙ h;
            revision =
                subst
                  (λ (at : FilePath → Option (Entry Stored)).
                    IsFilled at policy xmrig proposal owner)
                  (fun_ext (λ x. sym (
                    rename_dir-get faults (staging id) (final_dir id) w v
                      (caught-eq-done io_error _ e) x)))
                  k;
          })
          (λ e v f. inl (Keeps-failed current move w v kept f ∙ h)))
        (λ a v l. link_revision-Ends entry v l)
    where
      after_renamed : Unit {0} → Io (World Stored R) String
      after_renamed u = link_revision faults fresh chowns id
