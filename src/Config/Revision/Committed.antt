-- ===== src/Config/Revision/Committed.antt =====
-- commit_revision: the link `current` moves in one step, to a revision that is complete.
use rigos.Base.{
  ℕ, String, ◌≡◌, refl, sym, ◌∙◌, subst, Bool, Option, ◌++◌, ◌⊎◌, inl, inr, Result, ok, err, panic,
}
use rigos.Config.Error.{ConfigError}
use rigos.Config.Hive.{Value}
use rigos.Config.Identity.{IdentityRecord}
use rigos.Config.Proposal.{Proposal, build_runtime}
use rigos.Config.Store.{
  path_eq, Entry, World, Ran, done, failed, Io, ◌>>◌, then_do, map_err, left, get,
}
use rigos.Config.Store.Keeps.{Keeps, Keeps-map_err}
use rigos.Config.Store.Leaves.{Keeps-done, Keeps-failed}
use rigos.Config.Store.Ends.{Ends, Ends-intro, Ends-mono, Ends-bind}
use rigos.Config.Store.Tree.{remove_dir_all, create_dir, create_dir_all}
use rigos.Config.Store.Tree.Keeps.{Keeps-remove_dir_all, Keeps-create_dir, Keeps-create_dir_all}
use rigos.Config.Stored.{Stored}
use rigos.Config.Revision.{
  current, final_dir, staging, revisions, io_error, fill, publish, lifted, prepare, cleaned,
  commit_revision,
}
use rigos.Config.Revision.Paths.{staging_outside, staging_outside_current}
use rigos.Config.Revision.Fill.{fill-Keeps}
use rigos.Config.Revision.Filled.{IsFilled, fill-IsFilled}
use rigos.Config.Revision.Stands.{StandsAt, new_pointer, moved_on}
use rigos.Config.Revision.Switch.{OldOrNew, Published, publish-Ends}

-- The revision `id` holds what the proposal and the identity ask for, and is the current one.
pub record Committed {R : Type 0} (proposal : Proposal) (owner : IdentityRecord) (id : String)
    (w : World Stored R) : Type 0 where
  pub policy : Value
  pub xmrig : Value
  pub built : build_runtime proposal owner ≡ ok (policy, xmrig)
  pub stands : StandsAt (new_pointer id) id policy xmrig proposal owner w

module _ (R : Type 0) (faults : ℕ → Bool) (fresh : ℕ → String) (chowns : ℕ → Bool)
    (proposal : Proposal) (owner : IdentityRecord) where
  abbrev W : Type 0
  W = World Stored R

  -- The pointer is the one before, or comes to a revision that is complete.
  abbrev AtomicFrom : Option (Entry Stored) → W → Type 0
  AtomicFrom entry w = (get current w.disk ≡ entry) ⊎ (id : String) × Committed proposal owner id w

  module _ (policy xmrig : Value) (built : build_runtime proposal owner ≡ ok (policy, xmrig))
      (entry : Option (Entry Stored)) (id : String) where
    abbrev Mid : Unit {0} → W → Type 0
    Mid u w =
        (get current w.disk ≡ entry)
        × IsFilled (λ x. get (staging id ++ x) w.disk) policy xmrig proposal owner

    abbrev Half : W → Type 0
    Half = OldOrNew R faults fresh chowns policy xmrig proposal owner id entry

    abbrev Full : String → W → Type 0
    Full = Published R faults fresh chowns policy xmrig proposal owner id

    fill_it : Io W (Unit {0})
    fill_it = fill faults fresh chowns (staging id) policy xmrig proposal owner

    pruned-Half : (w : W) → Half w → Half (left (remove_dir_all faults (staging id) w))
    pruned-Half w (inl h) = inl (
        Keeps.holds (Keeps-remove_dir_all current faults (staging id) (staging_outside_current id))
          w
        ∙ h)
    pruned-Half w (inr h) = inr (
        moved_on R faults fresh chowns policy xmrig proposal owner id (new_pointer id) w
          (left (remove_dir_all faults (staging id) w))
          (Keeps.holds
            (Keeps-remove_dir_all current faults (staging id) (staging_outside_current id)) w)
          (λ x.
            Keeps.holds
              (Keeps-remove_dir_all (final_dir id ++ x) faults (staging id) (staging_outside id x))
              w)
          h)

    cleaned-Ends :
        (ran : Ran W String)
        → Ends Full Half ran
        → Ends Full Half (cleaned faults fresh chowns id ran)
    cleaned-Ends (done r w) h = h
    cleaned-Ends (failed e w) h = pruned-Half w h

    filled-Ends :
        (w : W)
        → get current w.disk ≡ entry
        → Ends Full Half
            (cleaned faults fresh chowns id ((fill_it >> publish faults fresh chowns id) w))
    unfolding fill_it
    filled-Ends w h =
        let kept : Keeps current fill_it =
          fill-Keeps faults fresh chowns current (staging id) (staging_outside_current id) policy
            xmrig proposal owner in
        cleaned-Ends ((fill_it >> publish faults fresh chowns id) w) (
          Ends-bind Mid Full Half (fill_it w) (λ u. publish faults fresh chowns id)
            (Ends-intro Mid Half (fill_it w)
              (λ u v e. (
                Keeps-done current fill_it w v kept e ∙ h,
                fill-IsFilled R faults fresh chowns (staging id) policy xmrig proposal owner w v e,
              ))
              (λ e v f. inl (Keeps-failed current fill_it w v kept f ∙ h)))
            (λ u v k.
              publish-Ends R faults fresh chowns policy xmrig proposal owner id entry v k.0 k.1))

    wrapped :
        (w : W)
        → get current w.disk ≡ entry
        → Ends
            (λ r v. Committed proposal owner r v)
            (AtomicFrom entry)
            (cleaned faults fresh chowns id ((fill_it >> publish faults fresh chowns id) w))
    wrapped w h =
        Ends-mono Full (λ r v. Committed proposal owner r v) Half (AtomicFrom entry) _
          (filled-Ends w h)
          (λ r v k.
            subst (λ i. Committed proposal owner i v) (sym k.0)
              (record { policy = policy; xmrig = xmrig; built = built; stands = k.1 }))
          (λ v k. elim k [
            | inl old ↦ inl old
            | inr new ↦
                inr (id, record { policy = policy; xmrig = xmrig; built = built; stands = new })
          ])

  abbrev Done : String → W → Type 0
  Done r v = Committed proposal owner r v

  abbrev Kept : {A : Type 0} → Option (Entry Stored) → A → W → Type 0
  Kept entry a v = get current v.disk ≡ entry

  -- A step that leaves the pointer, before the directory is filled.
  early :
      {A : Type 0} (entry : Option (Entry Stored)) (m : Io W A) (w : W)
      → Keeps current m
      → get current w.disk ≡ entry
      → Ends (Kept entry) (AtomicFrom entry) (m w)
  early entry m w k h =
      Ends-intro (Kept entry) (AtomicFrom entry) (m w) (λ a v e. Keeps-done current m w v k e ∙ h)
        (λ e v f. inl (Keeps-failed current m w v k f ∙ h))

  prepare-Ends :
      (policy xmrig : Value)
      → build_runtime proposal owner ≡ ok (policy, xmrig)
      → (w : W)
      → Ends Done
          (AtomicFrom (get current w.disk))
          (prepare faults fresh chowns proposal owner (policy, xmrig) w)
  unfolding prepare fill_it revisions staging path_eq
  prepare-Ends policy xmrig built w =
      let entry = get current w.disk in
      Ends-bind (Kept entry) Done (AtomicFrom entry)
        (map_err io_error (create_dir_all faults revisions) w) _
        (early entry (map_err io_error (create_dir_all faults revisions)) w
          (Keeps-map_err current _ _ (Keeps-create_dir_all current faults revisions refl)) refl)
        (λ u v h.
          Ends-bind (Kept entry) Done (AtomicFrom entry)
            (map_err io_error (create_dir faults (staging (fresh v.clock))) v) _
            (early entry (map_err io_error (create_dir faults (staging (fresh v.clock)))) v
              (Keeps-map_err current _ _
                (Keeps-create_dir current faults (staging (fresh v.clock)) refl))
              h)
            (λ t x k. wrapped policy xmrig built entry (fresh v.clock) x k))

  commit-Ends :
      (w : W)
      → Ends Done
          (AtomicFrom (get current w.disk))
          (commit_revision faults fresh chowns proposal owner w)
  unfolding commit_revision
  commit-Ends w = by_build (build_runtime proposal owner) refl
    where
      by_build :
          (r : Result ConfigError (Value × Value))
          → build_runtime proposal owner ≡ r
          → Ends Done
              (AtomicFrom (get current w.disk))
              (then_do (lifted r w) (prepare faults fresh chowns proposal owner))
      by_build (ok (policy, xmrig)) e = prepare-Ends policy xmrig e w
      by_build (err d) e = inl refl
      by_build panic e = inl refl

  -- A commit that succeeds has made `current` the link to a revision that holds the policy, the
  -- configuration of the miner, the sheet and the identity, and the provenance and the identity map
  -- where the proposal has an external origin.
  pub commit_revision-Committed :
      (w end : W) (id : String)
      → commit_revision faults fresh chowns proposal owner w ≡ done id end
      → Committed proposal owner id end
  commit_revision-Committed w end id h =
      subst (λ (ran : Ran W String). Ends Done (AtomicFrom (get current w.disk)) ran) h
        (commit-Ends w)

  -- A commit that fails, at whichever of its system calls, has left `current` as it was, or as the
  -- link to a revision that is complete: no reader finds a half of one.
  pub commit_revision-Atomic :
      (w end : W) (e : ConfigError)
      → commit_revision faults fresh chowns proposal owner w ≡ failed e end
      → (get current end.disk ≡ get current w.disk)
        ⊎ (id : String) × Committed proposal owner id end
  commit_revision-Atomic w end e h =
      subst (λ (ran : Ran W String). Ends Done (AtomicFrom (get current w.disk)) ran) h
        (commit-Ends w)
