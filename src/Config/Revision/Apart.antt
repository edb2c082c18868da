-- ===== src/Config/Revision/Apart.antt =====
-- commit_revision leaves the runtime.
use rigos.Base.{
  ℕ, String, ◌≡◌, refl, ◌∙◌, Bool, true, false, Option, none, some, List, [], ◌∷◌, Result, ok, err,
  panic,
}
use rigos.Config.Hive.{Value}
use rigos.Config.Identity.{IdentityRecord}
use rigos.Config.Proposal.{ExternalReference, ImportProvenance, Proposal, build_runtime}
use rigos.Config.Store.{FilePath, Entry, World, Ran, done, failed, ◌>>=◌, left, get}
use rigos.Config.Store.Quiet.{
  Quiet, Quiet-bind, Quiet-pure, Quiet-throw, Quiet-ask, Quiet-is_directory, quiet,
  Quiet-remove_dir_all,
}
use rigos.Config.Store.Tree.{symlink_metadata, is_directory}
use rigos.Config.Stored.{Stored}
use rigos.Config.Revision.{
  staging, io_error, write_json, carry_if, carry, carry_all, carry_from, prior_identities,
  carry_identities, write_provenance, write_map, chown, own, fill, keep_previous, link_unless,
  is_err, absent, ensure_public_link, ensure_public_links, finish, switch, link_revision, publish,
  lifted, draw, prepare, cleaned, commit_revision,
}

module _ {R : Type 0} (faults : ℕ → Bool) (fresh : ℕ → String) (chowns : ℕ → Bool) where
  write_json-Quiet :
      (p : FilePath) (c : Stored) → Quiet {R = R} (write_json faults fresh chowns p c)
  unfolding write_json
  write_json-Quiet p c = search quiet

  carry_if-Quiet : (b : Bool) (p q : FilePath) → Quiet {R = R} (carry_if faults fresh chowns b p q)
  carry_if-Quiet true p q = search quiet
  carry_if-Quiet false p q = search quiet

  module _ (alias : String) (prior base : FilePath) where
    carry-Quiet : (name : String) → Quiet {R = R} (carry faults fresh chowns alias prior base name)
    unfolding carry
    carry-Quiet name = search (quiet, carry_if-Quiet)

    carry_all-Quiet :
        (names : List String) → Quiet {R = R} (carry_all faults fresh chowns alias prior base names)
    unfolding carry_all
    carry_all-Quiet [] = Quiet-pure tt
    carry_all-Quiet (name ∷ names) = Quiet-bind _ _ (carry-Quiet name) (λ _. carry_all-Quiet names)

    carry_from-Quiet :
        (b : Bool) → Quiet {R = R} (carry_from faults fresh chowns alias prior base b)
    unfolding carry_from
    carry_from-Quiet true = search (quiet, carry_all-Quiet)
    carry_from-Quiet false = Quiet-pure tt

  carry_identities-Quiet :
      (alias : String) (base : FilePath)
      → Quiet {R = R} (carry_identities faults fresh chowns alias base)
  unfolding carry_identities
  carry_identities-Quiet alias base = record {
    holds = λ w.
        let prior = prior_identities faults fresh chowns w in
        Quiet.holds
          (Quiet-bind (is_directory faults prior) _ (Quiet-is_directory faults prior)
            (λ b. carry_from-Quiet alias prior base b))
          w;
  }

  provenance-Quiet :
      (base : FilePath) (o : Option ImportProvenance)
      → Quiet {R = R} (write_provenance faults fresh chowns base o)
  unfolding write_provenance
  provenance-Quiet base none = Quiet-pure tt
  provenance-Quiet base (some p) = write_json-Quiet _ _

  map-Quiet :
      (base : FilePath) (alias digest : String) (o : Option ExternalReference)
      → Quiet {R = R} (write_map faults fresh chowns base alias digest o)
  unfolding write_map
  map-Quiet base alias digest none = Quiet-pure tt
  map-Quiet base alias digest (some r) = write_json-Quiet _ _

  chown-Quiet : Quiet {R = R} (chown faults fresh chowns)
  unfolding chown
  chown-Quiet = record { holds = λ w. Quiet.holds (Quiet-ask faults (λ d. chowns w.clock)) w }

  own-Quiet : Quiet {R = R} (own faults fresh chowns)
  unfolding own
  own-Quiet = search (quiet, chown-Quiet)

  fill-Quiet :
      (base : FilePath) (policy xmrig : Value) (proposal : Proposal) (owner : IdentityRecord)
      → Quiet {R = R} (fill faults fresh chowns base policy xmrig proposal owner)
  unfolding fill
  fill-Quiet base policy xmrig proposal owner =
      search
        (quiet, write_json-Quiet, carry_identities-Quiet, provenance-Quiet, map-Quiet, own-Quiet)
        depth 40

  previous-Quiet :
      (id : String) (o : Option FilePath) → Quiet {R = R} (keep_previous faults fresh chowns id o)
  unfolding keep_previous
  previous-Quiet id none = Quiet-pure tt
  previous-Quiet id (some target) = search quiet

  link-Quiet : (b : Bool) (p q : FilePath) → Quiet {R = R} (link_unless faults fresh chowns b p q)
  link-Quiet true p q = search quiet
  link-Quiet false p q = search quiet

  is_err-runtime :
      (ran : Ran (World Stored R) (Option (Entry Stored)))
      → (left (is_err faults fresh chowns ran)).runtime ≡ (left ran).runtime
  is_err-runtime (done o w) = refl
  is_err-runtime (failed e w) = refl

  absent-Quiet : (b : Bool) (p : FilePath) → Quiet {R = R} (absent faults fresh chowns b p)
  unfolding symlink_metadata
  absent-Quiet true p = record { holds = λ w. refl }
  absent-Quiet false p = record {
    holds = λ w.
        is_err-runtime (symlink_metadata faults p w) ∙ Quiet.holds (Quiet-ask faults (get p)) w;
  }

  public-Quiet : (name : String) → Quiet {R = R} (ensure_public_link faults fresh chowns name)
  unfolding ensure_public_link
  public-Quiet name = search (quiet, absent-Quiet, link-Quiet)

  publics-Quiet :
      (names : List String) → Quiet {R = R} (ensure_public_links faults fresh chowns names)
  unfolding ensure_public_links
  publics-Quiet [] = Quiet-pure tt
  publics-Quiet (name ∷ names) = Quiet-bind _ _ (public-Quiet name) (λ _. publics-Quiet names)

  publish-Quiet : (id : String) → Quiet {R = R} (publish faults fresh chowns id)
  unfolding publish link_revision switch finish
  publish-Quiet id = search (quiet, previous-Quiet, publics-Quiet) depth 40

  cleaned-runtime :
      {A : Type 0} (id : String) (ran : Ran (World Stored R) A)
      → (left (cleaned faults fresh chowns id ran)).runtime ≡ (left ran).runtime
  cleaned-runtime id (done a w) = refl
  cleaned-runtime id (failed e w) = Quiet.holds (Quiet-remove_dir_all faults (staging id)) w

  module _ (proposal : Proposal) (owner : IdentityRecord) where
    filled-Quiet :
        (id : String) (d : Value × Value)
        → Quiet {R = R} (
            fill faults fresh chowns (staging id) d.0 d.1 proposal owner >>= λ _.
            publish faults fresh chowns id)
    filled-Quiet id d =
        Quiet-bind _ _ (fill-Quiet (staging id) d.0 d.1 proposal owner) (λ _. publish-Quiet id)

    last-Quiet :
        (id : String) (d : Value × Value)
        → Quiet {R = R} (λ w. cleaned faults fresh chowns id (
            (fill faults fresh chowns (staging id) d.0 d.1 proposal owner >>= λ _.
            publish faults fresh chowns id)
              w))
    last-Quiet id d = record {
      holds = λ w.
          cleaned-runtime id (
            (fill faults fresh chowns (staging id) d.0 d.1 proposal owner >>= λ _.
            publish faults fresh chowns id)
              w)
          ∙ Quiet.holds (filled-Quiet id d) w;
    }

    draw-Quiet : Quiet {R = R} (draw faults fresh chowns)
    draw-Quiet = record { holds = λ w. refl }

    prepare-Quiet :
        (d : Value × Value) → Quiet {R = R} (prepare faults fresh chowns proposal owner d)
    unfolding prepare
    prepare-Quiet d = search (quiet, draw-Quiet, last-Quiet) depth 40

    lifted-Quiet : (r : Result _ (Value × Value)) → Quiet {C = Stored} {R = R} (lifted r)
    lifted-Quiet (ok d) = Quiet-pure d
    lifted-Quiet (err e) = Quiet-throw e
    lifted-Quiet panic = Quiet-throw io_error

    pub commit_revision-Quiet : Quiet {R = R} (commit_revision faults fresh chowns proposal owner)
    unfolding commit_revision
    commit_revision-Quiet =
        Quiet-bind (lifted (build_runtime proposal owner))
          (prepare faults fresh chowns proposal owner) (lifted-Quiet (build_runtime proposal owner))
          prepare-Quiet
