-- ===== src/Config/Revision/Fill.antt =====
-- The directory of a revision: what it holds once it is filled, and that filling it touches no
-- path outside it.
use rigos.Base.{ℕ, String, ◌≡◌, Bool, true, false, Option, none, some, List, [], ◌∷◌, ◌++◌}
use rigos.Config.Hive.{Value}
use rigos.Config.Identity.{IdentityRecord}
use rigos.Config.Proposal.{ExternalReference, ImportProvenance, Proposal}
use rigos.Config.Store.{FilePath, path_eq, map_err, create_new, write_all, ◌>>◌}
use rigos.Config.Store.Keeps.{
  Keeps, Keeps-bind, Keeps-pure, Keeps-throw, Keeps-fail_when, Keeps-map_err, Keeps-ignored,
  Keeps-create_new, Keeps-write_all,
}
use rigos.Config.Store.Tree.{strip, sync, create_dir, is_directory}
use rigos.Config.Store.Tree.Laws.{outside-ne}
use rigos.Config.Store.Tree.Keeps.{
  Keeps-ask, Keeps-sync, Keeps-read_dir, Keeps-symlink_metadata, Keeps-is_directory,
  Keeps-create_dir, Keeps-copy,
}
use rigos.Config.Stored.{Stored}
use rigos.Config.Revision.{
  io_error, write_error, write_json, carry_if, carry, carry_all, carry_from, carry_identities,
  prior_identities, write_provenance, write_map, chown, own, fill,
}

pub ruleset chains = (
  Keeps-bind, Keeps-pure, Keeps-throw, Keeps-fail_when, Keeps-map_err, Keeps-ignored, Keeps-ask,
  Keeps-sync, Keeps-read_dir, Keeps-symlink_metadata, Keeps-is_directory,
)

module _ {R : Type 0} (faults : ℕ → Bool) (fresh : ℕ → String) (chowns : ℕ → Bool)
    (p : FilePath) where
  pub write_json-Keeps :
      (q : FilePath) (c : Stored)
      → path_eq q p ≡ false
      → Keeps {R = R} p (write_json faults fresh chowns q c)
  unfolding write_json
  write_json-Keeps q c other =
      Keeps-bind p (map_err io_error (create_new faults q))
        (λ _. map_err write_error (write_all faults q c) >> map_err io_error (sync faults))
        (Keeps-map_err p _ _ (Keeps-create_new p faults q other))
        (λ _.
          Keeps-bind p _ _ (Keeps-map_err p _ _ (Keeps-write_all p faults q other c))
            (λ _. Keeps-map_err p _ _ (Keeps-sync p faults)))

  -- In a section: writes below `base`, of a path `p` that is not among them.
  module _ (base : FilePath) where
    carry_if-Keeps :
        (b : Bool) (from to : FilePath)
        → path_eq to p ≡ false
        → Keeps {R = R} p (carry_if faults fresh chowns b from to)
    carry_if-Keeps true from to other = Keeps-map_err p _ _ (Keeps-copy p faults to other from)
    carry_if-Keeps false from to other = Keeps-pure p _

    pub carry_one-Keeps :
        (alias : String) (prior : FilePath) (name : String)
        → path_eq (base ++ "identities" ∷ name ∷ []) p ≡ false
        → Keeps {R = R} p (carry faults fresh chowns alias prior base name)
    unfolding carry
    carry_one-Keeps alias prior name other =
        Keeps-bind p _ _ (Keeps-map_err p _ _ (Keeps-symlink_metadata p faults _))
          (λ entry. carry_if-Keeps _ _ _ other)

    module _ (alias : String) (prior : FilePath)
        (other : (name : String) → path_eq (base ++ "identities" ∷ name ∷ []) p ≡ false) where
      pub carry-Keeps :
          (name : String) → Keeps {R = R} p (carry faults fresh chowns alias prior base name)
      carry-Keeps name = carry_one-Keeps alias prior name (other name)

      carry_all-Keeps :
          (names : List String)
          → Keeps {R = R} p (carry_all faults fresh chowns alias prior base names)
      unfolding carry_all
      carry_all-Keeps [] = Keeps-pure p _
      carry_all-Keeps (name ∷ names) =
          Keeps-bind p _ _ (carry-Keeps name) (λ _. carry_all-Keeps names)

      pub carry_from-Keeps :
          (b : Bool) → Keeps {R = R} p (carry_from faults fresh chowns alias prior base b)
      unfolding carry_from
      carry_from-Keeps false = Keeps-pure p _
      carry_from-Keeps true =
          Keeps-bind p _ _ (Keeps-map_err p _ _ (Keeps-read_dir p faults _))
            (λ names. carry_all-Keeps names)

    pub carry_identities-Keeps :
        (alias : String)
        → ((name : String) → path_eq (base ++ "identities" ∷ name ∷ []) p ≡ false)
        → Keeps {R = R} p (carry_identities faults fresh chowns alias base)
    unfolding carry_identities
    carry_identities-Keeps alias other = record {
      holds = λ w.
          let prior = prior_identities faults fresh chowns w in
          Keeps.holds
            (Keeps-bind p (is_directory faults prior) _ (Keeps-is_directory p faults prior)
              (λ b. carry_from-Keeps alias prior other b))
            w;
    }

    pub write_provenance-Keeps :
        (o : Option ImportProvenance)
        → path_eq (base ++ "import-provenance.json" ∷ []) p ≡ false
        → Keeps {R = R} p (write_provenance faults fresh chowns base o)
    unfolding write_provenance
    write_provenance-Keeps none other = Keeps-pure p _
    write_provenance-Keeps (some x) other = write_json-Keeps _ _ other

    pub write_map-Keeps :
        (alias digest : String) (o : Option ExternalReference)
        → path_eq (base ++ "external-identity-map.json" ∷ []) p ≡ false
        → Keeps {R = R} p (write_map faults fresh chowns base alias digest o)
    unfolding write_map
    write_map-Keeps alias digest none other = Keeps-pure p _
    write_map-Keeps alias digest (some x) other = write_json-Keeps _ _ other

    chown-Keeps : Keeps {R = R} p (chown faults fresh chowns)
    unfolding chown
    chown-Keeps = record { holds = λ w. Keeps.holds (Keeps-ask p faults (λ d. chowns w.clock)) w }

    pub own-Keeps : Keeps {R = R} p (own faults fresh chowns)
    unfolding own
    own-Keeps = search (chains, chown-Keeps)

    module _ (out : strip base p ≡ none) where
      pub write-Keeps :
          (q : FilePath) (c : Stored)
          → Keeps {R = R} p (write_json faults fresh chowns (base ++ q) c)
      write-Keeps q c = write_json-Keeps (base ++ q) c (outside-ne base p q out)

      pub make-Keeps : (q : FilePath) → Keeps {C = Stored} {R = R} p (create_dir faults (base ++ q))
      make-Keeps q = Keeps-create_dir p faults (base ++ q) (outside-ne base p q out)

      identities-Keeps :
          (alias : String) → Keeps {R = R} p (carry_identities faults fresh chowns alias base)
      identities-Keeps alias = carry_identities-Keeps alias (λ name. outside-ne base p _ out)

      provenance-Keeps :
          (o : Option ImportProvenance)
          → Keeps {R = R} p (write_provenance faults fresh chowns base o)
      provenance-Keeps o = write_provenance-Keeps o (outside-ne base p _ out)

      map-Keeps :
          (alias digest : String) (o : Option ExternalReference)
          → Keeps {R = R} p (write_map faults fresh chowns base alias digest o)
      map-Keeps alias digest o = write_map-Keeps alias digest o (outside-ne base p _ out)

      -- A path outside the directory is as before, whether filling it fails or not.
      pub fill-Keeps :
          (policy xmrig : Value) (proposal : Proposal) (owner : IdentityRecord)
          → Keeps {R = R} p (fill faults fresh chowns base policy xmrig proposal owner)
      unfolding fill
      fill-Keeps policy xmrig proposal owner =
          search
            (
              chains, write-Keeps, make-Keeps, identities-Keeps, provenance-Keeps, map-Keeps,
              own-Keeps,
            )
            depth 40
