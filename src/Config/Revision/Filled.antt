-- ===== src/Config/Revision/Filled.antt =====
-- What the directory of a revision holds once it is filled.
use rigos.Base.{ℕ, String, ◌≡◌, ◌∙◌, Bool, false, Option, some, [], ◌∷◌, ◌++◌}
use rigos.Config.Hive.{Value}
use rigos.Config.Identity.{IdentityRecord}
use rigos.Config.Proposal.{ExternalReference, ImportProvenance, Proposal}
use rigos.Config.Store.{FilePath, path_eq, Entry, file, World, done, get}
use rigos.Config.Store.Keeps.{Keeps, Keeps-map_err}
use rigos.Config.Store.Leaves.{Leaves, Leaves-last, Leaves-then, Leaves-map_err, Leaves-write_all}
use rigos.Config.Store.Tree.{create_dir}
use rigos.Config.Store.Tree.Laws.{path_eq-append}
use rigos.Config.Store.Tree.Keeps.{Keeps-create_dir, Keeps-sync}
use rigos.Config.Stored.{Stored, json, sheet, identity, provenance}
use rigos.Config.Revision.{
  json_name, identity_map, reference_of, write_json, write_provenance, write_map, carry_identities,
  own, fill,
}
use rigos.Config.Revision.Fill.{
  chains, write_json-Keeps, carry_identities-Keeps, write_provenance-Keeps, write_map-Keeps,
  own-Keeps,
}

-- `at` gives what stands at a path below the directory.
pub record IsFilled (at : FilePath → Option (Entry Stored)) (policy xmrig : Value)
    (proposal : Proposal) (owner : IdentityRecord) : Type 0 where
  pub policy_file : at ("policy.json" ∷ []) ≡ some (file (json policy))
  pub xmrig_file : at ("xmrig.json" ∷ []) ≡ some (file (json xmrig))
  pub sheet_file :
      at ("flight-sheets" ∷ json_name proposal.flight_sheet.name ∷ [])
      ≡ some (file (sheet proposal.flight_sheet))
  pub identity_file : at ("identities" ∷ json_name owner.alias ∷ []) ≡ some (file (identity owner))
  pub provenance_file :
      (p : ImportProvenance)
      → proposal.provenance ≡ some p
      → at ("import-provenance.json" ∷ []) ≡ some (file (provenance p))
  pub map_file :
      (r : ExternalReference)
      → reference_of proposal.provenance ≡ some r
      → at ("external-identity-map.json" ∷ [])
        ≡ some (file (json (identity_map r owner.alias proposal.source_sha256)))

besides : (base q x : FilePath) → path_eq q x ≡ false → path_eq (base ++ q) (base ++ x) ≡ false
besides base q x other = path_eq-append base q x ∙ other

module _ (R : Type 0) (faults : ℕ → Bool) (fresh : ℕ → String) (chowns : ℕ → Bool)
    (base : FilePath) where
  write-Leaves :
      (p : FilePath) (c : Stored) → Leaves {R = R} p (file c) (write_json faults fresh chowns p c)
  unfolding write_json
  write-Leaves p c = Leaves-last p (file c) _ _ (λ _.
      Leaves-then p (file c) _ _ (Leaves-map_err p (file c) _ _ (Leaves-write_all faults p c))
        (λ _. Keeps-map_err p _ _ (Keeps-sync p faults)))

  provenance-Leaves :
      (x : ImportProvenance) (o : Option ImportProvenance)
      → o ≡ some x
      → Leaves {R = R}
          (base ++ "import-provenance.json" ∷ [])
          (file (provenance x))
          (write_provenance faults fresh chowns base o)
  unfolding write_provenance
  provenance-Leaves x o e = rw e (write-Leaves _ _)

  map-Leaves :
      (alias digest : String) (r : ExternalReference) (o : Option ExternalReference)
      → o ≡ some r
      → Leaves {R = R}
          (base ++ "external-identity-map.json" ∷ [])
          (file (json (identity_map r alias digest)))
          (write_map faults fresh chowns base alias digest o)
  unfolding write_map
  map-Leaves alias digest r o e = rw e (write-Leaves _ _)

  -- The other steps leave the path `x` below the directory.
  module _ (x : FilePath) where
    pub write-besides :
        (q : FilePath) (c : Stored)
        → path_eq q x ≡ false
        → Keeps {R = R} (base ++ x) (write_json faults fresh chowns (base ++ q) c)
    write-besides q c other = write_json-Keeps faults fresh chowns _ _ c (besides base q x other)

    pub make-besides :
        (q : FilePath)
        → path_eq q x ≡ false
        → Keeps {C = Stored} {R = R} (base ++ x) (create_dir faults (base ++ q))
    make-besides q other = Keeps-create_dir _ faults _ (besides base q x other)

    carry-besides :
        (alias : String)
        → ((name : String) → path_eq ("identities" ∷ name ∷ []) x ≡ false)
        → Keeps {R = R} (base ++ x) (carry_identities faults fresh chowns alias base)
    carry-besides alias other =
        carry_identities-Keeps faults fresh chowns _ base alias
          (λ name. besides base _ x (other name))

    pub provenance-besides :
        (o : Option ImportProvenance)
        → path_eq ("import-provenance.json" ∷ []) x ≡ false
        → Keeps {R = R} (base ++ x) (write_provenance faults fresh chowns base o)
    provenance-besides o other =
        write_provenance-Keeps faults fresh chowns _ base o (besides base _ x other)

    pub map-besides :
        (alias digest : String) (o : Option ExternalReference)
        → path_eq ("external-identity-map.json" ∷ []) x ≡ false
        → Keeps {R = R} (base ++ x) (write_map faults fresh chowns base alias digest o)
    map-besides alias digest o other =
        write_map-Keeps faults fresh chowns _ base alias digest o (besides base _ x other)

    pub own-besides : Keeps {R = R} (base ++ x) (own faults fresh chowns)
    own-besides = own-Keeps faults fresh chowns _ base

  ruleset besides_rules = (
    chains, write-besides, make-besides, carry-besides, provenance-besides, map-besides,
    own-besides, Leaves-last, Leaves-then, write-Leaves,
  )

  module _ (policy xmrig : Value) (proposal : Proposal) (owner : IdentityRecord) where
    abbrev LeavesAt : FilePath → Stored → Type 0
    LeavesAt x c =
        Leaves {R = R} (base ++ x) (file c)
          (fill faults fresh chowns base policy xmrig proposal owner)

    policy-Leaves : LeavesAt ("policy.json" ∷ []) (json policy)
    unfolding fill path_eq
    policy-Leaves = search besides_rules depth 40

    xmrig-Leaves : LeavesAt ("xmrig.json" ∷ []) (json xmrig)
    unfolding fill path_eq
    xmrig-Leaves = search besides_rules depth 40

    sheet-Leaves :
        LeavesAt
          ("flight-sheets" ∷ json_name proposal.flight_sheet.name ∷ [])
          (sheet proposal.flight_sheet)
    unfolding fill path_eq
    sheet-Leaves = search besides_rules depth 40

    identity-Leaves : LeavesAt ("identities" ∷ json_name owner.alias ∷ []) (identity owner)
    unfolding fill path_eq
    identity-Leaves = search besides_rules depth 40

    provenance_file-Leaves :
        (x : ImportProvenance)
        → proposal.provenance ≡ some x
        → LeavesAt ("import-provenance.json" ∷ []) (provenance x)
    unfolding fill path_eq
    provenance_file-Leaves x e = search (besides_rules, provenance-Leaves) depth 40

    map_file-Leaves :
        (r : ExternalReference)
        → reference_of proposal.provenance ≡ some r
        → LeavesAt
            ("external-identity-map.json" ∷ [])
            (json (identity_map r owner.alias proposal.source_sha256))
    unfolding fill path_eq
    map_file-Leaves r e = search (besides_rules, map-Leaves) depth 40

    -- The directory that was filled holds the documents of the proposal.
    pub fill-IsFilled :
        (w end : World Stored R)
        → fill faults fresh chowns base policy xmrig proposal owner w ≡ done tt end
        → IsFilled (λ x. get (base ++ x) end.disk) policy xmrig proposal owner
    fill-IsFilled w end h = record {
      policy_file = Leaves.holds policy-Leaves w end tt h;
      xmrig_file = Leaves.holds xmrig-Leaves w end tt h;
      sheet_file = Leaves.holds sheet-Leaves w end tt h;
      identity_file = Leaves.holds identity-Leaves w end tt h;
      provenance_file = λ x e. Leaves.holds (provenance_file-Leaves x e) w end tt h;
      map_file = λ r e. Leaves.holds (map_file-Leaves r e) w end tt h;
    }
