-- ===== src/Config/Revision/Continues.antt =====
-- commit_revision: no identity of the revision before is lost.
use text.Mathlib.Text.{◌==◌ as text_eq}
use rigos.Base.{
  ℕ, String, ◌≡◌, refl, sym, ◌∙◌, ap, subst, Bool, true, false, Option, none, some, [], ◌∷◌, ◌++◌,
  Result, ok, err, panic,
}
use rigos.Config.Error.{ConfigError}
use rigos.Config.Hive.{Value}
use rigos.Config.Identity.{IdentityRecord}
use rigos.Config.Proposal.{Proposal, build_runtime}
use rigos.Config.Store.{
  FilePath, path_eq, file, link, dir, World, Ran, done, failed, Io, ◌>>◌, map_err, get,
  create_symlink, rename, read_link,
}
use rigos.Config.Store.Laws.{then_do-eq-done, caught-eq-done, done_injective}
use rigos.Config.Store.Keeps.{
  Keeps, Keeps-map_err, Keeps-create_symlink, Keeps-rename, Keeps-read_link,
}
use rigos.Config.Store.Leaves.{Keeps-done}
use rigos.Config.Store.Tree.{strip, rename_dir, create_dir, create_dir_all, sync}
use rigos.Config.Store.Tree.Keeps.{Keeps-create_dir, Keeps-create_dir_all}
use rigos.Config.Stored.{Stored}
use rigos.Config.Revision.{
  current, final_dir, staging, staging_name, revisions, io_error, carries, fill, publish, finish,
  switch, link_revision, keep_previous, ensure_public_links, public_links, lifted, prepare, cleaned,
  commit_revision,
}
use rigos.Config.Revision.Paths.{name_ne_final, names_ne_final, staging_outside_current}
use rigos.Config.Revision.Fill.{chains}
use rigos.Config.Revision.Carried.{Prior, Brings, fill-Brings}
use rigos.Config.Revision.Publish.{rename_dir-get, keep_previous-Keeps, ensure_public_links-Keeps}

module _ (R : Type 0) (faults : ℕ → Bool) (fresh : ℕ → String) (chowns : ℕ → Bool) where
  abbrev W : Type 0
  W = World Stored R

  -- After the directory is renamed nothing below it changes.
  module _ (id : String) (x : FilePath) where
    previous-below :
        (o : Option FilePath)
        → Keeps {R = R} (final_dir id ++ x) (keep_previous faults fresh chowns id o)
    previous-below o =
        keep_previous-Keeps faults fresh chowns (final_dir id ++ x) id (name_ne_final _ id x)
          (name_ne_final _ id x) o

    links-below :
        Keeps {R = R} (final_dir id ++ x) (ensure_public_links faults fresh chowns public_links)
    links-below =
        ensure_public_links-Keeps faults fresh chowns (final_dir id ++ x) public_links
          (names_ne_final public_links id x)

    link-below :
        (a : String) (target : FilePath)
        → Keeps {C = Stored} {R = R} (final_dir id ++ x) (create_symlink faults target (a ∷ []))
    link-below a target =
        Keeps-create_symlink (final_dir id ++ x) faults (a ∷ []) (name_ne_final a id x) target

    rename-below :
        (a b : String)
        → Keeps {C = Stored} {R = R} (final_dir id ++ x) (rename faults (a ∷ []) (b ∷ []))
    rename-below a b =
        Keeps-rename (final_dir id ++ x) faults (a ∷ []) (name_ne_final a id x) (b ∷ [])
          (name_ne_final b id x)

    look-below :
        (q : FilePath) → Keeps {C = Stored} {R = R} (final_dir id ++ x) (read_link faults q)
    look-below q = Keeps-read_link (final_dir id ++ x) faults q

    link_revision-below : Keeps {R = R} (final_dir id ++ x) (link_revision faults fresh chowns id)
    unfolding link_revision switch finish
    link_revision-below =
        search (chains, previous-below, links-below, link-below, rename-below, look-below) depth 40

    publish-below :
        (w end : W) (r : String)
        → publish faults fresh chowns id w ≡ done r end
        → get (final_dir id ++ x) end.disk ≡ get (staging id ++ x) w.disk
    unfolding publish
    publish-below w end r h =
        let (u, mid, first, second) =
          then_do-eq-done (map_err io_error (rename_dir faults (staging id) (final_dir id)) w) _
            h in
        Keeps-done (final_dir id ++ x) (link_revision faults fresh chowns id) mid end
          link_revision-below second
        ∙ rename_dir-get faults (staging id) (final_dir id) w mid (caught-eq-done io_error _ first)
            x

  publish-id : (id r : String) (w end : W) → publish faults fresh chowns id w ≡ done r end → r ≡ id
  unfolding publish link_revision switch finish
  publish-id id r w end h =
      let (a, w1, p1, h1) =
        then_do-eq-done (map_err io_error (rename_dir faults (staging id) (final_dir id)) w) _ h in
      let (b, w2, p2, h2) = then_do-eq-done (read_link faults current w1) _ h1 in
      let (c, w3, p3, h3) = then_do-eq-done (keep_previous faults fresh chowns id b w2) _ h2 in
      let (d, w4, p4, h4) =
        then_do-eq-done (map_err io_error (create_symlink faults _ _) w3) _ h3 in
      let (e, w5, p5, h5) = then_do-eq-done (map_err io_error (rename faults _ current) w4) _ h4 in
      let (f, w6, p6, h6) =
        then_do-eq-done (ensure_public_links faults fresh chowns public_links w5) _ h5 in
      let (g, w7, p7, h7) = then_do-eq-done (map_err io_error (sync faults) w6) _ h6 in
      sym (done_injective h7).0

  cleaned-eq-done :
      (id r : String) (ran : Ran W String) (end : W)
      → cleaned faults fresh chowns id ran ≡ done r end
      → ran ≡ done r end
  cleaned-eq-done id r (done a w) end h = h
  cleaned-eq-done id r (failed e w) end h = cc

  module _ (calm : (n : ℕ) → faults n ≡ false) (proposal : Proposal) (owner : IdentityRecord)
      (old name : String) (c : Stored) (carried : carries owner.alias name ≡ true) where
    module _ (id : String) (apart : text_eq (staging_name id) old ≡ false) where
      away : (r : FilePath) → strip (staging id) (final_dir old ++ r) ≡ none
      unfolding strip staging final_dir
      away r = rw apart

      deeper :
          (n : String) → strip (staging id) ((final_dir old ++ "identities" ∷ []) ++ n ∷ []) ≡ none
      unfolding strip staging final_dir
      deeper n = rw apart

      filled :
          (policy xmrig : Value) (w end : W) (r : String)
          → Prior R faults fresh chowns owner (final_dir old) (staging id) name c w
          → (fill faults fresh chowns (staging id) policy xmrig proposal owner
                >> publish faults fresh chowns id)
              w
            ≡ done r end
          → get (final_dir id ++ "identities" ∷ name ∷ []) end.disk ≡ some (file c)
      filled policy xmrig w end r prior h =
          let (u, mid, first, second) =
            then_do-eq-done (fill faults fresh chowns (staging id) policy xmrig proposal owner w) _
              h in
          publish-below id ("identities" ∷ name ∷ []) mid end r second
          ∙ Brings.holds
              (fill-Brings R faults fresh chowns owner (final_dir old) (staging id) name c
                (staging_outside_current id) away (deeper name) calm carried deeper policy xmrig
                proposal)
              w mid tt prior first

      abbrev Before : W → Type 0
      Before w = Prior R faults fresh chowns owner (final_dir old) (staging id) name c w

      prior_kept :
          {A : Type 0} (m : Io W A) (w v : W) {a : A}
          → Keeps current m
          → ((x : FilePath) → Keeps (final_dir old ++ "identities" ∷ x) m)
          → m w ≡ done a v
          → Before w
          → Before v
      unfolding final_dir
      prior_kept m w v k l e h = record {
        pointer = Keeps-done current m w v k e ∙ h.pointer;
        there = Keeps-done _ m w v (l []) e ∙ h.there;
        file_there = Keeps-done _ m w v (l (name ∷ [])) e ∙ h.file_there;
      }

      made_revisions :
          (w v : W)
          → map_err io_error (create_dir_all faults revisions) w ≡ done tt v
          → Before w
          → Before v
      unfolding revisions path_eq
      made_revisions w v e h =
          prior_kept (map_err io_error (create_dir_all faults revisions)) w v
            (Keeps-map_err current _ _ (Keeps-create_dir_all current faults revisions refl))
            (λ x. Keeps-map_err _ _ _ (
              Keeps-create_dir_all _ faults revisions
                (name_ne_final "revisions" old ("identities" ∷ x))))
            e h

      made_staging :
          (w v : W)
          → map_err io_error (create_dir faults (staging id)) w ≡ done tt v
          → Before w
          → Before v
      unfolding staging final_dir path_eq
      made_staging w v e h =
          prior_kept (map_err io_error (create_dir faults (staging id))) w v
            (Keeps-map_err current _ _ (Keeps-create_dir current faults (staging id) refl))
            (λ x. Keeps-map_err _ _ _ (Keeps-create_dir _ faults (staging id) (rw apart refl))) e h

    -- The commit from the two documents on.
    prepared :
        (documents : Value × Value) (w end : W) (id : String)
        → text_eq (staging_name id) old ≡ false
        → ((k : String) → Prior R faults fresh chowns owner (final_dir old) (staging k) name c w)
        → prepare faults fresh chowns proposal owner documents w ≡ done id end
        → get (final_dir id ++ "identities" ∷ name ∷ []) end.disk ≡ some (file c)
    unfolding prepare
    prepared documents w end id apart prior h =
        let (u, w2, h2, r2) =
          then_do-eq-done (map_err io_error (create_dir_all faults revisions) w) _ h in
        let k = fresh w2.clock in
        let (t, w3, h3, r3) =
          then_do-eq-done (map_err io_error (create_dir faults (staging k)) w2) _ r2 in
        let inner = cleaned-eq-done k id _ end r3 in
        let (v, w4, h4, r4) =
          then_do-eq-done
            (fill faults fresh chowns (staging k) documents.0 documents.1 proposal owner w3) _
            inner in
        let drawn : id ≡ k = publish-id k id w4 end r4 in
        let other : text_eq (staging_name k) old ≡ false =
          subst (λ i. text_eq (staging_name i) old ≡ false) drawn apart in
        subst (λ i. get (final_dir i ++ "identities" ∷ name ∷ []) end.disk ≡ some (file c))
          (sym drawn)
          (filled k other documents.0 documents.1 w3 end id
            (made_staging k other w2 w3 h3 (made_revisions k other w w2 h2 (prior k))) inner)

    lifted-disk :
        (r : Result ConfigError (Value × Value)) (d : Value × Value) (a b : W)
        → lifted {V = W} r a ≡ done d b
        → b.disk ≡ a.disk
    lifted-disk (ok x) d a b e = ap (λ (v : W). v.disk) (sym (done_injective e).1)
    lifted-disk (err x) d a b e = cc
    lifted-disk panic d a b e = cc

    -- Where no system call fails, a commit takes over each identity of the revision before whose
    -- name is safe and is not that of the identity it writes: the file stands in the new revision
    -- with the same content. The revision before is not the directory that was filled.
    pub commit_revision-carries :
        (w end : W) (id : String)
        → text_eq (staging_name id) old ≡ false
        → get current w.disk ≡ some (link (final_dir old))
        → get (final_dir old ++ "identities" ∷ []) w.disk ≡ some dir
        → get (final_dir old ++ "identities" ∷ name ∷ []) w.disk ≡ some (file c)
        → commit_revision faults fresh chowns proposal owner w ≡ done id end
        → get (final_dir id ++ "identities" ∷ name ∷ []) end.disk ≡ some (file c)
    unfolding commit_revision
    commit_revision-carries w end id apart at there file_at h =
        let (documents, w1, h1, r1) =
          then_do-eq-done (lifted {V = W} (build_runtime proposal owner) w) _ h in
        let same = lifted-disk (build_runtime proposal owner) documents w w1 h1 in
        prepared documents w1 end id apart
          (λ k. record {
            pointer = ap (get current) same ∙ at;
            there = ap (get (final_dir old ++ "identities" ∷ [])) same ∙ there;
            file_there =
                ap (get ((final_dir old ++ "identities" ∷ []) ++ name ∷ [])) same ∙ file_at;
          })
          r1
