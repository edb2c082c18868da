-- ===== src/Config/Revision/Carried.antt =====
-- A revision holds the identities of the one before.
use text.Mathlib.Text.{◌==◌ as text_eq}
use text.Mathlib.TextEquality.{eq_iff}
use rigos.Base.{
  ℕ, String, ◌≡◌, sym, ◌∙◌, ap, Bool, true, false, none, some, [], ◌∷◌, ◌++◌, and-eq-true,
  Bool-cases, inl, inr,
}
use rigos.Config.Error.{ConfigError}
use rigos.Config.Hive.{Value}
use rigos.Config.Identity.{IdentityRecord}
use rigos.Config.Names.{safe_json_basename}
use rigos.Config.Proposal.{Proposal}
use rigos.Config.Store.{FilePath, path_eq, file, link, dir, World, done, Io, ◌>>=◌, map_err, get}
use rigos.Config.Store.Laws.{then_do-eq-done}
use rigos.Config.Store.Keeps.{Keeps, Keeps-map_err}
use rigos.Config.Store.Leaves.{Keeps-done}
use rigos.Config.Store.Tree.{strip, followed, create_dir}
use rigos.Config.Stored.{Stored}
use rigos.Config.Revision.{current, json_name, carries, fill, write_json, carry_identities}
use rigos.Config.Revision.Fill.{chains, write-Keeps, make-Keeps}
use rigos.Config.Revision.Filled.{write-besides, provenance-besides, map-besides, own-besides}
use rigos.Config.Revision.Carry.{carry_identities-file}

module _ (R : Type 0) (faults : ℕ → Bool) (fresh : ℕ → String) (chowns : ℕ → Bool)
    (owner : IdentityRecord) (target base : FilePath) (name : String) (c : Stored) where
  -- The revision before, as it stands in the world.
  pub record Prior (w : World Stored R) : Type 0 where
    pub pointer : get current w.disk ≡ some (link target)
    pub there : get (target ++ "identities" ∷ []) w.disk ≡ some dir
    pub file_there : get ((target ++ "identities" ∷ []) ++ name ∷ []) w.disk ≡ some (file c)

  pub record Brings {A : Type 0} (m : Io (World Stored R) A) : Type 0 where
    pub holds :
        (w end : World Stored R) (a : A)
        → Prior w
        → m w ≡ done a end
        → get (base ++ "identities" ∷ name ∷ []) end.disk ≡ some (file c)

  -- A chain that touches nothing outside the directory.
  pub record Within {A : Type 0} (m : Io (World Stored R) A) : Type 0 where
    pub holds : (q : FilePath) → strip base q ≡ none → Keeps q m

  module _ (out : strip base current ≡ none)
      (away : (r : FilePath) → strip base (target ++ r) ≡ none)
      (deeper : strip base ((target ++ "identities" ∷ []) ++ name ∷ []) ≡ none) where
    kept-Prior :
        {A : Type 0} (m : Io (World Stored R) A) (w mid : World Stored R) {a : A}
        → Within m
        → m w ≡ done a mid
        → Prior w
        → Prior mid
    kept-Prior m w mid k e h = record {
      pointer = Keeps-done current m w mid (k.holds current out) e ∙ h.pointer;
      there = Keeps-done _ m w mid (k.holds _ (away ("identities" ∷ []))) e ∙ h.there;
      file_there = Keeps-done _ m w mid (k.holds _ deeper) e ∙ h.file_there;
    }

    Brings-later :
        {A B : Type 0} (m : Io (World Stored R) A) (f : A → Io (World Stored R) B)
        → Within m
        → ((a : A) → Brings (f a))
        → Brings (m >>= f)
    Brings-later m f k h = record {
      holds = λ w end b prior e.
          let (a, mid, first, second) = then_do-eq-done (m w) f e in
          Brings.holds (h a) mid end b (kept-Prior m w mid k first prior) second;
    }

    Brings-then :
        {A B : Type 0} (m : Io (World Stored R) A) (f : A → Io (World Stored R) B)
        → Brings m
        → ((a : A) → Keeps (base ++ "identities" ∷ name ∷ []) (f a))
        → Brings (m >>= f)
    Brings-then m f h k = record {
      holds = λ w end b prior e.
          let (a, mid, first, second) = then_do-eq-done (m w) f e in
          Keeps-done _ (f a) mid end (k a) second ∙ Brings.holds h w mid a prior first;
    }

    Within-write :
        (q : FilePath) (d : Stored) → Within (write_json {R = R} faults fresh chowns (base ++ q) d)
    Within-write q d = record { holds = λ p o. write-Keeps faults fresh chowns p base o q d }

    Within-make :
        (e : ConfigError) (q : FilePath)
        → Within (map_err {W = World Stored R} e (create_dir faults (base ++ q)))
    Within-make e q = record {
      holds = λ p o. Keeps-map_err p e _ (make-Keeps faults fresh chowns p base o q);
    }

    module _ (calm : (n : ℕ) → faults n ≡ false) (carried : carries owner.alias name ≡ true)
        (below : (n : String) → strip base ((target ++ "identities" ∷ []) ++ n ∷ []) ≡ none) where
      carry-Brings : Brings (carry_identities {R = R} faults fresh chowns owner.alias base)
      carry-Brings = record {
        holds = λ w end u prior e.
            carry_identities-file R faults fresh chowns owner.alias (target ++ "identities" ∷ [])
              base below name c carried calm w end (ap (followed ("identities" ∷ [])) prior.pointer)
              prior.there prior.file_there e;
      }

      -- The identity that is written has another name.
      apart : path_eq ("identities" ∷ json_name owner.alias ∷ []) ("identities" ∷ name ∷ []) ≡ false
      unfolding path_eq carries
      apart =
          let (safe, other) = and-eq-true (safe_json_basename name) _ carried in
          elim (Bool-cases (text_eq (json_name owner.alias) name)) [
            | inl e ↦
                let same = (eq_iff (json_name owner.alias) name).0 e in
                let here = (eq_iff name (json_name owner.alias)).1 (sym same) in
                absurd (cc (rw here at other))
            | inr e ↦ rw e
          ]

      ruleset steps =
          (chains, Brings-later, Brings-then, Within-write, Within-make, carry-Brings, apart)

      pub fill-Brings :
          (policy xmrig : Value) (proposal : Proposal)
          → Brings (fill faults fresh chowns base policy xmrig proposal owner)
      unfolding fill path_eq
      fill-Brings policy xmrig proposal =
          search
            (
              steps,
              write-besides R faults fresh chowns base,
              provenance-besides R faults fresh chowns base,
              map-besides R faults fresh chowns base,
              own-besides R faults fresh chowns base,
            )
            depth 60
