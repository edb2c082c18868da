-- ===== src/Evidence/Sanitize/Complete.antt =====
-- sanitize_approved: a run that succeeds has published every approved file that is there.
use rigos.Base.{
  ℕ, ◌+◌, suc, String, ◌≡◌, refl, sym, ap, subst, Bool, true, false, Option, none, some, List, [],
  ◌∷◌, Bool-cases, inl, inr, Any, length, Result, ok, err, panic, arith,
}
use rigos.Evidence.{EvidenceError, RedactionState, PrivateIdentityContext}
use rigos.Evidence.Sanitize.{
  approved, Raw, PublicFile, Progress, Swept, finished, stopped, publish_file, counted, stepped,
  sanitize_next, sweep, no_files, with_context, swept_from, opened, sanitize_approved, report,
}

-- The report counts as many files written as read, and each name among `names` that is a file is
-- the name of one that was written.
pub record IsComplete (raw : Raw) (names : List String) (p : Progress) : Type 0 where
  pub inputs : (report p).input_file_count ≡ (report p).output_file_count
  pub outputs : (report p).output_file_count ≡ length p.files
  pub all_there :
      (name : String)
      → Any (λ n. n ≡ name) names
      → raw.is_file name ≡ true
      → Any (λ (f : PublicFile). f.name ≡ name) p.files

one_more : (a b : ℕ) → a ≡ b → a + 1 ≡ suc b
one_more a b e = omega arith

module _ (raw : Raw) (alias : String) (context : PrivateIdentityContext) where
  -- One step, from the files `p` to the files `q`.
  record Advance (relative : String) (p q : Progress) : Type 0 where
    pub inputs : p.inputs ≡ p.outputs → q.inputs ≡ q.outputs
    pub outputs : p.outputs ≡ length p.files → q.outputs ≡ length q.files
    pub kept :
        (name : String)
        → Any (λ (f : PublicFile). f.name ≡ name) p.files
        → Any (λ (f : PublicFile). f.name ≡ name) q.files
    pub added : raw.is_file relative ≡ true → Any (λ (f : PublicFile). f.name ≡ relative) q.files

  published :
      (relative : String) (p q : Progress) (r : Result EvidenceError (String × RedactionState))
      → stepped raw context alias relative p r ≡ finished q
      → Advance relative p q
  published relative p q (ok done) h =
      let same : counted raw context alias relative p done ≡ q = cc in
      subst (Advance relative p) same (record {
        inputs = λ e. ap (λ n. n + 1) e;
        outputs = λ e. one_more p.outputs (length p.files) e;
        kept = λ name k. inr k;
        added = λ e. inl refl;
      })
  published relative p q (err e) h = absurd (cc)
  published relative p q panic h = absurd (cc)

  sanitize_next-Advance :
      (relative : String) (p q : Progress)
      → sanitize_next raw context alias relative p ≡ finished q
      → Advance relative p q
  unfolding sanitize_next
  sanitize_next-Advance relative p q h = elim (Bool-cases (raw.is_file relative)) [
    | inl e ↦ published relative p q (publish_file raw context alias relative p.state) (rw e at h)
    | inr e ↦ passed e (rw e at h)
  ]
    where
      passed : raw.is_file relative ≡ false → finished p ≡ finished q → Advance relative p q
      passed e g =
          let same : p ≡ q = cc in
          subst (Advance relative p) same (record {
            inputs = λ k. k;
            outputs = λ k. k;
            kept = λ name k. k;
            added = λ there. absurd (cc);
          })

  sweep-finished :
      (relative : String) (names : List String) (p q : Progress)
      → sweep raw context alias (relative ∷ names) p ≡ finished q
      → (m : Progress) × (sanitize_next raw context alias relative p ≡ finished m)
        × (sweep raw context alias names m ≡ finished q)
  unfolding sweep
  sweep-finished relative names p q h = go (sanitize_next raw context alias relative p) refl h
    where
      go :
          (s : Swept)
          → sanitize_next raw context alias relative p ≡ s
          → elim s [
            | finished next ↦ sweep raw context alias names next
            | stopped e files ↦ stopped e files
          ]
            ≡ finished q
          → (m : Progress) × (sanitize_next raw context alias relative p ≡ finished m)
            × (sweep raw context alias names m ≡ finished q)
      go (finished m) e k = (m, e, k)
      go (stopped e files) f k = absurd (cc)

  -- From the files `p` to the files `q`, over `names`.
  record Advances (names : List String) (p q : Progress) : Type 0 where
    pub inputs : p.inputs ≡ p.outputs → q.inputs ≡ q.outputs
    pub outputs : p.outputs ≡ length p.files → q.outputs ≡ length q.files
    pub kept :
        (name : String)
        → Any (λ (f : PublicFile). f.name ≡ name) p.files
        → Any (λ (f : PublicFile). f.name ≡ name) q.files
    pub added :
        (name : String)
        → Any (λ n. n ≡ name) names
        → raw.is_file name ≡ true
        → Any (λ (f : PublicFile). f.name ≡ name) q.files

  sweep-Advances :
      (names : List String) (p q : Progress)
      → sweep raw context alias names p ≡ finished q
      → Advances names p q
  unfolding sweep
  sweep-Advances [] p q h =
      let same : p ≡ q = cc in
      subst (Advances [] p) same (record {
        inputs = λ k. k;
        outputs = λ k. k;
        kept = λ name k. k;
        added = λ name k there. absurd k;
      })
  sweep-Advances (relative ∷ names) p q h =
      let (m, e, k) = sweep-finished relative names p q h in
      let here = sanitize_next-Advance relative p m e in
      let later = sweep-Advances names m q k in
      record {
        inputs = λ i. later.inputs (here.inputs i);
        outputs = λ o. later.outputs (here.outputs o);
        kept = λ name there. later.kept name (here.kept name there);
        added = λ name placed there. elim placed [
          | inl e1 ↦ later.kept name (
              subst (λ n. Any (λ (f : PublicFile). f.name ≡ n) m.files) e1
                (here.added (subst (λ n. raw.is_file n ≡ true) (sym e1) there)))
          | inr more ↦ later.added name more there
        ];
      }

-- A run that succeeds has published each approved name that is a file of the raw directory, and its
-- report counts as many files written as read, which is the number of files published.
pub sanitize_approved-IsComplete :
    (raw : Raw) (alias : String) (q : Progress)
    → sanitize_approved raw alias ≡ finished q
    → IsComplete raw approved q
unfolding sanitize_approved
sanitize_approved-IsComplete raw alias q h = go raw.make_public h
  where
    decoded :
        (o : Option PrivateIdentityContext)
        → swept_from raw alias o ≡ finished q
        → IsComplete raw approved q
    decoded none k = absurd (cc)
    decoded (some context) k =
        let all = sweep-Advances raw alias context approved no_files q k in
        record { inputs = all.inputs refl; outputs = all.outputs refl; all_there = all.added }

    read : (o : Option String) → with_context raw alias o ≡ finished q → IsComplete raw approved q
    read none k = absurd (cc)
    read (some text) k = decoded (raw.decode_context text) k

    go : (b : Bool) → opened raw alias b ≡ finished q → IsComplete raw approved q
    go true k = read (raw.read "raw-meta/privacy.json") k
    go false k = absurd (cc)
