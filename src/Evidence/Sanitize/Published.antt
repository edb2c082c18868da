-- ===== src/Evidence/Sanitize/Published.antt =====
-- sanitize_approved: what it has written to the public directory, whether it succeeds or not.
use rigos.Base.{
  String, ◌≡◌, refl, sym, ◌∙◌, ap, Bool, true, false, Option, none, some, List, [], ◌∷◌, Bool-cases,
  inl, inr, All, All-map, Any, Result, ok, err, panic, >>=-eq-ok, not, fail_if-eq-ok, ok_injective,
}
use rigos.Evidence.{
  EvidenceError, io, forbidden_content, RedactionState, PrivateIdentityContext, forbidden,
}
use rigos.Evidence.Sanitize.{
  approved, Raw, PublicFile, Progress, Swept, finished, stopped, sanitized, publish_file, stepped,
  sanitize_next, sweep, no_files, with_context, swept_from, opened, sanitize_approved,
}

abbrev pub files_of : Swept → List PublicFile
files_of (finished p) = p.files
files_of (stopped e files) = files

-- The name is approved, the context is that of the raw directory's privacy.json, the text is what
-- the redaction makes of the file of that name, and no forbidden pattern is in it.
pub record IsPublishable (raw : Raw) (alias : String) (f : PublicFile) : Type 0 where
  pub named : Any (λ n. n ≡ f.name) approved
  pub privacy : String
  pub privacy_read : raw.read "raw-meta/privacy.json" ≡ some privacy
  pub context : PrivateIdentityContext
  pub context_read : raw.decode_context privacy ≡ some context
  pub before : RedactionState
  pub after : RedactionState
  pub origin : sanitized raw context alias f.name before ≡ ok (f.text, after)
  pub clean : forbidden f.text ≡ false

module _ (raw : Raw) (alias : String) (context : PrivateIdentityContext) (privacy : String)
    (privacy_read : raw.read "raw-meta/privacy.json" ≡ some privacy)
    (context_read : raw.decode_context privacy ≡ some context) where
  abbrev Good : List PublicFile → Type 0
  Good files = All (IsPublishable raw alias) files

  publish_file-eq-ok :
      (relative : String) (state : RedactionState) (done : String × RedactionState)
      → publish_file raw context alias relative state ≡ ok done
      → (sanitized raw context alias relative state ≡ ok done) × (forbidden done.0 ≡ false)
  unfolding publish_file
  publish_file-eq-ok relative state done h =
      let (d, e, rest) = >>=-eq-ok (sanitized raw context alias relative state) _ h in
      let (f, rest1) = fail_if-eq-ok (forbidden d.0) (forbidden_content relative) _ rest in
      let (g, rest2) = fail_if-eq-ok (not (raw.make_parent relative)) io _ rest1 in
      let (i, rest3) = fail_if-eq-ok (not (raw.write relative)) io _ rest2 in
      let same : d ≡ done = ok_injective rest3 in
      (e ∙ ap ok same, ap (λ (x : String × RedactionState). forbidden x.0) (sym same) ∙ f)

  module _ (relative : String) (named : Any (λ n. n ≡ relative) approved) (p : Progress) where
    stepped-Good :
        (r : Result EvidenceError (String × RedactionState))
        → publish_file raw context alias relative p.state ≡ r
        → Good p.files
        → Good (files_of (stepped raw context alias relative p r))
    stepped-Good (ok done) e h =
        let (origin, clean) = publish_file-eq-ok relative p.state done e in
        (
          record {
            named = named;
            privacy = privacy;
            privacy_read = privacy_read;
            context = context;
            context_read = context_read;
            before = p.state;
            after = done.1;
            origin = origin;
            clean = clean;
          },
          h,
        )
    stepped-Good (err e) f h = h
    stepped-Good panic f h = h

    sanitize_next-Good : Good p.files → Good (files_of (sanitize_next raw context alias relative p))
    unfolding sanitize_next
    sanitize_next-Good h = elim (Bool-cases (raw.is_file relative)) [
      | inl e ↦ rw e (stepped-Good (publish_file raw context alias relative p.state) refl h)
      | inr e ↦ rw e h
    ]

  sweep-Good :
      (names : List String) (p : Progress)
      → All (λ m. Any (λ n. n ≡ m) approved) names
      → Good p.files
      → Good (files_of (sweep raw context alias names p))
  unfolding sweep
  sweep-Good [] p a h = h
  sweep-Good (relative ∷ names) p a h =
      go (sanitize_next raw context alias relative p) (sanitize_next-Good relative a.0 p h)
        (λ q k. sweep-Good names q a.1 k)
    where
      go :
          (s : Swept)
          → Good (files_of s)
          → ((q : Progress) → Good q.files → Good (files_of (sweep raw context alias names q)))
          → Good (
              files_of (elim s [
                | finished next ↦ sweep raw context alias names next
                | stopped e files ↦ stopped e files
              ]))
      go (finished q) k later = later q k
      go (stopped e files) k later = k

all_named : (names : List String) → All (λ m. Any (λ n. n ≡ m) names) names
all_named [] = tt
all_named (x ∷ xs) = (
  inl refl,
  All-map (λ m. Any (λ n. n ≡ m) xs) (λ m. Any (λ n. n ≡ m) (x ∷ xs)) xs (λ m h. inr h)
      (all_named xs),
)

-- Whether the run succeeds or an error ends it, each file that it wrote to the public directory has
-- an approved name, its text is what the redaction by the identity in raw-meta/privacy.json makes
-- of the raw file of that name, and no forbidden pattern is in it. A write that fails is taken to
-- leave no file.
pub sanitize_approved-Published :
    (raw : Raw) (alias : String)
    → All (IsPublishable raw alias) (files_of (sanitize_approved raw alias))
unfolding sanitize_approved
sanitize_approved-Published raw alias = go raw.make_public
  where
    decoded :
        (text : String) (o : Option PrivateIdentityContext)
        → raw.read "raw-meta/privacy.json" ≡ some text
        → raw.decode_context text ≡ o
        → All (IsPublishable raw alias) (files_of (swept_from raw alias o))
    decoded text none e f = tt
    decoded text (some context) e f =
        sweep-Good raw alias context text e f approved no_files (all_named approved) tt

    read :
        (o : Option String)
        → raw.read "raw-meta/privacy.json" ≡ o
        → All (IsPublishable raw alias) (files_of (with_context raw alias o))
    read none e = tt
    read (some text) e = decoded text (raw.decode_context text) e refl

    go : (b : Bool) → All (IsPublishable raw alias) (files_of (opened raw alias b))
    go true = read (raw.read "raw-meta/privacy.json") refl
    go false = tt
