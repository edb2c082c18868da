-- ===== src/Config/Revision/Pending.antt =====
-- commit_revision leaves the pending file of a transaction.
use Prim.Native.Char.{Char, code}
use Prim.Native.String
use Prim.Native.String.append
use rigos.Base.{
  ℕ, String, ◌≡◌, ◌≢◌, refl, ◌∙◌, ap, Bool, false, Option, none, [], ◌∷◌, Result, ok, err, panic,
  arith,
}
use rigos.Config.Error.{ConfigError}
use rigos.Config.Hive.{Value}
use rigos.Config.Identity.{IdentityRecord}
use rigos.Config.Proposal.{Proposal, build_runtime}
use rigos.Config.Store.{
  FilePath, path_eq, World, Ran, done, failed, Io, ◌>>=◌, left, get, create_symlink, rename,
  read_link,
}
use rigos.Config.Store.Keeps.{
  Keeps, Keeps-bind, Keeps-pure, Keeps-throw, Keeps-create_symlink, Keeps-rename, Keeps-read_link,
}
use rigos.Config.Store.Tree.{strip, rename_dir, create_dir, create_dir_all}
use rigos.Config.Store.Tree.Keeps.{
  Keeps-rename_dir, Keeps-remove_dir_all, Keeps-create_dir, Keeps-create_dir_all,
}
use rigos.Config.Stored.{Stored}
use rigos.Config.Transaction.{pending}
use rigos.Config.Revision.{
  current, final_dir, staging, revisions, io_error, fill, keep_previous, ensure_public_links,
  public_links, finish, switch, link_revision, publish, lifted, draw, prepare, cleaned,
  commit_revision,
}
use rigos.Base.Text.Apart.{differ}
use rigos.Config.Revision.Fill.{chains, fill-Keeps}
use rigos.Config.Revision.Publish.{keep_previous-Keeps, ensure_public_links-Keeps}

-- The second and the third character of a text, together.
abbrev after_dot : String → ℕ × ℕ
after_dot (String.◌∷◌ a (String.◌∷◌ b (String.◌∷◌ c s))) = (code b, code c)
after_dot _ = (0, 0)

after_dot-append :
    (a b c : Char) (s t : String)
    → after_dot (String.◌++◌ (String.◌∷◌ a (String.◌∷◌ b (String.◌∷◌ c s))) t) ≡ (code b, code c)
after_dot-append a b c s t =
    ap after_dot (λ i. append.cons a (String.◌∷◌ b (String.◌∷◌ c s)) t i)
    ∙ ap (λ r. after_dot (String.◌∷◌ a r)) (λ i. append.cons b (String.◌∷◌ c s) t i)
    ∙ ap (λ r. after_dot (String.◌∷◌ a (String.◌∷◌ b r))) (λ i. append.cons c s t i)

previous_away : (id : String) → path_eq (String.◌++◌ ".previous-" id ∷ []) pending ≡ false
unfolding path_eq
previous_away id = rw (
    differ (λ s. (after_dot s).1) (String.◌++◌ ".previous-" id) ".pending-transaction.json"
      (apart _ (ap (λ (p : ℕ × ℕ). p.1) (after_dot-append "." "p" "r" "evious-" id))))
  where
    apart : (n : ℕ) → n ≡ b'r' → n ≢ b'e'
    apart n e h = omega arith

current_away : (id : String) → path_eq (String.◌++◌ ".current-" id ∷ []) pending ≡ false
unfolding path_eq
current_away id = rw (
    differ (λ s. (after_dot s).0) (String.◌++◌ ".current-" id) ".pending-transaction.json"
      (apart _ (ap (λ (p : ℕ × ℕ). p.0) (after_dot-append "." "c" "u" "rrent-" id))))
  where
    apart : (n : ℕ) → n ≡ b'c' → n ≢ b'p'
    apart n e h = omega arith

out : (id : String) → strip (staging id) pending ≡ none
unfolding staging strip
out id = refl

module _ {R : Type 0} (faults : ℕ → Bool) (fresh : ℕ → String) (chowns : ℕ → Bool) where
  previous-Keeps :
      (id : String) (o : Option FilePath)
      → Keeps {R = R} pending (keep_previous faults fresh chowns id o)
  unfolding path_eq
  previous-Keeps id o = keep_previous-Keeps faults fresh chowns pending id (previous_away id) refl o

  publics-Keeps : Keeps {R = R} pending (ensure_public_links faults fresh chowns public_links)
  unfolding path_eq
  publics-Keeps =
      ensure_public_links-Keeps faults fresh chowns pending public_links
        (refl, (refl, (refl, (refl, (refl, tt)))))

  link-Keeps :
      (id : String) (target : FilePath)
      → Keeps {C = Stored} {R = R} pending
          (create_symlink faults target (String.◌++◌ ".current-" id ∷ []))
  link-Keeps id target = Keeps-create_symlink pending faults _ (current_away id) target

  swap-Keeps :
      (id : String)
      → Keeps {C = Stored} {R = R} pending (rename faults (String.◌++◌ ".current-" id ∷ []) current)
  unfolding path_eq
  swap-Keeps id = Keeps-rename pending faults _ (current_away id) current refl

  move-Keeps :
      (id : String)
      → Keeps {C = Stored} {R = R} pending (rename_dir faults (staging id) (final_dir id))
  unfolding staging final_dir strip
  move-Keeps id = Keeps-rename_dir pending faults (staging id) (final_dir id) refl refl

  look-Keeps : (p : FilePath) → Keeps {C = Stored} {R = R} pending (read_link faults p)
  look-Keeps p = Keeps-read_link pending faults p

  publish-Keeps : (id : String) → Keeps {R = R} pending (publish faults fresh chowns id)
  unfolding publish link_revision switch finish
  publish-Keeps id =
      search (chains, previous-Keeps, publics-Keeps, link-Keeps, swap-Keeps, move-Keeps, look-Keeps)
        depth 40

  cleaned-disk :
      {A : Type 0} (id : String) (ran : Ran (World Stored R) A)
      → get pending (left (cleaned faults fresh chowns id ran)).disk ≡ get pending (left ran).disk
  cleaned-disk id (done a w) = refl
  cleaned-disk id (failed e w) =
      Keeps.holds (Keeps-remove_dir_all pending faults (staging id) (out id)) w

  module _ (proposal : Proposal) (owner : IdentityRecord) where
    abbrev filled : String → Value × Value → Io (World Stored R) String
    filled id d = fill faults fresh chowns (staging id) d.0 d.1 proposal owner >>= λ _.
        publish faults fresh chowns id

    last-Keeps :
        (id : String) (d : Value × Value)
        → Keeps {R = R} pending (λ w. cleaned faults fresh chowns id (filled id d w))
    last-Keeps id d = record {
      holds = λ w.
          cleaned-disk id (filled id d w)
          ∙ Keeps.holds
              (Keeps-bind pending (fill faults fresh chowns (staging id) d.0 d.1 proposal owner)
                (λ _. publish faults fresh chowns id)
                (fill-Keeps faults fresh chowns pending (staging id) (out id) d.0 d.1 proposal
                  owner)
                (λ _. publish-Keeps id))
              w;
    }

    draw-Keeps : Keeps {R = R} pending (draw faults fresh chowns)
    draw-Keeps = record { holds = λ w. refl }

    all-Keeps : Keeps {C = Stored} {R = R} pending (create_dir_all faults revisions)
    unfolding revisions path_eq
    all-Keeps = Keeps-create_dir_all pending faults revisions refl

    make-Keeps : (id : String) → Keeps {C = Stored} {R = R} pending (create_dir faults (staging id))
    unfolding staging path_eq
    make-Keeps id = Keeps-create_dir pending faults (staging id) refl

    prepare-Keeps :
        (d : Value × Value) → Keeps {R = R} pending (prepare faults fresh chowns proposal owner d)
    unfolding prepare
    prepare-Keeps d = search (chains, draw-Keeps, all-Keeps, make-Keeps, last-Keeps) depth 40

    lifted-Keeps :
        (r : Result ConfigError (Value × Value)) → Keeps {C = Stored} {R = R} pending (lifted r)
    lifted-Keeps (ok d) = Keeps-pure pending d
    lifted-Keeps (err e) = Keeps-throw pending e
    lifted-Keeps panic = Keeps-throw pending io_error

    pub commit_revision-Keeps :
        Keeps {R = R} pending (commit_revision faults fresh chowns proposal owner)
    unfolding commit_revision
    commit_revision-Keeps =
        Keeps-bind pending (lifted (build_runtime proposal owner))
          (prepare faults fresh chowns proposal owner) (lifted-Keeps (build_runtime proposal owner))
          prepare-Keeps
