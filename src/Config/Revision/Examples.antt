-- ===== src/Config/Revision/Examples.antt =====
-- Commits of a proposal: one that succeeds, and one whose last link fails.
use rigos.Base.{ℕ, String, ◌≡◌, refl, Bool, true, false, some, [], ◌∷◌, ◌++◌, ◌==◌, ◌⊎◌}
use rigos.Base.Text.{bytes}
use rigos.Base.Text.Ascii.{is_whitespace, is_control}
use rigos.Base.Text.Search.{contains, ends_with}
use rigos.Base.Text.Format.{decimal, replace}
use rigos.Config.Names.{valid_slug, safe_json_basename}
use rigos.Config.Store.{
  file, link, dir, Ran, done, failed, left, get, put, path_eq, create_new, write_all,
  create_symlink, rename, read_link, exists,
}
use rigos.Config.Store.Tree.{
  create_dir, create_dir_all, rename_dir, remove_dir_all, copy, sync, read_dir, symlink_metadata,
  is_directory,
}
use rigos.Config.Stored.{identity}
use rigos.Config.Revision.{
  W, current, final_dir, commit_revision, write_json, io_error, write_error, carries, staging_name,
}
use rigos.Config.Revision.Samples.{owner, other_identity, proposal}
use rigos.Config.Revision.Continues.{commit_revision-carries}
use rigos.Config.Revision.Committed.{Committed, commit_revision-Committed, commit_revision-Atomic}

abbrev fresh : ℕ → String
fresh n = "id"

abbrev works : ℕ → Bool
works n = true

-- The state directory with a revision that holds another identity.
abbrev start : W (Unit {0})
start = record {
  disk = put current (link ("revisions" ∷ "old" ∷ [])) (
      put ("revisions" ∷ "old" ∷ "identities" ∷ "w2.json" ∷ []) (file (identity other_identity))
        (put ("revisions" ∷ "old" ∷ "identities" ∷ []) dir (put ("revisions" ∷ []) dir [])));
  runtime = tt;
  clock = 0;
}

abbrev faults_at : ℕ → ℕ → Bool
faults_at n m = m == n

abbrev run : ℕ → Ran (W (Unit {0})) String
run n = commit_revision (faults_at n) fresh works proposal owner start

succeeds : run 1000 ≡ done "id" (left (run 1000))
unfolding commit_revision decimal replace bytes is_whitespace is_control contains ends_with
    valid_slug safe_json_basename create_symlink rename read_link exists create_dir create_dir_all
    rename_dir remove_dir_all copy sync read_dir symlink_metadata is_directory write_json path_eq
    create_new write_all
succeeds = refl

commit_revision-Committed_example : Committed proposal owner "id" (left (run 1000))
commit_revision-Committed_example =
    commit_revision-Committed (Unit {0}) (faults_at 1000) fresh works proposal owner start
      (left (run 1000)) "id" succeeds

-- The third call fails: the policy is torn.
breaks : run 3 ≡ failed write_error (left (run 3))
unfolding commit_revision decimal replace bytes is_whitespace is_control contains ends_with
    valid_slug safe_json_basename create_symlink rename read_link exists create_dir create_dir_all
    rename_dir remove_dir_all copy sync read_dir symlink_metadata is_directory write_json path_eq
    create_new write_all
breaks = refl

-- The fourth call fails: the policy is written and not synced.
not_synced : run 4 ≡ failed io_error (left (run 4))
unfolding commit_revision decimal replace bytes is_whitespace is_control contains ends_with
    valid_slug safe_json_basename create_symlink rename read_link exists create_dir create_dir_all
    rename_dir remove_dir_all copy sync read_dir symlink_metadata is_directory write_json path_eq
    create_new write_all
not_synced = refl

commit_revision-Atomic_example :
    (get current (left (run 3)).disk ≡ get current start.disk)
    ⊎ (id : String) × Committed proposal owner id (left (run 3))
commit_revision-Atomic_example =
    commit_revision-Atomic (Unit {0}) (faults_at 3) fresh works proposal owner start (left (run 3))
      write_error breaks

abbrev sound : ℕ → Bool
sound n = false

abbrev sound_run : Ran (W (Unit {0})) String
sound_run = commit_revision sound fresh works proposal owner start

sound_succeeds : sound_run ≡ done "id" (left sound_run)
unfolding commit_revision decimal replace bytes is_whitespace is_control contains ends_with
    valid_slug safe_json_basename create_symlink rename read_link exists create_dir create_dir_all
    rename_dir remove_dir_all copy sync read_dir symlink_metadata is_directory write_json path_eq
    create_new write_all
sound_succeeds = refl

commit_revision-carries_example :
    get (final_dir "id" ++ "identities" ∷ "w2.json" ∷ []) (left sound_run).disk
    ≡ some (file (identity other_identity))
unfolding carries safe_json_basename bytes contains ends_with staging_name final_dir get put path_eq
commit_revision-carries_example =
    commit_revision-carries (Unit {0}) sound fresh works (λ n. refl) proposal owner "old" "w2.json"
      (identity other_identity) refl start (left sound_run) "id" refl refl refl refl sound_succeeds
