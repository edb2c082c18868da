-- ===== src/Config/Revision.antt =====
-- crates/rigos-config/src/lib.rs: commit_revision. A revision is a directory below `revisions`,
-- filled under a hidden name, renamed, and then made the target of the link `current`.
pub mod Paths
pub mod Fill
pub mod Filled
pub mod Carry
pub mod Carried
pub mod Continues
pub mod Apart
pub mod Pending
pub mod Publish
pub mod Stands
pub mod Switch
pub mod Committed
pub mod Samples
mod Examples
use text.Mathlib.Text.{◌==◌ as text_eq}
use Prim.Native.String
use rigos.Base.{
  ℕ, String, Bool, true, false, not, ◌&&◌, Option, none, some, List, [], ◌∷◌, ◌++◌, Result, ok, err,
  panic, if◌then◌else◌,
}
use rigos.Config.Error.{ConfigError, error}
use rigos.Config.Hive.{Value, string, array, object, nil, cons, no_members, member}
use rigos.Config.Identity.{IdentityRecord}
use rigos.Config.Names.{safe_json_basename}
use rigos.Config.Proposal.{ExternalReference, ImportProvenance, Proposal, build_runtime}
use rigos.Config.Store.{
  FilePath, Entry, file, torn, World, Ran, done, failed, Io, ◌>>=◌, ◌>>◌, pure, throw, map_err,
  left, fail_when, is_there, is_plain, get, create_new, write_all, create_symlink, rename,
  read_link, exists,
}
use rigos.Config.Store.Tree.{
  followed, create_dir, create_dir_all, rename_dir, remove_dir_all, copy, sync, read_dir, ask,
  symlink_metadata, is_directory,
}
use rigos.Config.Stored.{Stored, json, sheet, identity, provenance}

-- What the system says of its error is left out of the message, here and in `write_error`.
unfoldable pub io_error : ConfigError
io_error = error "RIGOS_CONFIG_INVALID_VALUE" none none none "local state operation failed"

unfoldable pub write_error : ConfigError
write_error = error "RIGOS_CONFIG_INVALID_VALUE" none none none "JSON write failed"

unfoldable pub ownership_error : ConfigError
ownership_error =
    error "RIGOS_CONFIG_INVALID_VALUE" none none none "failed to restrict revision ownership"

-- `build_runtime` does not panic.
abbrev pub lifted {ℓ κ} : {V : Type κ} {A : Type ℓ} → Result ConfigError A → Io V A
lifted (ok a) = pure a
lifted (err e) = throw e
lifted panic = throw io_error

abbrev pub json_name : String → String
json_name name = String.◌++◌ name ".json"

unfoldable pub revisions : FilePath
revisions = "revisions" ∷ []

unfoldable pub staging_name : String → String
staging_name id = String.◌++◌ "." (String.◌++◌ id ".staging")

unfoldable pub staging : String → FilePath
unfolding staging_name
staging id = "revisions" ∷ staging_name id ∷ []

unfoldable pub final_dir : String → FilePath
final_dir id = "revisions" ∷ id ∷ []

abbrev pub current : FilePath
current = "current" ∷ []

-- Which identities of the revision before are taken over.
unfoldable pub carries : String → String → Bool
unfolding safe_json_basename
carries alias name = safe_json_basename name && not (text_eq name (json_name alias))

unfoldable pub identity_map : ExternalReference → String → String → Value
identity_map reference alias digest = object (
    member "schema" (string "rigos.external-identity-map/v1") (
      member "mappings"
        (array (
          cons
            (object (
              member "source" (string reference.source) (
                member "external_type" (string reference.external_type) (
                  member "external_value" (string reference.external_value) (
                    member "identity_ref" (string alias)
                      (member "confirmed_source_sha256" (string digest) no_members))))))
            nil))
        no_members))

abbrev pub reference_of : Option ImportProvenance → Option ExternalReference
reference_of none = none
reference_of (some p) = p.external_reference

abbrev pub public_links : List String
public_links =
    "policy.json" ∷ "xmrig.json" ∷ "flight-sheets" ∷ "identities" ∷ "external-identity-map.json"
    ∷ []

abbrev pub W : Type 0 → Type 0
W R = World Stored R

-- The environment: which system calls fail, the identifiers that `Uuid::new_v4` draws, and whether
-- `chown` succeeds where it runs. Modes and owners are not modelled. The name of a sheet and an
-- alias are taken to be one component of a path, as slugs are.
module _ {R : Type 0} (faults : ℕ → Bool) (fresh : ℕ → String) (chowns : ℕ → Bool) where
  -- The value is one write, and the final newline and the sync are one call: where that fails, the
  -- value is in the file.
  unfoldable pub write_json : FilePath → Stored → Io (W R) (Unit {0})
  unfolding io_error write_error
  write_json path content = do
    map_err io_error (create_new faults path)
    map_err write_error (write_all faults path content)
    map_err io_error (sync faults)

  -- One entry of the directory of identities.
  abbrev pub carry_if : Bool → FilePath → FilePath → Io (W R) (Unit {0})
  carry_if true from to = map_err io_error (copy faults from to)
  carry_if false from to = pure tt

  unfoldable pub carry : String → FilePath → FilePath → String → Io (W R) (Unit {0})
  unfolding carries io_error
  carry alias prior base name = do
    metadata ← map_err io_error (symlink_metadata faults (prior ++ name ∷ []))
    carry_if (is_plain metadata && carries alias name) (prior ++ name ∷ [])
        (base ++ "identities" ∷ name ∷ [])

  unfoldable pub carry_all : String → FilePath → FilePath → List String → Io (W R) (Unit {0})
  unfolding carry
  carry_all alias prior base [] = pure tt
  carry_all alias prior base (name ∷ names) =
      carry alias prior base name >> carry_all alias prior base names

  unfoldable pub carry_from : String → FilePath → FilePath → Bool → Io (W R) (Unit {0})
  unfolding carry_all io_error
  carry_from alias prior base false = pure tt
  carry_from alias prior base true = do
    names ← map_err io_error (read_dir faults prior)
    carry_all alias prior base names

  -- `state.join("current/identities")`, through the link.
  abbrev pub prior_identities : W R → FilePath
  prior_identities w = followed ("identities" ∷ []) (get current w.disk)

  unfoldable pub carry_identities : String → FilePath → Io (W R) (Unit {0})
  unfolding carry_from
  carry_identities alias base w =
      (is_directory faults (prior_identities w) >>= carry_from alias (prior_identities w) base) w

  unfoldable pub write_provenance : FilePath → Option ImportProvenance → Io (W R) (Unit {0})
  unfolding write_json
  write_provenance base none = pure tt
  write_provenance base (some p) = write_json (base ++ "import-provenance.json" ∷ []) (provenance p)

  unfoldable pub write_map :
      FilePath → String → String → Option ExternalReference → Io (W R) (Unit {0})
  unfolding write_json identity_map
  write_map base alias digest none = pure tt
  write_map base alias digest (some reference) =
      write_json (base ++ "external-identity-map.json" ∷ [])
        (json (identity_map reference alias digest))

  -- The command `chown -R root:rigos`, and whether it succeeds.
  unfoldable pub chown : Io (W R) Bool
  chown w = ask faults (λ d. chowns w.clock) w

  unfoldable pub own : Io (W R) (Unit {0})
  unfolding chown io_error ownership_error
  own = do owned ← map_err io_error chown; fail_when (not owned) ownership_error

  unfoldable pub fill : FilePath → Value → Value → Proposal → IdentityRecord → Io (W R) (Unit {0})
  unfolding write_json carry_identities write_provenance write_map own io_error
  fill base policy xmrig proposal owner = do
    write_json (base ++ "policy.json" ∷ []) (json policy)
    write_json (base ++ "xmrig.json" ∷ []) (json xmrig)
    map_err io_error (create_dir faults (base ++ "flight-sheets" ∷ []))
    write_json (base ++ "flight-sheets" ∷ json_name proposal.flight_sheet.name ∷ [])
        (sheet proposal.flight_sheet)
    map_err io_error (create_dir faults (base ++ "identities" ∷ []))
    carry_identities owner.alias base
    write_json (base ++ "identities" ∷ json_name owner.alias ∷ []) (identity owner)
    write_provenance base proposal.provenance
    write_map base owner.alias proposal.source_sha256 (reference_of proposal.provenance)
    own
    map_err io_error (sync faults)

  unfoldable pub keep_previous : String → Option FilePath → Io (W R) (Unit {0})
  unfolding io_error
  keep_previous id none = pure tt
  keep_previous id (some target) = do
    map_err io_error (create_symlink faults target (String.◌++◌ ".previous-" id ∷ []))
    map_err io_error (rename faults (String.◌++◌ ".previous-" id ∷ []) ("previous" ∷ []))

  abbrev pub link_unless : Bool → FilePath → FilePath → Io (W R) (Unit {0})
  link_unless true target link = pure tt
  link_unless false target link = map_err io_error (create_symlink faults target link)

  -- `symlink_metadata(&link).is_err()`.
  abbrev pub is_err : Ran (W R) (Option (Entry Stored)) → Ran (W R) Bool
  is_err (done entry w) = done (not (is_there entry)) w
  is_err (failed e w) = done true w

  abbrev pub absent : Bool → FilePath → Io (W R) Bool
  absent true link w = done false w
  absent false link w = is_err (symlink_metadata faults link w)

  unfoldable pub ensure_public_link : String → Io (W R) (Unit {0})
  unfolding io_error
  ensure_public_link name = do
    there ← exists faults (name ∷ [])
    missing ← absent there (name ∷ [])
    link_unless (not missing) ("current" ∷ name ∷ []) (name ∷ [])

  unfoldable pub ensure_public_links : List String → Io (W R) (Unit {0})
  unfolding ensure_public_link
  ensure_public_links [] = pure tt
  ensure_public_links (name ∷ names) = ensure_public_link name >> ensure_public_links names

  unfoldable pub finish : String → Io (W R) String
  unfolding ensure_public_links io_error
  finish id = do ensure_public_links public_links; map_err io_error (sync faults); pure id

  -- The link `current` is replaced in one step.
  unfoldable pub switch : String → Io (W R) String
  unfolding finish io_error final_dir
  switch id = do
    map_err io_error (create_symlink faults (final_dir id) (String.◌++◌ ".current-" id ∷ []))
    map_err io_error (rename faults (String.◌++◌ ".current-" id ∷ []) current)
    finish id

  unfoldable pub link_revision : String → Io (W R) String
  unfolding switch keep_previous
  link_revision id = do previous ← read_link faults current; keep_previous id previous; switch id

  -- From the directory that is filled to the links in the state directory.
  unfoldable pub publish : String → Io (W R) String
  unfolding link_revision io_error staging final_dir
  publish id = do map_err io_error (rename_dir faults (staging id) (final_dir id)); link_revision id

  -- `let _ = fs::remove_dir_all(&staging);` after an error.
  abbrev pub cleaned : {A : Type 0} → String → Ran (W R) A → Ran (W R) A
  cleaned id (done a w) = done a w
  cleaned id (failed e w) = failed e (left (remove_dir_all faults (staging id) w))

  abbrev pub draw : Io (W R) String
  draw w = done (fresh w.clock) w

  -- From the documents on.
  unfoldable pub prepare : Proposal → IdentityRecord → Value × Value → Io (W R) String
  unfolding fill publish io_error revisions staging
  prepare proposal owner documents = do
    map_err io_error (create_dir_all faults revisions)
    id ← draw
    map_err io_error (create_dir faults (staging id))
    λ w. cleaned id ((fill (staging id) documents.0 documents.1 proposal owner >> publish id) w)

  unfoldable pub commit_revision : Proposal → IdentityRecord → Io (W R) String
  unfolding build_runtime prepare
  commit_revision proposal owner = lifted (build_runtime proposal owner) >>= prepare proposal owner
