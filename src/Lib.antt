-- ===== src/Lib.antt =====
-- RIGOS: a verification library of the Rust crates under crates/.
--
-- Two programs decide what a rig does at boot. crates/rigos-config reads the configuration of a
-- rig, a file rigos.conf and a flight sheet, and commits it in a transaction; crates/rigos-state
-- finds the boot disk, verifies it against the image manifest and prepares the state partition.
-- Both refuse by returning an error, and act only on what they accepted.
--
-- Base: Boolean tests, lists, results with an error and a panic (Base/Outcome), text with the
--   operations of str and their laws (Base/Text), UTF-8 (Base/Utf8), sorting (Base/Sort).
-- Config: crates/rigos-config/src/lib.rs.
--   Config/Error is ConfigError; Config/Names is valid_slug, valid_host, valid_timezone_name,
--   safe_json_basename and safe_join, with their descriptions in Config/Names/;
--   Config/Sheet is validate_sheet and parse_flight_sheet; Config/Profile is parse_rig_profile,
--   with its lines in Config/Profile/Lines and its fields in Config/Profile/Fields.
-- Config/Proposal: build_runtime of the same file, the documents a proposal becomes: Policy and the
--   configuration of the miner, as values of JSON. Config/Stored is what a file of the state can
--   hold.
-- Config/Store and Config/Transaction: crates/rigos-config/src/main.rs.
--   Config/Store is the state directory with the calls of std::fs (Config/Store/Tree for its paths),
--   Config/Transaction is transact, rollback_transaction and recover_pending, and
--   Config/Transaction/Runtime is the trait RuntimeOps with the laws that its implementations
--   promise. transact takes the commit as an argument; Config/Transaction/Request passes it
--   commit_revision, as the program does.
-- Config/Revision: commit_revision, write_json and ensure_public_link of
--   crates/rigos-config/src/lib.rs. A revision is built in a hidden directory, renamed into place,
--   and the link `current` is replaced by a rename.
-- Config/Fragment: parse_json_member_fragment and insert_top_level_member_commas of
--   crates/rigos-config/src/lib.rs, by which the JSON embedded in an imported sheet is read.
-- Config/Hive: the parts of import_hive_style of the same file, over a type of JSON values:
--   hive_workload, hive_miner_config, strict_string_list, strict_bool_list, lifecycle_warnings, and
--   the loop over the pools (Config/Hive/Pools, where hive_pools joins it to the two lists).
-- Config/Identity: validate_identity of crates/rigos-config/src/lib.rs. Config/Attestation: the
--   proof of the boot device in crates/rigos-config/src/main.rs (revalidate_attestation, and
--   with_verified_efi before it mounts).
-- Evidence: crates/rigos-evidence/src/lib.rs. Evidence is redact_text, redact_json and forbidden,
--   Evidence/Recipients is load_recipients, Evidence/Sanitize is sanitize_approved, over a raw
--   directory and the calls that write.
-- Pool: crates/rigos-pool/src/lib.rs, validate_profile over the profiles of a pool. Core:
--   crates/rigos-core/src/lib.rs, the diagnostics and CliEnvelope::new.
-- Xmrig: crates/rigos-xmrig/src/lib.rs, what is read of a running miner: extract_config_path,
--   inspect_config and parse_api.
-- State: crates/rigos-state/src/lib.rs and the manifest of crates/rigos-schema/src/lib.rs.
--   State/Layout is validate_layout and its two neighbours; State/Ids compares identifiers.
-- State/Geometry and State/Init: crates/rigos-state/src/main.rs. State/Geometry is the size of the
--   state partition; State/Init is execute, as a run that collects the steps it takes on the system,
--   and the outcome that main reports.
--
-- Strings are texts of characters; `str::len` counts the bytes of UTF-8, and so does `len` here.
-- Numbers are natural: the u16, u32 and u64 of the source are bounded where they are decoded, and
-- the operations modelled only compare and divide them. Every loop is structural recursion on a
-- list, so no fuel is used. A division by zero is the result `panic`.
-- A system call may fail: a function `faults` of the number of calls made says which do, and the
-- theorems hold for each. A call that fails leaves the disk, but a write that fails leaves a torn
-- file. A runtime operation may fail too, and leave the runtime in any state. In State/Init the
-- environment says which step fails; a step that fails is in the trace as one that was taken. In
-- Evidence/Sanitize a write that fails leaves no file.
--
-- Not modelled: processes, the decoding and printing of JSON by serde (a parameter where a function
-- calls it), the modes of files, import_hive_style as a whole, the search of /proc and the request to
-- the miner's API in crates/rigos-xmrig, the facts of crates/rigos-machine, terminal input, the
-- schema generator, the miner's own programs, and the site.
pub mod Base
pub mod Config
pub mod Core
pub mod Evidence
pub mod Pool
pub mod State
pub mod Xmrig
