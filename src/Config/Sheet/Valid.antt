-- ===== src/Config/Sheet/Valid.antt =====
-- What a valid flight sheet is, apart from the tests of validate_sheet.
use Prim.Native.String.{len}
use rigos.Base.{◌≤◌, ◌<◌, ◌≡◌, ◌≢◌, ◌⊎◌, List, [], ◌∷◌, All, length, ◌↔◌, true, arith}
use text.Mathlib.TextEquality.{eq_iff}
use rigos.Base.Text.Chars.{to_ascii_lowercase}
use rigos.Config.Names.Slug.{IsSlug}
use rigos.Config.Names.Host.{IsHost, IsNonempty}
use rigos.Config.Sheet.{Pool, Threads, auto, count, FlightSheet, valid_threads}

-- A host in lower case, and a port that is not 0.
pub record IsValidPool (p : Pool) : Type 0 where
  pub host : IsHost p.host
  pub lowered : to_ascii_lowercase p.host ≡ p.host
  pub port : p.port ≢ 0

-- Strictly ascending priorities.
abbrev pub Ascending : List Pool → Type 0
Ascending [] = Unit
Ascending (p ∷ ps) = All (λ q. p.priority < q.priority) ps × Ascending ps

abbrev pub IsValidThreads : Threads → Type 0
IsValidThreads (auto value) = value ≡ "auto"
IsValidThreads (count value) = (1 ≤ value) × (value ≤ 1024)

pub record IsValidSheet (s : FlightSheet) : Type 0 where
  pub schema : s.schema ≡ "rigos.flight-sheet/v1"
  pub name : IsSlug 64 s.name
  pub backend : s.backend ≡ "xmrig"
  pub coin : IsNonempty s.coin × (len s.coin ≤ 16)
  pub algorithm : IsNonempty s.algorithm × (len s.algorithm ≤ 64)
  pub identity : IsSlug 64 s.identity_ref
  pub template : (s.worker_template ≡ "{node_name}") ⊎ (s.worker_template ≡ "{node_name}.rig")
  pub some_pools : (1 ≤ length s.pools) × (length s.pools ≤ 16)
  pub pools : All IsValidPool s.pools
  pub ascending : Ascending s.pools
  pub threads : IsValidThreads s.cpu.threads
  pub hint : (1 ≤ s.cpu.max_threads_hint) × (s.cpu.max_threads_hint ≤ 100)

pub valid_threads_iff : (t : Threads) → (valid_threads t ≡ true) ↔ IsValidThreads t
valid_threads_iff (auto value) = eq_iff value "auto"
valid_threads_iff (count value) = ground arith
