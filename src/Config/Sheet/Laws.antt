-- ===== src/Config/Sheet/Laws.antt =====
-- validate_sheet: what it accepts is valid, and what is valid it accepts unchanged.
use mathlib.Core.List.{Perm}
use Prim.Native.String.{len}
use text.Mathlib.Text.{◌==◌ as text_eq}
use text.Mathlib.TextEquality.{eq_iff}
use rigos.Base.{
  ℕ, suc, ◌≤◌, String, ◌≡◌, refl, ap, subst, ◌∙◌, ◌⊎◌, inl, inr, true, false, not, List, [], ◌∷◌,
  map, length, ok, ltb, within, Result, err, panic, arith, not-eq-false, Bool-cases,
}
use rigos.Base.Sort.{insert, sort, sort-All, sort-perm}
use rigos.Base.Text.{is_empty}
use rigos.Config.Error.{ConfigError}
use rigos.Config.Names.Slug.{IsSlug, valid_slug_iff}
use rigos.Config.Names.Host.{IsNonempty, is_empty_iff}
use rigos.Config.Sheet.{
  Pool, FlightSheet, check_pools, by_priority, bad_metadata, bad_identity, bad_number, pools_sorted,
  validate_sheet, valid_threads,
}
use rigos.Config.Sheet.Valid.{IsValidPool, IsValidSheet, valid_threads_iff}
use rigos.Config.Sheet.Pools.{
  FreshFor, lowered, check_pools-Checked, sort-Ascending, sort_of_Ascending, check_pools_of_valid,
}

-- What validation does to a sheet: it lowers the hosts and sorts the pools.
pub record Normalized (s t : FlightSheet) : Type 0 where
  pub pools : Perm t.pools (map lowered s.pools)
  pub rest : t ≡ record s { pools = t.pools }

none_met : (ps : List Pool) → FreshFor [] ps
none_met [] = tt
none_met (p ∷ ps) = (refl, none_met ps)

pub record Accepted (s t : FlightSheet) : Type 0 where
  pub valid : IsValidSheet t
  pub normal : Normalized s t

text_is : (a b : String) → not (text_eq a b) ≡ false → a ≡ b
text_is a b h = (eq_iff a b).0 (not-eq-false _ h)

text_within :
    (a : String) (n : ℕ) → is_empty a ≡ false → ltb n (len a) ≡ false → IsNonempty a × (len a ≤ n)
text_within a n e b = ((is_empty_iff a).0 (ground arith), ground arith)

-- What a run that succeeds has passed.
record Passed (s t : FlightSheet) (file : String) : Type 0 where
  metadata : bad_metadata s ≡ false
  identity : bad_identity s ≡ false
  number : bad_number s ≡ false
  checked : List Pool
  loop : check_pools file [] s.pools ≡ ok checked
  threads : valid_threads s.cpu.threads ≡ true
  hint : within 1 100 s.cpu.max_threads_hint ≡ true
  result : pools_sorted s checked ≡ t

validate_sheet-Passed :
    (s t : FlightSheet) (file : String) → validate_sheet s file ≡ ok t → Passed s t file
unfolding validate_sheet
validate_sheet-Passed s t file h = go (check_pools file [] s.pools) refl
  where
    go : (r : Result ConfigError (List Pool)) → check_pools file [] s.pools ≡ r → Passed s t file
    go (ok cs) e = record {
      metadata = ground arith;
      identity = ground arith;
      number = ground arith;
      checked = cs;
      loop = e;
      threads = ground arith;
      hint = ground arith;
      result = ground arith;
    }
    go (err x) e = absurd (ground arith)
    go panic e = absurd (ground arith)

module _ (s : FlightSheet) (metadata : bad_metadata s ≡ false) where
  metadata_schema : s.schema ≡ "rigos.flight-sheet/v1"
  unfolding bad_metadata
  metadata_schema = text_is _ _ (ground arith)

  metadata_name : IsSlug 64 s.name
  unfolding bad_metadata
  metadata_name = (valid_slug_iff s.name 64).0 (ground arith)

  metadata_backend : s.backend ≡ "xmrig"
  unfolding bad_metadata
  metadata_backend = text_is _ _ (ground arith)

  metadata_coin : IsNonempty s.coin × (len s.coin ≤ 16)
  unfolding bad_metadata
  metadata_coin = text_within _ _ (ground arith) (ground arith)

  metadata_algorithm : IsNonempty s.algorithm × (len s.algorithm ≤ 64)
  unfolding bad_metadata
  metadata_algorithm = text_within _ _ (ground arith) (ground arith)

module _ (s : FlightSheet) (identity : bad_identity s ≡ false) where
  identity_slug : IsSlug 64 s.identity_ref
  unfolding bad_identity
  identity_slug = (valid_slug_iff s.identity_ref 64).0 (ground arith)

  identity_template : (s.worker_template ≡ "{node_name}") ⊎ (s.worker_template ≡ "{node_name}.rig")
  unfolding bad_identity
  identity_template = elim (Bool-cases (text_eq s.worker_template "{node_name}")) [
    | inl e ↦ inl ((eq_iff s.worker_template "{node_name}").0 e)
    | inr e ↦ inr ((eq_iff s.worker_template "{node_name}.rig").0 (ground arith))
  ]

length-insert : (p : Pool) (ps : List Pool) → length (insert by_priority p ps) ≡ suc (length ps)
unfolding insert
length-insert p [] = refl
length-insert p (q ∷ ps) = ground (arith, length-insert p ps)

length-sort : (ps : List Pool) → length (sort by_priority ps) ≡ length ps
unfolding sort
length-sort [] = refl
length-sort (p ∷ ps) = length-insert p (sort by_priority ps) ∙ ap suc (length-sort ps)

length-lowered : (ps : List Pool) → length (map lowered ps) ≡ length ps
length-lowered [] = refl
length-lowered (p ∷ ps) = ap suc (length-lowered ps)

number_within :
    (s : FlightSheet) → bad_number s ≡ false → (1 ≤ length s.pools) × (length s.pools ≤ 16)
unfolding bad_number
number_within s h = ground arith

-- What `validate_sheet` accepts is a valid sheet: the hosts of the given sheet in lower case, its
-- pools in order of priority, and nothing else changed.
pub validate_sheet-Accepted :
    (s t : FlightSheet) (file : String) → validate_sheet s file ≡ ok t → Accepted s t
validate_sheet-Accepted s t file h =
    let passed = validate_sheet-Passed s t file h in
    let cs = passed.checked in
    let c = check_pools-Checked file [] s.pools cs passed.loop in
    let size : length (sort by_priority cs) ≡ length s.pools =
      length-sort cs ∙ (ap length c.lowers ∙ length-lowered s.pools) in
    let number = number_within s passed.number in
    let valid : IsValidSheet (pools_sorted s cs) = record {
      schema = metadata_schema s passed.metadata;
      name = metadata_name s passed.metadata;
      backend = metadata_backend s passed.metadata;
      coin = metadata_coin s passed.metadata;
      algorithm = metadata_algorithm s passed.metadata;
      identity = identity_slug s passed.identity;
      template = identity_template s passed.identity;
      some_pools = omega arith;
      pools = sort-All by_priority IsValidPool cs c.valid;
      ascending = sort-Ascending cs c.distinct;
      threads = (valid_threads_iff s.cpu.threads).0 passed.threads;
      hint = ground (arith, passed.hint);
    } in
    let normal : Normalized s (pools_sorted s cs) = record {
      pools = subst (λ ps. Perm (sort by_priority cs) ps) c.lowers (sort-perm by_priority cs);
      rest = refl;
    } in
    subst (Accepted s) passed.result (record { valid = valid; normal = normal })

module _ (s : FlightSheet) (v : IsValidSheet s) where
  valid_metadata : bad_metadata s ≡ false
  unfolding bad_metadata
  valid_metadata = ground (
    arith,
    (eq_iff s.schema "rigos.flight-sheet/v1").1 v.schema,
    (eq_iff s.backend "xmrig").1 v.backend,
    (valid_slug_iff s.name 64).1 v.name,
    (is_empty_iff s.coin).1 v.coin.0,
    (is_empty_iff s.algorithm).1 v.algorithm.0,
    v.coin.1,
    v.algorithm.1,
  )

  valid_identity : bad_identity s ≡ false
  unfolding bad_identity
  valid_identity = ground (
    arith,
    (valid_slug_iff s.identity_ref 64).1 v.identity,
    v.template,
    eq_iff s.worker_template "{node_name}",
    eq_iff s.worker_template "{node_name}.rig",
  )

  valid_number : bad_number s ≡ false
  unfolding bad_number
  valid_number = ground (arith, v.some_pools)

  -- A valid sheet passes `validate_sheet` and is left as it is.
  pub validate_sheet_of_valid : (file : String) → validate_sheet s file ≡ ok s
  unfolding validate_sheet
  validate_sheet_of_valid file =
      rw
        (
          valid_metadata,
          valid_identity,
          valid_number,
          check_pools_of_valid file [] s.pools v.pools v.ascending (none_met s.pools),
          (valid_threads_iff s.cpu.threads).1 v.threads,
        )
        (ground (arith, v.hint, sort_of_Ascending s.pools v.ascending))
