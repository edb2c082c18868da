-- ===== src/Config/Sheet/Pools.antt =====
-- The loop over the pools and the sort by priority.
use rigos.Base.{
  ℕ, ◌<◌, String, ◌≡◌, ◌≢◌, refl, ap, inl, inr, subst, true, false, List, [], ◌∷◌, map, All, any,
  ok, fail_if-eq-ok, >>=-eq-ok, ◌==◌, arith, or-eq-false, not-eq-false, Bool-cases, All-map,
}
use rigos.Base.Sort.{sort, insert, insert-All, sort-All, IsSorted, sort_of_IsSorted}
use rigos.Base.Text.Chars.{to_ascii_lowercase, to_ascii_lowercase_idem}
use rigos.Config.Names.Host.{valid_host_iff}
use rigos.Config.Sheet.{Pool, check_pools, by_priority}
use rigos.Config.Sheet.Valid.{IsValidPool, Ascending}

abbrev pub lowered : Pool → Pool
lowered p = record p { host = to_ascii_lowercase p.host }

-- No priority of the pools is among those that were met.
abbrev pub FreshFor : List ℕ → List Pool → Type 0
FreshFor seen ps = All (λ (p : Pool). any (λ q. q == p.priority) seen ≡ false) ps

abbrev pub Distinct : List Pool → Type 0
Distinct [] = Unit
Distinct (p ∷ ps) = All (λ (q : Pool). p.priority ≢ q.priority) ps × Distinct ps

pub record Checked (seen : List ℕ) (ps cs : List Pool) : Type 0 where
  pub lowers : cs ≡ map lowered ps
  pub valid : All IsValidPool cs
  pub fresh : FreshFor seen cs
  pub distinct : Distinct cs

fresh_later :
    (seen : List ℕ) (p : Pool) (cs : List Pool)
    → FreshFor (p.priority ∷ seen) cs
    → All (λ (q : Pool). p.priority ≢ q.priority) cs × FreshFor seen cs
fresh_later seen p [] h = (tt, tt)
fresh_later seen p (c ∷ cs) h =
    let (d, f) = fresh_later seen p cs h.1 in
    let (a, b) = or-eq-false (p.priority == c.priority) _ h.0 in ((ground arith, d), (b, f))

pub check_pools-Checked :
    (file : String) (seen : List ℕ) (ps cs : List Pool)
    → check_pools file seen ps ≡ ok cs
    → Checked seen ps cs
unfolding check_pools
check_pools-Checked file seen [] cs h =
    let e : [] ≡ cs = cc in
    subst (Checked seen []) e (record { lowers = refl; valid = tt; fresh = tt; distinct = tt })
check_pools-Checked file seen (p ∷ ps) cs h =
    let (passed, h1) = fail_if-eq-ok _ _ _ h in
    let (rest, e, h2) = >>=-eq-ok (check_pools file (p.priority ∷ seen) ps) _ h1 in
    let ih = check_pools-Checked file (p.priority ∷ seen) ps rest e in
    let (later, fresh) = fresh_later seen p rest ih.fresh in
    let (hp, unmet) = or-eq-false _ _ passed in
    let (host, port) = or-eq-false _ _ hp in
    let open_port : p.port ≢ 0 = ground (arith, port) in
    let e' : lowered p ∷ rest ≡ cs = cc in
    subst (Checked seen (p ∷ ps)) e' (record {
      lowers = ap (λ r. lowered p ∷ r) ih.lowers;
      valid = (
        record {
          host = (valid_host_iff (to_ascii_lowercase p.host)).0 (not-eq-false _ host);
          lowered = to_ascii_lowercase_idem p.host;
          port = open_port;
        },
        ih.valid,
      );
      fresh = (unmet, fresh);
      distinct = (later, ih.distinct);
    })

module _ (p : Pool) where
  insert-Ascending :
      (ps : List Pool)
      → All (λ (q : Pool). p.priority ≢ q.priority) ps
      → Ascending ps
      → Ascending (insert by_priority p ps)
  unfolding insert
  insert-Ascending [] d h = (tt, tt)
  insert-Ascending (q ∷ ps) d h = elim (Bool-cases (by_priority p q)) [
    | inl e ↦
        let below : p.priority < q.priority = ground (arith, d.0) in
        rw e (
          (
            below,
            All-map (λ r. q.priority < r.priority) (λ r. p.priority < r.priority) ps
                (λ r k. omega arith) h.0,
          ),
          h,
        )
    | inr e ↦ rw e (
      insert-All by_priority (λ r. q.priority < r.priority) p ps (ground arith) h.0,
      insert-Ascending ps d.1 h.1,
    )
  ]

-- Sorting pools with distinct priorities makes the priorities strictly ascending.
pub sort-Ascending : (ps : List Pool) → Distinct ps → Ascending (sort by_priority ps)
unfolding sort
sort-Ascending [] d = tt
sort-Ascending (p ∷ ps) d =
    insert-Ascending p (sort by_priority ps)
      (sort-All by_priority (λ (q : Pool). p.priority ≢ q.priority) ps d.0) (sort-Ascending ps d.1)

Ascending-IsSorted : (ps : List Pool) → Ascending ps → IsSorted by_priority ps
Ascending-IsSorted [] h = tt
Ascending-IsSorted (p ∷ ps) h = (
  All-map (λ q. p.priority < q.priority) (λ q. by_priority p q ≡ true) ps (λ q k. ground arith) h.0,
  Ascending-IsSorted ps h.1,
)

pub sort_of_Ascending : (ps : List Pool) → Ascending ps → sort by_priority ps ≡ ps
sort_of_Ascending ps h = sort_of_IsSorted by_priority ps (Ascending-IsSorted ps h)

skip_seen :
    (seen : List ℕ) (p : Pool) (ps : List Pool)
    → All (λ q. p.priority < q.priority) ps
    → FreshFor seen ps
    → FreshFor (p.priority ∷ seen) ps
skip_seen seen p [] h f = tt
skip_seen seen p (q ∷ ps) h f = (ground (arith, h.0, f.0), skip_seen seen p ps h.1 f.1)

-- Valid pools in ascending order pass the loop unchanged.
pub check_pools_of_valid :
    (file : String) (seen : List ℕ) (ps : List Pool)
    → All IsValidPool ps
    → Ascending ps
    → FreshFor seen ps
    → check_pools file seen ps ≡ ok ps
unfolding check_pools
check_pools_of_valid file seen [] v a f = refl
check_pools_of_valid file seen (p ∷ ps) v a f =
    let ih =
      check_pools_of_valid file (p.priority ∷ seen) ps v.1 a.1 (skip_seen seen p ps a.0 f.1) in
    let host = (valid_host_iff p.host).1 v.0.host in
    rw (v.0.lowered, ih) (ground (arith, host, f.0, v.0.port))
