-- ===== src/Pool/Endpoints.antt =====
-- The loop of validate_profile over the endpoints.
use text.Mathlib.TextEquality.{eq_iff}
use rigos.Base.{
  ℕ, String, ◌≡◌, refl, sym, ◌↔◌, ◌⊎◌, inl, inr, Bool, true, false, arith, ==_iff, and-eq-true,
  and_true, All, any, List, [], ◌∷◌, Bool-cases, ok, map, fail_if-eq-ok, ap,
}
use rigos.Base.Text.Ip.{is_ip}
use rigos.Pool.{
  PoolEndpoint, invalid_endpoint, duplicate_endpoint, endpoint_key, same_key, bad_endpoint,
  check_endpoints,
}
use rigos.Pool.Host.{IsName, valid_host_iff}

-- A host that is an address or a name, and a port that is not 0.
pub record IsEndpoint (e : PoolEndpoint) : Type 0 where
  pub host : (is_ip e.host ≡ true) ⊎ IsName e.host
  pub port : e.port ≡ 0 → ⊥

-- No two entries are equal.
abbrev pub AreDistinct : List (String × ℕ) → Type 0
AreDistinct [] = Unit
AreDistinct (x ∷ xs) = All (λ y. x ≡ y → ⊥) xs × AreDistinct xs

same_key_iff : (a b : String × ℕ) → (same_key a b ≡ true) ↔ (a ≡ b)
same_key_iff (s, m) (t, n) = (
  λ h.
      let (x, y) = and-eq-true _ _ h in
      let e : s ≡ t = (eq_iff s t).0 x in let f : m ≡ n = (==_iff m n).0 y in λ i. (e i, f i),
  λ h. and_true ((eq_iff s t).1 (ap (λ p. p.0) h)) ((==_iff m n).1 (ap (λ p. p.1) h)),
)

bad_endpoint_iff : (e : PoolEndpoint) → (bad_endpoint e ≡ false) ↔ IsEndpoint e
unfolding bad_endpoint
bad_endpoint_iff e = (
  λ h. record { host = (valid_host_iff e.host).0 (ground arith); port = λ k. ground arith },
  λ h. let a = (valid_host_iff e.host).1 h.host in let b = h.port in ground arith,
)

fresh_iff :
    (x : String × ℕ) (met : List (String × ℕ))
    → (any (same_key x) met ≡ false) ↔ All (λ y. x ≡ y → ⊥) met
fresh_iff x [] = (λ h. tt, λ h. refl)
fresh_iff x (y ∷ ys) = (
  λ h. (
    λ e. absurd (clash ((same_key_iff x y).1 e) (ground arith)),
    (fresh_iff x ys).0 (ground arith),
  ),
  λ h. elim (Bool-cases (same_key x y)) [
    | inl e ↦ absurd (h.0 ((same_key_iff x y).0 e))
    | inr e ↦ rw e ((fresh_iff x ys).1 h.1)
  ],
)
  where
    clash : {b : Bool} → b ≡ true → b ≡ false → ⊥
    clash h k = cc

-- What the loop asks of the endpoints, after those it has met.
pub record AreChecked (met : List (String × ℕ)) (es : List PoolEndpoint) : Type 0 where
  pub each : All IsEndpoint es
  pub fresh : All (λ e. All (λ y. endpoint_key e ≡ y → ⊥) met) es
  pub distinct : AreDistinct (map endpoint_key es)

abbrev AreFresh : List (String × ℕ) → List PoolEndpoint → Type 0
AreFresh met es = All (λ e. All (λ y. endpoint_key e ≡ y → ⊥) met) es

fresh_split :
    (x : String × ℕ) (met : List (String × ℕ)) (es : List PoolEndpoint)
    → AreFresh (x ∷ met) es ↔ (All (λ y. x ≡ y → ⊥) (map endpoint_key es) × AreFresh met es)
fresh_split x met [] = (λ h. (tt, tt), λ h. tt)
fresh_split x met (e ∷ es) = (
  λ h. let (a, b) = (fresh_split x met es).0 h.1 in (((λ k. h.0.0 (sym k)), a), (h.0.1, b)),
  λ h. (((λ k. h.0.0 (sym k)), h.1.0), (fresh_split x met es).1 (h.0.1, h.1.1)),
)

sound :
    (met : List (String × ℕ)) (es : List PoolEndpoint)
    → check_endpoints met es ≡ ok tt
    → AreChecked met es
unfolding check_endpoints
sound met [] h = record { each = tt; fresh = tt; distinct = tt }
sound met (e ∷ es) h =
    let (a, rest) = fail_if-eq-ok (bad_endpoint e) invalid_endpoint _ h in
    let (b, rest1) =
      fail_if-eq-ok (any (same_key (endpoint_key e)) met) duplicate_endpoint _ rest in
    let later = sound (endpoint_key e ∷ met) es rest1 in
    let (apart, fresh) = (fresh_split (endpoint_key e) met es).0 later.fresh in
    record {
      each = ((bad_endpoint_iff e).0 a, later.each);
      fresh = ((fresh_iff (endpoint_key e) met).0 b, fresh);
      distinct = (apart, later.distinct);
    }

complete :
    (met : List (String × ℕ)) (es : List PoolEndpoint)
    → AreChecked met es
    → check_endpoints met es ≡ ok tt
unfolding check_endpoints
complete met [] h = refl
complete met (e ∷ es) h =
    rw
      (
        (bad_endpoint_iff e).1 h.each.0,
        (fresh_iff (endpoint_key e) met).1 h.fresh.0,
        complete (endpoint_key e ∷ met) es (record {
          each = h.each.1;
          fresh = (fresh_split (endpoint_key e) met es).1 (h.distinct.0, h.fresh.1);
          distinct = h.distinct.1;
        }),
      )
      refl

pub check_endpoints_iff :
    (met : List (String × ℕ)) (es : List PoolEndpoint)
    → (check_endpoints met es ≡ ok tt) ↔ AreChecked met es
check_endpoints_iff met es = (sound met es, complete met es)
