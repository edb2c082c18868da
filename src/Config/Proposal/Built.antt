-- ===== src/Config/Proposal/Built.antt =====
-- When build_runtime accepts, and what the configuration of the miner says of the pools.
use text.Mathlib.Text.{◌==◌ as text_eq, starts_with}
use text.Mathlib.TextEquality.{eq_iff}
use rigos.Base.{
  String, ◌≡◌, ◌↔◌, ◌⊎◌, refl, Bool, true, false, not, ◌&&◌, inl, inr, ok, >>=-eq-ok, fail_if-ok,
  fail_if, Bool-cases, arith,
}
use rigos.Config.Identity.{IdentityRecord, validate_identity}
use rigos.Config.Identity.Valid.{IsIdentity, validate_identity_iff}
use rigos.Config.Proposal.{
  Proposal, unresolved, unresolved_identity, policy_of, xmrig_of, build_runtime,
}

-- The identity that is selected is the one the sheet names, or the sheet names none of this rig.
abbrev pub Resolves : String → String → Type 0
Resolves alias reference =
    (alias ≡ reference) ⊎ (reference ≡ "unresolved") ⊎ (starts_with reference "hive-wal-" ≡ true)

unresolved_iff : (a r : String) → (unresolved a r ≡ false) ↔ Resolves a r
unfolding unresolved
unresolved_iff a r = (
  λ h. elim (Bool-cases (text_eq a r)) [
    | inl e ↦ inl ((eq_iff a r).0 e)
    | inr e ↦ elim (Bool-cases (text_eq r "unresolved")) [
      | inl f ↦ inr (inl ((eq_iff r "unresolved").0 f))
      | inr f ↦ inr (inr (accepted (starts_with r "hive-wal-") (rw (e, f) at h)))
    ]
  ],
  λ d. elim d [
    | inl e ↦ rw ((eq_iff a r).1 e)
    | inr (inl f) ↦ rw ((eq_iff r "unresolved").1 f) (last (text_eq a r))
    | inr (inr g) ↦ both (text_eq a r) (text_eq r "unresolved") (starts_with r "hive-wal-") g
  ],
)
  where
    accepted : (b : Bool) → not b ≡ false → b ≡ true
    accepted b h = ground arith

    last : (b : Bool) → (not b && false && not (starts_with r "hive-wal-")) ≡ false
    last true = refl
    last false = refl

    both : (b c d : Bool) → d ≡ true → (not b && not c && not d) ≡ false
    both b c d h = ground arith

-- build_runtime accepts exactly the valid identities that the flight sheet names; a sheet whose
-- reference is unresolved or is a wallet of a Hive import takes each of them.
pub build_runtime_iff :
    (proposal : Proposal) (owner : IdentityRecord)
    → (build_runtime proposal owner ≡ ok (policy_of proposal owner, xmrig_of proposal owner))
      ↔ (IsIdentity owner × Resolves owner.alias proposal.flight_sheet.identity_ref)
unfolding build_runtime
build_runtime_iff proposal owner = (
  λ h.
      let (u, valid, rest) = >>=-eq-ok (validate_identity owner) _ h in
      let (v, resolved, last) = >>=-eq-ok (fail_if _ unresolved_identity) _ rest in
      (
        (validate_identity_iff owner).0 valid,
        (unresolved_iff owner.alias proposal.flight_sheet.identity_ref).0 (fail_if-ok _ _ resolved),
      ),
  λ d.
      rw
        (
          (validate_identity_iff owner).1 d.0,
          (unresolved_iff owner.alias proposal.flight_sheet.identity_ref).1 d.1,
        )
        refl,
)
