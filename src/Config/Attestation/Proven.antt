-- ===== src/Config/Attestation/Proven.antt =====
-- Which devices the configuration takes as proven.
use text.Mathlib.Text.{◌==◌ as text_eq}
use text.Mathlib.TextEquality.{eq_iff}
use rigos.Base.{
  String, ◌≡◌, sym, ap, ◌∙◌, ◌↔◌, ◌⊎◌, inl, inr, true, not, Result, ok, fail_if-eq-ok, >>=-eq-ok,
  ok_injective, and-eq-true, and_true, or-eq-false, not-eq-false, Bool-cases, or_right,
}
use rigos.Base.Text.Chars.{to_ascii_lowercase, eq_ignore_ascii_case}
use rigos.Config.Error.{ConfigError}
use rigos.Config.Transaction.{state_allows_config}
use rigos.Config.Attestation.{
  Attestation, attestation_identity_matches, revalidate_attestation, not_verified, verified_device,
}

-- Two attestations of one boot and one device: all but the paths, which may change, is the same,
-- identifiers up to the case of letters; and the second one says `verified`.
pub record IsSameDevice (expected fresh : Attestation) : Type 0 where
  pub schema : expected.schema ≡ "rigos.boot-device/v1"
  pub same_schema : fresh.schema ≡ expected.schema
  pub verified : fresh.verification_outcome ≡ "verified"
  pub boot : fresh.boot_id ≡ expected.boot_id
  pub disk : fresh.disk.major_minor ≡ expected.disk.major_minor
  pub disk_id : to_ascii_lowercase fresh.disk.ptuuid ≡ to_ascii_lowercase expected.disk.ptuuid
  pub partition : fresh.partition1.major_minor ≡ expected.partition1.major_minor
  pub partition_id :
      to_ascii_lowercase fresh.partition1.partuuid ≡ to_ascii_lowercase expected.partition1.partuuid
  pub root : fresh.root.major_minor ≡ expected.root.major_minor

-- An attestation matches another one exactly when they are of the same boot and device.
pub attestation_identity_matches_iff :
    (expected fresh : Attestation)
    → (attestation_identity_matches expected fresh ≡ true) ↔ IsSameDevice expected fresh
unfolding attestation_identity_matches eq_ignore_ascii_case
attestation_identity_matches_iff expected fresh = (
  λ h.
      let (h8, root) = and-eq-true _ _ h in
      let (h7, partition_id) = and-eq-true _ _ h8 in
      let (h6, partition) = and-eq-true _ _ h7 in
      let (h5, disk_id) = and-eq-true _ _ h6 in
      let (h4, disk) = and-eq-true _ _ h5 in
      let (h3, boot) = and-eq-true _ _ h4 in
      let (h2, verified) = and-eq-true _ _ h3 in
      let (schema, same_schema) = and-eq-true _ _ h2 in
      record {
        schema = (eq_iff _ _).0 schema;
        same_schema = (eq_iff _ _).0 same_schema;
        verified = (eq_iff _ _).0 verified;
        boot = (eq_iff _ _).0 boot;
        disk = (eq_iff _ _).0 disk;
        disk_id = (eq_iff _ _).0 disk_id;
        partition = (eq_iff _ _).0 partition;
        partition_id = (eq_iff _ _).0 partition_id;
        root = (eq_iff _ _).0 root;
      },
  λ d.
      and_true
        (and_true
          (and_true
            (and_true
              (and_true
                (and_true
                  (and_true (and_true ((eq_iff _ _).1 d.schema) ((eq_iff _ _).1 d.same_schema))
                    ((eq_iff _ _).1 d.verified))
                  ((eq_iff _ _).1 d.boot))
                ((eq_iff _ _).1 d.disk))
              ((eq_iff _ _).1 d.disk_id))
            ((eq_iff _ _).1 d.partition))
          ((eq_iff _ _).1 d.partition_id))
        ((eq_iff _ _).1 d.root),
)

pub record IsProven (boot : Result ConfigError String) (fresh : Result ConfigError Attestation)
    (attestation : Attestation) (outcome : String) (found : Attestation) : Type 0 where
  pub verified : attestation.verification_outcome ≡ "verified"
  pub ready : (outcome ≡ "ready") ⊎ (outcome ≡ "grown")
  pub this_boot : boot ≡ ok attestation.boot_id
  pub found_again : fresh ≡ ok found
  pub same_device : IsSameDevice attestation found

allowed :
    (outcome : String)
    → state_allows_config outcome ≡ true
    → (outcome ≡ "ready") ⊎ (outcome ≡ "grown")
unfolding state_allows_config
allowed outcome h = elim (Bool-cases (text_eq outcome "ready")) [
  | inl e ↦ inl ((eq_iff outcome "ready").0 e)
  | inr e ↦ inr ((eq_iff outcome "grown").0 (or_right e h))
]

-- A device is taken only where its attestation says `verified`, the state of the rig is `ready` or
-- `grown`, the attestation is of this boot, and a new run of the verification attests the same
-- device; and it is taken as the new run has it.
pub verified_device-IsProven :
    (boot : Result ConfigError String) (fresh : Result ConfigError Attestation)
    (attestation : Attestation) (outcome : String) (found : Attestation)
    → verified_device boot fresh attestation outcome ≡ ok found
    → IsProven boot fresh attestation outcome found
unfolding verified_device revalidate_attestation not_verified
verified_device-IsProven boot fresh attestation outcome found h =
    let (proven, h1) = fail_if-eq-ok (not_verified attestation outcome) _ _ h in
    let (l1, allows) = or-eq-false _ _ proven in
    let (schema, verified) = or-eq-false _ _ l1 in
    let (id, now, h2) = >>=-eq-ok boot _ h1 in
    let (this, h3) = fail_if-eq-ok (not (text_eq id attestation.boot_id)) _ _ h2 in
    let (f, again, h4) = >>=-eq-ok fresh _ h3 in
    let (same, h5) = fail_if-eq-ok (not (attestation_identity_matches attestation f)) _ _ h4 in
    let e : f ≡ found = ok_injective h5 in
    record {
      verified = (eq_iff _ _).0 (not-eq-false _ verified);
      ready = allowed outcome (not-eq-false _ allows);
      this_boot = now ∙ ap ok ((eq_iff id attestation.boot_id).0 (not-eq-false _ this));
      found_again = again ∙ ap ok e;
      same_device =
          (attestation_identity_matches_iff attestation found).0
            (ap (attestation_identity_matches attestation) (sym e) ∙ not-eq-false _ same);
    }
