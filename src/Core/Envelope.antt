-- ===== src/Core/Envelope.antt =====
-- The envelope of a command's answer: the order of its diagnostics, and its status.
use mathlib.Core.List.{Perm}
use text.Mathlib.Text.{◌==◌ as text_eq}
use text.Mathlib.TextEquality.{eq_iff}
use rigos.Base.{
  String, ◌≡◌, refl, sym, ◌∙◌, subst, ◌↔◌, ◌⊎◌, inl, inr, Bool, true, false, not, Option, none,
  some, List, [], ◌∷◌, All, Any, any, Bool-cases, arith,
}
use rigos.Base.Sort.{sort, sort-perm, sort-IsSorted, IsSorted}
use rigos.Base.Text.Order.{text_leb, text_leb_total, text_leb_trans, text_leb_antisym}
use rigos.Core.{
  ExecutionStatus, Diagnostic, BuildMetadata, CliEnvelope, key_leb, is_info, status_of,
  new_envelope,
}

-- The order of the keys, as a relation.
abbrev pub Before : Diagnostic → Diagnostic → Type 0
Before a b =
    (a.code ≡ b.code) × (text_leb a.component b.component ≡ true)
    ⊎ ((a.code ≡ b.code → ⊥) × (text_leb a.code b.code ≡ true))

key_leb_iff : (a b : Diagnostic) → (key_leb a b ≡ true) ↔ Before a b
unfolding key_leb
key_leb_iff a b = elim (Bool-cases (text_eq a.code b.code)) [
  | inl e ↦ rw e (
    λ h. inl ((eq_iff a.code b.code).0 e, h),
    λ h. elim h [ inl k ↦ k.1 | inr k ↦ absurd (k.0 ((eq_iff a.code b.code).0 e)) ],
  )
  | inr e ↦
      rw e (λ h. inr (differs e, h), λ h. elim h [ inl k ↦ absurd (differs e k.0) | inr k ↦ k.1 ])
]
  where
    differs : text_eq a.code b.code ≡ false → a.code ≡ b.code → ⊥
    differs e f = let t = (eq_iff a.code b.code).1 f in cc

key_leb_total : (a b : Diagnostic) → key_leb a b ≡ false → key_leb b a ≡ true
unfolding key_leb
key_leb_total a b h = elim (Bool-cases (text_eq a.code b.code)) [
  | inl e ↦
      (key_leb_iff b a).1
        (inl (sym ((eq_iff a.code b.code).0 e), text_leb_total a.component b.component (rw e at h)))
  | inr e ↦ (key_leb_iff b a).1 (
      inr (
        (λ f. let t = (eq_iff a.code b.code).1 (sym f) in cc),
        text_leb_total a.code b.code (rw e at h),
      ))
]

Before-trans : (a b c : Diagnostic) → Before a b → Before b c → Before a c
Before-trans a b c (inl h) (inl k) =
    inl (h.0 ∙ k.0, text_leb_trans a.component b.component c.component h.1 k.1)
Before-trans a b c (inl h) (inr k) =
    inr ((λ e. k.0 (sym h.0 ∙ e)), subst (λ x. text_leb x c.code ≡ true) (sym h.0) k.1)
Before-trans a b c (inr h) (inl k) =
    inr ((λ e. h.0 (e ∙ sym k.0)), subst (λ x. text_leb a.code x ≡ true) k.0 h.1)
Before-trans a b c (inr h) (inr k) = inr (
  (λ e.
      h.0 (text_leb_antisym a.code b.code h.1 (subst (λ x. text_leb b.code x ≡ true) (sym e) k.1))),
  text_leb_trans a.code b.code c.code h.1 k.1,
)

key_leb_trans : (a b c : Diagnostic) → key_leb a b ≡ true → key_leb b c ≡ true → key_leb a c ≡ true
key_leb_trans a b c h k =
    (key_leb_iff a c).1 (Before-trans a b c ((key_leb_iff a b).0 h) ((key_leb_iff b c).0 k))

-- What the envelope promises of its status.
module _ {ℓ} {T : Type ℓ} where
  -- Fatal, or without data.
  abbrev pub HasFailed : Option T → Bool → Type 0
  HasFailed none fatal = Unit
  HasFailed (some v) fatal = fatal ≡ true

  abbrev pub StatusIs : ExecutionStatus → Option T → List Diagnostic → Bool → Type 0
  StatusIs ExecutionStatus.error payload ds fatal = HasFailed payload fatal
  StatusIs ExecutionStatus.partial payload ds fatal =
      (HasFailed payload fatal → ⊥) × Any (λ (d : Diagnostic). is_info d.severity ≡ false) ds
  StatusIs ExecutionStatus.ok payload ds fatal =
      (HasFailed payload fatal → ⊥) × All (λ (d : Diagnostic). is_info d.severity ≡ true) ds

  -- The diagnostics are those given, ordered by code and component, and the status fits.
  pub record IsFaithful (payload : Option T) (given : List Diagnostic) (fatal : Bool)
      (e : CliEnvelope T) : Type ℓ where
    pub kept : e.payload ≡ payload
    pub same : Perm e.diagnostics given
    pub ordered : IsSorted key_leb e.diagnostics
    pub status : StatusIs e.status payload e.diagnostics fatal

  status_of-StatusIs :
      (payload : Option T) (fatal : Bool) (ds : List Diagnostic)
      → StatusIs (status_of payload ds fatal) payload ds fatal
  unfolding status_of
  status_of-StatusIs none true ds = tt
  status_of-StatusIs none false ds = tt
  status_of-StatusIs (some v) true ds = refl
  status_of-StatusIs (some v) false ds =
      elim (Bool-cases (any (λ (d : Diagnostic). not (is_info d.severity)) ds)) [
        | inl e ↦ rw e ((λ h. cc), alerts ds e)
        | inr e ↦ rw e ((λ h. cc), quiet ds e)
      ]
    where
      alerts :
          (ds : List Diagnostic)
          → any (λ (d : Diagnostic). not (is_info d.severity)) ds ≡ true
          → Any (λ (d : Diagnostic). is_info d.severity ≡ false) ds
      alerts [] e = absurd (cc)
      alerts (d ∷ ds) e = elim (Bool-cases (is_info d.severity)) [
        | inl f ↦ inr (alerts ds (ground arith))
        | inr f ↦ inl f
      ]

      quiet :
          (ds : List Diagnostic)
          → any (λ (d : Diagnostic). not (is_info d.severity)) ds ≡ false
          → All (λ (d : Diagnostic). is_info d.severity ≡ true) ds
      quiet [] e = tt
      quiet (d ∷ ds) e = (ground arith, quiet ds (ground arith))

-- The envelope holds the data, the given diagnostics in the order of code and component, and a
-- status: an error where the run is fatal or without data, else partial where some diagnostic is
-- more than information, else ok.
pub new_envelope-IsFaithful :
    (T : Type 0) (now : String) (meta : BuildMetadata) (command data_schema : String)
    (payload : Option T) (diagnostics : List Diagnostic) (fatal : Bool)
    → IsFaithful payload diagnostics fatal
        (new_envelope now meta command data_schema payload diagnostics fatal)
unfolding new_envelope
new_envelope-IsFaithful T now meta command data_schema payload diagnostics fatal = record {
  kept = refl;
  same = sort-perm key_leb diagnostics;
  ordered = sort-IsSorted key_leb key_leb_total key_leb_trans diagnostics;
  status = status_of-StatusIs payload fatal (sort key_leb diagnostics);
}
