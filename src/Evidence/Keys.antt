-- ===== src/Evidence/Keys.antt =====
-- No value of a secret key is left, at whatever depth.
use rigos.Base.{String, ◌≡◌, refl, true, Bool-cases, inl, inr}
use rigos.Config.Hive.{
  Value, null, bool, number, string, array, object, Values, nil, cons, Members, no_members, member,
}
use rigos.Evidence.{
  PrivateIdentityContext, RedactionState, more_credentials, secret_key, secret_mark, redact_json,
  redact_values, redact_members,
}

-- Each secret key, at whatever depth, has the mark for its value.
mutual
  pub IsRedacted : Value → Type 0
  IsRedacted (object members) = AreRedactedMembers members
  IsRedacted (array items) = AreRedacted items
  IsRedacted _ = Unit

  pub AreRedacted : Values → Type 0
  AreRedacted nil = Unit
  AreRedacted (cons v vs) = IsRedacted v × AreRedacted vs

  pub AreRedactedMembers : Members → Type 0
  AreRedactedMembers no_members = Unit
  AreRedactedMembers (member key child rest) =
      ((secret_key key ≡ true) → child ≡ string secret_mark)
      × IsRedacted child
      × AreRedactedMembers rest

module _ (context : PrivateIdentityContext) (alias : String) where
  mutual
    unfolding IsRedacted redact_json

    value-IsRedacted :
        (v : Value) (state : RedactionState) → IsRedacted (redact_json context alias v state).0
    value-IsRedacted (object members) state = members-AreRedactedMembers members state
    value-IsRedacted (array items) state = values-AreRedacted items state
    value-IsRedacted (string text) state = tt
    value-IsRedacted null state = tt
    value-IsRedacted (bool b) state = tt
    value-IsRedacted (number n) state = tt

    values-AreRedacted :
        (vs : Values) (state : RedactionState)
        → AreRedacted (redact_values context alias vs state).0
    values-AreRedacted nil state = tt
    values-AreRedacted (cons v vs) state =
        (value-IsRedacted v state, values-AreRedacted vs (redact_json context alias v state).1)

    members-AreRedactedMembers :
        (ms : Members) (state : RedactionState)
        → AreRedactedMembers (redact_members context alias ms state).0
    members-AreRedactedMembers no_members state = tt
    members-AreRedactedMembers (member key child rest) state = elim (Bool-cases (secret_key key)) [
      | inl e ↦ rw e ((λ h. refl), tt, members-AreRedactedMembers rest (more_credentials state))
      | inr e ↦ rw e (
        (λ h. absurd (cc)),
        value-IsRedacted child state,
        members-AreRedactedMembers rest (redact_json context alias child state).1,
      )
    ]

  -- What redact_json returns has no value at a secret key but the mark.
  pub redact_json-IsRedacted :
      (v : Value) (state : RedactionState) → IsRedacted (redact_json context alias v state).0
  redact_json-IsRedacted v state = value-IsRedacted v state
