-- ===== src/Evidence.antt =====
-- crates/rigos-evidence/src/lib.rs: what is taken out of evidence before it is published.
pub mod Keys
pub mod Tokens
pub mod Sanitize
pub mod Recipients
mod Examples
use Prim.Native.Char.{Char, code}
use Prim.Native.String
use text.Mathlib.Text.{◌==◌ as text_eq, starts_with}
use rigos.Base.{
  ℕ, ◌+◌, String, Bool, true, false, not, ◌&&◌, ◌||◌, Option, none, some, List, [], ◌∷◌, any,
  if◌then◌else◌,
}
use rigos.Base.Text.{is_empty}
use rigos.Base.Text.Ascii.{is_whitespace}
use rigos.Base.Text.Chars.{to_ascii_lowercase}
use rigos.Base.Text.Format.{replace}
use rigos.Base.Text.Ip.{is_ip}
use rigos.Base.Text.Search.{contains, rsplit_once}
use rigos.Config.Hive.{
  Value, null, bool, number, string, array, object, Values, nil, cons, Members, no_members, member,
}

pub data EvidenceError : Type 0 where
  io json : EvidenceError
  invalid_recipient forbidden_content unsupported_file : String → EvidenceError

-- `counts`, by its four categories; a category that has no entry counts 0.
pub record RedactionState : Type 0 where
  pub credential : ℕ
  pub mining_identity : ℕ
  pub ip_address : ℕ
  pub machine_identity : ℕ

abbrev pub untouched : RedactionState
untouched = record { credential = 0; mining_identity = 0; ip_address = 0; machine_identity = 0 }

abbrev pub more_credentials : RedactionState → RedactionState
more_credentials s = record s { credential = s.credential + 1 }

abbrev pub more_identities : RedactionState → RedactionState
more_identities s = record s { mining_identity = s.mining_identity + 1 }

abbrev pub more_addresses : RedactionState → RedactionState
more_addresses s = record s { ip_address = s.ip_address + 1 }

abbrev pub more_machines : RedactionState → RedactionState
more_machines s = record s { machine_identity = s.machine_identity + 1 }

pub record PrivateIdentityContext : Type 0 where
  pub hostname : String
  pub username : String
  pub home : String

abbrev pub secret_keys : List String
secret_keys =
    "access-token" ∷ "access_token" ∷ "authorization" ∷ "token" ∷ "password" ∷ "private_key"
    ∷ "wallet" ∷ "user" ∷ "username" ∷ []

unfoldable pub secret_key : String → Bool
unfolding to_ascii_lowercase
secret_key key = any (λ k. text_eq (to_ascii_lowercase key) k) secret_keys

abbrev pub secret_mark : String
secret_mark = "<REDACTED_SECRET>"

abbrev pub host_of : String → Option (String × String) → String
host_of token none = token
host_of token (some (user, host)) = String.◌++◌ "<MINING_IDENTITY>@" host

unfoldable pub is_credential : String → Bool
unfolding contains to_ascii_lowercase
is_credential token =
    contains "AGE-SECRET-KEY-" token || starts_with (to_ascii_lowercase token) "bearer"

unfoldable pub is_identity : String → Bool
unfolding contains
is_identity token = contains "@" token && (contains "://" token || contains ":" token)

-- The closure `flush` on a token that is not empty.
unfoldable pub redact_token : String → RedactionState → String × RedactionState
redact_token token state =
    if is_credential token
    then (secret_mark, more_credentials state)
    else if is_identity token
    then (host_of token (rsplit_once b'@' token), more_identities state)
    else if is_ip token
    then ("<IP>", more_addresses state)
    else (token, state)

abbrev pub flush : String → RedactionState → String × RedactionState
flush String.[] state = ("", state)
flush (String.◌∷◌ c token) state = redact_token (String.◌∷◌ c token) state

abbrev pub then_put : String → String × RedactionState → String × RedactionState
then_put text (rest, state) = (String.◌++◌ text rest, state)

-- The loop over the characters: the token that is read, and what is left of the text.
unfoldable pub redact_chars : String → String → RedactionState → String × RedactionState
redact_chars token String.[] state = flush token state
redact_chars token (String.◌∷◌ c s) state =
    let (text, next) = flush token state in
    let spaced = then_put text (then_put (String.◌∷◌ c "") (redact_chars "" s next)) in
    let kept = redact_chars (String.◌++◌ token (String.◌∷◌ c "")) s state in
    if is_whitespace (code c) then spaced else kept

unfoldable pub normalize : PrivateIdentityContext → String → String → String
unfolding replace
normalize context alias input =
    replace context.username "<USER>"
      (replace context.hostname alias (replace context.home "<HOME>" input))

unfoldable pub redact_text :
    PrivateIdentityContext → String → String → RedactionState → String × RedactionState
redact_text context alias input state =
    let normalized = normalize context alias input in
    redact_chars "" normalized (if text_eq normalized input then state else more_machines state)

-- Values and their parts, the state passed on from each to the next.
unfoldable mutual
  pub redact_json :
      PrivateIdentityContext → String → Value → RedactionState → Value × RedactionState
  redact_json context alias (object members) state =
      let (done, next) = redact_members context alias members state in (object done, next)
  redact_json context alias (array items) state =
      let (done, next) = redact_values context alias items state in (array done, next)
  redact_json context alias (string text) state =
      let (done, next) = redact_text context alias text state in (string done, next)
  redact_json context alias value state = (value, state)

  pub redact_values :
      PrivateIdentityContext → String → Values → RedactionState → Values × RedactionState
  redact_values context alias nil state = (nil, state)
  redact_values context alias (cons v vs) state =
      let (first, mid) = redact_json context alias v state in
      let (rest, next) = redact_values context alias vs mid in (cons first rest, next)

  pub redact_members :
      PrivateIdentityContext → String → Members → RedactionState → Members × RedactionState
  redact_members context alias no_members state = (no_members, state)
  redact_members context alias (member key child rest) state =
      let (first, mid) =
        (if secret_key key
          then (string secret_mark, more_credentials state)
          else redact_json context alias child state) in
      let (done, next) = redact_members context alias rest mid in (member key first done, next)

unfoldable pub forbidden : String → Bool
unfolding contains to_ascii_lowercase
forbidden text =
    any (λ needle. contains needle (to_ascii_lowercase text))
      ("sentinel_secret" ∷ "authorization:" ∷ "bearer " ∷ "age-secret-key-"
        ∷ "-----begin private key-----" ∷ [])
