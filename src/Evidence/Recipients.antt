-- ===== src/Evidence/Recipients.antt =====
-- crates/rigos-evidence/src/lib.rs: load_recipients.
pub mod Loaded
use Prim.Native.String
use Prim.Native.String.{len}
use text.Mathlib.Text.{◌==◌ as text_eq, starts_with}
use rigos.Base.{
  ℕ, String, Bool, true, false, not, ◌||◌, Option, none, some, List, [], ◌∷◌, Result, ok, err,
  panic, ◌>>=◌, ◌>>◌, fail_if, ok_or, ltb, any, is_empty as none_of, if◌then◌else◌,
}
use rigos.Base.Sort.{sort}
use rigos.Base.Text.{all_bytes, is_empty}
use rigos.Base.Text.Ascii.{is_ascii_lowercase, is_ascii_digit}
use rigos.Base.Text.Order.{text_leb}
use rigos.Base.Text.Search.{trim, lines}
use rigos.Evidence.{EvidenceError, io, invalid_recipient}

pub record RecipientSet : Type 0 where
  pub recipients : List String
  pub recipient_set_sha256 : String

-- An empty line or a comment.
unfoldable pub names_none : String → Bool
names_none value = is_empty value || starts_with value "#"

unfoldable pub is_private : String → Bool
is_private value =
    starts_with value "AGE-SECRET-KEY-"
    || starts_with value "age1ssh"
    || starts_with value "age1plugin"

abbrev pub recipient_byte : ℕ → Bool
recipient_byte b = is_ascii_lowercase b || is_ascii_digit b

unfoldable pub is_foreign : String → Bool
is_foreign value =
    not (starts_with value "age1") || ltb (len value) 50 || not (all_bytes recipient_byte value)

-- The loop over the lines; the set stands as a list, sorted at the end.
unfoldable pub read_recipients : List String → List String → Result EvidenceError (List String)
unfolding trim names_none is_private is_foreign
read_recipients met [] = ok met
read_recipients met (line ∷ rest) =
    let value = trim line in
    let skipped = read_recipients met rest in
    let added = (do
      fail_if (is_private value) (invalid_recipient "unsupported or private recipient form")
      fail_if (is_foreign value) (invalid_recipient "expected native age X25519 recipient")
      fail_if (any (text_eq value) met) (invalid_recipient "duplicate recipient")
      read_recipients (value ∷ met) rest) in
    if names_none value then skipped else added

abbrev pub join : List String → String
join [] = ""
join (r ∷ []) = r
join (r ∷ q ∷ rest) = String.◌++◌ r (String.◌++◌ "\n" (join (q ∷ rest)))

-- `sha256_hex` is the digest of a text, in hexadecimal.
unfoldable pub load_recipients :
    (String → String) → Option String → Result EvidenceError RecipientSet
unfolding read_recipients lines sort text_leb
load_recipients sha256_hex source = do
  text ← ok_or source io
  met ← read_recipients [] (lines text)
  fail_if (none_of met) (invalid_recipient "recipient set is empty")
  let recipients = sort text_leb met
  ok (record {
    recipients = recipients;
    recipient_set_sha256 = sha256_hex (String.◌++◌ (join recipients) "\n");
  })
