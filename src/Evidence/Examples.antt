-- ===== src/Evidence/Examples.antt =====
-- Runs of the redaction, some of them those of the tests of the crate.
use Prim.Native.String
use text.Mathlib.Text.{◌==◌ as text_eq}
use rigos.Base.{ok, String, ◌≡◌, refl, true, false, none, some, [], ◌∷◌, All}
use rigos.Base.Text.{bytes}
use rigos.Base.Text.Format.{replace}
use rigos.Base.Text.Ip.{is_ip}
use rigos.Base.Text.Ascii.{is_whitespace}
use rigos.Base.Text.Chars.{to_ascii_lowercase}
use rigos.Base.Text.Search.{rsplit_once, contains, lines, split, trim, trim_start, trim_end}
use rigos.Config.Hive.{Value, string, array, object, nil, cons, no_members, member}
use rigos.Evidence.{
  PrivateIdentityContext, redact_text, normalize, redact_chars, redact_token, is_credential,
  is_identity, untouched, redact_json, secret_key, secret_mark, forbidden,
}
use rigos.Evidence.Keys.{IsRedacted, redact_json-IsRedacted}
use rigos.Evidence.Tokens.{words_of, clean, cleaned_words, redact_text-words}
use rigos.Base.Sort.{sort, insert}
use rigos.Base.Text.Order.{text_leb}
use mathlib.Core.List.Perm
use rigos.Evidence.Recipients.{
  RecipientSet, names_none, is_private, is_foreign, read_recipients, load_recipients,
}
use rigos.Evidence.Recipients.Loaded.{Loaded, kept, load_recipients-Loaded, load_recipients-perm}
use rigos.Evidence.Sanitize.{
  approved, Raw, Progress, finished, sanitized, publish_file, sanitize_next, sweep,
  sanitize_approved,
}
use rigos.Evidence.Sanitize.Published.{files_of, IsPublishable, sanitize_approved-Published}
use rigos.Evidence.Sanitize.Complete.{IsComplete, sanitize_approved-IsComplete}

abbrev context : PrivateIdentityContext
context = record { hostname = "rig-77"; username = "miner"; home = "/home/miner" }

v4 : is_ip "192.168.1.20" ≡ true
unfolding is_ip bytes
v4 = refl

v4_leading : is_ip "192.168.01.20" ≡ false
unfolding is_ip bytes
v4_leading = refl

v6 : is_ip "fe80::1:2" ≡ true
unfolding is_ip bytes
v6 = refl

v6_mapped : is_ip "::ffff:1.2.3.4" ≡ true
unfolding is_ip bytes
v6_mapped = refl

v6_long : is_ip "1:2:3:4:5:6:7:8:9" ≡ false
unfolding is_ip bytes
v6_long = refl

redacts :
    (redact_text context "node-a" "user:x@pool:3333 on rig-77 at 10.0.0.7" untouched).0
    ≡ "<MINING_IDENTITY>@pool:3333 on node-a at <IP>"
unfolding redact_text normalize redact_chars redact_token is_credential is_identity is_ip
    rsplit_once bytes replace is_whitespace
redacts = refl

-- A document with a secret key inside an array.
abbrev document : Value
document = object (
    member "pools" (array (cons (object (member "User" (string "wallet") no_members)) nil))
      no_members)

redact_json-IsRedacted_example : IsRedacted (redact_json context "node-a" document untouched).0
redact_json-IsRedacted_example = redact_json-IsRedacted context "node-a" document untouched

redacts_json :
    (redact_json context "node-a" document untouched).0
    ≡ object (
        member "pools"
          (array (cons (object (member "User" (string secret_mark) no_members)) nil))
          no_members)
unfolding redact_json secret_key to_ascii_lowercase
redacts_json = refl

redact_text-words_example :
    (redact_text context "node-a" "on rig-77" untouched).0
    ≡ cleaned_words clean (words_of (normalize context "node-a" "on rig-77"))
redact_text-words_example = redact_text-words context "node-a" "on rig-77" untouched

-- Only the word `Bearer` is replaced.
leaves_token : (redact_text context "node-a" "Bearer abc" untouched).0 ≡ "<REDACTED_SECRET> abc"
unfolding redact_text normalize redact_chars redact_token is_credential is_identity is_ip
    rsplit_once bytes replace is_whitespace
leaves_token = refl

-- A raw directory with one inventory file.
abbrev raw : Raw
raw = record {
  is_file = λ name. text_eq name "inventory/uname.txt";
  read = λ name. some "Linux rig-77";
  decode = λ text. none;
  print = λ value. none;
  decode_context = λ text. some context;
  make_public = true;
  make_parent = λ name. true;
  write = λ name. true;
}

sanitize_approved-Published_example :
    All (IsPublishable raw "node-a") (files_of (sanitize_approved raw "node-a"))
sanitize_approved-Published_example = sanitize_approved-Published raw "node-a"

abbrev after : Progress
after = record {
  state = record { credential = 0; mining_identity = 0; ip_address = 0; machine_identity = 1 };
  inputs = 1;
  outputs = 1;
  files = record { name = "inventory/uname.txt"; text = "Linux node-a\n" } ∷ [];
}

sanitizes : sanitize_approved raw "node-a" ≡ finished after
unfolding sanitize_approved sweep sanitize_next publish_file sanitized redact_text normalize
    redact_chars redact_token is_credential is_identity is_ip rsplit_once bytes replace
    is_whitespace forbidden contains to_ascii_lowercase
sanitizes = refl

sanitize_approved-IsComplete_example : IsComplete raw approved after
sanitize_approved-IsComplete_example = sanitize_approved-IsComplete raw "node-a" after sanitizes

-- Recipients, given in one order and in the other, with a comment.
abbrev first_key : String
first_key = "age1aaaaaaaaaaaaaaaaaaaaaaaaaaaaaaaaaaaaaaaaaaaaaaaaaaaaaaaaaaa"

abbrev other_key : String
other_key = "age1bbbbbbbbbbbbbbbbbbbbbbbbbbbbbbbbbbbbbbbbbbbbbbbbbbbbbbbbbbb"

abbrev descending : String
descending = String.◌++◌ other_key (String.◌++◌ "\n# ours\n" first_key)

abbrev ascending : String
ascending = String.◌++◌ first_key (String.◌++◌ "\n" other_key)

abbrev both_keys : RecipientSet
both_keys = record {
  recipients = first_key ∷ other_key ∷ [];
  recipient_set_sha256 = String.◌++◌ ascending "\n";
}

loads : load_recipients (λ text. text) (some descending) ≡ ok both_keys
unfolding load_recipients read_recipients lines split trim trim_start trim_end names_none is_private
    is_foreign bytes sort insert text_leb is_whitespace
loads = refl

loads_ascending : load_recipients (λ text. text) (some ascending) ≡ ok both_keys
unfolding load_recipients read_recipients lines split trim trim_start trim_end names_none is_private
    is_foreign bytes sort insert text_leb is_whitespace
loads_ascending = refl

load_recipients-Loaded_example : Loaded (λ text. text) descending both_keys
load_recipients-Loaded_example = load_recipients-Loaded (λ text. text) descending both_keys loads

load_recipients-perm_example : both_keys ≡ both_keys
unfolding kept lines split trim trim_start trim_end names_none is_whitespace
load_recipients-perm_example =
    load_recipients-perm (λ text. text) descending ascending both_keys both_keys loads
      loads_ascending (Perm.swap first_key other_key [])
