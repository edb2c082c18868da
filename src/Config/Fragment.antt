-- ===== src/Config/Fragment.antt =====
-- crates/rigos-config/src/lib.rs: the repair of an embedded JSON fragment, whose members may stand
-- without commas between them.
pub mod Commas
pub mod Unique
mod Examples
use text.Mathlib.Text.{◌==◌ as text_eq}
use Prim.Native.String
use rigos.Base.{
  ℕ, ◌+◌, ◌-◌, String, Bool, true, false, not, ◌&&◌, ◌||◌, Option, none, some, List, [], ◌∷◌, find,
  ltb, ◌==◌, within, if◌then◌else◌, Result, ok, err, ◌>>=◌, ◌>>◌, fail_if, ok_or,
}
use rigos.Base.Utf8.{from_utf8}
use rigos.Base.Text.{bytes, is_empty}
use rigos.Base.Text.Ascii.{is_ascii_whitespace}
use rigos.Base.Text.Search.{trim}
use rigos.Config.Error.{ConfigError, error}
use rigos.Config.Names.{starts_with_char, contains_char}

-- Where the scan is: how many braces and brackets are open, and whether it is inside a string, and
-- there after a backslash.
pub record Scan : Type 0 where
  pub depth : ℕ
  pub in_string : Bool
  pub escaped : Bool

abbrev pub in_text : Bool → Bool → ℕ → Scan → Scan
in_text true _ byte at = record at { escaped = false }
in_text false backslash byte at =
    if backslash
    then record at { escaped = true }
    else if byte == b'"'
    then record at { in_string = false }
    else at

abbrev pub opens : ℕ → Bool
opens byte = byte == b'{' || byte == b'['

abbrev pub closes : ℕ → Bool
closes byte = byte == b'}' || byte == b']'

-- `depth.checked_sub(1)` and `depth.checked_add(1)` on u32.
abbrev pub deeper : Scan → Option Scan
deeper at = if ltb 4294967294 at.depth then none else some (record at { depth = at.depth + 1 })

abbrev pub shallower : Scan → Option Scan
shallower at = if at.depth == 0 then none else some (record at { depth = at.depth - 1 })

-- The state after a byte; none where the depth has no successor or predecessor.
unfoldable pub moved : ℕ → Scan → Option Scan
moved byte at =
    if at.in_string
    then some (in_text at.escaped (byte == b'\\') byte at)
    else if byte == b'"'
    then some (record at { in_string = true })
    else if opens byte
    then deeper at
    else if closes byte
    then shallower at
    else some at

abbrev pub not_space : ℕ → Bool
not_space byte = not (is_ascii_whitespace byte)

-- A byte that may end a member's value.
abbrev pub ends_value : ℕ → Bool
ends_value byte =
    byte == b'}'
    || byte == b']'
    || byte == b'"'
    || within b'0' b'9' byte
    || byte == b'e'
    || byte == b'l'

-- The white space of a gap at the top level, of which `byte` is the last one before a quote.
abbrev pub is_gap : ℕ → List ℕ → Scan → Bool
is_gap byte [] at = false
is_gap byte (next ∷ rest) at =
    not at.in_string && is_ascii_whitespace byte && at.depth == 0 && next == b'"'

-- The output so far, the last byte first, after the gap: with a comma where a member ended.
abbrev pub after_gap : Option ℕ → List ℕ → Option (List ℕ)
after_gap none output = none
after_gap (some previous) output = some (if ends_value previous then b',' ∷ output else output)

unfoldable pub pushed : ℕ → List ℕ → Scan → List ℕ → Option (List ℕ)
unfolding is_ascii_whitespace
pushed byte rest at output =
    if is_gap byte rest at
    then after_gap (find not_space (byte ∷ output)) (byte ∷ output)
    else some (byte ∷ output)

abbrev pub rev_onto : List ℕ → List ℕ → List ℕ
rev_onto [] tail = tail
rev_onto (b ∷ output) tail = rev_onto output (b ∷ tail)

-- The loop, one byte at a time: the inner loop over white space is the same steps, since no byte of
-- a gap but its last stands before a quote.
unfoldable pub scan : List ℕ → Scan → List ℕ → Option (List ℕ)
unfolding moved pushed
scan [] at output = if at.in_string || not (at.depth == 0) then none else some (rev_onto output [])
scan (byte ∷ rest) at output = elim (moved byte at) [
  | none ↦ none
  | some next ↦ elim (pushed byte rest at output) [
    | none ↦ none
    | some longer ↦ scan rest next longer
  ]
]

abbrev pub from_bytes : Option (List ℕ) → Option String
from_bytes none = none
from_bytes (some output) = from_utf8 output

unfoldable pub insert_top_level_member_commas : String → Option String
unfolding scan bytes
insert_top_level_member_commas input =
    from_bytes (scan (bytes input) (record { depth = 0; in_string = false; escaped = false }) [])

unfoldable pub fragment_error : String → String → ConfigError
fragment_error filename key =
    error "RIGOS_FLIGHT_SHEET_INVALID" (some filename) none (some key)
      "embedded config is not a strict JSON object or member fragment"

module _ {V : Type 0} where
  abbrev pub has_key : String → List (String × V) → Bool
  has_key key [] = false
  has_key key (m ∷ ms) = text_eq m.0 key || has_key key ms

  -- `visit_map`, with the map as a list of its entries: the members in order, refused at the second
  -- one with a key.
  unfoldable pub visit_map : List (String × V) → List (String × V) → Option (List (String × V))
  visit_map output [] = some output
  visit_map output (m ∷ ms) = if has_key m.0 output then none else visit_map (m ∷ output) ms

  abbrev pub visited : Option (List (String × V)) → Option (List (String × V))
  visited none = none
  visited (some members) = visit_map [] members

  -- `object` stands for serde_json: the members of a text that is a JSON object, in order.
  module _ (object : String → Option (List (String × V))) where
    unfoldable pub parse_unique_object : String → Option (List (String × V))
    unfolding visit_map
    parse_unique_object input = visited (object input)

    abbrev pub braced : String → String
    braced text = String.◌++◌ "{" (String.◌++◌ text "}")

    abbrev pub repaired : Option (List (String × V)) → Option String → Option (List (String × V))
    repaired (some value) normalized = some value
    repaired none none = none
    repaired none (some normalized) = parse_unique_object (braced normalized)

    abbrev pub parse_trimmed : String → Option (List (String × V))
    parse_trimmed trimmed =
        if starts_with_char b'{' trimmed
        then parse_unique_object trimmed
        else repaired (parse_unique_object (braced trimmed))
            (insert_top_level_member_commas trimmed)

    unfoldable pub parse_json_member_fragment :
        String → String → String → Result ConfigError (List (String × V))
    unfolding parse_unique_object insert_top_level_member_commas fragment_error trim
    parse_json_member_fragment input filename key = do
      fail_if (is_empty (trim input) || contains_char 0 (trim input)) (fragment_error filename key)
      ok_or (parse_trimmed (trim input)) (fragment_error filename key)
