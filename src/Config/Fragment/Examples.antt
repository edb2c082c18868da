-- ===== src/Config/Fragment/Examples.antt =====
-- Fragments, and the theorems at them.
use text.Mathlib.Text.{◌==◌ as text_eq}
use rigos.Base.{
  ℕ, String, ◌≡◌, ◌↔◌, refl, false, ◌||◌, Option, none, some, List, [], ◌∷◌, ok, err, if◌then◌else◌,
}
use rigos.Base.Text.{bytes, is_empty}
use rigos.Base.Text.Search.{trim}
use rigos.Base.Utf8.{from_utf8}
use rigos.Config.Names.{contains_char}
use rigos.Config.Fragment.{
  insert_top_level_member_commas, scan, moved, pushed, parse_json_member_fragment, fragment_error,
}
use rigos.Config.Fragment.Commas.{Commas, insert_top_level_member_commas-Commas}
use rigos.Config.Fragment.Unique.{Reading, parse_json_member_fragment-Reading}

mended :
    insert_top_level_member_commas "\"a\": 1\n\"b\": {\"c\": 2}"
    ≡ some "\"a\": 1\n,\"b\": {\"c\": 2}"
unfolding insert_top_level_member_commas bytes scan moved pushed from_utf8
mended = refl

unbalanced : insert_top_level_member_commas "\"a\": [1" ≡ none
unfolding insert_top_level_member_commas bytes scan moved pushed
unbalanced = refl

insert_top_level_member_commas-Commas_example :
    (out : List ℕ) × (from_utf8 out ≡ some "\"a\": 1\n,\"b\": {\"c\": 2}")
    × Commas (bytes "\"a\": 1\n\"b\": {\"c\": 2}") out
insert_top_level_member_commas-Commas_example =
    insert_top_level_member_commas-Commas "\"a\": 1\n\"b\": {\"c\": 2}"
      "\"a\": 1\n,\"b\": {\"c\": 2}" mended

-- A decoder of one text.
abbrev object : String → Option (List (String × ℕ))
object text = if text_eq text "{\"a\": 1\n,\"b\": 2}" then some (("a", 1) ∷ ("b", 2) ∷ []) else none

abbrev members : List (String × ℕ)
members = ("b", 2) ∷ ("a", 1) ∷ []

parsed : parse_json_member_fragment object " \"a\": 1\n\"b\": 2 " "s.json" "config" ≡ ok members
unfolding parse_json_member_fragment bytes from_utf8
parsed = refl

parse_json_member_fragment-Reading_example :
    (parse_json_member_fragment object " \"a\": 1\n\"b\": 2 " "s.json" "config" ≡ ok members) ↔ (
      ((is_empty (trim " \"a\": 1\n\"b\": 2 ") || contains_char 0 (trim " \"a\": 1\n\"b\": 2 "))
        ≡ false)
      × Reading object (trim " \"a\": 1\n\"b\": 2 ") members)
parse_json_member_fragment-Reading_example =
    parse_json_member_fragment-Reading object " \"a\": 1\n\"b\": 2 " "s.json" "config" members

-- A repeated member is refused.
abbrev repeated : String → Option (List (String × ℕ))
repeated text = some (("a", 1) ∷ ("a", 2) ∷ [])

refuses_repeated :
    parse_json_member_fragment repeated "{}" "s.json" "config"
    ≡ err (fragment_error "s.json" "config")
unfolding parse_json_member_fragment
refuses_repeated = refl
