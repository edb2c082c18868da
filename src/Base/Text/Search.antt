-- ===== src/Base/Text/Search.antt =====
-- Prefixes, suffixes, substrings, splitting and trimming of texts.
use Prim.Native.Nat.{ℕ}
use Prim.Native.Char.{Char, code}
use Prim.Native.String.{String}
use mathlib.Core.Path.{◌≡◌, refl}
use mathlib.Core.Bool.{Bool, true, false, ◌||◌}
use mathlib.Core.Option.{Option, none, some}
use mathlib.Core.List.{List, [], ◌∷◌}
use text.Mathlib.Text.{◌==◌ as text_eq, starts_with}
use rigos.Base.Tests.{◌==◌, if◌then◌else◌}
use rigos.Base.Text.Ascii.{is_whitespace}

-- `s.contains(pat)` and `s.ends_with(pat)` for a text `pat`.
unfoldable pub contains : String → String → Bool
contains pat String.[] = text_eq pat ""
contains pat (String.◌∷◌ c s) = starts_with (String.◌∷◌ c s) pat || contains pat s

unfoldable pub ends_with : String → String → Bool
ends_with pat String.[] = text_eq pat ""
ends_with pat (String.◌∷◌ c s) = text_eq (String.◌∷◌ c s) pat || ends_with pat s

abbrev consed : Char → List String → List String
consed c [] = String.◌∷◌ c "" ∷ []
consed c (p ∷ ps) = String.◌∷◌ c p ∷ ps

-- `s.split(sep)` for a character.
unfoldable pub split : ℕ → String → List String
split sep String.[] = "" ∷ []
split sep (String.◌∷◌ c s) = if code c == sep then "" ∷ split sep s else consed c (split sep s)

abbrev pub keep_left : Char → Option (String × String) → Option (String × String)
keep_left c none = none
keep_left c (some (a, b)) = some (String.◌∷◌ c a, b)

-- `s.split_once(sep)`: at the first occurrence.
unfoldable pub split_once : ℕ → String → Option (String × String)
split_once sep String.[] = none
split_once sep (String.◌∷◌ c s) =
    if code c == sep then some ("", s) else keep_left c (split_once sep s)

abbrev pub or_here : Bool → Char → String → Option (String × String) → Option (String × String)
or_here true c s none = some ("", s)
or_here false c s none = none
or_here hit c s (some (a, b)) = some (String.◌∷◌ c a, b)

-- `s.rsplit_once(sep)`: at the last occurrence.
unfoldable pub rsplit_once : ℕ → String → Option (String × String)
rsplit_once sep String.[] = none
rsplit_once sep (String.◌∷◌ c s) = or_here (code c == sep) c s (rsplit_once sep s)

unfoldable pub trim_start : String → String
unfolding is_whitespace
trim_start String.[] = ""
trim_start (String.◌∷◌ c s) =
    let rest = trim_start s in if is_whitespace (code c) then rest else String.◌∷◌ c s

abbrev end_at : Bool → Char → String → String
end_at true c String.[] = ""
end_at _ c s = String.◌∷◌ c s

unfoldable pub trim_end : String → String
unfolding is_whitespace
trim_end String.[] = ""
trim_end (String.◌∷◌ c s) = end_at (is_whitespace (code c)) c (trim_end s)

unfoldable pub trim : String → String
unfolding trim_start trim_end
trim s = trim_end (trim_start s)

-- A final carriage return of a line is no part of it.
strip_cr : String → String
strip_cr String.[] = ""
strip_cr (String.◌∷◌ c String.[]) = if code c == 13 then "" else String.◌∷◌ c ""
strip_cr (String.◌∷◌ c s) = String.◌∷◌ c (strip_cr s)

-- Each piece but the last ended in a line feed; the last, unended piece keeps its carriage
-- return, and is no line when it is empty.
ended_lines : List String → List String
unfolding strip_cr
ended_lines [] = []
ended_lines (p ∷ []) = if text_eq p "" then [] else p ∷ []
ended_lines (p ∷ q ∷ ps) = strip_cr p ∷ ended_lines (q ∷ ps)

-- `s.lines()`.
unfoldable pub lines : String → List String
unfolding ended_lines split
lines s = ended_lines (split 10 s)

split_once_first : split_once b'=' "A=b=c" ≡ some ("A", "b=c")
unfolding split_once
split_once_first = refl

rsplit_once_last : rsplit_once b':' "::1:80" ≡ some ("::1", "80")
unfolding rsplit_once
rsplit_once_last = refl

trims : trim " \t a b\n" ≡ "a b"
unfolding trim
trims = refl

lines_ended : lines "a\r\n\nb" ≡ "a" ∷ "" ∷ "b" ∷ []
unfolding lines
lines_ended = refl

contains_dots : contains ".." "a..b" ≡ true
unfolding contains
contains_dots = refl

ends_with_json : ends_with ".json" "rig.json" ≡ true
unfolding ends_with
ends_with_json = refl
