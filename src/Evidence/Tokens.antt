-- ===== src/Evidence/Tokens.antt =====
-- redact_text works word by word: white space is left, and each word is cleaned apart.
use Prim.Native.Char.{Char, code}
use Prim.Native.String
use Prim.Native.String.append
use text.Mathlib.TextLemmas.{append-nil, append_assoc, nil-append}
use rigos.Base.{
  String, ◌≡◌, refl, sym, ◌∙◌, ap, Bool, true, false, List, [], ◌∷◌, Bool-cases, inl, inr,
}
use rigos.Base.Text.Ascii.{is_whitespace}
use rigos.Evidence.{
  PrivateIdentityContext, normalize, redact_text, RedactionState, untouched, redact_token, flush,
  redact_chars, is_credential, is_identity,
}
use rigos.Base.Text.Ip.{is_ip}

-- A text as its first word, and each white space after it with the word that follows.
pub record Words : Type 0 where
  pub first : String
  pub rest : List (Char × String)

abbrev no_words : Words
no_words = record { first = ""; rest = [] }

abbrev with_char : Bool → Char → Words → Words
with_char true c w = record { first = ""; rest = (c, w.first) ∷ w.rest }
with_char false c w = record w { first = String.◌∷◌ c w.first }

unfoldable pub words_of : String → Words
words_of String.[] = no_words
words_of (String.◌∷◌ c s) = with_char (is_whitespace (code c)) c (words_of s)

abbrev pub gaps : (String → String) → List (Char × String) → String
gaps clean [] = ""
gaps clean ((c, w) ∷ rest) = String.◌++◌ (String.◌∷◌ c "") (String.◌++◌ (clean w) (gaps clean rest))

-- The text with each word cleaned.
abbrev pub cleaned_words : (String → String) → Words → String
cleaned_words clean w = String.◌++◌ (clean w.first) (gaps clean w.rest)

-- What becomes of a word.
unfoldable pub clean : String → String
clean w = (flush w untouched).0

token_state : (t : String) (a b : RedactionState) → (redact_token t a).0 ≡ (redact_token t b).0
unfolding redact_token
token_state t a b = elim (Bool-cases (is_credential t)) [
  | inl e ↦ rw e refl
  | inr e ↦ elim (Bool-cases (is_identity t)) [
    | inl f ↦ rw (e, f) refl
    | inr f ↦ elim (Bool-cases (is_ip t)) [ inl g ↦ rw (e, f, g) refl | inr g ↦ rw (e, f, g) refl ]
  ]
]

flush-clean : (w : String) (state : RedactionState) → (flush w state).0 ≡ clean w
unfolding clean
flush-clean String.[] state = refl
flush-clean (String.◌∷◌ c s) state = token_state (String.◌∷◌ c s) state untouched

redact_chars-words :
    (token s : String) (state : RedactionState)
    → (redact_chars token s state).0
      ≡ String.◌++◌ (clean (String.◌++◌ token (words_of s).first)) (gaps clean (words_of s).rest)
unfolding redact_chars words_of
redact_chars-words token String.[] state =
    flush-clean token state
    ∙ ap clean (sym (append-nil token))
    ∙ sym (append-nil (clean (String.◌++◌ token "")))
redact_chars-words token (String.◌∷◌ c s) state = elim (Bool-cases (is_whitespace (code c))) [
  | inl e ↦ rw e (
      ap
        (λ t.
          String.◌++◌ t (String.◌++◌ (String.◌∷◌ c "") (redact_chars "" s (flush token state).1).0))
        (flush-clean token state ∙ ap clean (sym (append-nil token)))
      ∙ ap (λ t. String.◌++◌ (clean (String.◌++◌ token "")) (String.◌++◌ (String.◌∷◌ c "") t))
          (redact_chars-words "" s (flush token state).1
            ∙ ap (λ w. String.◌++◌ (clean w) (gaps clean (words_of s).rest))
                (nil-append (words_of s).first)))
  | inr e ↦ rw e (
      redact_chars-words (String.◌++◌ token (String.◌∷◌ c "")) s state
      ∙ ap (λ w. String.◌++◌ (clean w) (gaps clean (words_of s).rest))
          (append_assoc token (String.◌∷◌ c "") (words_of s).first
            ∙ ap (String.◌++◌ token) (one_char (words_of s).first)))
]
  where
    one_char : (w : String) → String.◌++◌ (String.◌∷◌ c "") w ≡ String.◌∷◌ c w
    one_char w = (λ i. append.cons c "" w i) ∙ ap (String.◌∷◌ c) (nil-append w)

-- The loop over the characters of a text leaves each white space in place and cleans the words
-- between, each by itself.
pub redact_text-words :
    (context : PrivateIdentityContext) (alias input : String) (state : RedactionState)
    → (redact_text context alias input state).0
      ≡ cleaned_words clean (words_of (normalize context alias input))
unfolding redact_text
redact_text-words context alias input state =
    redact_chars-words "" (normalize context alias input) _
    ∙ ap (λ w. String.◌++◌ (clean w) (gaps clean (words_of (normalize context alias input)).rest))
        (nil-append (words_of (normalize context alias input)).first)
