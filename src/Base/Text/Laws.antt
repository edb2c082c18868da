-- ===== src/Base/Text/Laws.antt =====
-- Bytes against characters, for tests that only ASCII passes.
use Prim.Native.Nat.{ℕ, ◌<◌, ◌≤◌, ◌+◌, ◌/◌}
use Prim.Native.Char.{Char, code}
use Prim.Native.String.{String}
use mathlib.Core.Path.{◌≡◌, refl}
use mathlib.Core.Logic.{◌↔◌, inl, inr}
use mathlib.Core.Bool.{Bool, true, false, ◌&&◌}
use mathlib.Core.List.{List, ◌∷◌, ◌++◌}
use native.Mathlib.Omega.{arith}
use rigos.Base.Tests.{Bool-cases, and-eq-true}
use rigos.Base.Lists.{all}
use rigos.Base.Text.{utf8, bytes, all_chars, all_bytes, first_byte, is_some_and, AllChars}

-- A test that only ASCII bytes pass.
abbrev pub OnlyAscii : (ℕ → Bool) → Type 0
OnlyAscii p = (b : ℕ) → p b ≡ true → b < 128

module _ (p : ℕ → Bool) (only : OnlyAscii p) where
  high_fails : (b : ℕ) → 128 ≤ b → p b ≡ false
  high_fails b h = elim (Bool-cases (p b)) [ inl e ↦ absurd (omega (arith, only b e)) | inr e ↦ e ]

  all-utf8 : (n : ℕ) (rest : List ℕ) → all p (utf8 n ++ rest) ≡ (p n && all p rest)
  unfolding utf8
  all-utf8 n rest = ground (
    arith,
    high_fails n,
    high_fails (192 + n / 64),
    high_fails (224 + n / 4096),
    high_fails (240 + n / 262144),
  )

  -- Such a test at all bytes is the test at all characters.
  pub all_bytes-eq-all_chars : (s : String) → all_bytes p s ≡ all_chars p s
  unfolding bytes
  all_bytes-eq-all_chars String.[] = refl
  all_bytes-eq-all_chars (String.◌∷◌ c s) =
      rw (all-utf8 (code c) (bytes s)) (rw (all_bytes-eq-all_chars s) refl)

  -- The first byte of a character passes such a test exactly where the character does.
  pub first_byte-utf8 :
      (c : Char) (s : String) → is_some_and (first_byte (String.◌∷◌ c s)) p ≡ p (code c)
  unfolding bytes utf8
  first_byte-utf8 c s = ground (
    arith,
    high_fails (code c),
    high_fails (192 + code c / 64),
    high_fails (224 + code c / 4096),
    high_fails (240 + code c / 262144),
  )

module _ (p : ℕ → Bool) (P : ℕ → Type 0) (p_iff : (c : ℕ) → (p c ≡ true) ↔ P c) where
  pub all_chars→AllChars : (s : String) → all_chars p s ≡ true → AllChars P s
  all_chars→AllChars String.[] h = tt
  all_chars→AllChars (String.◌∷◌ c s) h =
      let (a, b) = and-eq-true (p (code c)) (all_chars p s) h in
      ((p_iff (code c)).0 a, all_chars→AllChars s b)

  pub AllChars→all_chars : (s : String) → AllChars P s → all_chars p s ≡ true
  AllChars→all_chars String.[] h = refl
  AllChars→all_chars (String.◌∷◌ c s) h =
      ground (arith, (p_iff (code c)).1 h.0, AllChars→all_chars s h.1)

-- A character of ASCII is one byte.
pub bytes-ascii : (c : Char) (s : String) → code c < 128 → bytes (String.◌∷◌ c s) ≡ code c ∷ bytes s
unfolding bytes utf8
bytes-ascii c s h = ground arith
