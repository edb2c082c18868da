-- ===== src/Config/Proposal/Urls.antt =====
-- The URL of a pool in the configuration of the miner reads back as its host and its port.
use Prim.Native.Char.{code}
use Prim.Native.String
use Prim.Native.String.append
use rigos.Base.{
  ℕ, zero, suc, ◌+◌, ◌*◌, ◌/◌, ◌%◌, ◌^◌, ◌≤◌, ◌<◌, String, ◌≡◌, refl, ◌∙◌, ap, false, none, some,
  List, [], ◌∷◌, ◌==◌, ltb, Bool-cases, inl, inr, ok, arith,
}
use rigos.Base.Text.{bytes}
use rigos.Base.Text.Laws.{bytes-ascii}
use rigos.Base.Text.Format.{digit, digits_before, decimal}
use rigos.Base.Text.Search.{rsplit_once, or_here}
use rigos.Config.Hive.Pools.{digits_from, parse_u16, scheme_of, endpoint}
use rigos.Config.Proposal.{pool_url}
use rigos.Config.Sheet.{Pool}

code_digit : (d : ℕ) → d < 10 → code (digit d) ≡ 48 + d
unfolding digit
code_digit zero h = refl
code_digit (suc zero) h = refl
code_digit (suc (suc zero)) h = refl
code_digit (suc (suc (suc zero))) h = refl
code_digit (suc (suc (suc (suc zero)))) h = refl
code_digit (suc (suc (suc (suc (suc zero))))) h = refl
code_digit (suc (suc (suc (suc (suc (suc zero)))))) h = refl
code_digit (suc (suc (suc (suc (suc (suc (suc zero))))))) h = refl
code_digit (suc (suc (suc (suc (suc (suc (suc (suc zero)))))))) h = refl
code_digit (suc (suc (suc (suc (suc (suc (suc (suc (suc zero))))))))) h = refl
code_digit (suc (suc (suc (suc (suc (suc (suc (suc (suc (suc n)))))))))) h = absurd (omega arith)

bytes-digit : (d : ℕ) (s : String) → d < 10 → bytes (String.◌∷◌ (digit d) s) ≡ (48 + d) ∷ bytes s
bytes-digit d s h =
    bytes-ascii (digit d) s (omega (arith, code_digit d h)) ∙ ap (λ c. c ∷ bytes s) (code_digit d h)

-- 10 to the power of the fuel.
power : ℕ → ℕ
power zero = 1
power (suc f) = 10 * power f

digits_from-digits :
    (fuel n : ℕ) (s : String)
    → n < power fuel
    → n ≤ 65535
    → digits_from (some 0) (bytes (digits_before fuel n s)) ≡ digits_from (some n) (bytes s)
unfolding power digits_before
digits_from-digits zero n s small h = ground arith
digits_from-digits (suc fuel) n s small h = elim (Bool-cases (ltb n 10)) [
  | inl e ↦ rw e (rw (bytes-digit n s (ground arith)) (ground arith))
  | inr e ↦ rw e (
      digits_from-digits fuel (n / 10) (String.◌∷◌ (digit (n % 10)) s) (omega arith) (omega arith)
      ∙ rw (bytes-digit (n % 10) s (omega arith)) (ground arith))
]

-- The first byte is a digit.
abbrev StartsWithDigit : List ℕ → Type 0
StartsWithDigit [] = ⊥
StartsWithDigit (b ∷ bs) = (48 ≤ b) × (b ≤ 57)

digits_before-starts :
    (fuel n : ℕ) (s : String)
    → StartsWithDigit (bytes s)
    → StartsWithDigit (bytes (digits_before fuel n s))
unfolding digits_before
digits_before-starts zero n s h = h
digits_before-starts (suc fuel) n s h = elim (Bool-cases (ltb n 10)) [
  | inl e ↦ rw e (rw (bytes-digit n s (ground arith)) (omega arith, ground arith))
  | inr e ↦ rw e (
      digits_before-starts fuel (n / 10) (String.◌∷◌ (digit (n % 10)) s)
        (rw (bytes-digit (n % 10) s (omega arith)) (omega arith, omega arith)))
]

decimal-starts : (n : ℕ) → StartsWithDigit (bytes (decimal n))
unfolding decimal digits_before
decimal-starts n = elim (Bool-cases (ltb n 10)) [
  | inl e ↦ rw e (rw (bytes-digit n "" (ground arith)) (omega arith, ground arith))
  | inr e ↦ rw e (
      digits_before-starts 19 (n / 10) (String.◌∷◌ (digit (n % 10)) "")
        (rw (bytes-digit (n % 10) "" (omega arith)) (omega arith, omega arith)))
]

parse_u16-digits : (l : List ℕ) → StartsWithDigit l → parse_u16 l ≡ digits_from (some 0) l
unfolding parse_u16
parse_u16-digits [] h = absurd h
parse_u16-digits (b ∷ []) h = refl
parse_u16-digits (b ∷ c ∷ bs) h = rw (not_plus b h.0)
  where
    not_plus : (b : ℕ) → 48 ≤ b → (b == b'+') ≡ false
    not_plus b h = ground arith

-- A number of 16 bits is read back from its decimal digits.
pub parse_u16-decimal : (n : ℕ) → n ≤ 65535 → parse_u16 (bytes (decimal n)) ≡ some n
unfolding decimal power bytes
parse_u16-decimal n h =
    parse_u16-digits (bytes (decimal n)) (decimal-starts n)
    ∙ digits_from-digits 20 n "" (omega arith) h

-- No character is a colon.
abbrev NoColon : String → Type 0
NoColon String.[] = Unit
NoColon (String.◌∷◌ c s) = ((code c == b':') ≡ false) × NoColon s

digit-no_colon : (d : ℕ) → d < 10 → (code (digit d) == b':') ≡ false
digit-no_colon d h = rw (code_digit d h) (ground arith)

digits_before-NoColon : (fuel n : ℕ) (s : String) → NoColon s → NoColon (digits_before fuel n s)
unfolding digits_before
digits_before-NoColon zero n s h = h
digits_before-NoColon (suc fuel) n s h = elim (Bool-cases (ltb n 10)) [
  | inl e ↦ rw e (digit-no_colon n (ground arith), h)
  | inr e ↦ rw e (
      digits_before-NoColon fuel (n / 10) (String.◌∷◌ (digit (n % 10)) s)
        (digit-no_colon (n % 10) (omega arith), h))
]

rsplit_once-none : (s : String) → NoColon s → rsplit_once b':' s ≡ none
unfolding rsplit_once
rsplit_once-none String.[] h = refl
rsplit_once-none (String.◌∷◌ c s) h = rw (rsplit_once-none s h.1, h.0)

rsplit_once-append :
    (host port : String)
    → NoColon port
    → rsplit_once b':' (String.◌++◌ host (String.◌++◌ ":" port)) ≡ some (host, port)
unfolding rsplit_once
rsplit_once-append String.[] port h =
    ap (rsplit_once b':') ((λ i. append.nil (String.◌++◌ ":" port) i) ∙ colon)
    ∙ rw (rsplit_once-none port h)
  where
    colon : String.◌++◌ ":" port ≡ String.◌∷◌ ":" port
    colon = (λ i. append.cons ":" "" port i) ∙ ap (String.◌∷◌ ":") (λ i. append.nil port i)
rsplit_once-append (String.◌∷◌ c host) port h =
    ap (rsplit_once b':') (λ i. append.cons c host (String.◌++◌ ":" port) i)
    ∙ ap (or_here (code c == b':') c (String.◌++◌ host (String.◌++◌ ":" port)))
        (rsplit_once-append host port h)

-- The URL that build_runtime writes for a pool, of a host without a scheme and a port of 16 bits,
-- is read by the import as the endpoint of the same host and port.
pub endpoint-pool_url :
    (filename : String) (pool : Pool) (index : ℕ)
    → pool.port ≤ 65535
    → scheme_of (pool_url pool) ≡ (pool_url pool, none)
    → endpoint filename (pool_url pool) pool.tls index
      ≡ ok (record pool { priority = index % 2 ^ 16 })
unfolding endpoint pool_url decimal
endpoint-pool_url filename pool index h bare =
    rw
      (
        bare,
        rsplit_once-append pool.host (decimal pool.port) (digits_before-NoColon 20 pool.port "" tt),
        parse_u16-decimal pool.port h,
      )
      refl
