-- ===== src/Config/Fragment/Commas.antt =====
-- insert_top_level_member_commas: it only inserts commas, and only for balanced input.
use rigos.Base.{
  ℕ, String, ◌≡◌, refl, sym, subst, true, Option, none, some, List, [], ◌∷◌, find, ==_iff,
  and-eq-true, Bool-cases, inl, inr, arith,
}
use mathlib.Core.Option.{some-injective}
use rigos.Base.Text.{bytes}
use rigos.Base.Utf8.{from_utf8}
use rigos.Base.Text.Ascii.{is_ascii_whitespace}
use rigos.Config.Fragment.{
  Scan, moved, is_gap, after_gap, not_space, ends_value, pushed, rev_onto, scan, from_bytes,
  insert_top_level_member_commas,
}

-- The second list is the first with commas inserted, each of them after a white space and before a
-- quote.
pub data Commas : List ℕ → List ℕ → Type 0 where
  done : Commas [] []
  keep : {b : ℕ} {bs out : List ℕ} → Commas bs out → Commas (b ∷ bs) (b ∷ out)
  gap :
      {b : ℕ} {bs out : List ℕ}
      → is_ascii_whitespace b ≡ true
      → Commas (b'"' ∷ bs) out
      → Commas (b ∷ b'"' ∷ bs) (b ∷ b',' ∷ out)

-- How one byte of the input goes out: as it is, or as the end of a gap with a comma after it.
pub data Push (byte : ℕ) (rest output : List ℕ) : List ℕ → Type 0 where
  plain : Push byte rest output (byte ∷ output)
  comma :
      (bs : List ℕ)
      → rest ≡ b'"' ∷ bs
      → is_ascii_whitespace byte ≡ true
      → Push byte rest output (b',' ∷ byte ∷ output)

after_gap-Push :
    (byte : ℕ) (bs output longer : List ℕ) (o : Option ℕ)
    → is_ascii_whitespace byte ≡ true
    → after_gap o (byte ∷ output) ≡ some longer
    → Push byte (b'"' ∷ bs) output longer
after_gap-Push byte bs output longer none space h = cc
after_gap-Push byte bs output longer (some previous) space h =
    elim (Bool-cases (ends_value previous)) [
      | inl e ↦
          subst (Push byte (b'"' ∷ bs) output) (some-injective _ _ (rw e at h))
            (comma bs refl space)
      | inr e ↦ subst (Push byte (b'"' ∷ bs) output) (some-injective _ _ (rw e at h)) plain
    ]

pub pushed-Push :
    (byte : ℕ) (rest output longer : List ℕ) (at : Scan)
    → pushed byte rest at output ≡ some longer
    → Push byte rest output longer
unfolding pushed
pushed-Push byte [] output longer at h = subst (Push byte [] output) (some-injective _ _ h) plain
pushed-Push byte (next ∷ bs) output longer at h = elim (Bool-cases (is_gap byte (next ∷ bs) at)) [
  | inl e ↦
      let (l2, quote) = and-eq-true _ _ e in
      let (l1, top) = and-eq-true _ _ l2 in
      let space = (and-eq-true _ _ l1).1 in
      let same = (==_iff next b'"').0 quote in
      subst (λ n. Push byte (n ∷ bs) output longer) (sym same)
        (after_gap-Push byte bs output longer (find not_space (byte ∷ output)) space (rw e at h))
  | inr e ↦ subst (Push byte (next ∷ bs) output) (some-injective _ _ (rw e at h)) plain
]

extended :
    (byte : ℕ) (rest output longer tail r : List ℕ)
    → Push byte rest output longer
    → r ≡ rev_onto longer tail
    → Commas rest tail
    → (t : List ℕ) × (r ≡ rev_onto output t) × Commas (byte ∷ rest) t
extended byte rest output _ tail r plain e c = (byte ∷ tail, e, keep c)
extended byte rest output _ tail r (comma bs quote space) e c = (
  byte ∷ b',' ∷ tail,
  e,
  subst (λ xs. Commas (byte ∷ xs) (byte ∷ b',' ∷ tail)) (sym quote)
      (gap space (subst (λ xs. Commas xs tail) quote c)),
)

-- What the scan puts out is the output so far, and then its input with commas inserted.
pub scan-Commas :
    (bs : List ℕ) (at : Scan) (output r : List ℕ)
    → scan bs at output ≡ some r
    → (tail : List ℕ) × (r ≡ rev_onto output tail) × Commas bs tail
unfolding scan
scan-Commas [] at output r h = ([], sym (some-injective _ _ (ground arith)), done)
scan-Commas (byte ∷ rest) at output r h =
    step (λ next longer. scan-Commas rest next longer r) (moved byte at)
      (pushed byte rest at output) refl h
  where
    step :
        ((next : Scan) (longer : List ℕ)
          → scan rest next longer ≡ some r
          → (tail : List ℕ) × (r ≡ rev_onto longer tail) × Commas rest tail)
        → (m : Option Scan) (p : Option (List ℕ)) → pushed byte rest at output ≡ p
        → (elim m [
          | none ↦ none
          | some next ↦ elim p [ none ↦ none | some longer ↦ scan rest next longer ]
        ])
          ≡ some r
        → (tail : List ℕ) × (r ≡ rev_onto output tail) × Commas (byte ∷ rest) tail
    step more none p e g = cc
    step more (some next) none e g = cc
    step more (some next) (some longer) e g =
        let (tail, same, c) = more next longer g in
        extended byte rest output longer tail r (pushed-Push byte rest output longer at e) same c

from_bytes-eq-some :
    (o : Option (List ℕ)) (t : String)
    → from_bytes o ≡ some t
    → (out : List ℕ) × (o ≡ some out) × (from_utf8 out ≡ some t)
from_bytes-eq-some none t h = cc
from_bytes-eq-some (some out) t h = (out, refl, h)

-- The repair of a fragment only inserts commas: the bytes of its result are the bytes of its input
-- with commas between some white space and a quote after it.
pub insert_top_level_member_commas-Commas :
    (input result : String)
    → insert_top_level_member_commas input ≡ some result
    → (out : List ℕ) × (from_utf8 out ≡ some result) × Commas (bytes input) out
unfolding insert_top_level_member_commas
insert_top_level_member_commas-Commas input result h =
    let (out, run, decoded) = from_bytes-eq-some (scan (bytes input) _ []) result h in
    let (tail, same, c) = scan-Commas (bytes input) _ [] out run in
    (out, decoded, subst (Commas (bytes input)) (sym same) c)
