-- ===== src/Evidence/Recipients/Loaded.antt =====
-- What load_recipients returns, and that it does not depend on the order of the lines.
use Prim.Native.String
use Prim.Native.String.{len}
use mathlib.Core.HLevel.{⊥_prop}
use mathlib.Core.Logic.Or
use mathlib.Core.List.{Perm, perm_middle, append-nil}
use mathlib.Core.List.Perm
use mathlib.Core.List.{Mem, Pairwise, Nodup, not-mem-nil, eq-or-mem_of_mem-cons}
use text.Mathlib.Text.{◌==◌ as text_eq}
use text.Mathlib.TextEquality.{eq_iff, starts_with_iff}
use rigos.Base.{
  ℕ, ◌≤◌, String, ◌≡◌, ◌≢◌, refl, sym, ◌∙◌, ap, subst, ◌⊎◌, inl, inr, false, List, [], ◌∷◌, ◌++◌,
  All, any, ok, fail_if-eq-ok, >>=-eq-ok, some, Bool-cases, arith, if◌then◌else◌,
  is_empty as none_of, ok_injective,
}
use rigos.Base.Sort.{sort, sort-perm, sort-All, sort-IsSorted, IsSorted}
use rigos.Base.Sort.Order.{sort_of_Perm}
use rigos.Base.Text.{AllChars}
use rigos.Base.Text.Laws.{OnlyAscii, all_bytes-eq-all_chars, all_chars→AllChars}
use rigos.Base.Text.Order.{
  text_leb, text_leb_total, text_leb_trans, text_leb_antisym, text_discrete,
}
use rigos.Base.Text.Search.{trim, lines}
use rigos.Evidence.{invalid_recipient}
use rigos.Evidence.Recipients.{
  RecipientSet, names_none, is_private, recipient_byte, is_foreign, read_recipients, join,
  load_recipients,
}

-- The lines that name a recipient, without the white space around them.
unfoldable pub kept : List String → List String
kept [] = []
kept (line ∷ rest) = if names_none (trim line) then kept rest else trim line ∷ kept rest

-- A lowercase letter or a digit.
abbrev pub IsRecipientChar : ℕ → Type 0
IsRecipientChar c = (b'a' ≤ c) × (c ≤ b'z') ⊎ (b'0' ≤ c) × (c ≤ b'9')

-- A native recipient, which is no private key and no recipient of a plugin.
pub record IsRecipient (r : String) : Type 0 where
  pub begins : (u : String) × (String.◌++◌ "age1" u ≡ r)
  pub long : 50 ≤ len r
  pub chars : AllChars IsRecipientChar r
  pub public : is_private r ≡ false

recipient-OnlyAscii : OnlyAscii recipient_byte
recipient-OnlyAscii b h = ground arith

is_foreign-IsRecipient : (r : String) → is_private r ≡ false → is_foreign r ≡ false → IsRecipient r
unfolding is_foreign
is_foreign-IsRecipient r p h = record {
  begins = (starts_with_iff r "age1").0 (ground arith);
  long = ground arith;
  chars =
      all_chars→AllChars recipient_byte IsRecipientChar (λ c. ground arith) r
        (sym (all_bytes-eq-all_chars recipient_byte recipient-OnlyAscii r) ∙ ground arith);
  public = p;
}

fresh :
    (r : String) (met : List String)
    → any (text_eq r) met ≡ false
    → (a : String) → Mem a met
    → r ≢ a
fresh r [] h a m e = absurd (not-mem-nil m)
fresh r (x ∷ xs) h a m e =
    Or.elim ⊥_prop (eq-or-mem_of_mem-cons m) (λ k. let t = (eq_iff r x).1 (e ∙ k) in ground arith)
      (λ k. fresh r xs (ground arith) a k e)

-- What the loop adds to what it has met.
record Added (met ls out : List String) : Type 0 where
  pub perm : Perm out (kept ls ++ met)
  pub each : All IsRecipient met → All IsRecipient out
  pub distinct : Nodup met → Nodup out

read_recipients-Added :
    (met ls out : List String) → read_recipients met ls ≡ ok out → Added met ls out
unfolding read_recipients kept
read_recipients-Added met [] out h =
    subst (Added met []) (ok_injective h)
      (record { perm = Perm.refl met; each = λ k. k; distinct = λ k. k })
read_recipients-Added met (line ∷ rest) out h = elim (Bool-cases (names_none (trim line))) [
  | inl e ↦
      let r = read_recipients-Added met rest out (rw e at h) in
      record { perm = rw e r.perm; each = r.each; distinct = r.distinct }
  | inr e ↦
      let (a, h1) = fail_if-eq-ok (is_private (trim line)) _ _ (rw e at h) in
      let (b, h2) = fail_if-eq-ok (is_foreign (trim line)) _ _ h1 in
      let (c, h3) = fail_if-eq-ok (any (text_eq (trim line)) met) _ _ h2 in
      let r = read_recipients-Added (trim line ∷ met) rest out h3 in
      record {
        perm = rw e (Perm.trans r.perm (perm_middle (kept rest) met));
        each = λ k. r.each (is_foreign-IsRecipient (trim line) a b, k);
        distinct = λ k. r.distinct (Pairwise.cons (fresh (trim line) met c) k);
      }
]

-- The recipients are those that the lines name, in order, each a native recipient and none twice;
-- there is one, and the digest is that of the lines they make.
pub record Loaded (sha256_hex : String → String) (text : String) (set : RecipientSet) : Type 0 where
  pub perm : Perm set.recipients (kept (lines text))
  pub ordered : IsSorted text_leb set.recipients
  pub each : All IsRecipient set.recipients
  pub distinct : Nodup set.recipients
  pub nonempty : kept (lines text) ≢ []
  pub digest : set.recipient_set_sha256 ≡ sha256_hex (String.◌++◌ (join set.recipients) "\n")

-- What a run that succeeds has read, and what it makes of it.
record Ran (sha256_hex : String → String) (text : String) (set : RecipientSet) : Type 0 where
  met : List String
  added : Added [] (lines text) met
  nonempty : none_of met ≡ false
  recipients : sort text_leb met ≡ set.recipients
  digest : set.recipient_set_sha256 ≡ sha256_hex (String.◌++◌ (join set.recipients) "\n")

load_recipients-Ran :
    (sha256_hex : String → String) (text : String) (set : RecipientSet)
    → load_recipients sha256_hex (some text) ≡ ok set
    → Ran sha256_hex text set
unfolding load_recipients
load_recipients-Ran sha256_hex text set h =
    let (met, e, h1) = >>=-eq-ok (read_recipients [] (lines text)) _ h in
    let (n, h2) = fail_if-eq-ok (none_of met) (invalid_recipient "recipient set is empty") _ h1 in
    let same = ok_injective h2 in
    record {
      met = met;
      added = read_recipients-Added [] (lines text) met e;
      nonempty = n;
      recipients = ap (λ (x : RecipientSet). x.recipients) same;
      digest =
          subst
            (λ (x : RecipientSet).
              x.recipient_set_sha256 ≡ sha256_hex (String.◌++◌ (join x.recipients) "\n"))
            same refl;
    }

module _ {sha256_hex : String → String} {text : String} {set : RecipientSet} where
  met-perm : (r : Ran sha256_hex text set) → Perm r.met (kept (lines text))
  met-perm r = subst (Perm r.met) (append-nil (kept (lines text))) r.added.perm

some_met : (met : List String) → none_of met ≡ false → met ≢ []
some_met [] h e = absurd (cc)
some_met (x ∷ xs) h e = cc

-- load_recipients returns the recipients that the lines name, sorted, valid and distinct, and the
-- digest of them.
pub load_recipients-Loaded :
    (sha256_hex : String → String) (text : String) (set : RecipientSet)
    → load_recipients sha256_hex (some text) ≡ ok set
    → Loaded sha256_hex text set
load_recipients-Loaded sha256_hex text set h =
    let r = load_recipients-Ran sha256_hex text set h in
    record {
      perm =
          subst (λ xs. Perm xs (kept (lines text))) r.recipients
            (Perm.trans (sort-perm text_leb r.met) (met-perm r));
      ordered =
          subst (IsSorted text_leb) r.recipients
            (sort-IsSorted text_leb text_leb_total text_leb_trans r.met);
      each =
          subst (All IsRecipient) r.recipients
            (sort-All text_leb IsRecipient r.met (r.added.each tt));
      distinct =
          subst Nodup r.recipients
            (Perm.nodup (Perm.symm (sort-perm text_leb r.met)) (r.added.distinct Pairwise.nil));
      nonempty = λ e. some_met r.met r.nonempty (Perm.eq-nil (subst (Perm r.met) e (met-perm r)));
      digest = r.digest;
    }

-- Two files that name the same recipients, in whatever order and with whatever comments between,
-- give the same set and the same digest.
pub load_recipients-perm :
    (sha256_hex : String → String) (text other : String) (a b : RecipientSet)
    → load_recipients sha256_hex (some text) ≡ ok a
    → load_recipients sha256_hex (some other) ≡ ok b
    → Perm (kept (lines text)) (kept (lines other))
    → a ≡ b
load_recipients-perm sha256_hex text other a b h k p =
    let r = load_recipients-Ran sha256_hex text a h in
    let q = load_recipients-Ran sha256_hex other b k in
    let met : Perm r.met q.met = Perm.trans (met-perm r) (Perm.trans p (Perm.symm (met-perm q))) in
    let same : a.recipients ≡ b.recipients =
      sym r.recipients
      ∙ sort_of_Perm text_leb text_leb_total text_leb_trans text_leb_antisym text_discrete r.met
          q.met met
      ∙ q.recipients in
    let digest : a.recipient_set_sha256 ≡ b.recipient_set_sha256 =
      r.digest ∙ ap (λ rs. sha256_hex (String.◌++◌ (join rs) "\n")) same ∙ sym q.digest in
    λ i. record { recipients = same i; recipient_set_sha256 = digest i }
