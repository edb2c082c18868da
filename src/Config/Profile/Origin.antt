-- ===== src/Config/Profile/Origin.antt =====
-- The entries that read_lines makes are those of the lines of the text, one for each that is
-- neither blank nor a comment.
use Prim.Native.Char.{Char, code}
use Prim.Native.String
use Prim.Native.String.append
use text.Mathlib.TextEquality.{eq_iff}
use mathlib.Core.Option.{some-injective}
use rigos.Base.{
  ℕ, ◌+◌, ◌≤◌, String, ◌≡◌, refl, sym, ◌∙◌, ap, subst, ◌↔◌, ◌⊎◌, inl, inr, true, false, not, Option,
  none, some, List, [], ◌∷◌, ok, fail_if-eq-ok, ok_or-eq-ok, >>=-eq-ok, ok_injective, not-eq-false,
  or-eq-false, arith, Bool-cases, ◌==◌, ==_iff,
}
use rigos.Base.Text.{AllChars, StartsWith}
use rigos.Base.Text.Laws.{OnlyAscii, all_bytes-eq-all_chars, all_chars→AllChars}
use rigos.Base.Text.Search.{trim, contains, split_once, keep_left}
use rigos.Config.Names.{contains_char}
use rigos.Config.Names.Host.{IsNonempty, is_empty_iff}
use rigos.Config.Profile.Lines.{
  Entry, reserved, supported, member, get, is_some, is_skipped, is_shell, key_byte, bad_field,
  read_entry, read_line, read_lines,
}

-- The text parts at its first separator.
pub record FirstAt (sep : ℕ) (s a b : String) : Type 0 where
  pub at : Char
  pub separator : code at ≡ sep
  pub whole : s ≡ String.◌++◌ a (String.◌∷◌ at b)
  pub first : contains_char sep a ≡ false

-- An uppercase letter or an underscore.
abbrev pub IsKeyChar : ℕ → Type 0
IsKeyChar c = (b'A' ≤ c) × (c ≤ b'Z') ⊎ (c ≡ b'_')

-- A line, without the white space about it, that is blank or a comment.
abbrev pub IsNothing : String → Type 0
IsNothing line = (line ≡ "") ⊎ StartsWith (λ c. c ≡ b'#') line

-- The entry of one line: key and field are what stands about its first `=`, and the line has no
-- shell expansion.
pub record IsLine (number : ℕ) (raw : String) (e : Entry) : Type 0 where
  pub says : IsNothing (trim raw) → ⊥
  pub parts : FirstAt b'=' (trim raw) e.key e.field
  pub no_command : contains "$(" (trim raw) ≡ false
  pub no_backquote : contains_char b'`' (trim raw) ≡ false
  pub key_nonempty : IsNonempty e.key
  pub key_chars : AllChars IsKeyChar e.key
  pub field_trimmed : trim e.field ≡ e.field
  pub one_line : (contains_char 13 e.field ≡ false) × (contains_char 10 e.field ≡ false)
  pub line : e.line ≡ number

-- From the entries `before`, the lines give the entries `values`, the last one first.
pub data Give : ℕ → List String → List Entry → List Entry → Type 0 where
  ended : (number : ℕ) (values : List Entry) → Give number [] values values
  passed :
      (number : ℕ) (raw : String) (raws : List String) (before values : List Entry)
      → IsNothing (trim raw)
      → Give (number + 1) raws before values
      → Give number (raw ∷ raws) before values
  entered :
      (number : ℕ) (raw : String) (raws : List String) (e : Entry) (before values : List Entry)
      → IsLine number raw e
      → Give (number + 1) raws (e ∷ before) values
      → Give number (raw ∷ raws) before values

is_skipped_iff : (line : String) → (is_skipped line ≡ true) ↔ IsNothing line
unfolding is_skipped
is_skipped_iff String.[] = (λ h. inl refl, λ h. refl)
is_skipped_iff (String.◌∷◌ c s) = (
  λ h. inr ((==_iff (code c) b'#').0 h),
  λ h. elim h [ inl e ↦ absurd (subst IsNonempty e tt) | inr e ↦ (==_iff (code c) b'#').1 e ],
)

keep_left-some :
    (c : Char) (o : Option (String × String)) (a b : String)
    → keep_left c o ≡ some (a, b)
    → (x : String) × (o ≡ some (x, b)) × (String.◌∷◌ c x ≡ a)
keep_left-some c none a b h = cc
keep_left-some c (some (x, y)) a b h =
    let same = some-injective (String.◌∷◌ c x, y) (a, b) h in
    (
      x,
      ap (λ z. some (x, z)) (ap (λ (p : String × String). p.1) same),
      ap (λ (p : String × String). p.0) same,
    )

split_once-FirstAt : (sep : ℕ) (s a b : String) → split_once sep s ≡ some (a, b) → FirstAt sep s a b
unfolding split_once
split_once-FirstAt sep String.[] a b h = cc
split_once-FirstAt sep (String.◌∷◌ c s) a b h = elim (Bool-cases (code c == sep)) [
  | inl e ↦
      let same = some-injective ("", s) (a, b) (rw e at h) in
      subst (λ (p : String × String). FirstAt sep (String.◌∷◌ c s) p.0 p.1) same
        (record {
          at = c;
          separator = (==_iff (code c) sep).0 e;
          whole = sym (λ i. append.nil (String.◌∷◌ c s) i);
          first = refl;
        })
  | inr e ↦
      let (x, more, left) = keep_left-some c (split_once sep s) a b (rw e at h) in
      let r = split_once-FirstAt sep s x b more in
      subst (λ (t : String). FirstAt sep (String.◌∷◌ c s) t b) left
        (record {
          at = r.at;
          separator = r.separator;
          whole = ap (String.◌∷◌ c) r.whole ∙ sym (λ i. append.cons c x (String.◌∷◌ r.at b) i);
          first = rw (e, r.first) refl;
        })
]

key_byte-OnlyAscii : OnlyAscii key_byte
key_byte-OnlyAscii b h = ground arith

no_shell :
    (value : String)
    → is_shell value ≡ false
    → (contains "$(" value ≡ false) × (contains_char b'`' value ≡ false)
unfolding is_shell
no_shell value h = (ground arith, ground arith)

-- The parts of an entry that bad_field tests.
good_field :
    (key field : String)
    → bad_field key field ≡ false
    → IsNonempty key
      × AllChars IsKeyChar key
      × (trim field ≡ field)
      × (contains_char 13 field ≡ false)
      × (contains_char 10 field ≡ false)
unfolding bad_field
good_field key field h =
    let (h4, lf) = or-eq-false _ _ h in
    let (h3, cr) = or-eq-false _ _ h4 in
    let (h2, trimmed) = or-eq-false _ _ h3 in
    let (empty, chars) = or-eq-false _ _ h2 in
    (
      (is_empty_iff key).0 (ap not empty),
      all_chars→AllChars key_byte IsKeyChar (λ c. ground arith) key
          (sym (all_bytes-eq-all_chars key_byte key_byte-OnlyAscii key) ∙ not-eq-false _ chars),
      (eq_iff (trim field) field).0 (not-eq-false _ trimmed),
      cr,
      lf,
    )

read_entry-IsLine :
    (number : ℕ) (raw : String) (before values : List Entry)
    → is_skipped (trim raw) ≡ false
    → read_entry number (trim raw) before ≡ ok values
    → (e : Entry) × IsLine number raw e × (e ∷ before ≡ values)
unfolding read_entry
read_entry-IsLine number raw before values s h =
    let (shell, h1) = fail_if-eq-ok (is_shell (trim raw)) _ _ h in
    let (pair, e, h2) = ok_or-eq-ok (split_once b'=' (trim raw)) _ _ h1 in
    let (bad, h3) = fail_if-eq-ok (bad_field pair.0 pair.1) _ _ h2 in
    let (old, h4) = fail_if-eq-ok (member pair.0 reserved) _ _ h3 in
    let (new, h5) = fail_if-eq-ok (not (member pair.0 supported)) _ _ h4 in
    let (met, h6) = fail_if-eq-ok (is_some (get pair.0 before)) _ _ h5 in
    let (command, backquote) = no_shell (trim raw) shell in
    let (nonempty, chars, trimmed, cr, lf) = good_field pair.0 pair.1 bad in
    (
      record { key = pair.0; field = pair.1; line = number },
      record {
        says = λ k. let t = (is_skipped_iff (trim raw)).1 k in absurd (cc);
        parts = split_once-FirstAt b'=' (trim raw) pair.0 pair.1 e;
        no_command = command;
        no_backquote = backquote;
        key_nonempty = nonempty;
        key_chars = chars;
        field_trimmed = trimmed;
        one_line = (cr, lf);
        line = refl;
      },
      ok_injective h6,
    )

-- What the loop returns, its lines give.
pub read_lines-Give :
    (number : ℕ) (raws : List String) (before values : List Entry)
    → read_lines number raws before ≡ ok values
    → Give number raws before values
unfolding read_lines read_line
read_lines-Give number [] before values h =
    subst (Give number [] before) (ok_injective h) (ended number before)
read_lines-Give number (raw ∷ raws) before values h =
    let (mid, e, h1) = >>=-eq-ok (read_line number raw before) _ h in
    elim (Bool-cases (is_skipped (trim raw))) [
      | inl s ↦
          let same : before ≡ mid = ok_injective (rw s at e) in
          passed number raw raws before values ((is_skipped_iff (trim raw)).0 s) (
            read_lines-Give (number + 1) raws before values
              (subst (λ x. read_lines (number + 1) raws x ≡ ok values) (sym same) h1))
      | inr s ↦
          let (entry, line, same) = read_entry-IsLine number raw before mid s (rw s at e) in
          entered number raw raws entry before values line (
            read_lines-Give (number + 1) raws (entry ∷ before) values
              (subst (λ x. read_lines (number + 1) raws x ≡ ok values) (sym same) h1))
    ]
