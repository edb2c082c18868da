-- ===== src/Config/Profile/Keys.antt =====
-- The loop over the lines keeps distinct, supported keys, each with the number of its line.
use text.Mathlib.Text.{◌==◌ as text_eq}
use text.Mathlib.TextEquality.{eq_iff}
use rigos.Base.{
  ℕ, ◌+◌, ◌≤◌, ◌<◌, String, ◌≡◌, ◌≢◌, refl, sym, subst, true, false, not, List, [], ◌∷◌, ok,
  fail_if-eq-ok, ok_or-eq-ok, >>=-eq-ok, ok_injective, not-eq-false, arith, All, All-map, Any,
  length, Bool-cases, inl, inr,
}
use rigos.Base.Text.Search.{trim, split_once}
use rigos.Config.Profile.Lines.{
  Entry, supported, reserved, member, get, is_some, is_skipped, is_shell, bad_field, read_entry,
  read_line, read_lines,
}

-- The keys differ from one another.
abbrev pub DistinctKeys : List Entry → Type 0
DistinctKeys [] = Unit
DistinctKeys (e ∷ es) = All (λ (f : Entry). e.key ≢ f.key) es × DistinctKeys es

-- Supported keys, from lines before `next`.
pub record IsEntry (next : ℕ) (e : Entry) : Type 0 where
  pub known : Any (λ k. k ≡ e.key) supported
  pub line : e.line < next

pub record IsRead (next : ℕ) (values : List Entry) : Type 0 where
  pub entries : All (IsEntry next) values
  pub distinct : DistinctKeys values

member→Any : (key : String) (keys : List String) → member key keys ≡ true → Any (λ k. k ≡ key) keys
member→Any key [] h = ground arith
member→Any key (k ∷ ks) h = elim (Bool-cases (text_eq k key)) [
  | inl e ↦ inl ((eq_iff k key).0 e)
  | inr e ↦ inr (member→Any key ks (ground arith))
]

-- A key that is not found differs from all.
get-none :
    (key : String) (values : List Entry)
    → is_some (get key values) ≡ false
    → All (λ (f : Entry). key ≢ f.key) values
unfolding get
get-none key [] h = tt
get-none key (e ∷ es) h =
    let other : text_eq e.key key ≡ false = ground arith in
    (λ p. cc (other, (eq_iff e.key key).1 (sym p)), get-none key es (ground arith))

later : (n m : ℕ) (values : List Entry) → n ≤ m → All (IsEntry n) values → All (IsEntry m) values
later n m values h =
    All-map (IsEntry n) (IsEntry m) values
      λ e k. record { known = k.known; line = omega (arith, k.line) }

-- The entry that a line adds.
record Added (line : ℕ) (values more : List Entry) : Type 0 where
  entry : Entry
  at : entry.line ≡ line
  known : Any (λ k. k ≡ entry.key) supported
  fresh : All (λ (f : Entry). entry.key ≢ f.key) values
  result : entry ∷ values ≡ more

read_entry-Added :
    (line : ℕ) (value : String) (values more : List Entry)
    → read_entry line value values ≡ ok more
    → Added line values more
unfolding read_entry
read_entry-Added line value values more h =
    let (shell, h1) = fail_if-eq-ok (is_shell value) _ _ h in
    let (pair, e, h2) = ok_or-eq-ok (split_once b'=' value) _ _ h1 in
    let (bad, h3) = fail_if-eq-ok (bad_field pair.0 pair.1) _ _ h2 in
    let (old, h4) = fail_if-eq-ok (member pair.0 reserved) _ _ h3 in
    let (new, h5) = fail_if-eq-ok (not (member pair.0 supported)) _ _ h4 in
    let (met, h6) = fail_if-eq-ok (is_some (get pair.0 values)) _ _ h5 in
    record {
      entry = record { key = pair.0; field = pair.1; line = line };
      at = refl;
      known = member→Any pair.0 supported (not-eq-false _ new);
      fresh = get-none pair.0 values met;
      result = ok_injective h6;
    }

read_line-IsRead :
    (line : ℕ) (raw : String) (values more : List Entry)
    → read_line line raw values ≡ ok more
    → IsRead line values
    → IsRead (line + 1) more
unfolding read_line
read_line-IsRead line raw values more h r = elim (Bool-cases (is_skipped (trim raw))) [
  | inl e ↦
      let same : values ≡ more = ok_injective (rw e at h) in
      subst (IsRead (line + 1)) same (record {
        entries = later line (line + 1) values (omega arith) r.entries;
        distinct = r.distinct;
      })
  | inr e ↦
      let a = read_entry-Added line (trim raw) values more (rw e at h) in
      subst (IsRead (line + 1)) a.result (record {
        entries = (
          record { known = a.known; line = omega (arith, a.at) },
          later line (line + 1) values (omega arith) r.entries,
        );
        distinct = (a.fresh, r.distinct);
      })
]

-- The loop keeps the invariant, up to the line after the last.
pub read_lines-IsRead :
    (line : ℕ) (raws : List String) (values more : List Entry)
    → read_lines line raws values ≡ ok more
    → IsRead line values
    → IsRead (line + length raws) more
unfolding read_lines
read_lines-IsRead line [] values more h r =
    subst (λ es. IsRead (line + 0) es) (ok_injective h)
      (record {
        entries = later line (line + 0) values (omega arith) r.entries;
        distinct = r.distinct;
      })
read_lines-IsRead line (raw ∷ raws) values more h r =
    let (next, e, h1) = >>=-eq-ok (read_line line raw values) _ h in
    let s =
      read_lines-IsRead (line + 1) raws next more h1 (read_line-IsRead line raw values next e r) in
    let same : line + 1 + length raws ≡ line + length (raw ∷ raws) = omega arith in
    subst (λ n. IsRead n more) same s
