-- ===== src/Config/Fragment/Unique.antt =====
-- What parse_json_member_fragment accepts: objects without a repeated key.
use text.Mathlib.Text.{◌==◌ as text_eq}
use text.Mathlib.TextEquality.{eq_iff}
use rigos.Base.{
  String, ◌≡◌, ◌≢◌, ◌↔◌, refl, sym, ap, subst, ◌∙◌, true, false, ◌||◌, Option, none, some, List, [],
  ◌∷◌, All, or-eq-false, Bool-cases, Option-cases, inl, inr, ok, fail_if-eq-ok, ok_or,
}
use mathlib.Core.Option.{some-injective}
use rigos.Base.Text.{is_empty}
use rigos.Base.Text.Search.{trim}
use rigos.Config.Error.{ConfigError}
use rigos.Config.Names.{starts_with_char, contains_char}
use rigos.Config.Fragment.{
  has_key, visit_map, visited, parse_unique_object, braced, repaired, parse_trimmed,
  parse_json_member_fragment, insert_top_level_member_commas,
}

module _ {V : Type 0} where
  abbrev pub Distinct : List (String × V) → Type 0
  Distinct [] = Unit
  Distinct (m ∷ ms) = All (λ n. n.0 ≢ m.0) ms × Distinct ms

  -- The members on top of those before them, the last one first.
  unfoldable pub onto : List (String × V) → List (String × V) → List (String × V)
  onto [] output = output
  onto (m ∷ ms) output = onto ms (m ∷ output)

  others :
      (key : String) (ms : List (String × V)) → has_key key ms ≡ false → All (λ n. n.0 ≢ key) ms
  others key [] h = tt
  others key (m ∷ ms) h =
      let (a, b) = or-eq-false (text_eq m.0 key) (has_key key ms) h in
      (λ same. cc (a, (eq_iff m.0 key).1 same), others key ms b)

  others_all :
      (key : String) (ms : List (String × V)) → All (λ n. n.0 ≢ key) ms → has_key key ms ≡ false
  others_all key [] h = refl
  others_all key (m ∷ ms) h = elim (Bool-cases (text_eq m.0 key)) [
    | inl e ↦ absurd (h.0 ((eq_iff m.0 key).0 e))
    | inr e ↦ rw e (others_all key ms h.1)
  ]

  visit_map_sound :
      (output ms r : List (String × V))
      → Distinct output
      → visit_map output ms ≡ some r
      → (onto ms output ≡ r) × Distinct r
  unfolding visit_map onto
  visit_map_sound output [] r d h =
      let same = some-injective output r h in (same, subst Distinct same d)
  visit_map_sound output (m ∷ ms) r d h = elim (Bool-cases (has_key m.0 output)) [
    | inl e ↦ absurd (cc (rw e at h))
    | inr e ↦ visit_map_sound (m ∷ output) ms r (others m.0 output e, d) (rw e at h)
  ]

  Distinct-onto : (ms output : List (String × V)) → Distinct (onto ms output) → Distinct output
  unfolding onto
  Distinct-onto [] output d = d
  Distinct-onto (m ∷ ms) output d = (Distinct-onto ms (m ∷ output) d).1

  visit_map_complete :
      (output ms : List (String × V))
      → Distinct (onto ms output)
      → visit_map output ms ≡ some (onto ms output)
  unfolding visit_map onto
  visit_map_complete output [] d = refl
  visit_map_complete output (m ∷ ms) d =
      rw (others_all m.0 output (Distinct-onto ms (m ∷ output) d).0)
        (visit_map_complete (m ∷ output) ms d)

  module _ (object : String → Option (List (String × V))) where
    -- The text is an object whose members are `r`, the last one first, with distinct keys.
    pub record IsObject (text : String) (r : List (String × V)) : Type 0 where
      pub members : List (String × V)
      pub decoded : object text ≡ some members
      pub all : onto members [] ≡ r
      pub distinct : Distinct r

    parse_unique_object_iff :
        (text : String) (r : List (String × V))
        → (parse_unique_object object text ≡ some r) ↔ IsObject text r
    unfolding parse_unique_object
    parse_unique_object_iff text r = (sound (object text) refl, complete)
      where
        sound :
            (o : Option (List (String × V)))
            → object text ≡ o
            → visited o ≡ some r
            → IsObject text r
        sound none e h = absurd (cc h)
        sound (some ms) e h =
            let (all, distinct) = visit_map_sound [] ms r tt h in
            record { members = ms; decoded = e; all = all; distinct = distinct }

        complete : IsObject text r → visited (object text) ≡ some r
        complete h =
            ap visited h.decoded
            ∙ visit_map_complete [] h.members (subst Distinct (sym h.all) h.distinct)
            ∙ ap some h.all

    no_object_iff :
        (text : String)
        → (parse_unique_object object text ≡ none) ↔ ((r : List (String × V)) → IsObject text r → ⊥)
    no_object_iff text = (
      λ h r k. absurd (cc (h, (parse_unique_object_iff text r).1 k)),
      λ h. elim (Option-cases (parse_unique_object object text)) [
        | inl e ↦ e
        | inr (r, e) ↦ absurd (h r ((parse_unique_object_iff text r).0 e))
      ],
    )

    -- The object that is read: the text, where it begins with a brace; else the text in braces;
    -- or, where that is no object with distinct keys, the repaired text in braces.
    pub data Reading (trimmed : String) (r : List (String × V)) : Type 0 where
      whole : starts_with_char b'{' trimmed ≡ true → IsObject trimmed r → Reading trimmed r
      members :
          starts_with_char b'{' trimmed ≡ false
          → IsObject (braced object trimmed) r
          → Reading trimmed r
      mended :
          (text : String)
          → starts_with_char b'{' trimmed ≡ false
          → ((q : List (String × V)) → IsObject (braced object trimmed) q → ⊥)
          → insert_top_level_member_commas trimmed ≡ some text
          → IsObject (braced object text) r
          → Reading trimmed r

    repaired-Reading :
        (trimmed : String) (r : List (String × V)) (o : Option (List (String × V)))
        (n : Option String)
        → starts_with_char b'{' trimmed ≡ false
        → parse_unique_object object (braced object trimmed) ≡ o
        → insert_top_level_member_commas trimmed ≡ n
        → repaired object o n ≡ some r
        → Reading trimmed r
    repaired-Reading trimmed r (some v) n b e f h =
        members b ((parse_unique_object_iff (braced object trimmed) r).0 (e ∙ h))
    repaired-Reading trimmed r none none b e f h = cc
    repaired-Reading trimmed r none (some text) b e f h =
        mended text b ((no_object_iff (braced object trimmed)).0 e) f
          ((parse_unique_object_iff (braced object text) r).0 h)

    trimmed-Reading :
        (trimmed : String) (r : List (String × V))
        → parse_trimmed object trimmed ≡ some r
        → Reading trimmed r
    trimmed-Reading trimmed r h = elim (Bool-cases (starts_with_char b'{' trimmed)) [
      | inl e ↦ whole e ((parse_unique_object_iff trimmed r).0 (rw e at h))
      | inr e ↦ repaired-Reading trimmed r _ _ e refl refl (rw e at h)
    ]

    reading_parses :
        (trimmed : String) (r : List (String × V))
        → Reading trimmed r
        → parse_trimmed object trimmed ≡ some r
    reading_parses trimmed r (whole b k) = rw b ((parse_unique_object_iff trimmed r).1 k)
    reading_parses trimmed r (members b k) =
        rw (b, (parse_unique_object_iff (braced object trimmed) r).1 k) refl
    reading_parses trimmed r (mended text b other f k) =
        rw (b, (no_object_iff (braced object trimmed)).1 other, f)
          ((parse_unique_object_iff (braced object text) r).1 k)

    ok_or-some :
        {A : Type 0} (o : Option A) (e : ConfigError) (r : A) → ok_or o e ≡ ok r → o ≡ some r
    ok_or-some none e r h = cc
    ok_or-some (some a) e r h = cc

    -- A fragment is accepted with the members `r` exactly when it is neither empty nor has a NUL, and
    -- `r` are all the members of an object without a repeated key: of the trimmed text, where that
    -- begins with a brace; else of the text in braces; or, where that is no such object, of the
    -- repaired text in braces.
    pub parse_json_member_fragment-Reading :
        (input filename key : String) (r : List (String × V))
        → (parse_json_member_fragment object input filename key ≡ ok r) ↔ (
            ((is_empty (trim input) || contains_char 0 (trim input)) ≡ false)
            × Reading (trim input) r)
    unfolding parse_json_member_fragment
    parse_json_member_fragment-Reading input filename key r = (
      λ h.
          let (clean, h1) =
            fail_if-eq-ok (is_empty (trim input) || contains_char 0 (trim input)) _ _ h in
          (clean, trimmed-Reading (trim input) r (ok_or-some _ _ r h1)),
      λ h. rw (h.0, reading_parses (trim input) r h.1) refl,
    )
