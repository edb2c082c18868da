-- ===== src/Config/Hive/Pools/Endpoints.antt =====
-- The pools of an import, one for each URL.
use Prim.Native.String
use Prim.Native.String.append
use Prim.Native.Char.{Char, code}
use rigos.Base.{
  ℕ, ◌+◌, ◌%◌, ◌^◌, String, ◌≡◌, refl, sym, ap, subst, ◌∙◌, Bool, true, false, ◌||◌, Option, none,
  some, List, [], ◌∷◌, length, ok, ok_or-eq-ok, >>=-eq-ok, fail_if-eq-ok, ok_injective, ◌==◌,
  ==_iff, arith, Bool-cases, inl, inr, ◌≢◌, NoPanic, NoPanic-ok, NoPanic-bind, no_panic,
}
use mathlib.Core.Option.{some-injective}
use rigos.Base.Text.{bytes}
use rigos.Base.Text.Search.{rsplit_once, or_here}
use rigos.Config.Names.{contains_char}
use rigos.Config.Profile.Lines.{is_some}
use rigos.Config.Sheet.{Pool}
use rigos.Config.Hive.Pools.{
  scheme_of, conflicts, parse_u16, endpoint, endpoint_without_tls, import_pools,
}

-- The text parts at the last colon: it is the first part, the separator and the second part, and
-- the second part has no separator.
pub record PartsAt (sep : ℕ) (s a b : String) : Type 0 where
  pub at : Char
  pub separator : code at ≡ sep
  pub whole : s ≡ String.◌++◌ a (String.◌∷◌ at b)
  pub last : contains_char sep b ≡ false

none_step :
    (sep : ℕ) (c : Char) (s : String) (hit : Bool) (o : Option (String × String))
    → (code c == sep) ≡ hit
    → (o ≡ none → contains_char sep s ≡ false)
    → or_here hit c s o ≡ none
    → (code c == sep || contains_char sep s) ≡ false
none_step sep c s true none e k h = cc
none_step sep c s false none e k h = rw (e, k refl)
none_step sep c s true (some p) e k h = cc
none_step sep c s false (some p) e k h = cc

more_step :
    (sep : ℕ) (c : Char) (s a b x y : String)
    → PartsAt sep s x y
    → ◌≡◌ {A = Option (String × String)} (some (String.◌∷◌ c x, y)) (some (a, b))
    → PartsAt sep (String.◌∷◌ c s) a b
more_step sep c s a b x y r h =
    subst (λ (p : String × String). PartsAt sep (String.◌∷◌ c s) p.0 p.1) (some-injective _ _ h)
      (record {
        at = r.at;
        separator = r.separator;
        whole = ap (String.◌∷◌ c) r.whole ∙ sym (λ i. append.cons c x (String.◌∷◌ r.at y) i);
        last = r.last;
      })

-- Where there is no split there is no separator.
rsplit_once-none : (sep : ℕ) (s : String) → rsplit_once sep s ≡ none → contains_char sep s ≡ false
unfolding rsplit_once
rsplit_once-none sep String.[] h = refl
rsplit_once-none sep (String.◌∷◌ c s) h =
    none_step sep c s (code c == sep) (rsplit_once sep s) refl (rsplit_once-none sep s) h

some_step :
    (sep : ℕ) (c : Char) (s a b : String) (hit : Bool) (o : Option (String × String))
    → (code c == sep) ≡ hit
    → (o ≡ none → contains_char sep s ≡ false)
    → ((x y : String) → o ≡ some (x, y) → PartsAt sep s x y)
    → or_here hit c s o ≡ some (a, b)
    → PartsAt sep (String.◌∷◌ c s) a b
some_step sep c s a b true none e k r h =
    let same = some-injective ("", s) (a, b) h in
    subst (λ (p : String × String). PartsAt sep (String.◌∷◌ c s) p.0 p.1) same
      (record {
        at = c;
        separator = (==_iff (code c) sep).0 e;
        whole = sym (λ i. append.nil (String.◌∷◌ c s) i);
        last = k refl;
      })
some_step sep c s a b false none e k r h = cc
some_step sep c s a b true (some (x, y)) e k r h = more_step sep c s a b x y (r x y refl) h
some_step sep c s a b false (some (x, y)) e k r h = more_step sep c s a b x y (r x y refl) h

-- A text splits at its last separator.
pub rsplit_once-PartsAt :
    (sep : ℕ) (s a b : String) → rsplit_once sep s ≡ some (a, b) → PartsAt sep s a b
unfolding rsplit_once
rsplit_once-PartsAt sep String.[] a b h = cc
rsplit_once-PartsAt sep (String.◌∷◌ c s) a b h =
    some_step sep c s a b (code c == sep) (rsplit_once sep s) refl (rsplit_once-none sep s)
      (rsplit_once-PartsAt sep s) h

-- The pool of one URL: without its scheme, the host and the port are the parts at its last colon,
-- TLS is as pool_ssl has it, which a scheme does not contradict, and the priority is the index.
pub record IsEndpoint (raw : String) (tls : Bool) (index : ℕ) (p : Pool) : Type 0 where
  pub port_text : String
  pub parts : PartsAt b':' (scheme_of raw).0 p.host port_text
  pub port : parse_u16 (bytes port_text) ≡ some p.port
  pub tls_as_asked : p.tls ≡ tls
  pub agreed : conflicts (scheme_of raw).1 tls ≡ false
  pub priority : p.priority ≡ index % 2 ^ 16

endpoint-IsEndpoint :
    (filename raw : String) (tls : Bool) (index : ℕ) (p : Pool)
    → endpoint filename raw tls index ≡ ok p
    → IsEndpoint raw tls index p
unfolding endpoint
endpoint-IsEndpoint filename raw tls index p h =
    let (agreed, h1) = fail_if-eq-ok (conflicts (scheme_of raw).1 tls) _ _ h in
    let (split, at, h2) = ok_or-eq-ok (rsplit_once b':' (scheme_of raw).0) _ _ h1 in
    let (port, number, h3) = ok_or-eq-ok (parse_u16 (bytes split.1)) _ _ h2 in
    subst (IsEndpoint raw tls index) (ok_injective h3) (record {
      port_text = split.1;
      parts = rsplit_once-PartsAt b':' (scheme_of raw).0 split.0 split.1 at;
      port = number;
      tls_as_asked = refl;
      agreed = agreed;
      priority = refl;
    })

-- The pools of the URLs, in order and from an index on.
abbrev pub Endpoints : List String → List Bool → ℕ → List Pool → Type 0
Endpoints [] tls_values index [] = Unit
Endpoints (raw ∷ urls) (tls ∷ tls_values) index (p ∷ ps) =
    IsEndpoint raw tls index p × Endpoints urls tls_values (index + 1) ps
Endpoints _ _ _ _ = ⊥

endpoint_without_tls-fails :
    (filename raw : String) (ps : List Pool) → endpoint_without_tls filename raw ≢ ok ps
unfolding endpoint_without_tls
endpoint_without_tls-fails filename raw ps h = elim (Bool-cases (is_some (scheme_of raw).1)) [
  | inl e ↦ cc (rw e at h)
  | inr e ↦
      let (split, at, h1) = ok_or-eq-ok (rsplit_once b':' (scheme_of raw).0) _ _ (rw e at h) in
      let (port, number, h2) = ok_or-eq-ok (parse_u16 (bytes split.1)) _ _ h1 in absurd (cc)
]

-- The pools that are read are those of the URLs, one for each and in order: host and port as they
-- stand in the URL, TLS as pool_ssl has it and the scheme does not contradict, and the index as
-- priority.
pub import_pools-Endpoints :
    (filename : String) (urls : List String) (tls_values : List Bool) (index : ℕ) (ps : List Pool)
    → import_pools filename urls tls_values index ≡ ok ps
    → Endpoints urls tls_values index ps
unfolding import_pools
import_pools-Endpoints filename [] tls_values index [] h = tt
import_pools-Endpoints filename [] tls_values index (p ∷ ps) h = cc
import_pools-Endpoints filename (raw ∷ urls) [] index ps h =
    absurd (endpoint_without_tls-fails filename raw ps h)
import_pools-Endpoints filename (raw ∷ urls) (tls ∷ tls_values) index ps h =
    let (p, first, h1) = >>=-eq-ok (endpoint filename raw tls index) _ h in
    let (rest, more, h2) = >>=-eq-ok (import_pools filename urls tls_values (index + 1)) _ h1 in
    subst (Endpoints (raw ∷ urls) (tls ∷ tls_values) index) (ok_injective h2) (
      endpoint-IsEndpoint filename raw tls index p first,
      import_pools-Endpoints filename urls tls_values (index + 1) rest more,
    )

endpoint-NoPanic :
    (filename raw : String) (tls : Bool) (index : ℕ) → NoPanic (endpoint filename raw tls index)
unfolding endpoint
endpoint-NoPanic filename raw tls index = search no_panic

pub pools-NoPanic :
    (filename : String) (urls : List String) (tls_values : List Bool) (index : ℕ)
    → length urls ≡ length tls_values
    → NoPanic (import_pools filename urls tls_values index)
unfolding import_pools
pools-NoPanic filename [] tls_values index e = NoPanic-ok []
pools-NoPanic filename (raw ∷ urls) [] index e = absurd (omega arith)
pools-NoPanic filename (raw ∷ urls) (tls ∷ tls_values) index e =
    NoPanic-bind _ _ (endpoint-NoPanic filename raw tls index) (λ p.
      NoPanic-bind _ _ (pools-NoPanic filename urls tls_values (index + 1) (ground arith))
        (λ ps. NoPanic-ok _))
