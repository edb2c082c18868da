-- ===== src/Config/Revision/Paths.antt =====
-- The names that a commit writes are apart from those that it is to leave.
use Prim.Native.String
use Prim.Native.String.append
use text.Mathlib.Text.{◌==◌ as text_eq}
use rigos.Base.{
  ℕ, ◌+◌, String, ◌≡◌, ◌≢◌, refl, false, none, List, [], ◌∷◌, ◌++◌, All, Bool-cases, inl, inr,
  arith,
}
use rigos.Base.Text.Apart.{differ, first, first-append, chars, chars-append}
use rigos.Config.Store.{FilePath, path_eq}
use rigos.Config.Store.Tree.{strip}
use rigos.Config.Revision.{staging, staging_name, final_dir, current}

-- The name of a hidden link is not `current`.
pub hidden_ne_current :
    (s id : String) → path_eq (String.◌++◌ (String.◌∷◌ "." s) id ∷ []) current ≡ false
unfolding path_eq
hidden_ne_current s id = rw (
    differ first (String.◌++◌ (String.◌∷◌ "." s) id) "current"
      (apart (first (String.◌++◌ (String.◌∷◌ "." s) id)) (first-append "." s id)))
  where
    apart : (n : ℕ) → n ≡ b'.' → n ≢ b'c'
    apart n e h = omega arith

-- A path of one name is no path of two or more.
short_ne_long : (a b c : String) (r : FilePath) → path_eq (a ∷ []) (b ∷ c ∷ r) ≡ false
unfolding path_eq
short_ne_long a b c r = elim (Bool-cases (text_eq a b)) [ inl e ↦ rw e | inr e ↦ rw e ]

pub name_ne_final : (a id : String) (r : FilePath) → path_eq (a ∷ []) (final_dir id ++ r) ≡ false
unfolding final_dir
name_ne_final a id r = short_ne_long a "revisions" id r

pub names_ne_final :
    (names : List String) (id : String) (r : FilePath)
    → All (λ name. path_eq (name ∷ []) (final_dir id ++ r) ≡ false) names
names_ne_final [] id r = tt
names_ne_final (name ∷ names) id r = (name_ne_final name id r, names_ne_final names id r)

staging_ne_id : (id : String) → text_eq (staging_name id) id ≡ false
unfolding staging_name
staging_ne_id id = differ chars (String.◌++◌ "." (String.◌++◌ id ".staging")) id (
    longer (chars (String.◌++◌ "." (String.◌++◌ id ".staging")))
      (chars-append "." (String.◌++◌ id ".staging")) (chars-append id ".staging"))
  where
    longer :
        (n : ℕ)
        → n ≡ chars "." + chars (String.◌++◌ id ".staging")
        → chars (String.◌++◌ id ".staging") ≡ chars id + chars ".staging"
        → n ≢ chars id
    longer n e f h = omega arith

-- The revision is not below the directory that is filled.
pub staging_outside : (id : String) (r : FilePath) → strip (staging id) (final_dir id ++ r) ≡ none
unfolding strip staging final_dir
staging_outside id r = rw (staging_ne_id id)

pub staging_outside_current : (id : String) → strip (staging id) current ≡ none
unfolding strip staging
staging_outside_current id = refl

pub final_outside_current : (id : String) → strip (final_dir id) current ≡ none
unfolding strip final_dir
final_outside_current id = refl
