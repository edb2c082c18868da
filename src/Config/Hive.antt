-- ===== src/Config/Hive.antt =====
-- crates/rigos-config/src/lib.rs: the parts of the import of a Hive workload.
pub mod Lists
pub mod Workload
pub mod Pools
mod Examples
use text.Mathlib.Text.{◌==◌ as text_eq}
use Prim.Native.String
use rigos.Base.{
  ℕ, ◌+◌, String, Bool, true, false, not, ◌||◌, Option, none, some, List, [], ◌∷◌, any, length,
  replicate, find, ◌==◌, if◌then◌else◌, Result, ok, err, ◌>>=◌, ◌>>◌, fail_if, ok_or,
}
use rigos.Base.Text.{is_empty}
use rigos.Config.Error.{ConfigError}
use rigos.Config.Sheet.{invalid}

-- `serde_json::Value`; a number stands as its text.
mutual
  pub data Value : Type 0 where
    null : Value
    bool : Bool → Value
    number : String → Value
    string : String → Value
    array : Values → Value
    object : Members → Value

  pub data Values : Type 0 where
    nil : Values
    cons : Value → Values → Values

  pub data Members : Type 0 where
    no_members : Members
    member : String → Value → Members → Members

abbrev pub values : Values → List Value
values nil = []
values (cons v vs) = v ∷ values vs

-- `Map::get` on a map whose keys are distinct.
unfoldable pub get : String → Members → Option Value
get key no_members = none
get key (member k v ms) = if text_eq k key then some v else get key ms

abbrev pub is_there : Option Value → Bool
is_there none = false
is_there (some v) = true

abbrev pub contains_key : String → Members → Bool
contains_key key ms = is_there (get key ms)

abbrev pub keys : Members → List String
keys no_members = []
keys (member k v ms) = k ∷ keys ms

abbrev pub as_object : Value → Option Members
as_object (object ms) = some ms
as_object _ = none

abbrev pub as_array : Value → Option (List Value)
as_array (array vs) = some (values vs)
as_array _ = none

-- A string that is not empty.
abbrev pub text_of : Value → Option String
text_of (string s) = if is_empty s then none else some s
text_of _ = none

abbrev pub as_bool : Value → Option Bool
as_bool (bool b) = some b
as_bool _ = none

abbrev pub only : List Value → Option Value
only [] = none
only (v ∷ []) = some v
only (v ∷ w ∷ vs) = none

abbrev pub one_workload : String → Value → Result ConfigError Members
one_workload filename items = do
  list ←
      ok_or (as_array items)
        (invalid filename (some "items") "items must be an array containing exactly one workload")
  item ←
      ok_or (only list)
        (invalid filename (some "items") "exactly one Hive workload item is required")
  ok_or (as_object item)
      (invalid filename (some "items") "the Hive workload item must be an object")

abbrev pub workload_of : Members → String → Option Value → Result ConfigError Members
workload_of envelope filename none = ok envelope
workload_of envelope filename (some items) = one_workload filename items

unfoldable pub hive_workload : Members → String → Result ConfigError Members
unfolding get
hive_workload envelope filename = workload_of envelope filename (get "items" envelope)

abbrev pub allowed : List String
allowed = "algo" ∷ "url" ∷ "pass" ∷ "template" ∷ "cpu_config" ∷ "user_config" ∷ []

abbrev pub is_unknown : String → Bool
is_unknown key = not (any (text_eq key) allowed)

abbrev pub and_object : Option Value → Option Members
and_object none = none
and_object (some v) = as_object v

abbrev pub known_only : String → Members → Option String → Result ConfigError (Members × Bool)
known_only filename config none = ok (config, true)
known_only filename config (some unknown) =
    err (invalid filename (some unknown) "unsupported miner_config field")

-- The configuration, and whether it is a miner_config of its own.
unfoldable pub hive_miner_config : Members → Members → String → Result ConfigError (Members × Bool)
unfolding get
hive_miner_config envelope workload filename =
    if not (contains_key "items" envelope)
    then ok (workload, false)
    else (ok_or (and_object (get "miner_config" workload)) (
          invalid filename (some "miner_config")
            "the Hive workload requires exactly one miner_config object")
        >>= λ config. known_only filename config (find is_unknown (keys config)))

-- `.map(..).collect()`: the first error, or all.
unfoldable pub collect :
    {A : Type 0} → (Value → Option A) → ConfigError → List Value → Result ConfigError (List A)
collect f e [] = ok []
collect f e (v ∷ vs) =
    let rest = collect f e vs in ok_or (f v) e >>= λ a. rest >>= λ more. ok (a ∷ more)

unfoldable pub strict_string_list :
    Option Value → String → String → Result ConfigError (List String)
unfolding collect
strict_string_list value filename key =
    let e =
      invalid filename (some key)
        (String.◌++◌ key " must contain only strings and cannot be empty") in
    elim value [
      | some (string s) ↦ if is_empty s then err e else ok (s ∷ [])
      | some (array nil) ↦ err e
      | some (array (cons v vs)) ↦ collect text_of e (v ∷ values vs)
      | _ ↦ err e
    ]

unfoldable pub strict_bool_list : Option Value → ℕ → String → Result ConfigError (List Bool)
unfolding collect
strict_bool_list value count filename =
    let e =
      invalid filename (some "pool_ssl")
        "pool_ssl must be one boolean or a boolean array matching pool_urls" in
    elim value [
      | some (bool b) ↦ ok (replicate count b)
      | some (array vs) ↦
          if length (values vs) == count then collect as_bool e (values vs) else err e
      | _ ↦ err e
    ]

-- The notes on the lifecycle fields, which are not imported.
unfoldable pub lifecycle_of : List String → Members → Members → List String
lifecycle_of [] envelope workload = []
lifecycle_of (key ∷ rest) envelope workload =
    let more = lifecycle_of rest envelope workload in
    if contains_key key envelope || contains_key key workload
    then String.◌++◌ "lifecycle field " (String.◌++◌ key " was not imported") ∷ more
    else more

unfoldable pub lifecycle_warnings : Members → Members → List String
unfolding lifecycle_of
lifecycle_warnings envelope workload =
    lifecycle_of ("autostart" ∷ "enabled" ∷ "start_on_boot" ∷ []) envelope workload
