-- ===== src/Config/Profile/Valid.antt =====
-- What an accepted profile is: names that are slugs, and a reference that fits its source.
use text.Mathlib.Text.{◌==◌ as text_eq}
use text.Mathlib.TextEquality.{eq_iff}
use rigos.Base.{
  String, ◌≡◌, refl, ap, subst, ◌∙◌, not, Option, none, some, List, [], ◌∷◌, ok, >>=-eq-ok,
  fail_if-eq-ok, ok_or-eq-ok, ok_injective, not-eq-false, arith,
}
use rigos.Config.Names.{valid_timezone_name, valid_slug, components, normal}
use rigos.Config.Names.Safe.{components-safe_json_basename}
use rigos.Config.Names.Slug.{IsSlug, valid_slug_iff}
use rigos.Config.Names.Zone.{IsZone, valid_timezone_name-IsZone}
use rigos.Config.Profile.Lines.{Entry, get}
use rigos.Config.Profile.Fields.{
  FlightSource, native, import, interactive, RigProfile, field_of, MinerStartMode, manual, on_boot,
  require, source_of, mode_of, check_ref, profile_of_values,
}

-- The reference that a source wants: none for `interactive`, a slug for `native`, and for `import`
-- a file name that is one path component.
abbrev pub RefFits : FlightSource → Option String → Type 0
RefFits interactive none = Unit
RefFits interactive (some name) = ⊥
RefFits native none = ⊥
RefFits native (some name) = IsSlug 64 name
RefFits import none = ⊥
RefFits import (some name) = components name ≡ normal name ∷ []

pub record IsValidProfile (p : RigProfile) : Type 0 where
  pub node : IsSlug 63 p.node_name
  pub zone : IsZone p.timezone
  pub reference : RefFits p.flight_source p.flight_ref

abbrev pub source_name : FlightSource → String
source_name native = "native"
source_name import = "import"
source_name interactive = "interactive"

abbrev pub mode_name : MinerStartMode → String
mode_name manual = "manual"
mode_name on_boot = "on_boot"

-- The values under the six keys are the version 1 and the fields of the profile.
pub record Describes (values : List Entry) (p : RigProfile) : Type 0 where
  pub version : field_of (get "RIGOS_CONFIG_VERSION" values) ≡ some "1"
  pub node : field_of (get "NODE_NAME" values) ≡ some p.node_name
  pub zone : field_of (get "TIMEZONE" values) ≡ some p.timezone
  pub source : field_of (get "FLIGHT_SOURCE" values) ≡ some (source_name p.flight_source)
  pub reference : field_of (get "FLIGHT_REF" values) ≡ p.flight_ref
  pub mode : field_of (get "MINER_START_MODE" values) ≡ some (mode_name p.miner_start_mode)

pub record Accepted (values : List Entry) (p : RigProfile) : Type 0 where
  pub valid : IsValidProfile p
  pub described : Describes values p

check_ref-fits :
    (source : FlightSource) (ref : Option String) (values : List Entry)
    → check_ref source ref values ≡ ok tt
    → RefFits source ref
unfolding check_ref
check_ref-fits interactive none values h = tt
check_ref-fits interactive (some name) values h = cc
check_ref-fits native none values h = cc
check_ref-fits native (some name) values h = (valid_slug_iff name 64).0 (ground arith)
check_ref-fits import none values h = cc
check_ref-fits import (some name) values h = components-safe_json_basename name (ground arith)

require-field :
    (key : String) (values : List Entry) (v : String)
    → require key values ≡ ok v
    → field_of (get key values) ≡ some v
unfolding require
require-field key values v h = ground arith

source_of-name :
    (field : String) (s : FlightSource) → source_of field ≡ some s → field ≡ source_name s
unfolding source_of
source_of-name field native h = (eq_iff field "native").0 (ground arith)
source_of-name field import h = (eq_iff field "import").0 (ground arith)
source_of-name field interactive h = (eq_iff field "interactive").0 (ground arith)

mode_of-name : (field : String) (m : MinerStartMode) → mode_of field ≡ some m → field ≡ mode_name m
unfolding mode_of
mode_of-name field manual h = (eq_iff field "manual").0 (ground arith)
mode_of-name field on_boot h = (eq_iff field "on_boot").0 (ground arith)

-- Where the values give a profile, it is valid, and they are its description.
pub profile_of_values-Accepted :
    (values : List Entry) (p : RigProfile) → profile_of_values values ≡ ok p → Accepted values p
unfolding profile_of_values
profile_of_values-Accepted values p h =
    let (version, e1, h1) = >>=-eq-ok (require "RIGOS_CONFIG_VERSION" values) _ h in
    let (is_one, h2) = fail_if-eq-ok (not (text_eq version "1")) _ _ h1 in
    let (node, e3, h3) = >>=-eq-ok (require "NODE_NAME" values) _ h2 in
    let (slug, h4) = fail_if-eq-ok (not (valid_slug node 63)) _ _ h3 in
    let (zone, e5, h5) = >>=-eq-ok (require "TIMEZONE" values) _ h4 in
    let (zoned, h6) = fail_if-eq-ok (not (valid_timezone_name zone)) _ _ h5 in
    let (field, e7, h7) = >>=-eq-ok (require "FLIGHT_SOURCE" values) _ h6 in
    let (source, e8, h8) = ok_or-eq-ok (source_of field) _ _ h7 in
    let ref = field_of (get "FLIGHT_REF" values) in
    let (checked, e9, h9) = >>=-eq-ok (check_ref source ref values) _ h8 in
    let (mode_field, e10, h10) = >>=-eq-ok (require "MINER_START_MODE" values) _ h9 in
    let (mode, e11, h11) = ok_or-eq-ok (mode_of mode_field) _ _ h10 in
    let found : RigProfile = record {
      node_name = node;
      timezone = zone;
      flight_source = source;
      flight_ref = ref;
      miner_start_mode = mode;
    } in
    let e : found ≡ p = ok_injective h11 in
    let version_one : version ≡ "1" = (eq_iff version "1").0 (not-eq-false _ is_one) in
    subst (Accepted values) e (record {
      valid = record {
        node = (valid_slug_iff node 63).0 (not-eq-false _ slug);
        zone = valid_timezone_name-IsZone zone (not-eq-false _ zoned);
        reference = check_ref-fits source ref values e9;
      };
      described = record {
        version = require-field "RIGOS_CONFIG_VERSION" values version e1 ∙ ap some version_one;
        node = require-field "NODE_NAME" values node e3;
        zone = require-field "TIMEZONE" values zone e5;
        source =
            require-field "FLIGHT_SOURCE" values field e7
            ∙ ap some (source_of-name field source e8);
        reference = refl;
        mode =
            require-field "MINER_START_MODE" values mode_field e10
            ∙ ap some (mode_of-name mode_field mode e11);
      };
    })
