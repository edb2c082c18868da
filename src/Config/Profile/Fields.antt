-- ===== src/Config/Profile/Fields.antt =====
-- crates/rigos-config/src/lib.rs: the profile that the values of rig.conf describe.
use Prim.Native.String
use text.Mathlib.Text.{◌==◌ as text_eq}
use rigos.Base.{
  ℕ, String, not, Option, none, some, List, Result, ok, err, ◌>>=◌, ◌>>◌, fail_if, ok_or,
  if◌then◌else◌,
}
use rigos.Config.Error.{ConfigError}
use rigos.Config.Names.{valid_slug, valid_timezone_name, safe_json_basename}
use rigos.Config.Profile.Lines.{Entry, conf_error, get}

pub data FlightSource : Type 0 where
  native import interactive : FlightSource

pub data MinerStartMode : Type 0 where
  manual on_boot : MinerStartMode

pub record RigProfile : Type 0 where
  pub node_name : String
  pub timezone : String
  pub flight_source : FlightSource
  pub flight_ref : Option String
  pub miner_start_mode : MinerStartMode

abbrev pub line_of : Option Entry → Option ℕ
line_of none = none
line_of (some e) = some e.line

abbrev pub field_of : Option Entry → Option String
field_of none = none
field_of (some e) = some e.field

abbrev pub invalid_value : String → List Entry → String → ConfigError
invalid_value key values message =
    conf_error "RIGOS_CONFIG_INVALID_VALUE" (line_of (get key values)) (some key) message

-- The closure `get`: a missing key is an error.
unfoldable pub require : String → List Entry → Result ConfigError String
require key values = ok_or (field_of (get key values)) (
    conf_error "RIGOS_CONFIG_INVALID_VALUE" none (some key)
      (String.◌++◌ "missing required key " key))

unfoldable pub source_of : String → Option FlightSource
source_of field =
    if text_eq field "native"
    then some native
    else if text_eq field "import"
    then some import
    else if text_eq field "interactive"
    then some interactive
    else none

unfoldable pub mode_of : String → Option MinerStartMode
mode_of field =
    if text_eq field "manual"
    then some manual
    else if text_eq field "on_boot"
    then some on_boot
    else none

-- The match on the source and the reference.
unfoldable pub check_ref : FlightSource → Option String → List Entry → Result ConfigError (Unit {0})
check_ref interactive none values = ok tt
check_ref interactive (some name) values =
    err (invalid_value "FLIGHT_REF" values "interactive source forbids FLIGHT_REF")
check_ref source none values = err (
    conf_error "RIGOS_CONFIG_INVALID_VALUE" none (some "FLIGHT_REF")
      "selected source requires FLIGHT_REF")
check_ref native (some name) values =
    fail_if (not (valid_slug name 64))
      (invalid_value "FLIGHT_REF" values "invalid flight sheet slug")
check_ref import (some name) values =
    fail_if (not (safe_json_basename name))
      (invalid_value "FLIGHT_REF" values "invalid import basename")

unfoldable pub profile_of_values : List Entry → Result ConfigError RigProfile
unfolding get require source_of mode_of check_ref
profile_of_values values = do
  version ← require "RIGOS_CONFIG_VERSION" values
  fail_if (not (text_eq version "1")) (
      conf_error "RIGOS_CONFIG_VERSION_UNSUPPORTED" (line_of (get "RIGOS_CONFIG_VERSION" values))
        (some "RIGOS_CONFIG_VERSION") "only config version 1 is supported")
  node_name ← require "NODE_NAME" values
  fail_if (not (valid_slug node_name 63))
      (invalid_value "NODE_NAME" values "node name is not hostname safe")
  timezone ← require "TIMEZONE" values
  fail_if (not (valid_timezone_name timezone))
      (invalid_value "TIMEZONE" values "invalid timezone name")
  source ← require "FLIGHT_SOURCE" values
  flight_source ←
      ok_or (source_of source)
        (invalid_value "FLIGHT_SOURCE" values "expected native import or interactive")
  let flight_ref = field_of (get "FLIGHT_REF" values)
  check_ref flight_source flight_ref values
  mode ← require "MINER_START_MODE" values
  miner_start_mode ←
      ok_or (mode_of mode) (invalid_value "MINER_START_MODE" values "expected manual or on_boot")
  ok (record {
    node_name = node_name;
    timezone = timezone;
    flight_source = flight_source;
    flight_ref = flight_ref;
    miner_start_mode = miner_start_mode;
  })
