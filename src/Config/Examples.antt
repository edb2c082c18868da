-- ===== src/Config/Examples.antt =====
-- Tests of the names, sheets and profiles, and the theorems at concrete inputs.
use rigos.Base.{
  ℕ, String, ◌≡◌, refl, true, false, ok, err, List, [], ◌∷◌, some, none, if◌then◌else◌, ◌||◌,
}
use Prim.Native.String
use rigos.Base.Text.{bytes, is_empty}
use rigos.Base.Text.Search.{contains, ends_with, split}
use rigos.Base.Text.Chars.{to_ascii_lowercase}
use rigos.Config.Error.{error}
use rigos.Config.Names.{
  valid_slug, valid_host, valid_timezone_name, safe_json_basename, safe_join, components, normal,
}
use rigos.Config.Names.Safe.{safe_join-eq-if, components-safe_json_basename}
use rigos.Config.Sheet.{
  Pool, FlightSheet, auto, validate_sheet, bad_metadata, bad_identity, bad_number, check_pools,
}
use rigos.Config.Sheet.Laws.{Accepted, validate_sheet-Accepted, validate_sheet_of_valid}
use rigos.Base.Sort.{sort}
use rigos.Config.Profile.{parse_rig_profile}
use rigos.Config.Profile.Fields.{RigProfile, import, manual}
use rigos.Config.Profile.Accepts.{Parsed, parse_rig_profile-Parsed}

safe_join-eq-if_example : safe_join "/efi" "sheet.json" ≡ (
    if safe_json_basename "sheet.json"
    then ok (
        if is_empty "/efi" || ends_with "/" "/efi"
        then String.◌++◌ "/efi" "sheet.json"
        else String.◌++◌ "/efi" (String.◌++◌ "/" "sheet.json"))
    else err (error "RIGOS_CONFIG_INVALID_VALUE" none none (some "FLIGHT_REF") "unsafe filename"))
safe_join-eq-if_example = safe_join-eq-if "/efi" "sheet.json"

joined : safe_join "/efi" "sheet.json" ≡ ok "/efi/sheet.json"
unfolding safe_join safe_json_basename ends_with contains bytes
joined = refl

hidden_refused : safe_json_basename "../a.json" ≡ false
unfolding safe_json_basename bytes
hidden_refused = refl

sheet_safe : safe_json_basename "sheet.json" ≡ true
unfolding safe_json_basename ends_with contains bytes
sheet_safe = refl

components-safe_json_basename_example : components "sheet.json" ≡ normal "sheet.json" ∷ []
components-safe_json_basename_example = components-safe_json_basename "sheet.json" sheet_safe

abbrev pool : String → ℕ → Pool
pool host priority = record { host = host; port = 3333; tls = true; priority = priority }

abbrev sheet_of : List Pool → FlightSheet
sheet_of pools = record {
  schema = "rigos.flight-sheet/v1";
  name = "xmr-ssl";
  coin = "XMR";
  backend = "xmrig";
  algorithm = "rx/0";
  pools = pools;
  identity_ref = "wallet-1";
  worker_template = "{node_name}";
  cpu = record { threads = auto "auto"; huge_pages = true; max_threads_hint = 75 };
}

abbrev mixed : FlightSheet
mixed = sheet_of (pool "B.example" 2 ∷ pool "a.example" 0 ∷ [])

abbrev ordered : FlightSheet
ordered = sheet_of (pool "a.example" 0 ∷ pool "b.example" 2 ∷ [])

mixed_accepted : validate_sheet mixed "s.json" ≡ ok ordered
unfolding validate_sheet bad_metadata bad_identity bad_number check_pools valid_slug valid_host sort
    bytes to_ascii_lowercase split
mixed_accepted = refl

validate_sheet-Accepted_example : Accepted mixed ordered
validate_sheet-Accepted_example = validate_sheet-Accepted mixed ordered "s.json" mixed_accepted

validate_sheet_of_valid_example : validate_sheet ordered "t.json" ≡ ok ordered
validate_sheet_of_valid_example =
    validate_sheet_of_valid ordered
      (Accepted.valid (validate_sheet-Accepted mixed ordered "s.json" mixed_accepted)) "t.json"

abbrev conf : String
conf =
    "# rig\nRIGOS_CONFIG_VERSION=1\nNODE_NAME=rig01\n\nTIMEZONE=Asia/Bangkok\nFLIGHT_SOURCE=import\nFLIGHT_REF=sheet.json\nMINER_START_MODE=manual\n"

abbrev profile : RigProfile
profile = record {
  node_name = "rig01";
  timezone = "Asia/Bangkok";
  flight_source = import;
  flight_ref = some "sheet.json";
  miner_start_mode = manual;
}

conf_parsed : parse_rig_profile (bytes conf) ≡ ok profile
unfolding parse_rig_profile bytes valid_slug valid_timezone_name safe_json_basename contains
    ends_with split
conf_parsed = refl

parse_rig_profile-Parsed_example : Parsed (bytes conf) profile
parse_rig_profile-Parsed_example = parse_rig_profile-Parsed (bytes conf) profile conf_parsed
