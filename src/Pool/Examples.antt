-- ===== src/Pool/Examples.antt =====
-- Runs of the validation, some of them those of the tests of the crate.
use rigos.Base.{◌≡◌, ◌↔◌, refl, List, [], ◌∷◌, none, ok, err}
use rigos.Base.Text.{bytes}
use rigos.Base.Text.Ascii.{is_whitespace}
use rigos.Base.Text.Chars.{to_ascii_lowercase}
use rigos.Base.Text.Ip.{is_ip}
use rigos.Base.Text.Search.{ends_with, split, trim, trim_start, trim_end}
use rigos.Pool.{
  PoolProfile, PoolEndpoint, BackendCapabilities, mining_identity, auto, explicit, required, xmrig,
  valid_host, validate_profile, check_endpoints, bad_endpoint, bad_id, duplicate_endpoint,
  invalid_endpoint, unsupported_algorithm,
}
use rigos.Pool.Usable.{IsUsable, validate_profile_iff}

abbrev custom : List PoolEndpoint → PoolProfile
custom endpoints = record {
  id = "custom";
  display_name = "Custom";
  endpoints = endpoints;
  authentication = mining_identity "wallet.worker" none;
  algorithm = auto;
  tls = required;
  backend = xmrig;
}

abbrev nothing_known : BackendCapabilities
nothing_known = record { algorithms = [] }

abbrev pool_example : PoolEndpoint
pool_example = record { host = "pool.example.net"; port = 3333 }

accepts : validate_profile (custom (pool_example ∷ [])) nothing_known ≡ ok tt
unfolding validate_profile check_endpoints bad_endpoint bad_id valid_host is_ip bytes is_whitespace
    to_ascii_lowercase ends_with split trim trim_start trim_end
accepts = refl

rejects_url :
    validate_profile
      (custom (record { host = "stratum+tcp://wallet@pool.example"; port = 3333 } ∷ []))
      nothing_known
    ≡ err invalid_endpoint
unfolding validate_profile check_endpoints bad_endpoint bad_id valid_host is_ip bytes is_whitespace
    to_ascii_lowercase ends_with split trim trim_start trim_end
rejects_url = refl

-- The same host in other letters is a duplicate.
rejects_duplicate :
    validate_profile
      (custom (pool_example ∷ record { host = "POOL.example.net"; port = 3333 } ∷ []))
      nothing_known
    ≡ err duplicate_endpoint
unfolding validate_profile check_endpoints bad_endpoint bad_id valid_host is_ip bytes is_whitespace
    to_ascii_lowercase ends_with split trim trim_start trim_end
rejects_duplicate = refl

rejects_algorithm :
    validate_profile
      (record (custom (pool_example ∷ [])) { algorithm = explicit "unknown/9" })
      nothing_known
    ≡ err unsupported_algorithm
unfolding validate_profile check_endpoints bad_endpoint bad_id valid_host is_ip bytes is_whitespace
    to_ascii_lowercase ends_with split trim trim_start trim_end
rejects_algorithm = refl

validate_profile_iff_example :
    (validate_profile (custom (pool_example ∷ [])) nothing_known ≡ ok tt)
    ↔ IsUsable nothing_known (custom (pool_example ∷ []))
validate_profile_iff_example = validate_profile_iff (custom (pool_example ∷ [])) nothing_known
