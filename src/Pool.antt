-- ===== src/Pool.antt =====
-- crates/rigos-pool/src/lib.rs: pool profiles and their validation.
pub mod Host
pub mod Endpoints
pub mod Usable
mod Examples
use text.Mathlib.Text.{◌==◌ as text_eq, starts_with}
use Prim.Native.String.{len}
use rigos.Base.{
  ℕ, String, Bool, true, false, not, ◌&&◌, ◌||◌, Option, none, some, List, [], ◌∷◌, Result, ok, err,
  ◌>>=◌, ◌>>◌, fail_if, leb, ◌==◌, all, any, is_empty as none_of, if◌then◌else◌,
}
use rigos.Base.Text.{all_bytes, any_char, is_empty}
use rigos.Base.Text.Ascii.{is_ascii_lowercase, is_ascii_digit, is_ascii_alphanumeric, is_whitespace}
use rigos.Base.Text.Chars.{to_ascii_lowercase}
use rigos.Base.Text.Ip.{is_ip}
use rigos.Base.Text.Search.{ends_with, split, trim}

pub record PoolEndpoint : Type 0 where
  pub host : String
  pub port : ℕ

pub data PoolAuthentication : Type 0 where
  mining_identity : String → Option String → PoolAuthentication

pub data AlgorithmSelection : Type 0 where
  auto : AlgorithmSelection
  explicit : String → AlgorithmSelection

pub data TlsPolicy : Type 0 where
  disabled required : TlsPolicy

pub data MinerBackendId : Type 0 where
  xmrig : MinerBackendId

pub record PoolProfile : Type 0 where
  pub id : String
  pub display_name : String
  pub endpoints : List PoolEndpoint
  pub authentication : PoolAuthentication
  pub algorithm : AlgorithmSelection
  pub tls : TlsPolicy
  pub backend : MinerBackendId

pub record PoolTemplate : Type 0 where
  pub id : String
  pub display_name : String
  pub backend : MinerBackendId

abbrev pub built_in_templates : List PoolTemplate
built_in_templates =
    record { id = "moneroocean"; display_name = "MoneroOcean"; backend = xmrig }
    ∷ record { id = "2miners"; display_name = "2Miners"; backend = xmrig }
    ∷ record { id = "nicehash-stratum"; display_name = "NiceHash Stratum"; backend = xmrig }
    ∷ record { id = "supportxmr"; display_name = "SupportXMR"; backend = xmrig }
    ∷ record { id = "herominers"; display_name = "HeroMiners"; backend = xmrig }
    ∷ record { id = "hashvault"; display_name = "HashVault"; backend = xmrig }
    ∷ record { id = "nanopool"; display_name = "Nanopool"; backend = xmrig }
    ∷ record { id = "custom-stratum"; display_name = "Custom Stratum"; backend = xmrig }
    ∷ []

pub data PoolProfileError : Type 0 where
  invalid_id empty_display_name missing_endpoint invalid_endpoint duplicate_endpoint
        invalid_authentication unsupported_algorithm :
      PoolProfileError

-- The set of algorithms stands as a list.
pub record BackendCapabilities : Type 0 where
  pub algorithms : List String

abbrev pub label_byte : ℕ → Bool
label_byte b = is_ascii_alphanumeric b || b == b'-'

abbrev pub valid_label : String → Bool
valid_label label =
    not (is_empty label)
    && leb (len label) 63
    && not (starts_with label "-")
    && not (ends_with "-" label)
    && all_bytes label_byte label

abbrev pub url_char : ℕ → Bool
url_char c = c == b'/' || c == b'@' || c == b':'

unfoldable pub valid_host : String → Bool
valid_host host =
    if is_ip host
    then true
    else if is_empty host || any_char url_char host || any_char is_whitespace host
    then false
    else all valid_label (split b'.' host)

abbrev pub id_byte : ℕ → Bool
id_byte b = is_ascii_lowercase b || is_ascii_digit b || b == b'-'

unfoldable pub bad_id : String → Bool
bad_id id = is_empty id || not (all_bytes id_byte id)

-- An entry of the set `endpoints`.
abbrev pub endpoint_key : PoolEndpoint → String × ℕ
endpoint_key endpoint = (to_ascii_lowercase endpoint.host, endpoint.port)

abbrev pub same_key : String × ℕ → String × ℕ → Bool
same_key a b = text_eq a.0 b.0 && a.1 == b.1

unfoldable pub bad_endpoint : PoolEndpoint → Bool
bad_endpoint endpoint = not (valid_host endpoint.host) || endpoint.port == 0

-- The loop over the endpoints, with the set of those it has met.
unfoldable pub check_endpoints :
    List (String × ℕ) → List PoolEndpoint → Result PoolProfileError (Unit {0})
check_endpoints met [] = ok tt
check_endpoints met (endpoint ∷ rest) = do
  fail_if (bad_endpoint endpoint) invalid_endpoint
  fail_if (any (same_key (endpoint_key endpoint)) met) duplicate_endpoint
  check_endpoints (endpoint_key endpoint ∷ met) rest

abbrev pub bad_authentication : PoolAuthentication → Bool
bad_authentication (mining_identity identity credential_ref) =
    is_empty identity || any_char is_whitespace identity

abbrev pub unsupported : BackendCapabilities → AlgorithmSelection → Bool
unsupported capabilities auto = false
unsupported capabilities (explicit algorithm) =
    not (any (text_eq algorithm) capabilities.algorithms)

unfoldable pub validate_profile :
    PoolProfile → BackendCapabilities → Result PoolProfileError (Unit {0})
unfolding check_endpoints
validate_profile profile capabilities = do
  fail_if (bad_id profile.id) invalid_id
  fail_if (is_empty (trim profile.display_name)) empty_display_name
  fail_if (none_of profile.endpoints) missing_endpoint
  check_endpoints [] profile.endpoints
  fail_if (bad_authentication profile.authentication) invalid_authentication
  fail_if (unsupported capabilities profile.algorithm) unsupported_algorithm
