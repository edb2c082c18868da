-- ===== src/Config/Identity/Examples.antt =====
-- An identity, and the theorem at it.
use rigos.Base.{◌≡◌, ◌↔◌, refl, true, ok}
use rigos.Base.Text.{bytes}
use rigos.Base.Text.Ascii.{is_whitespace, is_control}
use rigos.Config.Names.{valid_slug}
use rigos.Config.Identity.{IdentityRecord, validate_identity}
use rigos.Config.Identity.Valid.{IsIdentity, validate_identity_iff}

abbrev wallet : IdentityRecord
wallet = record {
  schema = "rigos.identity/v1";
  alias = "wallet-1";
  kind = "mining_identity";
  value = "4ALzuDU7w3DLrKxsK3cpqz8V53ikhUpaoc1FWaC5zRpyikShYBixim85";
  created_locally = true;
}

wallet_valid : validate_identity wallet ≡ ok tt
unfolding validate_identity valid_slug bytes is_whitespace is_control
wallet_valid = refl

validate_identity_iff_example : (validate_identity wallet ≡ ok tt) ↔ IsIdentity wallet
validate_identity_iff_example = validate_identity_iff wallet
