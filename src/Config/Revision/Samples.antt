-- ===== src/Config/Revision/Samples.antt =====
-- A proposal and an identity for the tests of commits.
use rigos.Base.{true, none, [], ◌∷◌}
use rigos.Config.Identity.{IdentityRecord}
use rigos.Config.Profile.Fields.{interactive, on_boot}
use rigos.Config.Proposal.{Proposal}
use rigos.Config.Sheet.{FlightSheet, count}

abbrev pub owner : IdentityRecord
owner = record {
  schema = "rigos.identity/v1";
  alias = "w1";
  kind = "mining_identity";
  value = "4ALz";
  created_locally = true;
}

abbrev pub other_identity : IdentityRecord
other_identity = record owner { alias = "w2" }

abbrev pub flight_sheet : FlightSheet
flight_sheet = record {
  schema = "rigos.flight-sheet/v1";
  name = "xmr";
  coin = "XMR";
  backend = "xmrig";
  algorithm = "rx/0";
  pools = record { host = "a.example"; port = 443; tls = true; priority = 0 } ∷ [];
  identity_ref = "w1";
  worker_template = "x-{node_name}";
  cpu = record { threads = count 4; huge_pages = true; max_threads_hint = 100 };
}

abbrev pub proposal : Proposal
proposal = record {
  schema = "rigos.proposal/v1";
  profile = record {
    node_name = "rig01";
    timezone = "UTC";
    flight_source = interactive;
    flight_ref = none;
    miner_start_mode = on_boot;
  };
  flight_sheet = flight_sheet;
  provenance = none;
  source_sha256 = "00";
}
