-- ===== src/Config/Proposal/Examples.antt =====
-- A proposal at the theorems on build_runtime.
use rigos.Base.{◌≡◌, ◌↔◌, ◌^◌, ◌%◌, refl, true, ok, arith}
use rigos.Base.Text.Format.{decimal}
use rigos.Config.Hive.Pools.{endpoint, scheme_of}
use rigos.Config.Identity.Valid.{IsIdentity}
use rigos.Config.Proposal.{build_runtime, policy_of, xmrig_of, pool_url}
use rigos.Config.Proposal.Built.{Resolves, build_runtime_iff}
use rigos.Config.Proposal.Urls.{endpoint-pool_url}
use rigos.Config.Revision.Samples.{owner, proposal}
use rigos.Config.Sheet.{Pool}

build_runtime_iff_example :
    (build_runtime proposal owner ≡ ok (policy_of proposal owner, xmrig_of proposal owner))
    ↔ (IsIdentity owner × Resolves "w1" "w1")
build_runtime_iff_example = build_runtime_iff proposal owner

abbrev pool : Pool
pool = record { host = "a.example"; port = 4443; tls = true; priority = 0 }

pool_url_text : pool_url pool ≡ "a.example:4443"
unfolding pool_url decimal
pool_url_text = refl

endpoint-pool_url_example :
    endpoint "import.json" (pool_url pool) true 3 ≡ ok (record pool { priority = 3 % 2 ^ 16 })
unfolding scheme_of pool_url decimal
endpoint-pool_url_example = endpoint-pool_url "import.json" pool 3 (omega arith) refl
