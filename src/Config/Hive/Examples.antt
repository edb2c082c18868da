-- ===== src/Config/Hive/Examples.antt =====
-- A workload of the import, and the theorems at it.
use rigos.Base.{String, ◌≡◌, ◌≢◌, panic, refl, true, false, some, List, [], ◌∷◌, ok}
use rigos.Base.Text.{bytes}
use rigos.Base.Text.Search.{rsplit_once}
use rigos.Config.Sheet.{Pool}
use rigos.Config.Hive.Pools.{import_pools, hive_pools, scheme_of, parse_u16}
use rigos.Config.Hive.Pools.Endpoints.{Endpoints, import_pools-Endpoints}
use rigos.Config.Hive.Pools.Read.{Read, hive_pools-Read, hive_pools-not_panic}
use rigos.Config.Hive.{
  Value, bool, string, array, object, nil, cons, Members, no_members, member, get, hive_workload,
  hive_miner_config, strict_string_list, strict_bool_list, lifecycle_warnings,
}
use rigos.Config.Hive.Workload.{IsWorkload, hive_workload-IsWorkload}

abbrev urls : Value
urls = array (cons (string "a.example:3333") (cons (string "b.example:3333") nil))

abbrev tls : Value
tls = array (cons (bool true) (cons (bool false) nil))

abbrev config : Members
config = member "url" urls (member "algo" (string "rx/0") no_members)

abbrev workload : Members
workload = member "coin" (string "XMR") (member "miner_config" (object config) no_members)

abbrev envelope : Members
envelope =
    member "items" (array (cons (object workload) nil)) (member "enabled" (bool true) no_members)

abbrev two : List String
two = "a.example:3333" ∷ "b.example:3333" ∷ []

urls_read : strict_string_list (some urls) "s.json" "url" ≡ ok two
unfolding strict_string_list
urls_read = refl

tls_read : strict_bool_list (some tls) 2 "s.json" ≡ ok (true ∷ false ∷ [])
unfolding strict_bool_list
tls_read = refl

one_item : hive_workload envelope "s.json" ≡ ok workload
unfolding hive_workload
one_item = refl

hive_workload-IsWorkload_example : IsWorkload envelope workload
hive_workload-IsWorkload_example = hive_workload-IsWorkload envelope "s.json" workload one_item

own_config : hive_miner_config envelope workload "s.json" ≡ ok (config, true)
unfolding hive_miner_config
own_config = refl

noted : lifecycle_warnings envelope workload ≡ "lifecycle field enabled was not imported" ∷ []
unfolding lifecycle_warnings get
noted = refl

abbrev schemes : List String
schemes = "stratum+ssl://a.example:3333" ∷ "b.example:04444" ∷ []

abbrev imported : List Pool
imported =
    record { host = "a.example"; port = 3333; tls = true; priority = 0 }
    ∷ record { host = "b.example"; port = 4444; tls = false; priority = 1 }
    ∷ []

pools_read : import_pools "s.json" schemes (true ∷ false ∷ []) 0 ≡ ok imported
unfolding import_pools bytes scheme_of parse_u16 rsplit_once
pools_read = refl

import_pools-Endpoints_example : Endpoints schemes (true ∷ false ∷ []) 0 imported
import_pools-Endpoints_example =
    import_pools-Endpoints "s.json" schemes (true ∷ false ∷ []) 0 imported pools_read

-- The same pools as members of a workload.
abbrev mining : Members
mining =
    member "pools"
      (array (cons (string "stratum+ssl://a.example:3333") (cons (string "b.example:04444") nil)))
      (member "pool_ssl" tls no_members)

mining_read : hive_pools "s.json" mining ≡ ok imported
unfolding hive_pools import_pools bytes scheme_of parse_u16 rsplit_once get strict_string_list
    strict_bool_list
mining_read = refl

hive_pools-not_panic_example : hive_pools "s.json" mining ≢ panic
hive_pools-not_panic_example = hive_pools-not_panic "s.json" mining

hive_pools-Read_example : Read mining imported
hive_pools-Read_example = hive_pools-Read "s.json" mining imported mining_read
