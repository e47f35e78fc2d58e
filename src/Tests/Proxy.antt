-- ===== src/Tests/Proxy.antt =====
-- Clients of a proxy.
use pgcluster.Prelude.{
  ◌<◌, String, ◌≡◌, refl, ◌↔◌, ◌⊎◌, true, false, none, some, [], ◌∷◌, length, sort_by,
}
use pgcluster.Dict.{get}
use pgcluster.Raft.Topology.{NodeConfig, ClusterTopology}
use pgcluster.Proxy.Router.{
  read_candidates, read_candidate, Router, best_replica_addr, read_backend, lag_of,
}
use pgcluster.Proxy.Router.Reads.{Readable, read_backend_cases}
use pgcluster.Proxy.Limits.{Admitted, with_caps, admit}
use pgcluster.Proxy.Limits.Accounting.{
  Served, connect, Reachable, start, next, IsAccounted, count, is_pending, is_pending_from,
  Reachable-IsAccounted, admit_iff,
}
use pgcluster.Proxy.Pool.{take_idle, Connection, Bucket, acquire_idle}
use pgcluster.Proxy.Pool.Accounting.{
  Reachable as PoolReachable, start as pool_start, next as pool_next,
}
use pgcluster.Tests.Data.{cluster}

abbrev lagging : ClusterTopology
lagging = record cluster { replica_lag_bytes = ("b", 7) ∷ ("c", 3) ∷ [] }

abbrev router : Router
router = record {
  topology = lagging;
  enabled = true;
  max_replica_lag_bytes = 5;
  draining = false;
  quorum = none;
}

best_is_c : best_replica_addr router ≡ some ("c", "c")
unfolding best_replica_addr sort_by read_candidates read_candidate lag_of
best_is_c = refl

reads_from_c : read_backend router ≡ some ("c", "c")
unfolding read_backend best_replica_addr sort_by read_candidates read_candidate lag_of
reads_from_c = refl

read_backend_cases_example :
    ((true ≡ true) × (cfg : NodeConfig) × Readable router "c" cfg × ("c" ≡ cfg.postgres_addr))
    ⊎ ((◌≡◌ {A = String} "c" "a")
        × (cfg : NodeConfig) × (get lagging.node_configs "c" ≡ some cfg)
        × ("c" ≡ cfg.postgres_addr)
        × ((id : String) (c : NodeConfig) → true ≡ true → Readable router id c → ⊥))
read_backend_cases_example = read_backend_cases router ("c", "c") reads_from_c

-- One client has connected from address 1.
abbrev served : Served
served = record {
  limits = (admit (with_caps 2 1 1) 1).0;
  clients = record { address = 1; has_permit = true } ∷ [];
}

served-Reachable : Reachable 2 1 1 served
unfolding admit with_caps
served-Reachable = next start (connect (with_caps 2 1 1) [] 1)

Reachable-IsAccounted_example : IsAccounted 2 1 1 served
Reachable-IsAccounted_example = Reachable-IsAccounted 2 1 1 served-Reachable

admit_iff_example : ((c : Admitted) × ((admit served.limits 2).1 ≡ some c)) ↔ (
    (length served.clients < 2)
    × (count is_pending served.clients < 1)
    × (count (is_pending_from 2) served.clients < 1))
admit_iff_example = admit_iff 2 1 1 served 2 served-Reachable

no_login_slot : (admit (with_caps 1 0 1) 4).1 ≡ none
unfolding admit with_caps
no_login_slot = refl

abbrev live : Connection
live = record { id = 1; alive = true; touched = 0 }

abbrev dead : Connection
dead = record { id = 2; alive = false; touched = 0 }

abbrev two_idle : Bucket
two_idle = record { idle = dead ∷ live ∷ []; total = 2; max = 2 }

abbrev emptied : Bucket
emptied = record { idle = []; total = 1; max = 2 }

takes_live : acquire_idle two_idle ≡ (emptied, some live)
unfolding acquire_idle take_idle
takes_live = refl
