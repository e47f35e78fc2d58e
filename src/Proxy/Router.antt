-- ===== src/Proxy/Router.antt =====
-- pgcluster/src/proxy/router.rs. A router reads the topology of its watch: the current one is a
-- field.
pub mod Reads
use pgcluster.Prelude.{
  ℕ, zero, suc, ◌+◌, ◌-◌, ◌*◌, ◌/◌, ◌%◌, ◌^◌, ◌≤◌, ◌<◌, min, max, String, ◌≡◌, refl, sym, ap, subst,
  ◌∙◌, ◌≢◌, ◌↔◌, ◌⊎◌, inl, inr, Bool, true, false, not, ◌&&◌, ◌||◌, Option, none, some, List, [],
  ◌∷◌, ◌++◌, map, arith, str_eq, eq_iff, ltb, leb, ◌==◌, if◌then◌else◌, ltb→lt, lt→ltb, leb→le,
  le→leb, Bool-cases, Option-cases, is_some, unwrap_or, length, take, drop, filter, any,
  length-append, length-drop, length-filter-le, All, In, All-In, All-of-In, In-filter, In-filter-of,
  is_empty, sort_by, sort_by-IsSorted, In-sort_by, sort_by-In, IsSorted, length-sort_by, max_by,
  min_by, max_by-IsMax, max_by-In, min_by-IsMin, min_by-In, max_by-none, min_by-none, In-append,
  append-In, In-take, In-drop, In-split, take-append-drop, length-take, take-IsSorted,
  filter-IsSorted, take-le-drop, length-filter-and, length-filter_mono, Distinct, pigeonhole,
  In-map, map-In, length-map, filter_map, In-filter_map, filter_map-In,
}
use pgcluster.Dict.{
  Dict, get, insert, remove, or_insert, contains_key, IsMap, get-insert, get-remove, get-or_insert,
  insert-IsMap, remove-IsMap, or_insert-IsMap, In-get, get-In,
}
use pgcluster.Raft.Topology.{
  ClusterTopology, NodeConfig, NodeRole, replica, role_eq, primary_postgres_addr,
}
use pgcluster.Raft.Lease.{QuorumLease, is_held}

pub record Router : Type 0 where
  pub topology : ClusterTopology
  pub enabled : Bool
  pub max_replica_lag_bytes : ℕ
  pub draining : Bool
  pub quorum : Option QuorumLease

unfoldable pub new_router : ClusterTopology → Bool → ℕ → Router
new_router t enabled max_lag = record {
  topology = t;
  enabled = enabled;
  max_replica_lag_bytes = max_lag;
  draining = false;
  quorum = none;
}

unfoldable pub with_quorum : Router → QuorumLease → Router
with_quorum r quorum = record r { quorum = some quorum }

unfoldable pub has_quorum : Router → ℕ → Bool
has_quorum r now = elim r.quorum [ none ↦ true | some q ↦ is_held q now ]

unfoldable pub begin_drain : Router → Router
begin_drain r = record r { draining = true }

unfoldable pub end_drain : Router → Router
end_drain r = record r { draining = false }

unfoldable pub primary_addr : Router → Option String
primary_addr r = primary_postgres_addr r.topology

unfoldable pub primary_node_id : Router → Option String
primary_node_id r =
    if is_empty r.topology.primary_node_id then none else some r.topology.primary_node_id

-- A node, its configuration and its lag.
abbrev pub ReadCandidate : Type 0
ReadCandidate = String × NodeConfig × ℕ

unfoldable pub lag_of : ClusterTopology → String → ℕ
lag_of t id = unwrap_or (get t.replica_lag_bytes id) 0

-- The chain of filters over `node_roles`, for one entry.
unfoldable pub read_candidate : ClusterTopology → ℕ → String × NodeRole → Option ReadCandidate
read_candidate t max_lag (id, role) =
    if role_eq role replica
    then elim (get t.node_configs id) [
      | none ↦ none
      | some cfg ↦ if leb (lag_of t id) max_lag then some (id, cfg, lag_of t id) else none
    ]
    else none

unfoldable pub read_candidates : ClusterTopology → ℕ → List ReadCandidate
read_candidates t max_lag = filter_map (read_candidate t max_lag) t.node_roles

abbrev pub lag_le : ReadCandidate → ReadCandidate → Bool
lag_le a b = leb a.2 b.2

-- `into_iter().next()`
abbrev pub first : List ReadCandidate → Option (String × String)
first [] = none
first (c ∷ cs) = some (c.0, c.1.postgres_addr)

unfoldable pub best_replica_addr : Router → Option (String × String)
best_replica_addr r = first (sort_by lag_le (read_candidates r.topology r.max_replica_lag_bytes))

unfoldable pub fall_back : Router → Option (String × String)
fall_back r = elim (get r.topology.node_configs r.topology.primary_node_id) [
  | none ↦ none
  | some c ↦ some (r.topology.primary_node_id, c.postgres_addr)
]

unfoldable pub read_backend : Router → Option (String × String)
read_backend r =
    if r.enabled
    then elim (best_replica_addr r) [ none ↦ fall_back r | some b ↦ some b ]
    else fall_back r
