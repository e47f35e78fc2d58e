-- ===== src/Raft/Topology/Standbys.antt =====
-- What pgcluster/src/raft/topology.rs derives from a topology: the standbys that commits wait for,
-- the address of a node, and which replicas are recent.
use pgcluster.Prelude.{
  ℕ, ◌-◌, String, Bool, true, false, not, ◌&&◌, Option, none, some, List, [], ◌∷◌, map, str_eq, ltb,
  leb, ◌==◌, if◌then◌else◌, unwrap_or, filter, any, sort_by, filter_map,
}
use Prim.Native.String.{compare, [] as nil, ◌∷◌ as ◌∷s◌, ◌++◌ as ◌+s+◌}
use Prim.Native.Char.{code}
use text.Mathlib.Text.{is_le}
use pgcluster.Dict.{get}
use pgcluster.Text.{rsplit_colon}
use pgcluster.Raft.Topology.{
  ClusterTopology, NodeConfig, NodeRole, replica, role_eq, ReplicationMode, async, sync,
  sync_strict, is_external, flush_lsn_of,
}

-- `id.replace('"', "\"\"")`
abbrev pub double_quotes : String → String
double_quotes nil = nil
double_quotes (c ∷s s) =
    let rest = double_quotes s in if code c == 34 then "\"\"" +s+ rest else c ∷s rest

abbrev pub quoted : String → String
quoted id = "\"" +s+ double_quotes id +s+ "\""

-- `quoted.join(", ")`
abbrev pub join_comma : List String → String
join_comma [] = ""
join_comma (s ∷ []) = s
join_comma (s ∷ t ∷ ss) = s +s+ ", " +s+ join_comma (t ∷ ss)

abbrev pub str_le : String → String → Bool
str_le a b = is_le (compare a b)

-- A node that commits may wait for.
abbrev pub may_confirm : ClusterTopology → String × NodeConfig → Bool
may_confirm t (id, cfg) = not (str_eq id t.primary_node_id) && not (is_external cfg)

abbrev pub any_of : List String → String
any_of [] = ""
any_of (s ∷ ss) = "ANY 1 (" +s+ join_comma (map quoted (s ∷ ss)) +s+ ")"

unfoldable pub standby_names : ClusterTopology → String
standby_names t = any_of (sort_by str_le (map (λ e. e.0) (filter (may_confirm t) t.node_configs)))

-- Commits wait for a standby now.
abbrev pub is_required : ReplicationMode → Bool → Bool
is_required async degraded = false
is_required sync degraded = not degraded
is_required sync_strict degraded = true

unfoldable pub synchronous_standby_names : ClusterTopology → String
unfolding standby_names
synchronous_standby_names t =
    if is_required t.replication_mode t.sync_degraded then standby_names t else ""

unfoldable pub postgres_host_port : NodeConfig → String × String
postgres_host_port cfg = unwrap_or (rsplit_colon cfg.postgres_addr) (cfg.postgres_addr, "5432")

-- `words` is `str::split_whitespace`.
unfoldable pub is_target_of : (String → List String) → NodeConfig → String → Bool
unfolding postgres_host_port
is_target_of words cfg conninfo =
    let (host, port) = postgres_host_port cfg in
    any (λ token. str_eq token ("host=" +s+ host)) (words conninfo)
    && any (λ token. str_eq token ("port=" +s+ port)) (words conninfo)

-- A replica whose recorded position is at most this far behind the primary's.
abbrev pub is_within_lag : ClusterTopology → ℕ → String × NodeRole → Bool
is_within_lag t max_lag (id, role) =
    role_eq role replica && leb (flush_lsn_of t t.primary_node_id - flush_lsn_of t id) max_lag

unfoldable pub replica_addrs_within_lag : ClusterTopology → ℕ → List String
replica_addrs_within_lag t max_lag =
    filter_map (λ e. elim (get t.node_configs e.0) [ none ↦ none | some c ↦ some c.postgres_addr ])
      (filter (is_within_lag t max_lag) t.node_roles)

abbrev pub candidate_priority : ClusterTopology → String → ℕ
candidate_priority t id = elim (get t.node_configs id) [ none ↦ 0 | some c ↦ c.priority ]

-- The order of `best_failover_candidate`: the higher position first, then the higher priority.
abbrev pub comes_first : ClusterTopology → String × NodeRole → String × NodeRole → Bool
comes_first t a b =
    if flush_lsn_of t a.0 == flush_lsn_of t b.0
    then leb (candidate_priority t b.0) (candidate_priority t a.0)
    else ltb (flush_lsn_of t b.0) (flush_lsn_of t a.0)

unfoldable pub best_failover_candidate : ClusterTopology → String → Option String
best_failover_candidate t failed =
    elim (sort_by (comes_first t)
      (filter (λ e. not (str_eq e.0 failed) && role_eq e.1 replica) t.node_roles)) [
        | [] ↦ none
        | e ∷ es ↦ some e.0
      ]
