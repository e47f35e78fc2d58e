-- ===== src/Failover/Trigger.antt =====
-- pgcluster/src/failover/mod.rs and events.rs: the flow of one failover. The clock readings are
-- arguments, and so is `host_port`, the split of a Postgres address at its last colon.
pub mod Calls
pub mod Order
pub mod Completes
use pgcluster.Prelude.{
  ℕ, zero, suc, ◌+◌, ◌-◌, ◌*◌, ◌/◌, ◌%◌, ◌^◌, ◌≤◌, ◌<◌, min, max, String, ◌≡◌, refl, sym, ap, subst,
  ◌∙◌, ◌≢◌, ◌↔◌, ◌⊎◌, inl, inr, Bool, true, false, not, ◌&&◌, ◌||◌, Option, none, some, List, [],
  ◌∷◌, ◌++◌, map, arith, str_eq, eq_iff, ltb, leb, ◌==◌, if◌then◌else◌, ltb→lt, lt→ltb, leb→le,
  le→leb, Bool-cases, Option-cases, is_some, unwrap_or, length, take, drop, filter, any,
  length-append, length-drop, length-filter-le, All, In, All-In, All-of-In, In-filter, In-filter-of,
  is_empty, sort_by, sort_by-IsSorted, In-sort_by, sort_by-In, IsSorted, length-sort_by, max_by,
  min_by, max_by-IsMax, max_by-In, min_by-IsMin, min_by-In, max_by-none, min_by-none, In-append,
  append-In, In-take, In-drop, In-split, take-append-drop, length-take, take-IsSorted,
  filter-IsSorted, take-le-drop, length-filter-and, length-filter_mono, Distinct, pigeonhole,
  In-map, map-In, length-map, filter_map, In-filter_map, filter_map-In,
}
use Prim.Native.String.{◌++◌ as ◌+s+◌}
use pgcluster.Dict.{
  Dict, get, insert, remove, or_insert, contains_key, IsMap, get-insert, get-remove, get-or_insert,
  insert-IsMap, remove-IsMap, or_insert-IsMap, In-get, get-In,
}
use pgcluster.Raft.Topology.{
  ClusterTopology, NodeConfig, NodeRole, primary, replica, offline, maintenance, unknown,
  FailoverEvent,
}
use pgcluster.Raft.Command.{TopologyCommand, set_primary, record_failover}
use pgcluster.Failover.Candidate.{Replies, Arrival, Position, pick_live_candidate}
use pgcluster.Failover.Promote.{promote_node, verify_promotion, repoint_replicas}
use pgcluster.Agents.{Call, slots_ensured, Log, World, Run, client_write}

abbrev pub HostPort : Type 0
HostPort = NodeConfig → String × String

unfoldable pub conninfo : HostPort → NodeConfig → String → String → String
conninfo host_port cfg user password =
    "host="
    +s+ (host_port cfg).0
    +s+ " port="
    +s+ (host_port cfg).1
    +s+ " user="
    +s+ user
    +s+ " password="
    +s+ password

abbrev pub primary_url : NodeConfig → String → String → String
primary_url cfg user password =
    "postgres://" +s+ user +s+ ":" +s+ password +s+ "@" +s+ cfg.postgres_addr +s+ "/postgres"

-- The clock at the end of the flow, and the time since its start in milliseconds.
pub record Clock : Type 0 where
  pub now_unix : ℕ
  pub elapsed_ms : ℕ

unfoldable pub build_failover_event : String → String → Clock → String → Bool → FailoverEvent
build_failover_event old_primary new_primary clock reason ran_degraded = record {
  old_primary = old_primary;
  new_primary = new_primary;
  triggered_at = clock.now_unix;
  duration_ms = clock.elapsed_ms % 2 ^ 64;
  reason = reason;
  ran_degraded = ran_degraded;
}

-- The command that records an event.
abbrev pub record_event : FailoverEvent → TopologyCommand
record_event e =
    record_failover e.old_primary e.new_primary e.triggered_at e.duration_ms e.reason e.ran_degraded

-- `matches!(role, Replica | Unknown | None)`
abbrev pub may_follow : Option NodeRole → Bool
may_follow none = true
may_follow (some primary) = false
may_follow (some replica) = true
may_follow (some offline) = false
may_follow (some maintenance) = false
may_follow (some unknown) = true

abbrev pub follows : ClusterTopology → String → String → String × NodeConfig → Bool
follows t failed candidate (id, cfg) =
    not (str_eq id failed) && not (str_eq id candidate) && may_follow (get t.node_roles id)

unfoldable pub replicas_to_repoint : ClusterTopology → String → String → List (String × String)
replicas_to_repoint t failed candidate =
    map (λ e. (e.0, e.1.agent_addr)) (filter (follows t failed candidate) t.node_configs)

-- What the flow is called with.
pub record Setting : Type 0 where
  pub world : World
  pub host_port : HostPort
  pub clock : Clock
  pub repl_user : String
  pub repl_password : String
  pub slot_prefix : String

-- Step 5.
unfoldable pub repoint_remaining : Setting → Log → NodeConfig → List (String × String) → Log
repoint_remaining s log cfg [] = log
repoint_remaining s log cfg (r ∷ rs) =
    let log1 =
      slots_ensured (primary_url cfg s.repl_user s.repl_password) (map (λ e. e.0) (r ∷ rs)) ∷ log in
    let (log2, errors) =
      repoint_replicas s.world log1 (r ∷ rs) (conninfo s.host_port cfg s.repl_user s.repl_password)
        s.slot_prefix in
    log2

-- Steps 3 to 5. A write to the Raft log that fails is only logged.
unfoldable pub install_primary :
    Setting → ClusterTopology → String → Log → String → ℕ → NodeConfig → Log
install_primary s t failed log candidate at_lsn cfg =
    let (log1, set) = client_write s.world log (set_primary candidate at_lsn 1) in
    let event =
      build_failover_event failed candidate s.clock "health_check_failure" t.sync_degraded in
    let (log2, recorded) = client_write s.world log1 (record_event event) in
    repoint_remaining s log2 cfg (replicas_to_repoint t failed candidate)

-- Step 2.
unfoldable pub promote_candidate :
    Setting → ClusterTopology → String → Log → String → ℕ → NodeConfig → Log
promote_candidate s t failed log candidate at_lsn cfg =
    let (log1, promoted) = promote_node s.world log candidate cfg.agent_addr in
    let (log2, verified) = verify_promotion s.world 3 log1 candidate cfg.agent_addr in
    if promoted
    then (if verified then install_primary s t failed log2 candidate at_lsn cfg else log2)
    else log1

unfoldable pub trigger_failover : Setting → Arrival → Replies → ClusterTopology → String → Log → Log
trigger_failover s a reply t failed log = elim (pick_live_candidate a t failed reply) [
  | none ↦ log
  | some (candidate, at_lsn) ↦ elim (get t.node_configs candidate) [
    | none ↦ log
    | some cfg ↦ promote_candidate s t failed log candidate at_lsn cfg
  ]
]
