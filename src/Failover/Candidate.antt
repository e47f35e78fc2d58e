-- ===== src/Failover/Candidate.antt =====
-- pgcluster/src/failover/candidate.rs. The agents' replies are an argument, and so is the order in
-- which the checks, which run side by side, come back. The eviction of a channel that failed is left
-- out.
pub mod Best
pub mod Strict
use pgcluster.Prelude.{
  ℕ, zero, suc, ◌+◌, ◌-◌, ◌*◌, ◌/◌, ◌%◌, ◌^◌, ◌≤◌, ◌<◌, min, max, String, ◌≡◌, refl, sym, ap, subst,
  ◌∙◌, ◌≢◌, ◌↔◌, ◌⊎◌, inl, inr, Bool, true, false, not, ◌&&◌, ◌||◌, Option, none, some, List, [],
  ◌∷◌, ◌++◌, map, arith, str_eq, eq_iff, ltb, leb, ◌==◌, if◌then◌else◌, ltb→lt, lt→ltb, leb→le,
  le→leb, Bool-cases, Option-cases, is_some, unwrap_or, length, take, drop, filter, any,
  length-append, length-drop, length-filter-le, All, In, All-In, All-of-In, In-filter, In-filter-of,
  is_empty, sort_by, sort_by-IsSorted, In-sort_by, sort_by-In, IsSorted, length-sort_by, max_by,
  min_by, max_by-IsMax, max_by-In, min_by-IsMin, min_by-In, max_by-none, min_by-none, In-append,
  append-In, In-take, In-drop, In-split, take-append-drop, length-take, take-IsSorted,
  filter-IsSorted, take-le-drop, length-filter-and, length-filter_mono, Distinct, pigeonhole,
}
use pgcluster.Dict.{
  Dict, get, insert, remove, or_insert, contains_key, IsMap, get-insert, get-remove, get-or_insert,
  insert-IsMap, remove-IsMap, or_insert-IsMap, In-get, get-In,
}
use pgcluster.Raft.Topology.{
  ClusterTopology, NodeConfig, NodeRole, replica, role_eq, ReplicationMode, async, sync,
  sync_strict, is_external,
}

-- What `get_status` reports, as far as it is read here.
pub record NodeStatus : Type 0 where
  pub postgres_running : Bool
  pub is_in_recovery : Bool
  pub received_lsn : ℕ
  pub replayed_lsn : ℕ

-- The reply of the agent of a node at an address; `none` if the call fails or times out.
abbrev pub Replies : Type 0
Replies = String → String → Option NodeStatus

abbrev pub Position : Type 0
Position = String × ℕ

-- The last `match` of the check of one standby.
unfoldable pub position_of : String → Option NodeStatus → Option Position
position_of id none = none
position_of id (some s) =
    if s.postgres_running && s.is_in_recovery
    then some (id, max s.received_lsn s.replayed_lsn)
    else none

-- One round of the loop of `live_positions`, and the check that it spawns.
unfoldable pub check_standby :
    ClusterTopology → String → Replies → String → NodeRole → Option Position
unfolding position_of
check_standby t failed reply id role =
    if str_eq id failed || not (role_eq role replica) then none else elim (get t.node_configs id) [
      | none ↦ none
      | some cfg ↦ if is_external cfg then none else position_of id (reply id cfg.agent_addr)
    ]

abbrev keep_some : Option Position → List Position → List Position
keep_some none ps = ps
keep_some (some p) ps = p ∷ ps

unfoldable pub collect : ClusterTopology → String → Replies → Dict NodeRole → List Position
collect t failed reply [] = []
collect t failed reply ((id, role) ∷ rs) =
    keep_some (check_standby t failed reply id role) (collect t failed reply rs)

-- The order of arrival: any rearrangement.
pub record Arrival : Type 0 where
  pub arrange : List Position → List Position
  pub arranged : (p : Position) (ps : List Position) → In p (arrange ps) → In p ps
  pub arrives : (p : Position) (ps : List Position) → In p ps → In p (arrange ps)
  pub same_length : (ps : List Position) → length (arrange ps) ≡ length ps

unfoldable pub live_positions : Arrival → ClusterTopology → String → Replies → List Position
live_positions a t failed reply = a.arrange (collect t failed reply t.node_roles)

abbrev pub priority_of : ClusterTopology → String → ℕ
priority_of t id = elim (get t.node_configs id) [ none ↦ 0 | some c ↦ c.priority ]

-- The order of the keys `(lsn, priority)`.
abbrev pub ranks_below : ClusterTopology → Position → Position → Bool
ranks_below t p q = if p.1 == q.1 then leb (priority_of t p.0) (priority_of t q.0) else ltb p.1 q.1

unfoldable pub rank_positions : ClusterTopology → List Position → Option Position
rank_positions t positions = max_by (ranks_below t) positions

-- The standbys that `SyncStrict` waits for.
abbrev pub is_standby : String → String × NodeConfig → Bool
is_standby failed entry = not (str_eq entry.0 failed) && not (is_external entry.1)

unfoldable pub pick_live_candidate : Arrival → ClusterTopology → String → Replies → Option Position
pick_live_candidate a t failed reply =
    let positions = live_positions a t failed reply in
    let best = rank_positions t positions in
    elim t.replication_mode [
      | async ↦ best
      | sync ↦ best
      | sync_strict ↦
          if ltb (length positions) (length (filter (is_standby failed) t.node_configs))
          then none
          else best
    ]
