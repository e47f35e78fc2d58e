-- ===== src/Switchover/Handoff.antt =====
-- pgcluster/src/switchover/handoff.rs: the hand-off of a planned switchover. The clock readings are
-- arguments. `no proxy` is a node without a local proxy, whose drain steps do nothing.
pub mod Settled
pub mod Needs
pub mod Order
pub mod Drain
use pgcluster.Prelude.{
  ℕ, zero, suc, ◌+◌, ◌-◌, ◌*◌, ◌/◌, ◌%◌, ◌^◌, ◌≤◌, ◌<◌, min, max, String, ◌≡◌, refl, sym, ap, subst,
  ◌∙◌, ◌≢◌, ◌↔◌, ◌⊎◌, inl, inr, Bool, true, false, not, ◌&&◌, ◌||◌, Option, none, some, List, [],
  ◌∷◌, ◌++◌, map, arith, str_eq, eq_iff, ltb, leb, ◌==◌, if◌then◌else◌, ltb→lt, lt→ltb, leb→le,
  le→leb, Bool-cases, Option-cases, is_some, unwrap_or, length, take, drop, filter, any,
  length-append, length-drop, length-filter-le, All, In, All-In, All-of-In, In-filter, In-filter-of,
  is_empty, sort_by, sort_by-IsSorted, In-sort_by, sort_by-In, IsSorted, length-sort_by, max_by,
  min_by, max_by-IsMax, max_by-In, min_by-IsMin, min_by-In, max_by-none, min_by-none, In-append,
  append-In, In-take, In-drop, In-split, take-append-drop, length-take, take-IsSorted,
  filter-IsSorted, take-le-drop, length-filter-and, length-filter_mono, Distinct, pigeonhole,
  In-map, map-In, length-map, filter_map, In-filter_map, filter_map-In,
}
use pgcluster.Dict.{
  Dict, get, insert, remove, or_insert, contains_key, IsMap, get-insert, get-remove, get-or_insert,
  insert-IsMap, remove-IsMap, or_insert-IsMap, In-get, get-In,
}
use pgcluster.Raft.Topology.{ClusterTopology, NodeConfig, flush_lsn_of}
use pgcluster.Raft.Command.{TopologyCommand, set_primary}
use pgcluster.Failover.Promote.{
  promote_node, verify_promotion, repoint_replicas, slot_name, evict_unless,
}
use pgcluster.Failover.Trigger.{Setting, conninfo, primary_url, build_failover_event, record_event}
use pgcluster.Agents.{
  Call, slots_ensured, draining, evicted, Log, World, Run, get_or_connect, promote, get_status,
  demote, stop_postgres, client_write,
}

abbrev pub steady_reads : ℕ
steady_reads = 3

abbrev pub max_reads : ℕ
max_reads = 50

-- `last == Some(position)`
abbrev pub same_position : Option ℕ → ℕ → Bool
same_position none position = false
same_position (some p) position = p == position

-- The new value of `steady`. The source compares it with `STEADY_READS` only when it has grown; 0
-- is never equal to that.
abbrev pub next_steady : Option ℕ → ℕ → ℕ → ℕ
next_steady last position steady = if same_position last position then steady + 1 else 0

-- The rounds of the loop that are left.
unfoldable pub settle : World → ℕ → Log → String → String → Option ℕ → ℕ → Run Bool
settle w zero log id addr last steady = (log, false)
settle w (suc n) log id addr last steady =
    let (log1, ok) = get_or_connect w log id addr in
    let (log2, status) = get_status w log1 id in
    if ok
    then elim status [
      | none ↦ (log2, false)
      | some s ↦
          let count = next_steady last s.received_lsn steady in
          let again = settle w n log2 id addr (some s.received_lsn) count in
          if count == steady_reads then (log2, true) else again
    ]
    else (log1, false)

unfoldable pub wait_for_position_to_settle : World → Log → String → String → Run Bool
wait_for_position_to_settle w log id addr = settle w max_reads log id addr none 0

-- How a switchover ends. Each error but the first two is an early return after the drain began.
pub data Outcome : Type 0 where
  completed unknown_old unknown_new not_demoted not_settled not_promoted not_committed : Outcome

-- The parts of a call of `execute_switchover` that do not change. `proxied`: a local proxy runs.
pub record Handover : Type 0 where
  pub setting : Setting
  pub topology : ClusterTopology
  pub new_primary_id : String
  pub proxied : Bool
  pub old_cfg : NodeConfig
  pub new_cfg : NodeConfig

abbrev pub handover : Setting → ClusterTopology → String → Bool → NodeConfig → NodeConfig → Handover
handover s t new_id proxied old_cfg new_cfg = record {
  setting = s;
  topology = t;
  new_primary_id = new_id;
  proxied = proxied;
  old_cfg = old_cfg;
  new_cfg = new_cfg;
}

abbrev pub drain : Bool → Bool → Log → Log
drain proxied on log = if proxied then draining on ∷ log else log

abbrev pub old_id : Handover → String
old_id h = h.topology.primary_node_id

abbrev pub conninfo_to_new : Handover → String
conninfo_to_new h =
    conninfo h.setting.host_port h.new_cfg h.setting.repl_user h.setting.repl_password

-- `topology.node_configs.values()`, without the new primary.
unfoldable pub other_nodes : ClusterTopology → String → List (String × String)
other_nodes t new_id =
    map (λ e. (e.1.node_id, e.1.agent_addr))
      (filter (λ e. not (str_eq e.1.node_id new_id)) t.node_configs)

-- Step 5, and the event.
unfoldable pub repoint_others : Handover → Log → Log
repoint_others h log =
    let s = h.setting in
    let others = other_nodes h.topology h.new_primary_id in
    let log1 =
      slots_ensured (primary_url h.new_cfg s.repl_user s.repl_password) (map (λ e. e.0) others)
      ∷ log in
    let (log2, errors) = repoint_replicas s.world log1 others (conninfo_to_new h) s.slot_prefix in
    let event =
      build_failover_event (old_id h) h.new_primary_id s.clock "planned_switchover" false in
    let (log3, recorded) = client_write s.world log2 (record_event event) in log3

-- Step 4.
unfoldable pub name_primary : Handover → Log → Run Outcome
name_primary h log =
    let at_lsn = flush_lsn_of h.topology h.new_primary_id in
    let (log1, ok) = client_write h.setting.world log (set_primary h.new_primary_id at_lsn 0) in
    if ok then (repoint_others h (drain h.proxied false log1), completed) else (log1, not_committed)

-- The error path of step 3: the old primary is promoted back.
unfoldable pub restore_old : Handover → Log → Run Outcome
restore_old h log =
    let (log1, restored) = promote_node h.setting.world log (old_id h) h.old_cfg.agent_addr in
    (drain h.proxied false log1, not_promoted)

-- Step 3.
unfoldable pub promote_new : Handover → Log → Run Outcome
promote_new h log =
    let w = h.setting.world in
    let (log1, settled) = wait_for_position_to_settle w log h.new_primary_id h.new_cfg.agent_addr in
    let (log2, promoted) = promote_node w log1 h.new_primary_id h.new_cfg.agent_addr in
    let (log3, verified) = verify_promotion w 3 log2 h.new_primary_id h.new_cfg.agent_addr in
    if settled
    then (if promoted
        then (if verified then name_primary h log3 else restore_old h log3)
        else restore_old h log2)
    else (log1, not_settled)

-- Step 2. A stop that fails is only logged; a connection that cannot be made ends the switchover.
unfoldable pub stop_old : Handover → Log → Run Outcome
stop_old h log =
    let w = h.setting.world in
    let (log1, ok) = get_or_connect w log (old_id h) h.old_cfg.agent_addr in
    let (log2, resp) = stop_postgres w log1 (old_id h) in
    if ok then promote_new h (evict_unless (is_some resp) (old_id h) log2) else (log1, not_demoted)

-- Step 1.
unfoldable pub demote_old : Handover → Log → Run Outcome
demote_old h log =
    let w = h.setting.world in
    let (log1, ok) = get_or_connect w log (old_id h) h.old_cfg.agent_addr in
    let (log2, resp) =
      demote w log1 (old_id h) (conninfo_to_new h) (slot_name h.setting.slot_prefix (old_id h)) in
    if ok
    then (if unwrap_or resp false then stop_old h log2 else (log2, not_demoted))
    else (log1, not_demoted)

unfoldable pub execute_switchover : Setting → ClusterTopology → String → Bool → Log → Run Outcome
execute_switchover s t new_id proxied log = elim (get t.node_configs t.primary_node_id) [
  | none ↦ (log, unknown_old)
  | some old_cfg ↦ elim (get t.node_configs new_id) [
    | none ↦ (log, unknown_new)
    | some new_cfg ↦
        demote_old (handover s t new_id proxied old_cfg new_cfg) (drain proxied true log)
  ]
]
