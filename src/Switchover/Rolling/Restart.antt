-- ===== src/Switchover/Rolling/Restart.antt =====
-- pgcluster/src/switchover/rolling.rs: the restart of every node, standbys first, one at a time.
use pgcluster.Prelude.{
  ℕ, zero, suc, ◌+◌, String, Bool, true, false, Option, none, some, List, [], ◌∷◌, str_eq, leb,
  if◌then◌else◌, unwrap_or, any,
}
use pgcluster.Dict.{get}
use pgcluster.Raft.Topology.{ClusterTopology, NodeConfig}
use pgcluster.Agents.{Log, Run, World, checked, evicted, get_or_connect, stop_postgres}
use pgcluster.Failover.Candidate.{Arrival, Replies, pick_live_candidate}
use pgcluster.Monitor.Check.{Probe, check_node, unreachable_result, reached_result}
use pgcluster.Switchover.Handoff.{Outcome, completed}
use pgcluster.Switchover.Planned.{Plan, planned_switchover}
use pgcluster.Switchover.Rolling.{standbys_in_order}

-- What one round of a wait for a node reads.
pub record Look : Type 0 where
  pub now : ℕ
  pub topology : ClusterTopology
  pub probe : Probe

-- What a rolling restart is called with, and what it reads after each log. `look log n` is what
-- round n of the wait that began after `log` reads, and `start log` the time when it began. `le`
-- is the order of strings.
pub record Restart : Type 0 where
  pub world : World
  pub le : String → String → Bool
  pub current : Log → ClusterTopology
  pub start : Log → ℕ
  pub look : Log → ℕ → Look
  pub arrivals : Log → Arrival
  pub replies : Log → Replies
  -- The switchover, whose target is not yet known.
  pub switchover : Log → Plan

pub data Back : Type 0 where
  streaming late out_of_fuel : Back

-- Whether it was restarted.
unfoldable pub restart_node : World → ClusterTopology → String → Log → Run Bool
restart_node w t id log = elim (get t.node_configs id) [
  | none ↦ (log, false)
  | some cfg ↦
      let (log1, connects) = get_or_connect w log id cfg.agent_addr in
      let (log2, resp) = stop_postgres w log1 id in
      if connects then (log2, unwrap_or resp false) else (log1, false)
]

-- The check of the primary in a round.
unfoldable pub check_primary : NodeConfig → Probe → String → Log → Run (Option Back)
unfolding check_node unreachable_result reached_result
check_primary cfg probe id log =
    let (status, evicts) = check_node cfg.node_id probe in
    let seen = checked cfg.node_id status.streaming_standbys ∷ log in
    let log1 = if evicts then evicted cfg.node_id ∷ seen else seen in
    (log1, if any (λ n. str_eq n id) status.streaming_standbys then some streaming else none)

-- The body of a round; `none` goes on to the next.
unfoldable pub look_at : Option NodeConfig → Probe → String → Log → Run (Option Back)
look_at none probe id log = (log, none)
look_at (some cfg) probe id log = check_primary cfg probe id log

unfoldable pub look_once : Look → ℕ → String → Log → Run (Option Back)
unfolding look_at
look_once l deadline id log =
    if leb deadline l.now
    then (log, some late)
    else look_at (get l.topology.node_configs l.topology.primary_node_id) l.probe id log

-- The later rounds, unless the wait has ended.
abbrev pub or_later : (Log → Run Back) → Log × Option Back → Run Back
or_later later (log, none) = later log
or_later later (log, some end) = (log, end)

unfoldable pub look_rounds : ℕ → ℕ → (ℕ → Look) → ℕ → String → Log → Run Back
look_rounds zero n look deadline id log = (log, out_of_fuel)
look_rounds (suc fuel) n look deadline id log =
    or_later (look_rounds fuel (n + 1) look deadline id) (look_once (look n) deadline id log)

-- In nanoseconds: the timeout, and the sleep of a round.
abbrev pub catch_up_timeout : ℕ
catch_up_timeout = 120000000000

abbrev pub look_interval : ℕ
look_interval = 500000000

-- One round per interval, and one to see the deadline pass.
unfoldable pub wait_until_streaming : Restart → String → Log → Run Back
wait_until_streaming r id log =
    look_rounds 241 0 (r.look log) (r.start log + catch_up_timeout) id log

abbrev pub is_streaming : Back → Bool
is_streaming streaming = true
is_streaming late = false
is_streaming out_of_fuel = false

unfoldable pub restart_standby : Restart → ClusterTopology → String → Log → Run Bool
restart_standby r t id log =
    let (log1, restarted) = restart_node r.world t id log in
    let (log2, end) = wait_until_streaming r id log1 in
    if restarted then (log2, is_streaming end) else (log1, false)

unfoldable pub restart_standbys : Restart → ClusterTopology → List String → Log → Run Bool
restart_standbys r t [] log = (log, true)
restart_standbys r t (id ∷ ids) log =
    let (log1, ok) = restart_standby r t id log in
    let rest = restart_standbys r t ids log1 in if ok then rest else (log1, false)

abbrev pub with_target : Plan → String → Plan
with_target p target = record {
  setting = p.setting;
  seen = p.seen;
  start = p.start;
  current = p.current;
  new_primary_id = target;
  max_lag_bytes = p.max_lag_bytes;
  timeout = p.timeout;
  proxied = p.proxied;
}

abbrev pub is_completed : Option Outcome → Bool
is_completed (some completed) = true
is_completed o = false

unfoldable pub switch_over : Restart → ClusterTopology → Log → Run Bool
switch_over r t log =
    elim (pick_live_candidate (r.arrivals log) t t.primary_node_id (r.replies log)) [
      | none ↦ (log, false)
      | some (target, lsn) ↦
          let (log1, outcome) = planned_switchover (with_target (r.switchover log) target) log in
          let (log2, end) = wait_until_streaming r t.primary_node_id log1 in
          if is_completed outcome then (log2, is_streaming end) else (log1, false)
    ]

-- Whether it succeeded.
unfoldable pub rolling_restart : Restart → Log → Run Bool
rolling_restart r log =
    let t = r.current log in
    elim (standbys_in_order r.le t) [
      | none ↦ (log, false)
      | some standbys ↦
          let (log1, ok) = restart_standbys r t standbys log in
          let only = restart_node r.world t t.primary_node_id log1 in
          let switched = switch_over r t log1 in
          if ok then elim standbys [ [] ↦ only | s ∷ ss ↦ switched ] else (log1, false)
    ]
