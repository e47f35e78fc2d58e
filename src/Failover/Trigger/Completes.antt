-- ===== src/Failover/Trigger/Completes.antt =====
-- What a failover reaches when the candidate's agent does its part.
use pgcluster.Prelude.{
  ℕ, suc, String, ◌≡◌, refl, sym, ap, subst, inl, inr, Bool, true, some, List, [], ◌∷◌, map, arith,
  if◌then◌else◌, is_some, filter, In, In-filter-of, map-In,
}
use pgcluster.Dict.{get}
use pgcluster.Raft.Topology.{ClusterTopology, NodeConfig}
use pgcluster.Raft.Command.{set_primary}
use pgcluster.Failover.Candidate.{Replies, Arrival, pick_live_candidate, NodeStatus}
use pgcluster.Failover.Promote.{
  promote_node, verify_promotion, repoint_replicas, evict_unless, slot_name, is_primary,
}
use pgcluster.Failover.Promote.Verified.{repoint_replicas-Extends}
use pgcluster.Failover.Trigger.{
  Setting, conninfo, primary_url, record_event, build_failover_event, repoint_remaining,
  install_primary, promote_candidate, trigger_failover, replicas_to_repoint, follows,
}
use pgcluster.Agents.{
  connected, evicted, proposed, slots_ensured, Log, World, Extends, get_or_connect, demote,
}

-- The agent of a node answers: it can be reached, confirms a promotion, and then reports a primary.
pub record Cooperates (w : World) (id addr : String) : Type 0 where
  pub reachable : (l : Log) → w.connects l id addr ≡ true
  pub promotes : (l : Log) → w.promotes l id ≡ some true
  pub status : NodeStatus
  pub reports : (l : Log) → w.statuses l id ≡ some status
  pub primary : is_primary status ≡ true

promote_node-confirms :
    (w : World) (log : Log) (id addr : String)
    → Cooperates w id addr
    → (promote_node w log id addr).1 ≡ true
unfolding promote_node
promote_node-confirms w log id addr good =
    ground (arith, good.reachable log, good.promotes (connected id (w.connects log id addr) ∷ log))

verify_promotion-sees :
    (w : World) (n : ℕ) (log : Log) (id addr : String)
    → Cooperates w id addr
    → (verify_promotion w (suc n) log id addr).1 ≡ true
unfolding verify_promotion
verify_promotion-sees w n log id addr good = ground (
  arith,
  good.reachable log,
  good.reports (connected id (w.connects log id addr) ∷ log),
  good.primary,
)

-- Each node of the list is tried.
repoint_replicas-tries :
    (w : World) (log : Log) (rs : List (String × String)) (conninfo prefix id addr : String)
    → In (id, addr) rs
    → (ok : Bool) × In (connected id ok) (repoint_replicas w log rs conninfo prefix).0
unfolding repoint_replicas
repoint_replicas-tries w log [] conninfo prefix id addr i = absurd i
repoint_replicas-tries w log ((at, to) ∷ rs) conninfo prefix id addr i =
    let (log1, ok) = get_or_connect w log at to in
    let (log2, resp) = demote w log1 at conninfo (slot_name prefix at) in
    let log3 = if ok then evict_unless (is_some resp) at log2 else evicted at ∷ log1 in
    elim i [
      | inl e ↦ (
        w.connects log at to,
        subst
            (λ x.
              In (connected x (w.connects log at to))
                (repoint_replicas w log3 rs conninfo prefix).0)
            (ap (λ x. x.0) e)
            (repoint_replicas-Extends w log3 rs conninfo prefix
              (connected at (w.connects log at to)) (ground arith)),
      )
      | inr r ↦ repoint_replicas-tries w log3 rs conninfo prefix id addr r
    ]

repoint_remaining-Extends :
    (s : Setting) (log : Log) (cfg : NodeConfig) (rs : List (String × String))
    → Extends log (repoint_remaining s log cfg rs)
unfolding repoint_remaining
repoint_remaining-Extends s log cfg [] c i = i
repoint_remaining-Extends s log cfg (r ∷ rs) c i =
    repoint_replicas-Extends s.world
      (slots_ensured (primary_url cfg s.repl_user s.repl_password) (map (λ e. e.0) (r ∷ rs)) ∷ log)
      (r ∷ rs) (conninfo s.host_port cfg s.repl_user s.repl_password) s.slot_prefix c (inr i)

repoint_remaining-tries :
    (s : Setting) (log : Log) (cfg : NodeConfig) (rs : List (String × String)) (id addr : String)
    → In (id, addr) rs
    → (ok : Bool) × In (connected id ok) (repoint_remaining s log cfg rs)
unfolding repoint_remaining
repoint_remaining-tries s log cfg [] id addr i = absurd i
repoint_remaining-tries s log cfg (r ∷ rs) id addr i =
    repoint_replicas-tries s.world
      (slots_ensured (primary_url cfg s.repl_user s.repl_password) (map (λ e. e.0) (r ∷ rs)) ∷ log)
      (r ∷ rs) (conninfo s.host_port cfg s.repl_user s.repl_password) s.slot_prefix id addr i

-- What a completed failover has done.
pub record IsComplete (t : ClusterTopology) (failed candidate : String) (at_lsn : ℕ) (log : Log)
    : Type 0 where
  pub named : (ok : Bool) × In (proposed (set_primary candidate at_lsn 1) ok) log
  pub tried :
      (id : String) (cfg : NodeConfig)
      → In (id, cfg) t.node_configs
      → follows t failed candidate (id, cfg) ≡ true
      → (ok : Bool) × In (connected id ok) log

install_primary-IsComplete :
    (s : Setting) (t : ClusterTopology) (failed : String) (log : Log) (candidate : String)
    (at_lsn : ℕ) (cfg : NodeConfig)
    → IsComplete t failed candidate at_lsn (install_primary s t failed log candidate at_lsn cfg)
unfolding install_primary replicas_to_repoint
install_primary-IsComplete s t failed log candidate at_lsn cfg =
    let set = set_primary candidate at_lsn 1 in
    let log1 = proposed set (s.world.commits log set) ∷ log in
    let command =
      record_event
        (build_failover_event failed candidate s.clock "health_check_failure" t.sync_degraded) in
    let log2 = proposed command (s.world.commits log1 command) ∷ log1 in
    let rs =
      map (λ e. (e.0, e.1.agent_addr)) (filter (follows t failed candidate) t.node_configs) in
    record {
      named = (
        s.world.commits log set,
        repoint_remaining-Extends s log2 cfg rs (proposed set (s.world.commits log set))
            (inr (inl refl)),
      );
      tried = λ id c known may. repoint_remaining-tries s log2 cfg rs id c.agent_addr (
          map-In (λ e. (e.0, e.1.agent_addr)) (id, c)
            (filter (follows t failed candidate) t.node_configs)
            (In-filter-of (follows t failed candidate) (id, c) t.node_configs known may));
    }

-- If a candidate is found and configured, and its agent can always be reached, confirms a
-- promotion, and reports a running primary, then the failover proposes that candidate as the
-- primary, and tries to reach every other configured node except the failed one whose role is
-- replica, unknown or missing.
pub trigger_failover-IsComplete :
    (s : Setting) (a : Arrival) (reply : Replies) (t : ClusterTopology) (failed : String)
    (log : Log) (candidate : String) (at_lsn : ℕ) (cfg : NodeConfig)
    → pick_live_candidate a t failed reply ≡ some (candidate, at_lsn)
    → get t.node_configs candidate ≡ some cfg
    → Cooperates s.world candidate cfg.agent_addr
    → IsComplete t failed candidate at_lsn (trigger_failover s a reply t failed log)
unfolding trigger_failover promote_candidate
trigger_failover-IsComplete s a reply t failed log candidate at_lsn cfg picked found good =
    let log1 = (promote_node s.world log candidate cfg.agent_addr).0 in
    let log2 = (verify_promotion s.world 3 log1 candidate cfg.agent_addr).0 in
    let did = promote_node-confirms s.world log candidate cfg.agent_addr good in
    let saw = verify_promotion-sees s.world 2 log1 candidate cfg.agent_addr good in
    let same : trigger_failover s a reply t failed log
        ≡ install_primary s t failed log2 candidate at_lsn cfg =
      ground arith in
    subst (IsComplete t failed candidate at_lsn) (sym same)
      (install_primary-IsComplete s t failed log2 candidate at_lsn cfg)
