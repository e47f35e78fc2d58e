-- ===== src/Failover/Trigger/Calls.antt =====
-- Which calls the failover of pgcluster/src/failover makes: what each of these calls keeps, it keeps.
use pgcluster.Prelude.{
  ℕ, zero, suc, String, ◌≡◌, refl, Bool, true, false, Option, none, some, List, [], ◌∷◌, map,
  if◌then◌else◌, is_some, if-case,
}
use pgcluster.Dict.{get}
use pgcluster.Raft.Topology.{ClusterTopology, NodeConfig}
use pgcluster.Raft.Command.{TopologyCommand, set_primary, record_failover}
use pgcluster.Failover.Candidate.{NodeStatus, Arrival, Replies, pick_live_candidate}
use pgcluster.Failover.Promote.{
  promote_node, verify_promotion, repoint_replicas, evict_unless, slot_name, is_primary,
}
use pgcluster.Failover.Trigger.{
  Setting, repoint_remaining, install_primary, promote_candidate, trigger_failover, primary_url,
  conninfo, record_event, build_failover_event, replicas_to_repoint,
}
use pgcluster.Agents.{
  Call, connected, evicted, promoted, status_read, demoted, proposed, slots_ensured, Log, World,
  get_or_connect, get_status, demote, client_write,
}

abbrev pub is_failover_command : TopologyCommand → Bool
is_failover_command (set_primary id lsn timeline) = true
is_failover_command (record_failover old new at took reason degraded) = true
is_failover_command command = false

abbrev pub is_failover_call : Call → Bool
is_failover_call (connected id ok) = true
is_failover_call (evicted id) = true
is_failover_call (promoted id resp) = true
is_failover_call (status_read id status) = true
is_failover_call (demoted id info slot resp) = true
is_failover_call (proposed command ok) = is_failover_command command
is_failover_call (slots_ensured url ids) = true
is_failover_call c = false

module _ (P : Log → Type 0)
    (step : (c : Call) (log : Log) → is_failover_call c ≡ true → P log → P (c ∷ log)) where
  evict_unless-keeps : (ok : Bool) (id : String) (log : Log) → P log → P (evict_unless ok id log)
  evict_unless-keeps true id log h = h
  evict_unless-keeps false id log h = step (evicted id) log refl h

  -- The last `match` of a round of the verification.
  abbrev after_status : Option NodeStatus → Log × Bool → Log → Log × Bool
  after_status o again log = elim o [
    | none ↦ again
    | some s ↦ if is_primary s then (log, true) else again
  ]

  status-keeps :
      (o : Option NodeStatus) (again : Log × Bool) (log : Log)
      → P again.0
      → P log
      → P (after_status o again log).0
  status-keeps none again log h k = h
  status-keeps (some s) again log h k =
      if-case {A = Log × Bool} (λ x. P x.0) (is_primary s) (log, true) again k h

  pub connect-keeps :
      (w : World) (log : Log) (id addr : String) → P log → P (get_or_connect w log id addr).0
  connect-keeps w log id addr h = step (connected id (w.connects log id addr)) log refl h

  promote_node-keeps :
      (w : World) (log : Log) (id addr : String) → P log → P (promote_node w log id addr).0
  unfolding promote_node
  promote_node-keeps w log id addr h =
      let (log1, ok) = get_or_connect w log id addr in
      let one = connect-keeps w log id addr h in
      if-case {A = Log × Bool} (λ x. P x.0) ok _ _
        (step (promoted id (w.promotes log1 id)) log1 refl one) one

  verify_promotion-keeps :
      (w : World) (n : ℕ) (log : Log) (id addr : String)
      → P log
      → P (verify_promotion w n log id addr).0
  unfolding verify_promotion
  verify_promotion-keeps w zero log id addr h = h
  verify_promotion-keeps w (suc n) log id addr h =
      let (log1, ok) = get_or_connect w log id addr in
      let (log2, status) = get_status w log1 id in
      let one = connect-keeps w log id addr h in
      let two = step (status_read id status) log1 refl one in
      let again =
        verify_promotion-keeps w n (evict_unless (is_some status) id log2) id addr
          (evict_unless-keeps (is_some status) id log2 two) in
      if-case {A = Log × Bool} (λ x. P x.0) ok _ _ (status-keeps status _ log2 again two) one

  repoint_replicas-keeps :
      (w : World) (log : Log) (rs : List (String × String)) (info prefix : String)
      → P log
      → P (repoint_replicas w log rs info prefix).0
  unfolding repoint_replicas
  repoint_replicas-keeps w log [] info prefix h = h
  repoint_replicas-keeps w log ((id, addr) ∷ rs) info prefix h =
      let (log1, ok) = get_or_connect w log id addr in
      let one = connect-keeps w log id addr h in
      let (log2, resp) = demote w log1 id info (slot_name prefix id) in
      let two = step (demoted id info (slot_name prefix id) resp) log1 refl one in
      let log3 = if ok then evict_unless (is_some resp) id log2 else evicted id ∷ log1 in
      repoint_replicas-keeps w log3 rs info prefix (
        if-case P ok _ _ (evict_unless-keeps (is_some resp) id log2 two)
          (step (evicted id) log1 refl one))

  repoint_remaining-keeps :
      (s : Setting) (log : Log) (cfg : NodeConfig) (rs : List (String × String))
      → P log
      → P (repoint_remaining s log cfg rs)
  unfolding repoint_remaining
  repoint_remaining-keeps s log cfg [] h = h
  repoint_remaining-keeps s log cfg (r ∷ rs) h =
      let call =
        slots_ensured (primary_url cfg s.repl_user s.repl_password) (map (λ e. e.0) (r ∷ rs)) in
      repoint_replicas-keeps s.world (call ∷ log) (r ∷ rs)
        (conninfo s.host_port cfg s.repl_user s.repl_password) s.slot_prefix (step call log refl h)

  promote_candidate-keeps :
      (s : Setting) (t : ClusterTopology) (failed : String) (log : Log) (id : String) (lsn : ℕ)
      (cfg : NodeConfig)
      → P log
      → P (promote_candidate s t failed log id lsn cfg)
  unfolding promote_candidate install_primary
  promote_candidate-keeps s t failed log id lsn cfg h =
      let (log1, yes_promoted) = promote_node s.world log id cfg.agent_addr in
      let one = promote_node-keeps s.world log id cfg.agent_addr h in
      let (log2, verified) = verify_promotion s.world 3 log1 id cfg.agent_addr in
      let two = verify_promotion-keeps s.world 3 log1 id cfg.agent_addr one in
      let (log3, set) = client_write s.world log2 (set_primary id lsn 1) in
      let three = step (proposed (set_primary id lsn 1) set) log2 refl two in
      let event = build_failover_event failed id s.clock "health_check_failure" t.sync_degraded in
      let (log4, recorded) = client_write s.world log3 (record_event event) in
      let four = step (proposed (record_event event) recorded) log3 refl three in
      if-case P yes_promoted _ _
        (if-case P verified _ _
          (repoint_remaining-keeps s log4 cfg (replicas_to_repoint t failed id) four) two)
        one

  pub trigger_failover-keeps :
      (s : Setting) (a : Arrival) (reply : Replies) (t : ClusterTopology) (failed : String)
      (log : Log)
      → P log
      → P (trigger_failover s a reply t failed log)
  unfolding trigger_failover
  trigger_failover-keeps s a reply t failed log h = go (pick_live_candidate a t failed reply)
    where
      go_at :
          (o : Option NodeConfig) (id : String) (lsn : ℕ)
          → P (elim o [ none ↦ log | some cfg ↦ promote_candidate s t failed log id lsn cfg ])
      go_at none id lsn = h
      go_at (some cfg) id lsn = promote_candidate-keeps s t failed log id lsn cfg h

      go :
          (o : Option (String × ℕ))
          → P (elim o [
            | none ↦ log
            | some (id, lsn) ↦ elim (get t.node_configs id) [
              | none ↦ log
              | some cfg ↦ promote_candidate s t failed log id lsn cfg
            ]
          ])
      go none = h
      go (some (id, lsn)) = go_at (get t.node_configs id) id lsn
