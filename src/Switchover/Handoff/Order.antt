-- ===== src/Switchover/Handoff/Order.antt =====
-- In which order a switchover acts.
use pgcluster.Raft.Topology.{ClusterTopology, flush_lsn_of}
use pgcluster.Failover.Promote.{promote_node, verify_promotion, evict_unless, slot_name}
use pgcluster.Failover.Promote.Verified.{
  BecamePrimary, promote_node-Extends, verify_promotion-Extends,
}
use pgcluster.Failover.Trigger.{Setting, primary_url, conninfo, build_failover_event}
use pgcluster.Dict.{get}
use pgcluster.Switchover.Handoff.{
  settle, wait_for_position_to_settle, max_reads, other_nodes, handover, Handover, drain, old_id,
  conninfo_to_new, repoint_others, name_primary, restore_old, promote_new, stop_old, demote_old,
  execute_switchover,
}
use pgcluster.Agents.{
  demoted, proposed, slots_ensured, Log, IsOrdered, Needs, get_or_connect, demote, stop_postgres,
}
use pgcluster.Prelude.{
  String, ◌≡◌, refl, ◌⊎◌, inl, inr, Bool, true, false, none, some, ◌∷◌, map, arith, Option-cases,
  is_some, In,
}
use pgcluster.Raft.Command.{set_primary}
use pgcluster.Switchover.Handoff.Needs.{
  SteppedDown, switchover_needs, promote_node-IsOrdered, verify_promotion-IsOrdered,
  settle-IsOrdered, settle-Extends, repoint_replicas-IsOrdered, promoted-Became,
  SteppedDown-Extends,
}

module _ (h : Handover) where
  needs : Needs
  needs = switchover_needs (old_id h) h.new_primary_id

  name_primary-IsOrdered :
      (log : Log)
      → BecamePrimary h.new_primary_id log
      → IsOrdered needs log
      → IsOrdered needs (name_primary h log).0
  unfolding needs name_primary repoint_others IsOrdered BecamePrimary build_failover_event
  name_primary-IsOrdered log (i, status, j, p) ok =
      let s = h.setting in
      let others = other_nodes h.topology h.new_primary_id in
      let set = set_primary h.new_primary_id (flush_lsn_of h.topology h.new_primary_id) 0 in
      let log1 = drain h.proxied false (proposed set (s.world.commits log set) ∷ log) in
      let ensured =
        slots_ensured (primary_url h.new_cfg s.repl_user s.repl_password) (map (λ e. e.0) others)
        ∷ log1 in
      let became : BecamePrimary h.new_primary_id log = (i, status, j, p) in
      let still : BecamePrimary h.new_primary_id ensured =
        (ground arith, status, ground arith, p) in
      ground (
        arith,
        became,
        repoint_replicas-IsOrdered (old_id h) h.new_primary_id s.world ensured others
            (conninfo_to_new h) s.slot_prefix still,
      )

  restore_old-IsOrdered :
      (log : Log)
      → SteppedDown (old_id h) log
      → IsOrdered needs log
      → IsOrdered needs (restore_old h log).0
  unfolding needs restore_old IsOrdered
  restore_old-IsOrdered log down ok = ground (
    arith,
    promote_node-IsOrdered (old_id h) h.new_primary_id h.setting.world log (old_id h)
        h.old_cfg.agent_addr down ok,
  )

  promote_new-IsOrdered :
      (log : Log)
      → SteppedDown (old_id h) log
      → IsOrdered needs log
      → IsOrdered needs (promote_new h log).0
  unfolding needs promote_new wait_for_position_to_settle
  promote_new-IsOrdered log down ok =
      let w = h.setting.world in
      let old = old_id h in
      let id = h.new_primary_id in
      let addr = h.new_cfg.agent_addr in
      let log1 = (settle w max_reads log id addr none 0).0 in
      let log2 = (promote_node w log1 id addr).0 in
      let log3 = (verify_promotion w 3 log2 id addr).0 in
      let down1 =
        SteppedDown-Extends old log log1 (settle-Extends old id w max_reads log id addr none 0)
          down in
      let down2 = SteppedDown-Extends old log1 log2 (promote_node-Extends w log1 id addr) down1 in
      let down3 =
        SteppedDown-Extends old log2 log3 (verify_promotion-Extends w 3 log2 id addr) down2 in
      let ok1 = settle-IsOrdered old id w max_reads log id addr none 0 ok in
      let ok2 = promote_node-IsOrdered old id w log1 id addr down1 ok1 in
      let ok3 = verify_promotion-IsOrdered old id w 3 log2 id addr ok2 in
      ground (
        arith,
        promoted-Became old id w log1 addr,
        name_primary-IsOrdered log3,
        restore_old-IsOrdered log2 down2,
        restore_old-IsOrdered log3 down3,
      )

  stop_old-IsOrdered :
      (log : Log) (conninfo slot : String)
      → In (demoted (old_id h) conninfo slot (some true)) log
      → IsOrdered needs log
      → IsOrdered needs (stop_old h log).0
  unfolding needs stop_old IsOrdered
  stop_old-IsOrdered log conninfo slot i ok =
      let w = h.setting.world in
      let old = old_id h in
      let (log1, up) = get_or_connect w log old h.old_cfg.agent_addr in
      let (log2, resp) = stop_postgres w log1 old in
      let log3 = evict_unless (is_some resp) old log2 in
      let down : SteppedDown old log3 = (conninfo, slot, ground arith, resp, ground arith) in
      ground (arith, promote_new-IsOrdered log3 down)

  demote_old-IsOrdered : (log : Log) → IsOrdered needs log → IsOrdered needs (demote_old h log).0
  unfolding needs demote_old IsOrdered
  demote_old-IsOrdered log ok =
      let w = h.setting.world in
      let old = old_id h in
      let slot = slot_name h.setting.slot_prefix old in
      let (log1, up) = get_or_connect w log old h.old_cfg.agent_addr in
      let (log2, resp) = demote w log1 old (conninfo_to_new h) slot in
      let need : (old ≡ old) ⊎ BecamePrimary h.new_primary_id log1 = inl refl in
      ground (arith, need, stop_old-IsOrdered log2 (conninfo_to_new h) slot)

-- If every call of the log came after what it needs, then so it is after a switchover: it promotes
-- a node only after the old primary confirmed its demotion and was asked to stop; it names no node
-- but the target as the primary, and only after the target confirmed its promotion and reported
-- that it runs and is out of recovery; and it points a node other than the old primary at the
-- target only after that. This holds of a run that ends in an error, too.
pub execute_switchover-IsOrdered :
    (s : Setting) (t : ClusterTopology) (new_id : String) (proxied : Bool) (log : Log)
    → IsOrdered (switchover_needs t.primary_node_id new_id) log
    → IsOrdered
        (switchover_needs t.primary_node_id new_id)
        (execute_switchover s t new_id proxied log).0
unfolding execute_switchover IsOrdered needs
execute_switchover-IsOrdered s t new_id proxied log ok =
    elim (Option-cases (get t.node_configs t.primary_node_id)) [
      | inl e ↦ ground arith
      | inr (old_cfg, e) ↦ elim (Option-cases (get t.node_configs new_id)) [
        | inl f ↦ ground arith
        | inr (new_cfg, f) ↦ ground (
          arith,
          demote_old-IsOrdered (handover s t new_id proxied old_cfg new_cfg)
              (drain proxied true log),
        )
      ]
    ]
