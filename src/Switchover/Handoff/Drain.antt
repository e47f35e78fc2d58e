-- ===== src/Switchover/Handoff/Drain.antt =====
-- When the proxy goes on draining after a switchover.
use pgcluster.Prelude.{
  ℕ, zero, suc, String, ◌≡◌, refl, inl, inr, Bool, true, false, Option, none, some, List, [], ◌∷◌,
  map, arith, if◌then◌else◌, Option-cases, is_some,
}
use pgcluster.Dict.{get}
use pgcluster.Raft.Command.{set_primary}
use pgcluster.Raft.Topology.{flush_lsn_of, ClusterTopology}
use pgcluster.Failover.Promote.{
  promote_node, verify_promotion, repoint_replicas, evict_unless, slot_name,
}
use pgcluster.Failover.Trigger.{primary_url, Setting}
use pgcluster.Switchover.Handoff.{
  handover, other_nodes, next_steady, settle, wait_for_position_to_settle, max_reads, Outcome,
  completed, unknown_old, unknown_new, not_demoted, not_settled, not_promoted, not_committed,
  Handover, old_id, conninfo_to_new, repoint_others, name_primary, restore_old, promote_new,
  stop_old, demote_old, execute_switchover,
}
use pgcluster.Agents.{
  proposed, slots_ensured, evicted, draining, Log, World, get_or_connect, get_status, demote,
  stop_postgres,
}

-- The flag of the router, which is off at first.
unfoldable pub is_draining : Log → Bool
is_draining [] = false
is_draining (draining on ∷ log) = on
is_draining (c ∷ log) = is_draining log

module _ (w : World) where
  promote_node-is_draining :
      (log : Log) (id addr : String) → is_draining (promote_node w log id addr).0 ≡ is_draining log
  unfolding promote_node is_draining
  promote_node-is_draining log id addr = ground arith

  verify_promotion-is_draining :
      (n : ℕ) (log : Log) (id addr : String)
      → is_draining (verify_promotion w n log id addr).0 ≡ is_draining log
  unfolding verify_promotion is_draining
  verify_promotion-is_draining zero log id addr = refl
  verify_promotion-is_draining (suc n) log id addr =
      let (log1, ok) = get_or_connect w log id addr in
      let (log2, status) = get_status w log1 id in
      ground (arith, verify_promotion-is_draining n (evict_unless (is_some status) id log2) id addr)

  repoint_replicas-is_draining :
      (log : Log) (rs : List (String × String)) (conninfo prefix : String)
      → is_draining (repoint_replicas w log rs conninfo prefix).0 ≡ is_draining log
  unfolding repoint_replicas is_draining
  repoint_replicas-is_draining log [] conninfo prefix = refl
  repoint_replicas-is_draining log ((id, addr) ∷ rs) conninfo prefix =
      let (log1, ok) = get_or_connect w log id addr in
      let (log2, resp) = demote w log1 id conninfo (slot_name prefix id) in
      let log3 = if ok then evict_unless (is_some resp) id log2 else evicted id ∷ log1 in
      ground (arith, repoint_replicas-is_draining log3 rs conninfo prefix)

  settle-is_draining :
      (n : ℕ) (log : Log) (id addr : String) (last : Option ℕ) (steady : ℕ)
      → is_draining (settle w n log id addr last steady).0 ≡ is_draining log
  unfolding settle is_draining
  settle-is_draining zero log id addr last steady = refl
  settle-is_draining (suc n) log id addr last steady =
      let (log1, ok) = get_or_connect w log id addr in
      let (log2, status) = get_status w log1 id in
      elim (Option-cases (w.statuses log1 id)) [
        | inl e ↦ ground arith
        | inr (s, e) ↦ ground (
          arith,
          settle-is_draining n log2 id addr (some s.received_lsn)
              (next_steady last s.received_lsn steady),
        )
      ]

is_draining_on : (log : Log) → is_draining (draining true ∷ log) ≡ true
unfolding is_draining
is_draining_on log = refl

-- The outcomes that return while the drain is on.
abbrev pub keeps_draining : Outcome → Bool
keeps_draining completed = false
keeps_draining unknown_old = false
keeps_draining unknown_new = false
keeps_draining not_demoted = true
keeps_draining not_settled = true
keeps_draining not_promoted = false
keeps_draining not_committed = true

module _ (h : Handover) (proxied : h.proxied ≡ true) where
  name_primary-is_draining :
      (log : Log)
      → is_draining log ≡ true
      → is_draining (name_primary h log).0 ≡ keeps_draining (name_primary h log).1
  unfolding name_primary repoint_others is_draining
  name_primary-is_draining log on =
      let s = h.setting in
      let others = other_nodes h.topology h.new_primary_id in
      let set = set_primary h.new_primary_id (flush_lsn_of h.topology h.new_primary_id) 0 in
      let log1 = draining false ∷ proposed set (s.world.commits log set) ∷ log in
      let ensured =
        slots_ensured (primary_url h.new_cfg s.repl_user s.repl_password) (map (λ e. e.0) others)
        ∷ log1 in
      ground (
        arith,
        repoint_replicas-is_draining s.world ensured others (conninfo_to_new h) s.slot_prefix,
      )

  restore_old-is_draining :
      (log : Log) → is_draining (restore_old h log).0 ≡ keeps_draining (restore_old h log).1
  unfolding restore_old is_draining
  restore_old-is_draining log = ground arith

  promote_new-is_draining :
      (log : Log)
      → is_draining log ≡ true
      → is_draining (promote_new h log).0 ≡ keeps_draining (promote_new h log).1
  unfolding promote_new wait_for_position_to_settle
  promote_new-is_draining log on =
      let w = h.setting.world in
      let id = h.new_primary_id in
      let addr = h.new_cfg.agent_addr in
      let log1 = (settle w max_reads log id addr none 0).0 in
      let log2 = (promote_node w log1 id addr).0 in
      let log3 = (verify_promotion w 3 log2 id addr).0 in
      ground (
        arith,
        settle-is_draining w max_reads log id addr none 0,
        promote_node-is_draining w log1 id addr,
        verify_promotion-is_draining w 3 log2 id addr,
        name_primary-is_draining log3,
        restore_old-is_draining log2,
        restore_old-is_draining log3,
      )

  stop_old-is_draining :
      (log : Log)
      → is_draining log ≡ true
      → is_draining (stop_old h log).0 ≡ keeps_draining (stop_old h log).1
  unfolding stop_old is_draining
  stop_old-is_draining log on =
      let w = h.setting.world in
      let (log1, ok) = get_or_connect w log (old_id h) h.old_cfg.agent_addr in
      let (log2, resp) = stop_postgres w log1 (old_id h) in
      ground (arith, promote_new-is_draining (evict_unless (is_some resp) (old_id h) log2))

  demote_old-is_draining :
      (log : Log)
      → is_draining log ≡ true
      → is_draining (demote_old h log).0 ≡ keeps_draining (demote_old h log).1
  unfolding demote_old is_draining
  demote_old-is_draining log on =
      let w = h.setting.world in
      let (log1, ok) = get_or_connect w log (old_id h) h.old_cfg.agent_addr in
      let (log2, resp) =
        demote w log1 (old_id h) (conninfo_to_new h) (slot_name h.setting.slot_prefix (old_id h)) in
      ground (arith, stop_old-is_draining log2)

-- If the proxy was not draining before a switchover through it, then it is draining afterwards
-- exactly if the switchover ended because the old primary could not be reached or refused its
-- demotion, because the position of the target did not settle, or because the Raft log did not
-- accept the new primary; it is not after a success, after a failed promotion, or if a node is not
-- configured.
pub execute_switchover-is_draining :
    (s : Setting) (t : ClusterTopology) (new_id : String) (log : Log)
    → is_draining log ≡ false
    → is_draining (execute_switchover s t new_id true log).0
      ≡ keeps_draining (execute_switchover s t new_id true log).1
unfolding execute_switchover
execute_switchover-is_draining s t new_id log off =
    elim (Option-cases (get t.node_configs t.primary_node_id)) [
      | inl e ↦ ground arith
      | inr (old_cfg, e) ↦ elim (Option-cases (get t.node_configs new_id)) [
        | inl f ↦ ground arith
        | inr (new_cfg, f) ↦ ground (
          arith,
          demote_old-is_draining (handover s t new_id true old_cfg new_cfg) refl
              (draining true ∷ log) (is_draining_on log),
        )
      ]
    ]
