-- ===== src/Failover/Trigger/Order.antt =====
-- In which order a failover acts.
use pgcluster.Prelude.{
  ℕ, zero, suc, String, ◌≡◌, refl, inl, inr, Bool, true, Option, some, List, [], ◌∷◌, map, arith,
  if◌then◌else◌, Option-cases, is_some, In,
}
use pgcluster.Dict.{get}
use pgcluster.Raft.Topology.{ClusterTopology, NodeConfig}
use pgcluster.Raft.Command.{set_primary}
use pgcluster.Failover.Candidate.{Replies, Arrival, pick_live_candidate, Position}
use pgcluster.Failover.Promote.{
  promote_node, verify_promotion, repoint_replicas, evict_unless, slot_name,
}
use pgcluster.Failover.Promote.Verified.{
  BecamePrimary, promote_node-promoted, verify_promotion-Extends, verify_promotion-read,
}
use pgcluster.Failover.Trigger.{
  primary_url, record_event, build_failover_event, Setting, conninfo, repoint_remaining,
  install_primary, promote_candidate, trigger_failover, replicas_to_repoint,
}
use pgcluster.Agents.{
  evicted, promoted, demoted, proposed, slots_ensured, Log, World, IsOrdered, Needs, get_or_connect,
  get_status, demote,
}

-- A primary was named.
abbrev pub Named : Log → Type 0
Named log =
    (new : String) × (lsn : ℕ) × (timeline : ℕ) × (ok : Bool) × In
      (proposed (set_primary new lsn timeline) ok) log

-- A node is named as the primary only after it became one, and a node is pointed at a new primary
-- only after the new primary was named.
abbrev pub failover_needs : Option Position → Needs
failover_needs picked (proposed (set_primary id lsn timeline) ok) log =
    (picked ≡ some (id, lsn)) × BecamePrimary id log
failover_needs picked (demoted id conninfo slot resp) log =
    (new : String) × (lsn : ℕ) × (timeline : ℕ) × (ok : Bool) × In
      (proposed (set_primary new lsn timeline) ok) log
failover_needs picked c log = Unit

module _ (picked : Option Position) (w : World) where
  promote_node-IsOrdered :
      (log : Log) (id addr : String)
      → IsOrdered (failover_needs picked) log
      → IsOrdered (failover_needs picked) (promote_node w log id addr).0
  unfolding promote_node IsOrdered
  promote_node-IsOrdered log id addr h = ground arith

  verify_promotion-IsOrdered :
      (n : ℕ) (log : Log) (id addr : String)
      → IsOrdered (failover_needs picked) log
      → IsOrdered (failover_needs picked) (verify_promotion w n log id addr).0
  unfolding verify_promotion IsOrdered
  verify_promotion-IsOrdered zero log id addr h = h
  verify_promotion-IsOrdered (suc n) log id addr h =
      let (log1, ok) = get_or_connect w log id addr in
      let (log2, status) = get_status w log1 id in
      ground (arith, verify_promotion-IsOrdered n (evict_unless (is_some status) id log2) id addr)

  repoint_replicas-IsOrdered :
      (log : Log) (rs : List (String × String)) (conninfo prefix : String)
      → ((new : String) × (lsn : ℕ) × (timeline : ℕ) × (ok : Bool) × In
            (proposed (set_primary new lsn timeline) ok)
            log)
      → IsOrdered (failover_needs picked) log
      → IsOrdered (failover_needs picked) (repoint_replicas w log rs conninfo prefix).0
  unfolding repoint_replicas IsOrdered
  repoint_replicas-IsOrdered log [] conninfo prefix named h = h
  repoint_replicas-IsOrdered log ((id, addr) ∷ rs) conninfo prefix (new, lsn, tl, came, i) h =
      let (log1, ok) = get_or_connect w log id addr in
      let (log2, resp) = demote w log1 id conninfo (slot_name prefix id) in
      let log3 = if ok then evict_unless (is_some resp) id log2 else evicted id ∷ log1 in
      let need : Named log1 = (new, lsn, tl, came, inr i) in
      repoint_replicas-IsOrdered log3 rs conninfo prefix (new, lsn, tl, came, ground arith)
        (ground (arith, need))

module _ (picked : Option Position) (s : Setting) (t : ClusterTopology) (failed : String) where
  repoint_remaining-IsOrdered :
      (log : Log) (cfg : NodeConfig) (rs : List (String × String))
      → Named log
      → IsOrdered (failover_needs picked) log
      → IsOrdered (failover_needs picked) (repoint_remaining s log cfg rs)
  unfolding repoint_remaining IsOrdered
  repoint_remaining-IsOrdered log cfg [] named h = h
  repoint_remaining-IsOrdered log cfg (r ∷ rs) (new, lsn, tl, came, i) h =
      repoint_replicas-IsOrdered picked s.world
        (slots_ensured (primary_url cfg s.repl_user s.repl_password) (map (λ e. e.0) (r ∷ rs))
          ∷ log)
        (r ∷ rs) (conninfo s.host_port cfg s.repl_user s.repl_password) s.slot_prefix
        (new, lsn, tl, came, inr i) (tt, h)

  install_primary-IsOrdered :
      (log : Log) (candidate : String) (at_lsn : ℕ) (cfg : NodeConfig)
      → picked ≡ some (candidate, at_lsn)
      → BecamePrimary candidate log
      → IsOrdered (failover_needs picked) log
      → IsOrdered (failover_needs picked) (install_primary s t failed log candidate at_lsn cfg)
  unfolding install_primary IsOrdered build_failover_event
  install_primary-IsOrdered log candidate at_lsn cfg chosen became h =
      let set = set_primary candidate at_lsn 1 in
      let log1 = proposed set (s.world.commits log set) ∷ log in
      let command =
        record_event
          (build_failover_event failed candidate s.clock "health_check_failure" t.sync_degraded) in
      repoint_remaining-IsOrdered (proposed command (s.world.commits log1 command) ∷ log1) cfg
        (replicas_to_repoint t failed candidate)
        (candidate, at_lsn, 1, s.world.commits log set, inr (inl refl)) (tt, ((chosen, became), h))

  promoted-BecamePrimary :
      (log : Log) (id addr : String)
      → (promote_node s.world log id addr).1 ≡ true
      → (verify_promotion s.world 3 (promote_node s.world log id addr).0 id addr).1 ≡ true
      → BecamePrimary id (verify_promotion s.world 3 (promote_node s.world log id addr).0 id addr).0
  unfolding BecamePrimary
  promoted-BecamePrimary log id addr did seen =
      let log1 = (promote_node s.world log id addr).0 in
      let (status, i, p) = verify_promotion-read s.world 3 log1 id addr seen in
      (
        verify_promotion-Extends s.world 3 log1 id addr (promoted id (some true))
            (promote_node-promoted s.world log id addr did),
        status,
        i,
        p,
      )

  promote_candidate-IsOrdered :
      (log : Log) (candidate : String) (at_lsn : ℕ) (cfg : NodeConfig)
      → picked ≡ some (candidate, at_lsn)
      → IsOrdered (failover_needs picked) log
      → IsOrdered (failover_needs picked) (promote_candidate s t failed log candidate at_lsn cfg)
  unfolding promote_candidate
  promote_candidate-IsOrdered log candidate at_lsn cfg chosen h =
      let log1 = (promote_node s.world log candidate cfg.agent_addr).0 in
      let log2 = (verify_promotion s.world 3 log1 candidate cfg.agent_addr).0 in
      let h1 = promote_node-IsOrdered picked s.world log candidate cfg.agent_addr h in
      let h2 = verify_promotion-IsOrdered picked s.world 3 log1 candidate cfg.agent_addr h1 in
      ground (
        arith,
        install_primary-IsOrdered log2 candidate at_lsn cfg chosen,
        promoted-BecamePrimary log candidate cfg.agent_addr,
      )

-- If every call of the log came after what it needs, then so it is after a failover: it names as
-- the new primary only the node that `pick_live_candidate` chose, with the position that it
-- reported, and only after that node confirmed its promotion and reported that it runs and is out
-- of recovery; and it asks nodes to follow a new primary only after one was named. This holds of a
-- run that stops on the way, too.
pub trigger_failover-IsOrdered :
    (s : Setting) (a : Arrival) (reply : Replies) (t : ClusterTopology) (failed : String)
    (log : Log)
    → IsOrdered (failover_needs (pick_live_candidate a t failed reply)) log
    → IsOrdered
        (failover_needs (pick_live_candidate a t failed reply))
        (trigger_failover s a reply t failed log)
unfolding trigger_failover
trigger_failover-IsOrdered s a reply t failed log h =
    elim (Option-cases (pick_live_candidate a t failed reply)) [
      | inl e ↦ ground arith
      | inr ((candidate, lsn), e) ↦ elim (Option-cases (get t.node_configs candidate)) [
        | inl f ↦ ground arith
        | inr (cfg, f) ↦ ground (
          arith,
          promote_candidate-IsOrdered (pick_live_candidate a t failed reply) s t failed log
              candidate lsn cfg e h,
        )
      ]
    ]
