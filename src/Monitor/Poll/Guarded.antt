-- ===== src/Monitor/Poll/Guarded.antt =====
-- The automatic failover of pgcluster/src/node_monitor/mod.rs runs under the flag that keeps it apart
-- from manual operations, and only once the primary is marked offline.
use pgcluster.Prelude.{
  ℕ, String, ◌≡◌, inl, inr, Bool, true, false, Option, List, [], ◌∷◌, arith, str_eq, eq_iff,
  if◌then◌else◌, Bool-cases,
}
use pgcluster.Raft.Topology.{ClusterTopology}
use pgcluster.Raft.Command.{
  TopologyCommand, set_primary, mark_offline, mark_replica, mark_maintenance,
  update_primary_conninfo, update_flush_lsn, add_node, remove_node, record_failover,
  set_replication_mode, set_sync_degraded, set_needs_reseed, set_replication_slot,
  add_backup_manifest, remove_backup_manifest,
}
use pgcluster.Failover.Trigger.Calls.{is_failover_call, is_failover_command, trigger_failover-keeps}
use pgcluster.Agents.{
  Call, connected, evicted, promoted, status_read, demoted, stopped, proposed, slots_ensured,
  draining, parameters_set, proxy_auth_set, backups_configured, seed_spawned, rejoin_spawned,
  op_acquired, op_released, checked, slots_audited, Log, Needs, IsOrdered, client_write,
}
use pgcluster.Monitor.Check.{Probe}
use pgcluster.Monitor.Reconcile.Calls.{is_plain_call}
use pgcluster.Monitor.Poll.Calls.{on_tick-keeps}
use pgcluster.Monitor.Poll.{on_tick, Tick, fail_over}
use pgcluster.Monitor.Setup.{NodeMonitor}

-- This instance holds the flag.
abbrev pub is_held : Log → Bool
is_held [] = false
is_held (op_acquired true ∷ log) = true
is_held (op_released ∷ log) = false
is_held (c ∷ log) = is_held log

-- A node was marked offline since the flag was taken last.
abbrev pub is_marked : String → Log → Bool
is_marked id [] = false
is_marked id (op_acquired true ∷ log) = false
is_marked id (proposed (mark_offline other) true ∷ log) =
    let before = is_marked id log in if str_eq other id then true else before
is_marked id (c ∷ log) = is_marked id log

-- A promotion needs the flag and the primary marked offline under it; a mark needs the flag and is
-- only of the primary; the flag is not taken twice, and only what is held is released.
abbrev pub guard_needs : String → Needs
guard_needs id (promoted node resp) log = (is_held log ≡ true) × (is_marked id log ≡ true)
guard_needs id (proposed (mark_offline node) ok) log = (node ≡ id) × (is_held log ≡ true)
guard_needs id (op_acquired true) log = is_held log ≡ false
guard_needs id op_released log = is_held log ≡ true
guard_needs id c log = Unit

module _ (id : String) where
  -- What holds while a failover runs.
  abbrev Running : Log → Type 0
  Running log = IsOrdered (guard_needs id) log × (is_held log ≡ true) × (is_marked id log ≡ true)

  command-Running :
      (command : TopologyCommand) (ok : Bool) (log : Log)
      → is_failover_command command ≡ true
      → Running log
      → Running (proposed command ok ∷ log)
  unfolding IsOrdered
  command-Running (set_primary node lsn timeline) ok log e h = ground arith
  command-Running (record_failover old new at took reason degraded) ok log e h = ground arith
  command-Running (mark_offline node) ok log e h = absurd (ground arith)
  command-Running (mark_replica node lsn) ok log e h = absurd (ground arith)
  command-Running (mark_maintenance node) ok log e h = absurd (ground arith)
  command-Running (update_primary_conninfo node info) ok log e h = absurd (ground arith)
  command-Running (update_flush_lsn node flushed replayed) ok log e h = absurd (ground arith)
  command-Running (add_node cfg) ok log e h = absurd (ground arith)
  command-Running (remove_node node) ok log e h = absurd (ground arith)
  command-Running (set_replication_mode mode) ok log e h = absurd (ground arith)
  command-Running (set_sync_degraded degraded) ok log e h = absurd (ground arith)
  command-Running (set_needs_reseed node needed) ok log e h = absurd (ground arith)
  command-Running (set_replication_slot node slot) ok log e h = absurd (ground arith)
  command-Running (add_backup_manifest manifest) ok log e h = absurd (ground arith)
  command-Running (remove_backup_manifest backup) ok log e h = absurd (ground arith)

  call-Running :
      (c : Call) (log : Log) → is_failover_call c ≡ true → Running log → Running (c ∷ log)
  unfolding IsOrdered
  call-Running (connected node ok) log e h = ground arith
  call-Running (evicted node) log e h = ground arith
  call-Running (promoted node resp) log e h = ground arith
  call-Running (status_read node status) log e h = ground arith
  call-Running (demoted node info slot resp) log e h = ground arith
  call-Running (proposed command ok) log e h = command-Running command ok log e h
  call-Running (slots_ensured url ids) log e h = ground arith
  call-Running (stopped node resp) log e h = absurd (ground arith)
  call-Running (draining on) log e h = absurd (ground arith)
  call-Running (parameters_set node params resp) log e h = absurd (ground arith)
  call-Running (proxy_auth_set node resp) log e h = absurd (ground arith)
  call-Running (backups_configured node resp) log e h = absurd (ground arith)
  call-Running (seed_spawned node) log e h = absurd (ground arith)
  call-Running (rejoin_spawned node) log e h = absurd (ground arith)
  call-Running (op_acquired ok) log e h = absurd (ground arith)
  call-Running op_released log e h = absurd (ground arith)
  call-Running (checked node ids) log e h = absurd (ground arith)
  call-Running (slots_audited url) log e h = absurd (ground arith)

  -- Between failovers.
  abbrev pub Quiet : Log → Type 0
  Quiet log = IsOrdered (guard_needs id) log × (is_held log ≡ false)

  pub fail_over-Quiet :
      (m : NodeMonitor) (t : ClusterTopology) (log : Log)
      → Quiet log
      → Quiet (fail_over m t log id).0
  unfolding fail_over IsOrdered
  fail_over-Quiet m t log h =
      let held = op_acquired true ∷ log in
      let (marked, ok) = client_write m.setting.world held (mark_offline id) in
      let run =
        trigger_failover-keeps Running call-Running m.setting (m.around.arrivals marked)
          (m.around.replies marked) t id marked in
      let itself = eq_iff id id in
      elim (Bool-cases (m.around.busy log)) [
        | inl e ↦ ground arith
        | inr e ↦ elim (Bool-cases (m.setting.world.commits held (mark_offline id))) [
          | inl f ↦
              let running : Running marked = ground arith in let after = run running in ground arith
          | inr f ↦ ground arith
        ]
      ]

  command-Quiet :
      (command : TopologyCommand) (ok : Bool) (log : Log)
      → is_plain_call (proposed command ok) ≡ true
      → Quiet log
      → Quiet (proposed command ok ∷ log)
  unfolding IsOrdered
  command-Quiet (set_primary node lsn timeline) ok log e h = ground arith
  command-Quiet (record_failover old new at took reason degraded) ok log e h = ground arith
  command-Quiet (mark_offline node) ok log e h = absurd (ground arith)
  command-Quiet (mark_replica node lsn) ok log e h = ground arith
  command-Quiet (mark_maintenance node) ok log e h = ground arith
  command-Quiet (update_primary_conninfo node info) ok log e h = ground arith
  command-Quiet (update_flush_lsn node flushed replayed) ok log e h = ground arith
  command-Quiet (add_node cfg) ok log e h = ground arith
  command-Quiet (remove_node node) ok log e h = ground arith
  command-Quiet (set_replication_mode mode) ok log e h = ground arith
  command-Quiet (set_sync_degraded degraded) ok log e h = ground arith
  command-Quiet (set_needs_reseed node needed) ok log e h = ground arith
  command-Quiet (set_replication_slot node slot) ok log e h = ground arith
  command-Quiet (add_backup_manifest manifest) ok log e h = ground arith
  command-Quiet (remove_backup_manifest backup) ok log e h = ground arith

  call-Quiet : (c : Call) (log : Log) → is_plain_call c ≡ true → Quiet log → Quiet (c ∷ log)
  unfolding IsOrdered
  call-Quiet (connected node ok) log e h = ground arith
  call-Quiet (evicted node) log e h = ground arith
  call-Quiet (promoted node resp) log e h = absurd (ground arith)
  call-Quiet (status_read node status) log e h = ground arith
  call-Quiet (demoted node info slot resp) log e h = ground arith
  call-Quiet (proposed command ok) log e h = command-Quiet command ok log e h
  call-Quiet (slots_ensured url ids) log e h = ground arith
  call-Quiet (stopped node resp) log e h = ground arith
  call-Quiet (draining on) log e h = ground arith
  call-Quiet (parameters_set node params resp) log e h = ground arith
  call-Quiet (proxy_auth_set node resp) log e h = ground arith
  call-Quiet (backups_configured node resp) log e h = ground arith
  call-Quiet (seed_spawned node) log e h = ground arith
  call-Quiet (rejoin_spawned node) log e h = ground arith
  call-Quiet (op_acquired ok) log e h = absurd (ground arith)
  call-Quiet op_released log e h = absurd (ground arith)
  call-Quiet (checked node ids) log e h = ground arith
  call-Quiet (slots_audited url) log e h = ground arith

-- If the calls so far kept the order and the flag is free, then so it is after a tick: a node is
-- promoted only while this instance holds the flag that keeps failovers and manual operations
-- apart, and only after the primary was marked offline since the flag was taken; only the primary
-- is marked offline, and under the flag; the flag is never taken twice; and it is free again at the
-- end, also if the mark cannot be written.
pub on_tick-IsGuarded :
    (m : NodeMonitor) (t : ClusterTopology) (s : Tick) (count : ℕ) (leader : Option ℕ) (me : ℕ)
    (held : Bool) (probes : List (String × Probe))
    → IsOrdered (guard_needs t.primary_node_id) s.log
    → is_held s.log ≡ false
    → IsOrdered (guard_needs t.primary_node_id) (on_tick m t s count leader me held probes).log
      × (is_held (on_tick m t s count leader me held probes).log ≡ false)
on_tick-IsGuarded m t s count leader me held probes ordered free =
    on_tick-keeps (Quiet t.primary_node_id) (call-Quiet t.primary_node_id) m t
      (fail_over-Quiet t.primary_node_id m t) s count leader me held probes (ordered, free)
