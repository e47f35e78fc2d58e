-- ===== src/Lib.antt =====
-- A verification library for pgcluster, which runs a PostgreSQL cluster: instances that keep a
-- replicated topology in a Raft log, a monitor that replaces a failed primary, planned
-- switchovers, and a proxy that routes clients. Paths are relative to the repository's root.
--
-- The parts and their files:
--
--   Prelude, Dict    lists, sorting and tests on the native numbers; association lists in place of
--                    HashMap.
--   Text             what the program uses of `str` beyond comparing and joining.
--   Raft.Topology    pgcluster/src/raft/topology.rs: `ClusterTopology` and what it holds; its child
--                    Standbys has what is derived from it.
--   Raft.Command     pgcluster/src/raft/commands.rs: the commands of the log.
--   Raft.Apply       pgcluster/src/raft/state_machine.rs, `apply_command`: one command. Its children
--                    are about the primary, the failover history, the backups, the invariant of the
--                    topology, and the clock.
--   Raft.Machine     The same file: applying log entries, and snapshots. Replay relates them.
--   Raft.Lease       pgcluster/src/raft/lease.rs: the lease without which the proxy routes nothing.
--   Raft.Storage     pgcluster/src/raft/storage.rs: the log in a sled database, which Database makes
--                    an interface; Keys has the keys, and View what the log is to openraft.
--   Monitor          pgcluster/src/node_monitor: failure_state.rs (Failures), the sync fallback, the
--                    stale primaries and the reconciliation of replication.rs (Fallback, Stale,
--                    Reconcile), health_check.rs (Check), and a tick of mod.rs (Poll). Each child
--                    History puts the state in terms of the events that led to it, and each child
--                    Calls has what a flow keeps if its calls keep it.
--   Config           pgcluster/src/config: the sections of mod.rs, and the checks of validate.rs.
--   Agents           pgcluster/src/agent_clients.rs: the calls that the flows make. A flow takes the
--                    log of the calls before it and extends it; `World` gives the replies, as any
--                    functions of that log.
--   NodeAgent        vk-agent/src: the heartbeats of heartbeat.rs, and what reads them.
--   Failover         pgcluster/src/failover: candidate.rs (Candidate), promote.rs and repoint.rs
--                    (Promote), mod.rs and events.rs (Trigger).
--   Switchover       pgcluster/src/switchover: lag_wait.rs (LagWait), handoff.rs (Handoff), mod.rs
--                    (Planned) and rolling.rs (Rolling, and Restart below it).
--   Proxy            pgcluster/src/proxy: session.rs, router.rs, limits.rs and pool.rs, protocol.rs (Wire
--                    and Statement), and the loop of connection.rs (Connection).
--   Backup           pgcluster/src/backup/mod.rs: the node that a backup is taken from.
--   Admin            pgcluster-admin/src: the placement of databases on hosts by scheduler.rs.
--   Tests            the theorems applied to concrete inputs.
--
-- The monitor calls the failover, which proposes commands to the Raft log; each instance applies
-- the log to its machine, and publishes the topology to its proxy, which routes while the lease is
-- held.
--
-- Time is a number: nanoseconds for an `Instant`, seconds for the system clock. An integer of w bits
-- is a number with its wrap-around written out where it can wrap. Every loop is bounded: the wait
-- for the lag by fuel of one round per interval of its timeout and one more, which is enough if the
-- clock follows the sleeps, and likewise the wait for a restarted node; the other loops by the number
-- of their rounds or by a list.
--
-- Not modelled: logging and metrics; the network, TLS and the file system; the inside of sled, of
-- `serde_json` and of openraft, which are parameters, as are the parsers of addresses that the
-- flows use; the login of a client, the membership of the Raft
-- cluster, the rest of the agent, and the rest of the admin service.
mod Prelude
mod Tests
pub mod Text
pub mod Dict
pub mod Raft
pub mod Monitor
pub mod Backup
pub mod Config
pub mod Agents
pub mod NodeAgent
pub mod Admin
pub mod Failover
pub mod Switchover
pub mod Proxy
