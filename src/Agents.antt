-- ===== src/Agents.antt =====
-- pgcluster/src/agent_clients.rs as the flows of this instance use it: the calls to the agents, to
-- the Raft log, to the new primary and to the local proxy. A reply may depend on all that was
-- called before, so the world is a function of the log of the calls, and a run extends the log.
use pgcluster.Prelude.{String, Bool, Option, List, [], ◌∷◌, In}
use pgcluster.Dict.{Dict}
use pgcluster.Raft.Command.{TopologyCommand}
use pgcluster.Failover.Candidate.{NodeStatus}

-- The calls made, the newest first. A reply `none` is an RPC that failed, and a Boolean in it the
-- `success` of the response.
pub data Call : Type 0 where
  connected : String → Bool → Call
  evicted : String → Call
  promoted : String → Option Bool → Call
  status_read : String → Option NodeStatus → Call
  -- node, conninfo, slot
  demoted : String → String → String → Option Bool → Call
  stopped : String → Option Bool → Call
  proposed : TopologyCommand → Bool → Call
  slots_ensured : String → List String → Call
  draining : Bool → Call
  -- node, settings
  parameters_set : String → Dict String → Option Bool → Call
  proxy_auth_set : String → Option Bool → Call
  backups_configured : String → Option Bool → Call
  -- A task of its own starts, which seeds an empty node or rejoins an old primary.
  seed_spawned : String → Call
  rejoin_spawned : String → Call
  -- The flag that keeps automatic and manual operations apart: an attempt to set it, and its reset.
  op_acquired : Bool → Call
  op_released : Call
  -- A check of the node, and the standbys that it says are streaming.
  checked : String → List String → Call
  -- The orphaned slots at a connection string are dropped.
  slots_audited : String → Call

abbrev pub Log : Type 0
Log = List Call

-- The replies, each in terms of the log before the call.
pub record World : Type 0 where
  pub connects : Log → String → String → Bool
  pub promotes : Log → String → Option Bool
  pub statuses : Log → String → Option NodeStatus
  pub demotes : Log → String → String → String → Option Bool
  pub stops : Log → String → Option Bool
  pub commits : Log → TopologyCommand → Bool

abbrev pub Run : Type 0 → Type 0
Run A = Log × A

-- `AgentClientPool::get_or_connect`
abbrev pub get_or_connect : World → Log → String → String → Run Bool
get_or_connect w log id addr = let ok = w.connects log id addr in (connected id ok ∷ log, ok)

abbrev pub promote : World → Log → String → Run (Option Bool)
promote w log id = let resp = w.promotes log id in (promoted id resp ∷ log, resp)

abbrev pub get_status : World → Log → String → Run (Option NodeStatus)
get_status w log id = let status = w.statuses log id in (status_read id status ∷ log, status)

abbrev pub demote : World → Log → String → String → String → Run (Option Bool)
demote w log id conninfo slot =
    let resp = w.demotes log id conninfo slot in (demoted id conninfo slot resp ∷ log, resp)

abbrev pub stop_postgres : World → Log → String → Run (Option Bool)
stop_postgres w log id = let resp = w.stops log id in (stopped id resp ∷ log, resp)

-- `raft.client_write`
abbrev pub client_write : World → Log → TopologyCommand → Run Bool
client_write w log command = let ok = w.commits log command in (proposed command ok ∷ log, ok)

-- What each call of a log needs to have come before it.
abbrev pub Needs : Type 1
Needs = Call → Log → Type 0

-- Every call of the log came after what it needs.
unfoldable pub IsOrdered : Needs → Log → Type 0
IsOrdered needs [] = Unit
IsOrdered needs (c ∷ log) = needs c log × IsOrdered needs log

-- No record of a call is lost.
abbrev pub Extends : Log → Log → Type 0
Extends old new = (c : Call) → In c old → In c new
