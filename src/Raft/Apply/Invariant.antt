-- ===== src/Raft/Apply/Invariant.antt =====
-- Well-formed topologies, and that every command keeps them so.
use pgcluster.Prelude.{
  ℕ, ◌≤◌, ◌<◌, not, arith, str_eq, length, length-filter-le, IsSorted, filter-IsSorted,
}
use pgcluster.Raft.Topology.{ClusterTopology, empty_topology, failover_history_max}
use pgcluster.Raft.Command.{
  TopologyCommand, record_failover, add_backup_manifest, remove_backup_manifest,
}
use pgcluster.Raft.Apply.{apply_command, newest_first, backups_max, u64_mod}
use pgcluster.Raft.Apply.Keyed.{IsKeyed, apply_command-IsKeyed, empty_topology-IsKeyed}
use pgcluster.Raft.Apply.Primary.{OnePrimary, Named, apply_command-OnePrimary}
use pgcluster.Raft.Apply.History.{length-record_failover}
use pgcluster.Raft.Apply.Backups.{apply_add_backup-IsSorted, length-apply_add_backup}

pub record IsBounded (t : ClusterTopology) : Type 0 where
  pub history : length t.failover_history ≤ failover_history_max
  pub backups : length t.backups ≤ backups_max
  pub version : t.version < u64_mod

pub record IsValid (t : ClusterTopology) : Type 0 where
  pub one_primary : OnePrimary t.node_roles t.primary_node_id
  pub keyed : IsKeyed t
  pub bounded : IsBounded t
  pub newest : IsSorted newest_first t.backups

apply_command-IsBounded :
    (now : ℕ) (t : ClusterTopology) (cmd : TopologyCommand)
    → IsBounded t
    → IsBounded (apply_command now t cmd)
unfolding apply_command
apply_command-IsBounded now t (record_failover o n a d r g) b = record {
  history = length-record_failover t _;
  backups = b.backups;
  version = omega arith;
}
apply_command-IsBounded now t (add_backup_manifest m) b = record {
  history = b.history;
  backups = omega (arith, length-apply_add_backup t m);
  version = omega arith;
}
apply_command-IsBounded now t (remove_backup_manifest id) b = record {
  history = b.history;
  backups = omega (arith, b.backups, length-filter-le (λ x. not (str_eq x.backup_id id)) t.backups);
  version = omega arith;
}
apply_command-IsBounded now t _ b = record {
  history = b.history;
  backups = b.backups;
  version = omega arith;
}

apply_command-newest :
    (now : ℕ) (t : ClusterTopology) (cmd : TopologyCommand)
    → IsSorted newest_first t.backups
    → IsSorted newest_first (apply_command now t cmd).backups
unfolding apply_command
apply_command-newest now t (add_backup_manifest m) s = apply_add_backup-IsSorted t m
apply_command-newest now t (remove_backup_manifest id) s =
    filter-IsSorted newest_first (λ x. not (str_eq x.backup_id id)) t.backups s
apply_command-newest now t _ s = s

-- Every command whose new primary, if it appoints one, has an id that is not empty keeps the
-- topology valid: the role of primary is held by the recorded primary at most, the maps have no key
-- twice, the failover history, the backups and the version are within their bounds, and the backups
-- are sorted newest first.
pub apply_command-IsValid :
    (now : ℕ) (t : ClusterTopology) (cmd : TopologyCommand)
    → Named cmd
    → IsValid t
    → IsValid (apply_command now t cmd)
apply_command-IsValid now t cmd n v = record {
  one_primary = apply_command-OnePrimary now t cmd n v.one_primary;
  keyed = apply_command-IsKeyed now t cmd v.keyed;
  bounded = apply_command-IsBounded now t cmd v.bounded;
  newest = apply_command-newest now t cmd v.newest;
}

pub empty_topology-IsValid : IsValid empty_topology
empty_topology-IsValid = record {
  one_primary = λ id e. ground arith;
  keyed = empty_topology-IsKeyed;
  bounded = record { history = omega arith; backups = omega arith; version = omega arith };
  newest = tt;
}
