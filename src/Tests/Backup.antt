-- ===== src/Tests/Backup.antt =====
-- The source of a backup among three nodes.
use pgcluster.Prelude.{◌≡◌, refl, true, some, [], ◌∷◌, min_by}
use pgcluster.Raft.Topology.{ClusterTopology, is_external}
use pgcluster.Backup.{
  select_source, sources, replica_source, may_be_source, IsSource, Configured,
  select_source-IsSource,
}
use pgcluster.Prelude.{min_from}
use pgcluster.Tests.Data.{cluster}

abbrev behind : ClusterTopology
behind = record cluster { replica_lag_bytes = ("b", 7) ∷ ("c", 3) ∷ [] }

picks_c : select_source behind true ≡ some ("c", "c")
unfolding select_source sources replica_source may_be_source is_external min_by min_from
picks_c = refl

select_source-IsSource_example : IsSource behind true "c" × Configured behind "c" "c"
select_source-IsSource_example = select_source-IsSource behind true "c" "c" picks_c
