-- ===== src/Tests/Switchover.antt =====
-- Switchovers of the three nodes.
use pgcluster.Prelude.{
  ℕ, ◌*◌, String, ◌≡◌, refl, ◌≢◌, ◌⊎◌, ◌↔◌, Bool, true, none, some, [], ◌∷◌, arith, str_eq, ◌==◌,
  if◌then◌else◌, sort_by,
}
use pgcluster.Switchover.Rolling.{collect_standbys, standbys_in_order}
use pgcluster.Switchover.Planned.{
  Plan, hand_over, planned_switchover, CaughtUp, Expired, planned_switchover_waits,
}
use pgcluster.Raft.Topology.{is_external, ClusterTopology}
use pgcluster.Switchover.LagWait.{
  rounds, check_lag, lag, Reading, in_sync, out_of_fuel, poll_interval, wait_for_replica_sync,
}
use pgcluster.Switchover.LagWait.Timely.{Ticks, Ended, wait_for_replica_sync-ends}
use pgcluster.Switchover.Handoff.{wait_for_position_to_settle, settle, execute_switchover}
use pgcluster.Switchover.Handoff.Settled.{reads, StartsWith, wait_for_position_to_settle-steady}
use pgcluster.Switchover.Handoff.Drain.{is_draining, keeps_draining, execute_switchover-is_draining}
use pgcluster.Switchover.Handoff.Needs.{switchover_needs}
use pgcluster.Switchover.Handoff.Order.{execute_switchover-IsOrdered}
use pgcluster.Agents.{IsOrdered}
use pgcluster.Tests.Data.{cluster, willing, setting}

settles : (wait_for_position_to_settle willing [] "b" "b").1 ≡ true
unfolding wait_for_position_to_settle settle
settles = refl

wait_for_position_to_settle-steady_example :
    (p : ℕ) × StartsWith 4 p (reads "b" (wait_for_position_to_settle willing [] "b" "b").0)
wait_for_position_to_settle-steady_example =
    wait_for_position_to_settle-steady willing [] "b" "b" settles

execute_switchover-IsOrdered_example :
    IsOrdered (switchover_needs "a" "b") (execute_switchover setting cluster "b" true []).0
unfolding IsOrdered
execute_switchover-IsOrdered_example = execute_switchover-IsOrdered setting cluster "b" true [] tt

execute_switchover-is_draining_example :
    is_draining (execute_switchover setting cluster "b" true []).0
    ≡ keeps_draining (execute_switchover setting cluster "b" true []).1
unfolding is_draining
execute_switchover-is_draining_example = execute_switchover-is_draining setting cluster "b" [] refl

-- `b` has caught up after one round.
abbrev catching_up : ClusterTopology
catching_up = record cluster { last_flush_lsns = ("a", 100) ∷ ("b", 10) ∷ [] }

abbrev caught_up : ClusterTopology
caught_up = record cluster { last_flush_lsns = ("a", 100) ∷ ("b", 100) ∷ [] }

abbrev seen : ℕ → Reading
seen n = record { now = n * poll_interval; topology = if n == 0 then catching_up else caught_up }

seen-Ticks : Ticks seen 0
seen-Ticks n = omega arith

in_sync_after_one : wait_for_replica_sync seen 0 "b" 5 1000000000 ≡ in_sync
unfolding wait_for_replica_sync rounds check_lag lag
in_sync_after_one = refl

wait_for_replica_sync-ends_example :
    (wait_for_replica_sync seen 0 "b" 5 1000000000 ≢ out_of_fuel)
    × Ended seen "b" 5 1000000000 0 (wait_for_replica_sync seen 0 "b" 5 1000000000)
wait_for_replica_sync-ends_example = wait_for_replica_sync-ends seen 0 "b" 5 1000000000 seen-Ticks

abbrev plan : Plan
plan = record {
  setting = setting;
  seen = seen;
  start = 0;
  current = caught_up;
  new_primary_id = "b";
  max_lag_bytes = 5;
  timeout = 1000000000;
  proxied = true;
}

planned_switchover_waits_example :
    ((planned_switchover plan [] ≡ hand_over plan []) ↔ CaughtUp plan)
    × ((planned_switchover plan [] ≡ ([], none)) ↔ Expired plan)
    × (CaughtUp plan ⊎ Expired plan)
planned_switchover_waits_example = planned_switchover_waits plan [] seen-Ticks

-- Any order will do here.
abbrev before : String → String → Bool
before a b = str_eq a "b"

b_then_c : standbys_in_order before cluster ≡ some ("b" ∷ "c" ∷ [])
unfolding standbys_in_order collect_standbys sort_by is_external
b_then_c = refl
