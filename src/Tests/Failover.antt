-- ===== src/Tests/Failover.antt =====
-- Failovers of the three nodes.
use pgcluster.Prelude.{ℕ, ◌≡◌, refl, inl, inr, true, some, [], max_by}
use pgcluster.Raft.Topology.{is_external}
use pgcluster.Failover.Candidate.{
  rank_positions, live_positions, collect, check_standby, Position, pick_live_candidate,
  ranks_below,
}
use pgcluster.Failover.Candidate.Best.{Eligible, pick_live_candidate_best}
use pgcluster.Failover.Candidate.Strict.{strict_waits_for_all}
use pgcluster.Failover.Trigger.{trigger_failover}
use pgcluster.Failover.Trigger.Order.{failover_needs, trigger_failover-IsOrdered}
use pgcluster.Failover.Trigger.Completes.{Cooperates, IsComplete, trigger_failover-IsComplete}
use pgcluster.Agents.{IsOrdered}
use pgcluster.Tests.Data.{
  node, cluster, strict_cluster, standby_at, primary_at, reply, in_order, willing, setting,
}

picks_b : pick_live_candidate in_order cluster "a" reply ≡ some ("b", 20)
unfolding pick_live_candidate rank_positions max_by live_positions collect check_standby is_external
picks_b = refl

strict_picks_b : pick_live_candidate in_order strict_cluster "a" reply ≡ some ("b", 20)
unfolding pick_live_candidate rank_positions max_by live_positions collect check_standby is_external
strict_picks_b = refl

b_Eligible : Eligible cluster "a" reply ("b", 20)
unfolding is_external
b_Eligible = record {
  other = refl;
  is_replica = inr (inl refl);
  config = node "b";
  configured = refl;
  inside = refl;
  status = standby_at 20;
  answered = refl;
  running = refl;
  recovering = refl;
  at = refl;
}

pick_live_candidate_best_example :
    Eligible cluster "a" reply ("b", 20)
    × ((q : Position) → Eligible cluster "a" reply q → ranks_below cluster q ("b", 20) ≡ true)
pick_live_candidate_best_example =
    pick_live_candidate_best in_order cluster "a" reply ("b", 20) picks_b

strict_waits_for_all_example : (lsn : ℕ) × Eligible strict_cluster "a" reply ("c", lsn)
unfolding is_external
strict_waits_for_all_example =
    strict_waits_for_all in_order strict_cluster "a" reply ("b", 20) (refl, (refl, (refl, tt))) refl
      strict_picks_b "c" (node "c") (inr (inr (inl refl))) refl refl

trigger_failover-IsOrdered_example :
    IsOrdered
      (failover_needs (pick_live_candidate in_order cluster "a" reply))
      (trigger_failover setting in_order reply cluster "a" [])
unfolding IsOrdered
trigger_failover-IsOrdered_example =
    trigger_failover-IsOrdered setting in_order reply cluster "a" [] tt

b_Cooperates : Cooperates willing "b" "b"
b_Cooperates = record {
  reachable = λ l. refl;
  promotes = λ l. refl;
  status = primary_at 20;
  reports = λ l. refl;
  primary = refl;
}

trigger_failover-IsComplete_example :
    IsComplete cluster "a" "b" 20 (trigger_failover setting in_order reply cluster "a" [])
trigger_failover-IsComplete_example =
    trigger_failover-IsComplete setting in_order reply cluster "a" [] "b" 20 (node "b") picks_b refl
      b_Cooperates
