-- ===== src/Switchover/LagWait.antt =====
-- pgcluster/src/switchover/lag_wait.rs. The clock and the watched topology of each round are
-- arguments: `seen n` is what the round after `n` sleeps reads. The number of rounds is bounded by
-- fuel; the loop sleeps 200 ms in each, so that a clock that follows the sleeps ends it.
pub mod Timely
use pgcluster.Prelude.{
  ℕ, zero, suc, ◌+◌, ◌-◌, ◌*◌, ◌/◌, ◌%◌, ◌^◌, ◌≤◌, ◌<◌, min, max, String, ◌≡◌, refl, sym, ap, subst,
  ◌∙◌, ◌≢◌, ◌↔◌, ◌⊎◌, inl, inr, Bool, true, false, not, ◌&&◌, ◌||◌, Option, none, some, List, [],
  ◌∷◌, ◌++◌, map, arith, str_eq, eq_iff, ltb, leb, ◌==◌, if◌then◌else◌, ltb→lt, lt→ltb, leb→le,
  le→leb, Bool-cases, Option-cases, is_some, unwrap_or, length, take, drop, filter, any,
  length-append, length-drop, length-filter-le, All, In, All-In, All-of-In, In-filter, In-filter-of,
  is_empty, sort_by, sort_by-IsSorted, In-sort_by, sort_by-In, IsSorted, length-sort_by, max_by,
  min_by, max_by-IsMax, max_by-In, min_by-IsMin, min_by-In, max_by-none, min_by-none, In-append,
  append-In, In-take, In-drop, In-split, take-append-drop, length-take, take-IsSorted,
  filter-IsSorted, take-le-drop, length-filter-and, length-filter_mono, Distinct, pigeonhole,
  In-map, map-In, length-map, filter_map, In-filter_map, filter_map-In,
}
use pgcluster.Dict.{
  Dict, get, insert, remove, or_insert, contains_key, IsMap, get-insert, get-remove, get-or_insert,
  insert-IsMap, remove-IsMap, or_insert-IsMap, In-get, get-In,
}
use pgcluster.Raft.Topology.{ClusterTopology, flush_lsn_of}

-- What one round reads.
pub record Reading : Type 0 where
  pub now : ℕ
  pub topology : ClusterTopology

pub data Waited : Type 0 where
  in_sync timed_out out_of_fuel : Waited

-- `saturating_sub` is the subtraction of the natural numbers.
unfoldable pub lag : ClusterTopology → String → ℕ
lag t target = flush_lsn_of t t.primary_node_id - flush_lsn_of t target

-- One round: `none` goes on to the next.
unfoldable pub check_lag : Reading → String → ℕ → ℕ → Option Waited
check_lag r target max_lag_bytes deadline =
    if leb deadline r.now
    then some timed_out
    else if leb (lag r.topology target) max_lag_bytes
    then some in_sync
    else none

unfoldable pub rounds : ℕ → ℕ → (ℕ → Reading) → String → ℕ → ℕ → Waited
rounds zero n seen target max_lag_bytes deadline = out_of_fuel
rounds (suc fuel) n seen target max_lag_bytes deadline =
    let later = rounds fuel (n + 1) seen target max_lag_bytes deadline in
    unwrap_or (check_lag (seen n) target max_lag_bytes deadline) later

-- 200 ms in nanoseconds.
abbrev pub poll_interval : ℕ
poll_interval = 200000000

-- Enough rounds for the timeout: one per interval, and one to see the deadline pass.
unfoldable pub wait_for_replica_sync : (ℕ → Reading) → ℕ → String → ℕ → ℕ → Waited
wait_for_replica_sync seen start target max_lag_bytes timeout =
    rounds (suc (timeout / poll_interval + 1)) 0 seen target max_lag_bytes (start + timeout)
