-- ===== src/Monitor/Fallback.antt =====
-- `DegradeTimer` of pgcluster/src/node_monitor/replication.rs. Times are nanoseconds.
pub mod History
use pgcluster.Prelude.{
  ℕ, zero, suc, ◌+◌, ◌-◌, ◌*◌, ◌/◌, ◌%◌, ◌^◌, ◌≤◌, ◌<◌, min, max, String, ◌≡◌, refl, sym, ap, subst,
  ◌∙◌, ◌≢◌, ◌↔◌, ◌⊎◌, inl, inr, Bool, true, false, not, ◌&&◌, ◌||◌, Option, none, some, List, [],
  ◌∷◌, ◌++◌, map, arith, str_eq, eq_iff, ltb, leb, ◌==◌, if◌then◌else◌, ltb→lt, lt→ltb, leb→le,
  le→leb, Bool-cases, Option-cases, is_some, unwrap_or, length, take, drop, filter, any,
  length-append, length-drop, length-filter-le, All, In, All-In, All-of-In, In-filter, In-filter-of,
  is_empty, sort_by, sort_by-IsSorted, In-sort_by, sort_by-In, IsSorted, length-sort_by, max_by,
  min_by, max_by-IsMax, max_by-In, min_by-IsMin, min_by-In, max_by-none, min_by-none, In-append,
  append-In, In-take, In-drop, In-split, take-append-drop, length-take, take-IsSorted,
  filter-IsSorted, take-le-drop, length-filter-and, length-filter_mono,
}
use pgcluster.Raft.Topology.{ReplicationMode, async, sync, sync_strict}

pub data Fallback : Type 0 where
  stay degrade restore : Fallback

-- The timer's one field, `no_standby_since`.
abbrev pub DegradeTimer : Type 0
DegradeTimer = Option ℕ

-- `== ReplicationMode::Sync`
abbrev pub is_sync : ReplicationMode → Bool
is_sync sync = true
is_sync async = false
is_sync sync_strict = false

-- `mode` and `degraded` are the topology's `replication_mode` and `sync_degraded`.
unfoldable pub step : DegradeTimer → ReplicationMode → Bool → Bool → ℕ → ℕ → DegradeTimer × Fallback
step timer mode degraded standby_streaming timeout now =
    let since = unwrap_or timer now in
    if not (is_sync mode) || standby_streaming
    then (none, if is_sync mode && degraded && standby_streaming then restore else stay)
    else if degraded
    then (timer, stay)
    else if leb timeout (now - since)
    then (none, degrade)
    else (some since, stay)
