-- ===== src/Failover/Promote.antt =====
-- pgcluster/src/failover/promote.rs and repoint.rs: promoting a node, and pointing the others at
-- the new primary.
pub mod Verified
use pgcluster.Prelude.{
  ℕ, zero, suc, ◌+◌, ◌-◌, ◌*◌, ◌/◌, ◌%◌, ◌^◌, ◌≤◌, ◌<◌, min, max, String, ◌≡◌, refl, sym, ap, subst,
  ◌∙◌, ◌≢◌, ◌↔◌, ◌⊎◌, inl, inr, Bool, true, false, not, ◌&&◌, ◌||◌, Option, none, some, List, [],
  ◌∷◌, ◌++◌, map, arith, str_eq, eq_iff, ltb, leb, ◌==◌, if◌then◌else◌, ltb→lt, lt→ltb, leb→le,
  le→leb, Bool-cases, Option-cases, is_some, unwrap_or, length, take, drop, filter, any,
  length-append, length-drop, length-filter-le, All, In, All-In, All-of-In, In-filter, In-filter-of,
  is_empty, sort_by, sort_by-IsSorted, In-sort_by, sort_by-In, IsSorted, length-sort_by, max_by,
  min_by, max_by-IsMax, max_by-In, min_by-IsMin, min_by-In, max_by-none, min_by-none, In-append,
  append-In, In-take, In-drop, In-split, take-append-drop, length-take, take-IsSorted,
  filter-IsSorted, take-le-drop, length-filter-and, length-filter_mono, Distinct, pigeonhole,
  In-map, map-In, length-map, filter_map, In-filter_map, filter_map-In,
}
use Prim.Native.String.{◌++◌ as ◌+s+◌}
use pgcluster.Failover.Candidate.{NodeStatus}
use pgcluster.Agents.{Call, evicted, Log, World, Run, get_or_connect, promote, get_status, demote}

unfoldable pub promote_node : World → Log → String → String → Run Bool
promote_node w log id addr =
    let (log1, ok) = get_or_connect w log id addr in
    if ok
    then (let (log2, resp) = promote w log1 id in (log2, unwrap_or resp false))
    else (log1, false)

abbrev pub is_primary : NodeStatus → Bool
is_primary s = not s.is_in_recovery && s.postgres_running

-- A channel that failed is evicted, so that the next attempt opens a fresh one.
abbrev pub evict_unless : Bool → String → Log → Log
evict_unless ok id log = if ok then log else evicted id ∷ log

-- The rounds of the loop that are left. A connection that cannot be made ends it; a status that
-- does not come, or is not a primary's, leads to the next round.
unfoldable pub verify_promotion : World → ℕ → Log → String → String → Run Bool
verify_promotion w zero log id addr = (log, false)
verify_promotion w (suc n) log id addr =
    let (log1, ok) = get_or_connect w log id addr in
    let (log2, status) = get_status w log1 id in
    let again = verify_promotion w n (evict_unless (is_some status) id log2) id addr in
    if ok
    then elim status [ none ↦ again | some s ↦ if is_primary s then (log2, true) else again ]
    else (log1, false)

-- `format!("{}{}", slot_prefix, node_id)`
abbrev pub slot_name : String → String → String
slot_name prefix id = prefix +s+ id

-- The nodes that could not be repointed.
unfoldable pub repoint_replicas :
    World → Log → List (String × String) → String → String → Run (List String)
repoint_replicas w log [] conninfo prefix = (log, [])
repoint_replicas w log ((id, addr) ∷ rs) conninfo prefix =
    let (log1, ok) = get_or_connect w log id addr in
    let (log2, resp) = demote w log1 id conninfo (slot_name prefix id) in
    let log3 = if ok then evict_unless (is_some resp) id log2 else evicted id ∷ log1 in
    let (log4, errors) = repoint_replicas w log3 rs conninfo prefix in
    (log4, if ok && unwrap_or resp false then errors else id ∷ errors)
