-- ===== src/Monitor/Stale.antt =====
-- `StalePrimaries` of pgcluster/src/node_monitor/replication.rs. Times are nanoseconds.
pub mod History
use pgcluster.Prelude.{
  ℕ, zero, suc, ◌+◌, ◌-◌, ◌*◌, ◌/◌, ◌%◌, ◌^◌, ◌≤◌, ◌<◌, min, max, String, ◌≡◌, refl, sym, ap, subst,
  ◌∙◌, ◌≢◌, ◌↔◌, ◌⊎◌, inl, inr, Bool, true, false, not, ◌&&◌, ◌||◌, Option, none, some, List, [],
  ◌∷◌, ◌++◌, map, arith, str_eq, eq_iff, ltb, leb, ◌==◌, if◌then◌else◌, ltb→lt, lt→ltb, leb→le,
  le→leb, Bool-cases, Option-cases, is_some, unwrap_or, length, take, drop, filter, any,
  length-append, length-drop, length-filter-le, All, In, All-In, All-of-In, In-filter, In-filter-of,
  is_empty, sort_by, sort_by-IsSorted, In-sort_by, sort_by-In, IsSorted, length-sort_by, max_by,
  min_by, max_by-IsMax, max_by-In, min_by-IsMin, min_by-In, max_by-none, min_by-none, In-append,
  append-In, In-take, In-drop, In-split, take-append-drop, length-take, take-IsSorted,
  filter-IsSorted, take-le-drop, length-filter-and, length-filter_mono,
}
use pgcluster.Dict.{
  Dict, get, insert, remove, or_insert, contains_key, IsMap, get-insert, get-remove, get-or_insert,
  insert-IsMap, remove-IsMap, or_insert-IsMap, In-get, get-In,
}

abbrev pub u32_mod : ℕ
u32_mod = 2 ^ 32

pub record StalePrimaries : Type 0 where
  pub sightings : Dict ℕ
  pub last_attempt : Dict ℕ

-- `StalePrimaries::default()`
abbrev pub none_stale : StalePrimaries
none_stale = record { sightings = []; last_attempt = [] }

-- Whether the last attempt, if there was one, is long enough ago.
abbrev pub cooled : Option ℕ → ℕ → ℕ → Bool
cooled none cooldown now = true
cooled (some last) cooldown now = leb cooldown (now - last)

-- One sighting, and whether it is time to act.
unfoldable pub sighted : StalePrimaries → String → ℕ → ℕ → ℕ → StalePrimaries × Bool
sighted s node_id needed cooldown now =
    let count = (unwrap_or (get s.sightings node_id) 0 + 1) % u32_mod in
    let s' = record s { sightings = insert s.sightings node_id count } in
    if ltb count needed
    then (s', false)
    else if cooled (get s.last_attempt node_id) cooldown now
    then (record s' { last_attempt = insert s.last_attempt node_id now }, true)
    else (s', false)

unfoldable pub cleared : StalePrimaries → String → StalePrimaries
cleared s node_id = record s { sightings = remove s.sightings node_id }
