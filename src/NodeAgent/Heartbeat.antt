-- ===== src/NodeAgent/Heartbeat.antt =====
-- `HeartbeatTracker` of vk-agent/src/heartbeat.rs, and the fence of vk-agent/src/main.rs that reads it.
-- Times are nanoseconds. The two tasks that write the tracker take no common lock, so each write is a
-- definition of its own; `touch` and `watch` run them without a break.
pub mod Fence
pub mod Race
use pgcluster.Prelude.{
  ℕ, zero, suc, ◌+◌, ◌-◌, ◌*◌, ◌/◌, ◌%◌, ◌^◌, ◌≤◌, ◌<◌, min, max, String, ◌≡◌, refl, sym, ap, subst,
  ◌∙◌, ◌≢◌, ◌↔◌, ◌⊎◌, inl, inr, Bool, true, false, not, ◌&&◌, ◌||◌, Option, none, some, List, [],
  ◌∷◌, ◌++◌, map, arith, str_eq, eq_iff, ltb, leb, ◌==◌, if◌then◌else◌, ltb→lt, lt→ltb, leb→le,
  le→leb, Bool-cases, Option-cases, is_some, unwrap_or, if-case, if-case_when, length, take, drop,
  filter, any, length-append, length-drop, length-filter-le, All, In, All-In, All-of-In, In-filter,
  In-filter-of, is_empty, sort_by, sort_by-IsSorted, In-sort_by, sort_by-In, IsSorted,
  length-sort_by, max_by, min_by, max_by-IsMax, max_by-In, min_by-IsMin, min_by-In, max_by-none,
  min_by-none, In-append, append-In, In-take, In-drop, In-split, take-append-drop, length-take,
  take-IsSorted, filter-IsSorted, take-le-drop, length-filter-and, length-filter_mono, Distinct,
  pigeonhole, In-map, map-In, length-map, filter_map, In-filter_map, filter_map-In,
}

pub record HeartbeatTracker : Type 0 where
  pub last_seen : ℕ
  pub timeout : ℕ
  pub in_safe_mode : Bool
  pub safe_mode_since : Option ℕ
  pub detached : Bool

-- `HeartbeatTracker::new` at a time.
abbrev pub new_tracker : ℕ → ℕ → HeartbeatTracker
new_tracker timeout now = record {
  last_seen = now;
  timeout = timeout;
  in_safe_mode = false;
  safe_mode_since = none;
  detached = false;
}

-- The writes of `touch`: the time, the flag, which is read at once, and what follows if it was set.
unfoldable pub touch_seen : HeartbeatTracker → ℕ → HeartbeatTracker
touch_seen h now = record h { last_seen = now }

unfoldable pub touch_swap : HeartbeatTracker → HeartbeatTracker × Bool
touch_swap h = (record h { in_safe_mode = false }, h.in_safe_mode)

unfoldable pub touch_clear : HeartbeatTracker → Bool → HeartbeatTracker
touch_clear h was_set = if was_set then record h { safe_mode_since = none } else h

unfoldable pub touch : HeartbeatTracker → ℕ → HeartbeatTracker
touch h now = let (h1, was_set) = touch_swap (touch_seen h now) in touch_clear h1 was_set

-- The writes of one round of the watchdog: the flag, and the time if it set the flag.
unfoldable pub watch_mark : HeartbeatTracker → ℕ → HeartbeatTracker × Bool
watch_mark h now =
    if ltb h.timeout (now - h.last_seen) && not h.in_safe_mode
    then (record h { in_safe_mode = true }, true)
    else (h, false)

unfoldable pub watch_since : HeartbeatTracker → Bool → ℕ → HeartbeatTracker
watch_since h marked now = if marked then record h { safe_mode_since = some now } else h

unfoldable pub watch : HeartbeatTracker → ℕ → HeartbeatTracker
watch h now = let (h1, marked) = watch_mark h now in watch_since h1 marked now

unfoldable pub detach : HeartbeatTracker → HeartbeatTracker
detach h = record h { detached = true }

unfoldable pub is_safe_mode : HeartbeatTracker → Bool
is_safe_mode h = not h.detached && h.in_safe_mode

unfoldable pub time_in_safe_mode : HeartbeatTracker → ℕ → Option ℕ
time_in_safe_mode h now =
    if h.detached then none else elim h.safe_mode_since [ none ↦ none | some t ↦ some (now - t) ]

-- Whether the fence stops Postgres and the agent; a timeout of 0 turns it off.
unfoldable pub fences : HeartbeatTracker → ℕ → ℕ → Bool → Bool
fences h fence_timeout now is_running = elim (time_in_safe_mode h now) [
  | none ↦ false
  | some elapsed ↦ not (fence_timeout == 0) && leb fence_timeout elapsed && is_running
]

-- Whether the agent refuses to promote its Postgres.
abbrev pub refuses_promotion : HeartbeatTracker → Bool
refuses_promotion = is_safe_mode
