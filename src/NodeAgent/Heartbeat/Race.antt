-- ===== src/NodeAgent/Heartbeat/Race.antt =====
-- A heartbeat whose writes fall between the two writes of the watchdog of vk-agent/src/heartbeat.rs.
use pgcluster.Prelude.{ℕ, ◌+◌, ◌≤◌, ◌<◌, ◌≡◌, true, false, some, List, [], ◌∷◌, arith}
use pgcluster.NodeAgent.Heartbeat.{
  HeartbeatTracker, touch_seen, touch_swap, touch_clear, touch, watch_mark, watch_since, watch,
  is_safe_mode, time_in_safe_mode, fences,
}
use pgcluster.NodeAgent.Heartbeat.Fence.{Event, heard, watched, left, happen, last_heard, has_left}

-- The watchdog sets the flag at a time; a heartbeat that comes then makes its writes; and the watchdog
-- makes its second.
unfoldable pub interleaved : HeartbeatTracker → ℕ → HeartbeatTracker
interleaved h now =
    let (h1, marked) = watch_mark h now in
    let (h2, was_set) = touch_swap (touch_seen h1 now) in
    let h3 = touch_clear h2 was_set in watch_since h3 marked now

-- The tracker after more heartbeats and rounds of the watchdog, the latest first.
unfoldable pub goes_on : HeartbeatTracker → List Event → HeartbeatTracker
goes_on h [] = h
goes_on h (e ∷ es) = happen (goes_on h es) e

-- Each round of the watchdog comes within the timeout after the heartbeat before it; the first
-- heartbeat is at `start`.
unfoldable pub IsTimely : ℕ → ℕ → List Event → Type 0
IsTimely timeout start [] = Unit
IsTimely timeout start (watched now ∷ es) =
    (now ≤ last_heard start es + timeout) × IsTimely timeout start es
IsTimely timeout start (heard now ∷ es) = IsTimely timeout start es
IsTimely timeout start (left ∷ es) = IsTimely timeout start es

-- The flag is off, and the safe mode still has a beginning.
IsStuck : ℕ → ℕ → ℕ → HeartbeatTracker → Type 0
IsStuck timeout at heard_at h =
    (h.in_safe_mode ≡ false)
    × (h.safe_mode_since ≡ some at)
    × (h.detached ≡ false)
    × (h.timeout ≡ timeout)
    × (h.last_seen ≡ heard_at)

interleaved-IsStuck :
    (h : HeartbeatTracker) (at : ℕ)
    → h.in_safe_mode ≡ false
    → h.detached ≡ false
    → h.last_seen + h.timeout < at
    → IsStuck h.timeout at at (interleaved h at)
unfolding interleaved watch_mark touch_seen touch_swap touch_clear watch_since IsStuck
interleaved-IsStuck h at flag stays late =
    (ground arith, ground arith, ground arith, ground arith, ground arith)

happen-IsStuck :
    (timeout at start : ℕ) (h : HeartbeatTracker) (e : Event) (es : List Event)
    → has_left (e ∷ es) ≡ false
    → IsTimely timeout start (e ∷ es)
    → IsStuck timeout at (last_heard start es) h
    → IsStuck timeout at (last_heard start (e ∷ es)) (happen h e)
unfolding IsStuck IsTimely happen touch touch_seen touch_swap touch_clear watch watch_mark
    watch_since
happen-IsStuck timeout at start h (heard now) es stays timely (flag, since, in_it, same, seen) =
    (ground arith, ground arith, ground arith, ground arith, ground arith)
happen-IsStuck timeout at start h (watched now) es stays (near, timely)
      (flag, since, in_it, same, seen) =
    (ground arith, ground arith, ground arith, ground arith, ground arith)
happen-IsStuck timeout at start h left es stays timely stuck = absurd (ground arith)

goes_on-IsStuck :
    (timeout at start : ℕ) (h : HeartbeatTracker) (es : List Event)
    → has_left es ≡ false
    → IsTimely timeout start es
    → IsStuck timeout at start h
    → IsStuck timeout at (last_heard start es) (goes_on h es)
unfolding goes_on IsTimely
goes_on-IsStuck timeout at start h [] stays timely stuck = stuck
goes_on-IsStuck timeout at start h (heard now ∷ es) stays timely stuck =
    happen-IsStuck timeout at start (goes_on h es) (heard now) es stays timely
      (goes_on-IsStuck timeout at start h es stays timely stuck)
goes_on-IsStuck timeout at start h (watched now ∷ es) stays timely stuck =
    happen-IsStuck timeout at start (goes_on h es) (watched now) es stays timely
      (goes_on-IsStuck timeout at start h es stays timely.1 stuck)
goes_on-IsStuck timeout at start h (left ∷ es) stays timely stuck = absurd (ground arith)

-- If a heartbeat's writes fall between the two writes with which the watchdog enters the safe mode,
-- and from then on every round of the watchdog comes within the heartbeat timeout after the
-- heartbeat before it, then the agent fences a running Postgres once the fence timeout has passed,
-- although heartbeats arrive in time and it is not in safe mode. The tracker was not in safe mode
-- nor detached, the timeout had passed, the agent does not leave the cluster, and no later call on
-- the tracker is interrupted by another.
pub interleaved_heartbeat_fences :
    (h : HeartbeatTracker) (at fence_timeout now : ℕ) (es : List Event)
    → h.in_safe_mode ≡ false
    → h.detached ≡ false
    → h.last_seen + h.timeout < at
    → has_left es ≡ false
    → IsTimely h.timeout at es
    → 0 < fence_timeout
    → at + fence_timeout ≤ now
    → (is_safe_mode (goes_on (interleaved h at) es) ≡ false)
      × (fences (goes_on (interleaved h at) es) fence_timeout now true ≡ true)
unfolding is_safe_mode fences time_in_safe_mode IsStuck
interleaved_heartbeat_fences h at fence_timeout now es flag inside late stays timely on long =
    let (flag2, since, inside2, same, seen) =
      goes_on-IsStuck h.timeout at at (interleaved h at) es stays timely
        (interleaved-IsStuck h at flag inside late) in
    (ground arith, ground arith)
