-- ===== src/NodeAgent/Heartbeat/Fence.antt =====
-- If no write of vk-agent/src/heartbeat.rs falls between those of another call, the fence follows the
-- heartbeats.
use pgcluster.Prelude.{
  ℕ, ◌+◌, ◌<◌, ◌≡◌, refl, inl, inr, Bool, true, false, some, List, [], ◌∷◌, arith, Option-cases,
  is_some,
}
use pgcluster.NodeAgent.Heartbeat.{
  HeartbeatTracker, new_tracker, touch_seen, touch_swap, touch_clear, touch, watch_mark,
  watch_since, watch, detach, is_safe_mode, refuses_promotion, time_in_safe_mode, fences,
}

pub data Event : Type 0 where
  heard watched : ℕ → Event
  left : Event

unfoldable pub happen : HeartbeatTracker → Event → HeartbeatTracker
happen h (heard now) = touch h now
happen h (watched now) = watch h now
happen h left = detach h

-- The latest event stands first.
unfoldable pub tracker_after : ℕ → ℕ → List Event → HeartbeatTracker
tracker_after timeout start [] = new_tracker timeout start
tracker_after timeout start (e ∷ es) = happen (tracker_after timeout start es) e

-- The time of the last heartbeat, or of the start.
abbrev pub last_heard : ℕ → List Event → ℕ
last_heard start [] = start
last_heard start (heard now ∷ es) = now
last_heard start (watched now ∷ es) = last_heard start es
last_heard start (left ∷ es) = last_heard start es

-- The safe mode has a beginning, and it began more than the timeout after the last heartbeat.
IsSound : ℕ → ℕ → HeartbeatTracker → Type 0
IsSound timeout heard_at h =
    (h.timeout ≡ timeout)
    × (h.last_seen ≡ heard_at)
    × (h.in_safe_mode ≡ is_some h.safe_mode_since)
    × ((t : ℕ) → h.safe_mode_since ≡ some t → heard_at + timeout < t)

tracker_after-IsSound :
    (timeout start : ℕ) (es : List Event)
    → IsSound timeout (last_heard start es) (tracker_after timeout start es)
unfolding tracker_after IsSound happen touch touch_seen touch_swap touch_clear watch watch_mark
    watch_since detach
tracker_after-IsSound timeout start [] = (refl, refl, refl, λ t h. absurd (ground arith))
tracker_after-IsSound timeout start (heard now ∷ es) =
    let (same, seen, flag, late) = tracker_after-IsSound timeout start es in
    (ground arith, ground arith, ground arith, λ t h. absurd (ground arith))
tracker_after-IsSound timeout start (watched now ∷ es) =
    let (same, seen, flag, late) = tracker_after-IsSound timeout start es in
    (ground arith, ground arith, ground arith, λ t h. ground (arith, late t))
tracker_after-IsSound timeout start (left ∷ es) =
    let (same, seen, flag, late) = tracker_after-IsSound timeout start es in
    (same, seen, flag, late)

-- If no call on the tracker is interrupted by another, then an agent fences its Postgres only later
-- than the heartbeat timeout and the fence timeout together after the last heartbeat, or after its
-- start.
pub fences_only_after_silence :
    (timeout start fence_timeout now : ℕ) (is_running : Bool) (es : List Event)
    → fences (tracker_after timeout start es) fence_timeout now is_running ≡ true
    → last_heard start es + timeout + fence_timeout < now
unfolding fences time_in_safe_mode IsSound
fences_only_after_silence timeout start fence_timeout now is_running es h =
    let (same, seen, flag, late) = tracker_after-IsSound timeout start es in
    elim (Option-cases (tracker_after timeout start es).safe_mode_since) [
      | inl e ↦ absurd (ground arith)
      | inr (t, e) ↦ ground (arith, late t e)
    ]

-- The node left the cluster.
abbrev pub has_left : List Event → Bool
has_left [] = false
has_left (left ∷ es) = true
has_left (heard now ∷ es) = has_left es
has_left (watched now ∷ es) = has_left es

tracker_after-detached :
    (timeout start : ℕ) (es : List Event) → (tracker_after timeout start es).detached ≡ has_left es
unfolding tracker_after happen touch touch_seen touch_swap touch_clear watch watch_mark watch_since
    detach
tracker_after-detached timeout start [] = refl
tracker_after-detached timeout start (heard now ∷ es) =
    ground (arith, tracker_after-detached timeout start es)
tracker_after-detached timeout start (watched now ∷ es) =
    ground (arith, tracker_after-detached timeout start es)
tracker_after-detached timeout start (left ∷ es) = refl

-- If the heartbeat timeout has passed since the last heartbeat, then after the next round of the
-- watchdog an agent that did not leave the cluster refuses to promote its Postgres, if no call on
-- the tracker was interrupted by another.
pub silent_agent_refuses_promotion :
    (timeout start now : ℕ) (es : List Event)
    → has_left es ≡ false
    → last_heard start es + timeout < now
    → refuses_promotion (tracker_after timeout start (watched now ∷ es)) ≡ true
unfolding tracker_after happen watch watch_mark watch_since is_safe_mode IsSound
silent_agent_refuses_promotion timeout start now es stays silent =
    let (same, seen, flag, late) = tracker_after-IsSound timeout start es in
    ground (arith, tracker_after-detached timeout start es)
