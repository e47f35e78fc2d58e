-- ===== src/Tests/Heartbeat.antt =====
-- The theorems about the agent's heartbeats, with a timeout of 10 and a fence after 30.
use pgcluster.Prelude.{◌+◌, ◌<◌, ◌≡◌, refl, true, false, List, [], ◌∷◌, arith}
use pgcluster.NodeAgent.Heartbeat.{
  new_tracker, touch, touch_seen, touch_swap, touch_clear, watch, watch_mark, watch_since,
  is_safe_mode, refuses_promotion, time_in_safe_mode, fences,
}
use pgcluster.NodeAgent.Heartbeat.Fence.{
  Event, heard, watched, happen, tracker_after, last_heard, fences_only_after_silence,
  silent_agent_refuses_promotion,
}
use pgcluster.NodeAgent.Heartbeat.Race.{
  interleaved, goes_on, IsTimely, interleaved_heartbeat_fences,
}

-- A heartbeat at 5, and rounds of the watchdog at 6 and 16.
abbrev quiet_agent : List Event
quiet_agent = watched 16 ∷ watched 6 ∷ heard 5 ∷ []

fenced_at_46 : fences (tracker_after 10 0 quiet_agent) 30 46 true ≡ true
unfolding fences time_in_safe_mode tracker_after happen touch touch_seen touch_swap touch_clear
    watch watch_mark watch_since
fenced_at_46 = refl

fences_only_after_silence_example : last_heard 0 quiet_agent + 10 + 30 < 46
fences_only_after_silence_example =
    fences_only_after_silence 10 0 30 46 true quiet_agent fenced_at_46

silent_agent_refuses_promotion_example :
    refuses_promotion (tracker_after 10 0 (watched 16 ∷ heard 5 ∷ [])) ≡ true
silent_agent_refuses_promotion_example =
    silent_agent_refuses_promotion 10 0 16 (heard 5 ∷ []) refl (omega arith)

-- Heartbeats every 8 and rounds of the watchdog after each, up to the fence at 41.
abbrev healthy : List Event
healthy = heard 36 ∷ watched 33 ∷ heard 28 ∷ watched 23 ∷ heard 20 ∷ watched 13 ∷ heard 12 ∷ []

healthy-IsTimely : IsTimely 10 11 healthy
unfolding IsTimely
healthy-IsTimely = (omega arith, (omega arith, (omega arith, tt)))

interleaved_heartbeat_fences_example :
    (is_safe_mode (goes_on (interleaved (new_tracker 10 0) 11) healthy) ≡ false)
    × (fences (goes_on (interleaved (new_tracker 10 0) 11) healthy) 30 41 true ≡ true)
interleaved_heartbeat_fences_example =
    interleaved_heartbeat_fences (new_tracker 10 0) 11 30 41 healthy refl refl (omega arith) refl
      healthy-IsTimely (omega arith) (omega arith)
