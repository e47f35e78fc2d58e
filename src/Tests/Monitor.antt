-- ===== src/Tests/Monitor.antt =====
-- Histories of the health checks.
use pgcluster.Prelude.{ℕ, ◌-◌, ◌≤◌, ◌≡◌, refl, ◌↔◌, Bool, true, false, List, [], ◌∷◌, arith}
use pgcluster.Raft.Topology.{sync}
use pgcluster.Monitor.Failures.{is_failed}
use pgcluster.Monitor.Failures.History.{Check, tracker_after, answers_of, LastFailed, is_failed_iff}
use pgcluster.Monitor.Fallback.{degrade, step}
use pgcluster.Monitor.Fallback.History.{Tick, says, QuietSince, timer_after, degrade_needs_silence}

abbrev checks : List Check
checks =
    record { node_id = "b"; answered = false; at = 3 }
    ∷ record { node_id = "c"; answered = true; at = 2 }
    ∷ record { node_id = "b"; answered = false; at = 1 }
    ∷ []

is_failed_iff_example :
    (is_failed (tracker_after checks) "b" 2 ≡ true) ↔ LastFailed 2 (answers_of "b" checks)
is_failed_iff_example = is_failed_iff "b" 2 checks (omega arith)

abbrev tick : ℕ → Bool → Tick
tick now degraded = record {
  mode = sync;
  degraded = degraded;
  standby_streaming = false;
  now = now;
}

degrades : says 30 (tick 40 false) (tick 10 false ∷ []) ≡ degrade
unfolding says timer_after step
degrades = refl

degrade_needs_silence_example :
    (false ≡ false)
    × (since : ℕ) × QuietSince 30 since (tick 40 false ∷ tick 10 false ∷ [])
    × (30 ≤ 40 - since)
degrade_needs_silence_example =
    degrade_needs_silence 30 (tick 40 false) (tick 10 false ∷ []) degrades
