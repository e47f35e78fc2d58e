-- ===== src/Monitor/Fallback/History.antt =====
-- The fallback against the ticks that it has seen.
use pgcluster.Prelude.{
  ℕ, ◌-◌, ◌≤◌, ◌≡◌, refl, ◌↔◌, ◌⊎◌, inl, inr, Bool, true, false, none, some, List, [], ◌∷◌, arith,
  Option-cases,
}
use pgcluster.Raft.Topology.{ReplicationMode, async, sync, sync_strict}
use pgcluster.Monitor.Fallback.{DegradeTimer, Fallback, degrade, restore, step, is_sync}

-- What a tick of the monitor shows the timer.
pub record Tick : Type 0 where
  pub mode : ReplicationMode
  pub degraded : Bool
  pub standby_streaming : Bool
  pub now : ℕ

module _ (timeout : ℕ) where
  abbrev see : DegradeTimer → Tick → DegradeTimer × Fallback
  see timer t = step timer t.mode t.degraded t.standby_streaming timeout t.now

  -- The timer after the ticks, of which the latest stands first.
  unfoldable pub timer_after : List Tick → DegradeTimer
  timer_after [] = none
  timer_after (t ∷ ts) = (see (timer_after ts) t).0

  -- What the timer says on the latest tick.
  unfoldable pub says : Tick → List Tick → Fallback
  says t ts = (see (timer_after ts) t).1

  -- Every tick back to one at the time `since` found `sync` with no standby streaming.
  abbrev pub QuietSince : ℕ → List Tick → Type 0
  QuietSince since [] = ⊥
  QuietSince since (t ∷ ts) =
      (t.mode ≡ sync) × (t.standby_streaming ≡ false) × ((t.now ≡ since) ⊎ QuietSince since ts)

  is_sync→sync : (m : ReplicationMode) → is_sync m ≡ true → m ≡ sync
  is_sync→sync sync h = refl
  is_sync→sync async h = cc
  is_sync→sync sync_strict h = cc

  -- A running timer started at a tick from which on everything was quiet.
  timer-QuietSince :
      (ts : List Tick) (since : ℕ) → timer_after ts ≡ some since → QuietSince since ts
  unfolding timer_after step
  timer-QuietSince [] since h = ground arith
  timer-QuietSince (t ∷ ts) since h = ground (arith, timer-QuietSince ts since, is_sync→sync t.mode)

  -- If the timer says to fall back to async, then the fallback is not on yet, and on every tick
  -- back to one at least `timeout` ago the mode was `sync` and no standby streamed.
  pub degrade_needs_silence :
      (t : Tick) (ts : List Tick)
      → says t ts ≡ degrade
      → (t.degraded ≡ false) × (since : ℕ) × QuietSince since (t ∷ ts) × (timeout ≤ t.now - since)
  unfolding says step
  degrade_needs_silence t ts h = elim (Option-cases (timer_after ts)) [
    | inl e ↦ (
      ground arith,
      t.now,
      (ground (arith, is_sync→sync t.mode), ground arith, inl refl),
      ground arith,
    )
    | inr (since, e) ↦ (
      ground arith,
      since,
      (ground (arith, is_sync→sync t.mode), ground arith, inr (timer-QuietSince ts since e)),
      ground arith,
    )
  ]

  -- The timer says to require synchronous commit again exactly if the fallback is on, the mode is
  -- `sync`, and a standby streams.
  pub restore_iff :
      (t : Tick) (ts : List Tick)
      → (says t ts ≡ restore)
        ↔ ((t.mode ≡ sync) × (t.degraded ≡ true) × (t.standby_streaming ≡ true))
  unfolding says step
  restore_iff t ts =
      (λ h. (ground (arith, is_sync→sync t.mode), ground arith, ground arith), λ h. ground arith)
