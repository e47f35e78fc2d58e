-- ===== src/Switchover/Planned.antt =====
-- pgcluster/src/switchover/mod.rs: the wait for the lag, and then the hand-off.
use pgcluster.Prelude.{
  ℕ, ◌+◌, ◌≤◌, ◌<◌, String, ◌≡◌, refl, sym, ap, subst, ◌∙◌, ◌≢◌, ◌↔◌, ◌⊎◌, inl, inr, Bool, Option,
  none, some, arith, ltb, ltb→lt, Bool-cases,
}
use pgcluster.Raft.Topology.{ClusterTopology}
use pgcluster.Failover.Trigger.{Setting}
use pgcluster.Switchover.LagWait.{
  Reading, Waited, in_sync, timed_out, out_of_fuel, lag, wait_for_replica_sync,
}
use pgcluster.Switchover.LagWait.Timely.{Ticks, GoesOn, Ended, wait_for_replica_sync-ends}
use pgcluster.Switchover.Handoff.{Outcome, execute_switchover}
use pgcluster.Agents.{Log, Run}

-- What a planned switchover is called with. `seen` and `start` are the readings of the wait, and
-- `current` is the topology that is read after it.
pub record Plan : Type 0 where
  pub setting : Setting
  pub seen : ℕ → Reading
  pub start : ℕ
  pub current : ClusterTopology
  pub new_primary_id : String
  pub max_lag_bytes : ℕ
  pub timeout : ℕ
  pub proxied : Bool

unfoldable pub hand_over : Plan → Log → Run (Option Outcome)
hand_over p log =
    let (log1, outcome) = execute_switchover p.setting p.current p.new_primary_id p.proxied log in
    (log1, some outcome)

-- `none` is the error of the wait.
unfoldable pub planned_switchover : Plan → Log → Run (Option Outcome)
planned_switchover p log =
    elim (wait_for_replica_sync p.seen p.start p.new_primary_id p.max_lag_bytes p.timeout) [
      | in_sync ↦ hand_over p log
      | timed_out ↦ (log, none)
      | out_of_fuel ↦ (log, none)
    ]

-- The deadline of the wait.
abbrev pub deadline_of : Plan → ℕ
deadline_of p = p.start + p.timeout

-- A round leaves the wait open: it is before the deadline, and the target's lag is above the limit.
abbrev pub StaysOpen : Plan → ℕ → Type 0
StaysOpen p = GoesOn p.seen p.new_primary_id p.max_lag_bytes (deadline_of p)

-- The first round that does not leave the wait open is before the deadline, and finds the target's
-- lag within the limit.
abbrev pub CaughtUp : Plan → Type 0
CaughtUp p =
    (k : ℕ) × ((p.seen k).now < deadline_of p)
    × (lag (p.seen k).topology p.new_primary_id ≤ p.max_lag_bytes)
    × ((j : ℕ) → j < k → StaysOpen p j)

-- The first round that does not leave the wait open is past the deadline.
abbrev pub Expired : Plan → Type 0
Expired p = (k : ℕ) × (deadline_of p ≤ (p.seen k).now) × ((j : ℕ) → j < k → StaysOpen p j)

hand_over_differs : (p : Plan) (log : Log) → hand_over p log ≡ (log, none) → ⊥
unfolding hand_over
hand_over_differs p log e =
    let d : some (execute_switchover p.setting p.current p.new_primary_id p.proxied log).1 ≡ none =
      ap (λ x. x.1) e in
    ground (arith, d)

planned_switchover_after :
    (p : Plan) (log : Log) (r : Waited)
    → wait_for_replica_sync p.seen p.start p.new_primary_id p.max_lag_bytes p.timeout ≡ r
    → r ≢ out_of_fuel
    → Ended p.seen p.new_primary_id p.max_lag_bytes (deadline_of p) 0 r
    → ((planned_switchover p log ≡ hand_over p log) × CaughtUp p)
      ⊎ ((planned_switchover p log ≡ (log, none)) × Expired p)
unfolding planned_switchover
planned_switchover_after p log in_sync e runs (k, above, early, near, before) =
    inl (ground arith, (k, early, near, λ j b. before j (omega arith) b))
planned_switchover_after p log timed_out e runs (k, above, late, before) =
    inr (ground arith, (k, late, λ j b. before j (omega arith) b))
planned_switchover_after p log out_of_fuel e runs ended = absurd (runs refl)

-- The two ends of the wait exclude each other.
not_Expired : (p : Plan) → CaughtUp p → Expired p → ⊥
not_Expired p (k, early, near, open_k) (i, late, open_i) = elim (Bool-cases (ltb k i)) [
  | inl less ↦ let went_on = open_i k (ltb→lt k i less) in omega (arith, went_on.1, near)
  | inr more ↦ elim (Bool-cases (ltb i k)) [
    | inl less ↦ let went_on = open_k i (ltb→lt i k less) in omega (arith, went_on.0, late)
    | inr same ↦
        let e : k ≡ i = ground arith in
        let late_k = subst (λ n. deadline_of p ≤ (p.seen n).now) (sym e) late in
        omega (arith, early, late_k)
  ]
]

-- If each round of the wait begins at least one more interval of 200 ms after the start, then a
-- planned switchover is the hand-off exactly if the first round that does not find the lag of the
-- target above the limit before the deadline finds it within the limit before the deadline; it ends
-- in the error of the wait, without any call, exactly if that round is past the deadline; and one
-- of the two holds.
pub planned_switchover_waits :
    (p : Plan) (log : Log)
    → Ticks p.seen p.start
    → ((planned_switchover p log ≡ hand_over p log) ↔ CaughtUp p)
      × ((planned_switchover p log ≡ (log, none)) ↔ Expired p)
      × (CaughtUp p ⊎ Expired p)
planned_switchover_waits p log ticks =
    let (runs, ended) =
      wait_for_replica_sync-ends p.seen p.start p.new_primary_id p.max_lag_bytes p.timeout ticks in
    let outcome = planned_switchover_after p log _ refl runs ended in
    elim outcome [
      | inl (hands, up) ↦ (
        (λ e. up, λ u. hands),
        (λ e. absurd (hand_over_differs p log (sym hands ∙ e)), λ x. absurd (not_Expired p up x)),
        inl up,
      )
      | inr (stops, past) ↦ (
        (λ e. absurd (hand_over_differs p log (sym e ∙ stops)), λ u. absurd (not_Expired p u past)),
        (λ e. past, λ x. stops),
        inr past,
      )
    ]
