-- ===== src/Switchover/LagWait/Timely.antt =====
-- The wait ends in time, and only a replica that has caught up passes it.
use pgcluster.Prelude.{
  ℕ, zero, suc, ◌+◌, ◌*◌, ◌/◌, ◌≤◌, ◌<◌, String, ◌≡◌, ap, subst, ◌≢◌, inl, inr, arith, leb, leb→le,
  le→leb, Bool-cases,
}
use pgcluster.Switchover.LagWait.{
  Reading, Waited, in_sync, timed_out, out_of_fuel, lag, check_lag, rounds, poll_interval,
  wait_for_replica_sync,
}

-- The clock of round `n` shows at least `n` sleeps after the start.
abbrev pub Ticks : (ℕ → Reading) → ℕ → Type 0
Ticks seen start = (n : ℕ) → start + n * poll_interval ≤ (seen n).now

module _ (seen : ℕ → Reading) (target : String) (max_lag_bytes deadline : ℕ) where
  rounds-end :
      (fuel n : ℕ)
      → deadline ≤ (seen (n + fuel)).now
      → rounds (suc fuel) n seen target max_lag_bytes deadline ≢ out_of_fuel
  unfolding rounds check_lag
  rounds-end zero n late h =
      let same : n + 0 ≡ n = omega arith in
      ground (arith, ap (λ k. (seen k).now) same, le→leb deadline (seen n).now)
  rounds-end (suc fuel) n late h =
      let same : n + suc fuel ≡ n + 1 + fuel = omega arith in
      let later = rounds-end fuel (n + 1) (subst (λ k. deadline ≤ (seen k).now) same late) in
      ground (arith, later)

  -- A round goes on to the next: it is before the deadline, and the lag is above the limit.
  abbrev pub GoesOn : ℕ → Type 0
  GoesOn j = ((seen j).now < deadline) × (max_lag_bytes < lag (seen j).topology target)

  -- What a result of the rounds from `n` on says of the rounds that were made.
  abbrev pub Ended : ℕ → Waited → Type 0
  Ended n in_sync =
      (k : ℕ) × (n ≤ k)
      × ((seen k).now < deadline)
      × (lag (seen k).topology target ≤ max_lag_bytes)
      × ((j : ℕ) → n ≤ j → j < k → GoesOn j)
  Ended n timed_out =
      (k : ℕ) × (n ≤ k) × (deadline ≤ (seen k).now) × ((j : ℕ) → n ≤ j → j < k → GoesOn j)
  Ended n out_of_fuel = Unit

  earlier_too :
      (n k : ℕ)
      → GoesOn n
      → ((j : ℕ) → n + 1 ≤ j → j < k → GoesOn j)
      → (j : ℕ) → n ≤ j
      → j < k
      → GoesOn j
  earlier_too n k now before j a b = elim (Bool-cases (leb (n + 1) j)) [
    | inl later ↦ before j (leb→le (n + 1) j later) b
    | inr same ↦ let e : n ≡ j = ground arith in subst GoesOn e now
  ]

  Ended-earlier : (n : ℕ) (r : Waited) → GoesOn n → Ended (n + 1) r → Ended n r
  Ended-earlier n in_sync now (k, above, early, near, before) =
      (k, omega arith, early, near, λ j a b. earlier_too n k now before j a b)
  Ended-earlier n timed_out now (k, above, late, before) =
      (k, omega arith, late, λ j a b. earlier_too n k now before j a b)
  Ended-earlier n out_of_fuel now e = tt

  rounds-Ended : (fuel n : ℕ) → Ended n (rounds fuel n seen target max_lag_bytes deadline)
  unfolding rounds check_lag
  rounds-Ended zero n = tt
  rounds-Ended (suc fuel) n = elim (Bool-cases (leb deadline (seen n).now)) [
    | inl late ↦
        rw late (n, omega arith, leb→le deadline (seen n).now late, λ j a b. absurd (omega arith))
    | inr early ↦ elim (Bool-cases (leb (lag (seen n).topology target) max_lag_bytes)) [
      | inl near ↦
          rw (early, near)
            (
              n,
              omega arith,
              ground arith,
              leb→le (lag (seen n).topology target) max_lag_bytes near,
              λ j a b. absurd (omega arith),
            )
      | inr far ↦
          rw (early, far)
            (Ended-earlier n (rounds fuel (n + 1) seen target max_lag_bytes deadline)
              (ground arith, ground arith) (rounds-Ended fuel (n + 1)))
    ]
  ]

-- If each round begins at least one more interval of 200 ms after the start, then the wait ends
-- within its fuel. If it reports the replica in sync, then a round before the deadline saw its lag
-- within the limit; if it times out, then a round saw the deadline pass; and every round before
-- that one was before the deadline and saw the lag above the limit.
pub wait_for_replica_sync-ends :
    (seen : ℕ → Reading) (start : ℕ) (target : String) (max_lag_bytes timeout : ℕ)
    → Ticks seen start
    → (wait_for_replica_sync seen start target max_lag_bytes timeout ≢ out_of_fuel)
      × Ended seen target max_lag_bytes
          (start + timeout)
          0
          (wait_for_replica_sync seen start target max_lag_bytes timeout)
unfolding wait_for_replica_sync
wait_for_replica_sync-ends seen start target max_lag_bytes timeout ticks =
    let enough = ticks (0 + (timeout / poll_interval + 1)) in
    (
      rounds-end seen target max_lag_bytes (start + timeout) (timeout / poll_interval + 1) 0
          (omega (arith, enough)),
      rounds-Ended seen target max_lag_bytes (start + timeout) (suc (timeout / poll_interval + 1))
          0,
    )
