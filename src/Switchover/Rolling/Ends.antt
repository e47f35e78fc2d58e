-- ===== src/Switchover/Rolling/Ends.antt =====
-- The wait for a restarted node ends: pgcluster/src/switchover/rolling.rs, `wait_until_streaming`.
use pgcluster.Prelude.{
  ℕ, zero, suc, ◌+◌, ◌*◌, ◌≤◌, String, ◌≡◌, refl, sym, subst, ◌≢◌, Option, none, some, arith,
  le→leb,
}
use pgcluster.Agents.{Log}
use pgcluster.Switchover.Rolling.Restart.{
  Look, Restart, Back, streaming, late, out_of_fuel, check_primary, look_at, look_once, or_later,
  look_rounds, catch_up_timeout, look_interval, wait_until_streaming,
}

-- The clock follows the sleeps of the wait that begins after the log.
abbrev pub Follows : Restart → Log → Type 0
Follows r log = (n : ℕ) → r.start log + n * look_interval ≤ (r.look log n).now

or_later_ends :
    (later : Log → Log × Back) (out : Log × Option Back)
    → ((log : Log) → (later log).1 ≢ out_of_fuel)
    → out.1 ≢ some out_of_fuel
    → (or_later later out).1 ≢ out_of_fuel
or_later_ends later (log, none) rest h = rest log
or_later_ends later (log, some streaming) rest h = λ e. ground arith
or_later_ends later (log, some late) rest h = λ e. ground arith
or_later_ends later (log, some out_of_fuel) rest h = λ e. h refl

look_once_ends :
    (l : Look) (deadline : ℕ) (id : String) (log : Log)
    → (look_once l deadline id log).1 ≢ some out_of_fuel
unfolding look_once look_at check_primary
look_once_ends l deadline id log = λ e. ground (arith, e)

look_once_late :
    (l : Look) (deadline : ℕ) (id : String) (log : Log)
    → deadline ≤ l.now
    → look_once l deadline id log ≡ (log, some late)
unfolding look_once
look_once_late l deadline id log past = rw (le→leb deadline l.now past) refl

look_rounds_end :
    (fuel n : ℕ) (look : ℕ → Look) (deadline : ℕ) (id : String) (log : Log)
    → deadline ≤ (look (n + fuel)).now
    → (look_rounds (suc fuel) n look deadline id log).1 ≢ out_of_fuel
unfolding look_rounds
look_rounds_end zero n look deadline id log past =
    let now = subst (λ k. deadline ≤ (look k).now) (omega arith) past in
    subst (λ out. (or_later (look_rounds 0 (n + 1) look deadline id) out).1 ≢ out_of_fuel)
      (sym (look_once_late (look n) deadline id log now)) (λ e. ground arith)
look_rounds_end (suc fuel) n look deadline id log past =
    let same : n + suc fuel ≡ n + 1 + fuel = omega arith in
    or_later_ends (look_rounds (suc fuel) (n + 1) look deadline id)
      (look_once (look n) deadline id log)
      (λ log1.
        look_rounds_end fuel (n + 1) look deadline id log1
          (subst (λ k. deadline ≤ (look k).now) same past))
      (look_once_ends (look n) deadline id log)

-- If the clock follows the sleeps, then a wait for a node ends with the node streaming or with its
-- deadline.
pub wait_until_streaming-ends :
    (r : Restart) (id : String) (log : Log)
    → Follows r log
    → (wait_until_streaming r id log).1 ≢ out_of_fuel
unfolding wait_until_streaming
wait_until_streaming-ends r id log ticks =
    look_rounds_end 240 0 (r.look log) (r.start log + catch_up_timeout) id log (ticks 240)
