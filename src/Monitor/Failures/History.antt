-- ===== src/Monitor/Failures/History.antt =====
-- The tracker against the checks that it has seen.
use pgcluster.Prelude.{
  ℕ, zero, suc, ◌+◌, ◌%◌, ◌≤◌, ◌<◌, String, ◌≡◌, refl, ◌↔◌, Bool, true, false, List, [], ◌∷◌, arith,
  str_eq, eq_iff, if◌then◌else◌, leb→le, le→leb, length,
}
use pgcluster.Dict.{get, get-insert, get-remove}
use pgcluster.Monitor.Failures.{
  FailureTracker, record_failure, record_success, failure_count, is_failed, u32_mod, counted,
  entry_or_new,
}

-- A check of a node: whether it answered, and when.
pub record Check : Type 0 where
  pub node_id : String
  pub answered : Bool
  pub at : ℕ

see : FailureTracker → Check → FailureTracker
see t c = if c.answered then record_success t c.node_id else record_failure t c.node_id c.at

-- The tracker after the checks, of which the latest stands first.
pub tracker_after : List Check → FailureTracker
unfolding see
tracker_after [] = []
tracker_after (c ∷ cs) = see (tracker_after cs) c

-- What one node answered, the latest first.
abbrev pub answers_of : String → List Check → List Bool
answers_of k [] = []
answers_of k (c ∷ cs) = if str_eq c.node_id k then c.answered ∷ answers_of k cs else answers_of k cs

-- The failures since the last answer.
abbrev pub streak : List Bool → ℕ
streak [] = 0
streak (true ∷ bs) = 0
streak (false ∷ bs) = suc (streak bs)

count-record_failure :
    (t : FailureTracker) (j k : String) (now : ℕ)
    → failure_count (record_failure t j now) k
      ≡ (if str_eq j k then (failure_count t j + 1) % u32_mod else failure_count t k)
unfolding failure_count record_failure
count-record_failure t j k now =
    ground (arith, get-insert t j k (counted (entry_or_new (get t j) now) now))

count-record_success :
    (t : FailureTracker) (j k : String)
    → failure_count (record_success t j) k ≡ (if str_eq j k then 0 else failure_count t k)
unfolding failure_count record_success
count-record_success t j k = ground (arith, get-remove t j k)

streak-le-length : (bs : List Bool) → streak bs ≤ length bs
streak-le-length [] = omega arith
streak-le-length (true ∷ bs) = omega arith
streak-le-length (false ∷ bs) = omega (arith, streak-le-length bs)

length-answers_of : (k : String) (cs : List Check) → length (answers_of k cs) ≤ length cs
length-answers_of k [] = omega arith
length-answers_of k (c ∷ cs) = ground (arith, length-answers_of k cs)

-- After fewer than 2^32 checks of any nodes, the count of a node is the number of its checks that
-- failed since it last answered, whatever the checks of other nodes in between.
pub failure_count-streak :
    (k : String) (cs : List Check)
    → length cs < u32_mod
    → failure_count (tracker_after cs) k ≡ streak (answers_of k cs)
unfolding tracker_after
failure_count-streak k [] h = unfold failure_count in refl
failure_count-streak k (c ∷ cs) h = ground (
  arith,
  eq_iff c.node_id k,
  count-record_failure (tracker_after cs) c.node_id k c.at,
  count-record_success (tracker_after cs) c.node_id k,
  failure_count-streak k cs,
  streak-le-length (answers_of k cs),
  length-answers_of k cs,
)

-- The latest `n` answers are all there, and all failures.
abbrev pub LastFailed : ℕ → List Bool → Type 0
LastFailed zero bs = Unit
LastFailed (suc n) [] = ⊥
LastFailed (suc n) (b ∷ bs) = (b ≡ false) × LastFailed n bs

streak-LastFailed : (n : ℕ) (bs : List Bool) → n ≤ streak bs → LastFailed n bs
streak-LastFailed zero bs h = tt
streak-LastFailed (suc n) [] h = omega arith
streak-LastFailed (suc n) (true ∷ bs) h = absurd (omega arith)
streak-LastFailed (suc n) (false ∷ bs) h = (refl, streak-LastFailed n bs (omega arith))

LastFailed-streak : (n : ℕ) (bs : List Bool) → LastFailed n bs → n ≤ streak bs
LastFailed-streak zero bs h = omega arith
LastFailed-streak (suc n) [] h = absurd h
LastFailed-streak (suc n) (true ∷ bs) h = cc (h.0)
LastFailed-streak (suc n) (false ∷ bs) h = omega (arith, LastFailed-streak n bs h.1)

-- After fewer than 2^32 checks of any nodes, a node counts as failed exactly if its last
-- `threshold` checks all failed.
pub is_failed_iff :
    (k : String) (threshold : ℕ) (cs : List Check)
    → length cs < u32_mod
    → (is_failed (tracker_after cs) k threshold ≡ true) ↔ LastFailed threshold (answers_of k cs)
unfolding is_failed
is_failed_iff k threshold cs h = (
  λ f.
      streak-LastFailed threshold (answers_of k cs)
        (rw (← failure_count-streak k cs h) (leb→le _ _ f)),
  λ f.
      rw (failure_count-streak k cs h)
        (le→leb _ _ (LastFailed-streak threshold (answers_of k cs) f)),
)
