-- ===== src/Raft/Lease/Quorum.antt =====
-- Majorities meet, so two instances cannot renew their leases from disjoint sets of voters.
use pgcluster.Prelude.{
  ℕ, ◌/◌, ◌≤◌, ◌<◌, ◌≡◌, ◌≢◌, Bool, true, not, ◌&&◌, ◌||◌, Option, List, [], ◌∷◌, arith, ◌==◌,
  ltb→lt, length, filter, any, length-filter-and, length-filter_mono,
}
use pgcluster.Raft.Lease.{QuorumLease, is_majority, reached, renewal_round, answered}

-- The voters that vouch for an instance: itself, and those that answered it.
abbrev pub vouches : ℕ → (ℕ → Option Bool) → ℕ → Bool
vouches me probe id = id == me || answered (probe id)

vouches_others :
    (me : ℕ) (probe : ℕ → Option Bool) (voters : List ℕ)
    → length (filter (λ id. not (id == me) && answered (probe id)) voters)
      ≤ length (filter (vouches me probe) voters)
vouches_others me probe voters =
    length-filter_mono (λ id. not (id == me) && answered (probe id)) (vouches me probe) voters
      λ id h. ground arith

-- No more is counted than vouches.
reached-le :
    (me : ℕ) (probe : ℕ → Option Bool) (voters : List ℕ)
    → any (λ id. id == me) voters ≡ true
    → reached me probe voters ≤ length (filter (vouches me probe) voters)
unfolding reached
reached-le me probe [] h = ground arith
reached-le me probe (v ∷ vs) h = ground (arith, reached-le me probe vs, vouches_others me probe vs)

any_of_filter : (p : ℕ → Bool) (xs : List ℕ) → 0 < length (filter p xs) → any p xs ≡ true
any_of_filter p [] h = absurd (omega arith)
any_of_filter p (x ∷ xs) h = ground (arith, any_of_filter p xs)

-- Two instances whose rounds reached a majority of the same voters share a voter that vouched for
-- both.
pub majorities_meet :
    (a b : ℕ) (probe_a probe_b : ℕ → Option Bool) (voters : List ℕ)
    → any (λ id. id == a) voters ≡ true
    → any (λ id. id == b) voters ≡ true
    → is_majority (reached a probe_a voters) (length voters) ≡ true
    → is_majority (reached b probe_b voters) (length voters) ≡ true
    → any (λ id. vouches a probe_a id && vouches b probe_b id) voters ≡ true
unfolding is_majority
majorities_meet a b probe_a probe_b voters ha hb ma mb = any_of_filter _ voters (
    omega (
      arith,
      reached-le a probe_a voters ha,
      reached-le b probe_b voters hb,
      length-filter-and (vouches a probe_a) (vouches b probe_b) voters,
      ltb→lt (length voters / 2) (reached a probe_a voters) ma,
      ltb→lt (length voters / 2) (reached b probe_b voters) mb,
    ))

-- A round changes the lease only if the instance is a voter and reached a majority.
pub renewal_round_needs_majority :
    (l : QuorumLease) (started me : ℕ) (voters : List ℕ) (probe : ℕ → Option Bool)
    → renewal_round l started me voters probe ≢ l
    → (any (λ id. id == me) voters ≡ true)
      × (is_majority (reached me probe voters) (length voters) ≡ true)
unfolding renewal_round
renewal_round_needs_majority l started me voters probe h = ground (arith, h)

-- If two rounds over the same list of voters, by any two instances, both change their lease, then
-- some voter of the list is vouched for in both: it is the instance itself or it answered the
-- probe.
pub renewing_rounds_meet :
    (l m : QuorumLease) (s t a b : ℕ) (voters : List ℕ) (probe_a probe_b : ℕ → Option Bool)
    → renewal_round l s a voters probe_a ≢ l
    → renewal_round m t b voters probe_b ≢ m
    → any (λ id. vouches a probe_a id && vouches b probe_b id) voters ≡ true
renewing_rounds_meet l m s t a b voters probe_a probe_b h k =
    let (va, ma) = renewal_round_needs_majority l s a voters probe_a h in
    let (vb, mb) = renewal_round_needs_majority m t b voters probe_b k in
    majorities_meet a b probe_a probe_b voters va vb ma mb
