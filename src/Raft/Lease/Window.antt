-- ===== src/Raft/Lease/Window.antt =====
-- How long a renewal holds the lease.
use pgcluster.Prelude.{ℕ, ◌+◌, ◌-◌, ◌*◌, ◌^◌, ◌≤◌, ◌<◌, ◌≡◌, refl, ◌⊎◌, true, List, [], ◌∷◌, arith}
use pgcluster.Raft.Lease.{QuorumLease, new, renew, is_held, nanos_per_milli}

-- Clocks of an instance that has run for less than 2^63 milliseconds since `origin`.
abbrev pub InRange : ℕ → ℕ → Type 0
InRange origin at = (origin ≤ at) × (at - origin < 2 ^ 63 * nanos_per_milli)

-- An older renewal never shortens a newer one: what is held stays held.
pub renew-is_held :
    (l : QuorumLease) (at now : ℕ) → is_held l now ≡ true → is_held (renew l at) now ≡ true
unfolding is_held renew
renew-is_held l at now h = ground arith

-- The renewals of a lease, the latest first.
unfoldable pub renew_all : QuorumLease → List ℕ → QuorumLease
renew_all l [] = l
renew_all l (at ∷ ats) = renew (renew_all l ats) at

abbrev pub AllInRange : ℕ → List ℕ → Type 0
AllInRange origin [] = Unit
AllInRange origin (at ∷ ats) = InRange origin at × AllInRange origin ats

-- Some renewal began less than `duration` before `now`.
abbrev pub Recent : ℕ → ℕ → List ℕ → Type 0
Recent now duration [] = ⊥
Recent now duration (at ∷ ats) = (now < at + duration) ⊎ Recent now duration ats

origin-renew_all : (l : QuorumLease) (ats : List ℕ) → (renew_all l ats).origin ≡ l.origin
unfolding renew_all renew
origin-renew_all l [] = refl
origin-renew_all l (at ∷ ats) = origin-renew_all l ats

duration-renew_all : (l : QuorumLease) (ats : List ℕ) → (renew_all l ats).duration ≡ l.duration
unfolding renew_all renew
duration-renew_all l [] = refl
duration-renew_all l (at ∷ ats) = duration-renew_all l ats

fresh_or_older :
    (l : QuorumLease) (at now : ℕ)
    → InRange l.origin at
    → InRange l.origin now
    → is_held (renew l at) now ≡ true
    → (now < at + l.duration) ⊎ (is_held l now ≡ true)
unfolding is_held renew
fresh_or_older l at now r s h = ground arith

held-Recent :
    (l : QuorumLease) (ats : List ℕ) (now : ℕ)
    → l.renewed ≡ 0
    → AllInRange l.origin ats
    → InRange l.origin now
    → is_held (renew_all l ats) now ≡ true
    → Recent now l.duration ats
unfolding renew_all
held-Recent l [] now z rs r h = unfold is_held in ground arith
held-Recent l (at ∷ ats) now z rs r h = ground (
  arith,
  origin-renew_all l ats,
  duration-renew_all l ats,
  fresh_or_older (renew_all l ats) at now,
  held-Recent l ats now z rs.1 r,
)

-- If a lease is held after any renewals in any order, all of them and the present less than 2^63
-- milliseconds after its start, then one of the renewals began less than the duration of the lease
-- ago.
pub held_only_within_duration :
    (start duration : ℕ) (ats : List ℕ) (now : ℕ)
    → AllInRange start ats
    → InRange start now
    → is_held (renew_all (new start duration) ats) now ≡ true
    → Recent now duration ats
unfolding new
held_only_within_duration start duration ats now rs r h =
    held-Recent (new start duration) ats now refl rs r h

-- A lease that was renewed is held until two milliseconds before its duration has passed since that
-- renewal, if the renewal, the present and the duration are less than 2^63 milliseconds from the
-- start of the lease, whatever other renewal it had.
pub renewed_holds :
    (l : QuorumLease) (at now : ℕ)
    → InRange l.origin at
    → InRange l.origin now
    → l.duration < 2 ^ 63 * nanos_per_milli
    → at ≤ now
    → now + 2 * nanos_per_milli ≤ at + l.duration
    → is_held (renew l at) now ≡ true
unfolding is_held renew
renewed_holds l at now r s d o h = ground arith
