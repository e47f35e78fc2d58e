-- ===== src/Raft/Lease.antt =====
-- pgcluster/src/raft/lease.rs. An `Instant` and a `Duration` are numbers of nanoseconds.
pub mod Window
pub mod Quorum
use pgcluster.Prelude.{
  ℕ, zero, suc, ◌+◌, ◌-◌, ◌*◌, ◌/◌, ◌%◌, ◌^◌, ◌≤◌, ◌<◌, min, max, String, ◌≡◌, refl, sym, ap, subst,
  ◌∙◌, ◌≢◌, ◌↔◌, ◌⊎◌, inl, inr, Bool, true, false, not, ◌&&◌, ◌||◌, Option, none, some, List, [],
  ◌∷◌, ◌++◌, map, arith, str_eq, eq_iff, ltb, leb, ◌==◌, if◌then◌else◌, ltb→lt, lt→ltb, leb→le,
  le→leb, Bool-cases, Option-cases, is_some, unwrap_or, length, take, drop, filter, any,
  length-append, length-drop, length-filter-le, All, In, All-In, All-of-In, In-filter, In-filter-of,
  is_empty, sort_by, sort_by-IsSorted, In-sort_by, sort_by-In, IsSorted, length-sort_by, max_by,
  min_by, max_by-IsMax, max_by-In, min_by-IsMin, min_by-In, max_by-none, min_by-none, In-append,
  append-In, In-take, In-drop, In-split, take-append-drop, length-take, take-IsSorted,
  filter-IsSorted, take-le-drop, length-filter-and, length-filter_mono,
}

abbrev pub u64_mod : ℕ
u64_mod = 2 ^ 64

abbrev pub nanos_per_milli : ℕ
nanos_per_milli = 1000000

-- `as_millis() as u64`
abbrev pub as_millis : ℕ → ℕ
as_millis d = d / nanos_per_milli % u64_mod

-- `renewed` is one more than the milliseconds from `origin` to the last renewal, or 0.
pub record QuorumLease : Type 0 where
  pub origin : ℕ
  pub renewed : ℕ
  pub duration : ℕ

-- `QuorumLease::new` at the time `now`.
unfoldable pub new : ℕ → ℕ → QuorumLease
new now duration = record { origin = now; renewed = 0; duration = duration }

-- `duration_since` of an earlier instant is zero, and `fetch_max` keeps the larger value.
unfoldable pub renew : QuorumLease → ℕ → QuorumLease
renew l at = record l { renewed = max l.renewed ((as_millis (at - l.origin) + 1) % u64_mod) }

unfoldable pub is_held : QuorumLease → ℕ → Bool
is_held l now =
    if l.renewed == 0
    then false
    else ltb ((as_millis (now - l.origin) + 1) % u64_mod - l.renewed) (as_millis l.duration)

unfoldable pub is_majority : ℕ → ℕ → Bool
is_majority reached voters = ltb (voters / 2) reached

-- What came of probing a voter: `none` if no channel to it could be made.
abbrev answered : Option Bool → Bool
answered none = false
answered (some reply) = reply

-- This instance, and the voters that answered it.
unfoldable pub reached : ℕ → (ℕ → Option Bool) → List ℕ → ℕ
reached me probe voters = 1 + length (filter (λ id. not (id == me) && answered (probe id)) voters)

-- One round of the loop of `spawn_renewal`, which began at `started`.
unfoldable pub renewal_round : QuorumLease → ℕ → ℕ → List ℕ → (ℕ → Option Bool) → QuorumLease
renewal_round l started me voters probe =
    if any (λ id. id == me) voters
    then (if is_majority (reached me probe voters) (length voters) then renew l started else l)
    else l
