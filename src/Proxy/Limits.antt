-- ===== src/Proxy/Limits.antt =====
-- pgcluster/src/proxy/limits.rs: the caps on client connections. A semaphore is the number of
-- permits it has left. An address is a number. One call runs at a time: each holds the lock, or
-- takes a permit in one atomic step, and what several calls do is a sequence of these.
pub mod Accounting
use pgcluster.Prelude.{
  ℕ, zero, suc, ◌+◌, ◌-◌, ◌*◌, ◌/◌, ◌%◌, ◌^◌, ◌≤◌, ◌<◌, min, max, String, ◌≡◌, refl, sym, ap, subst,
  ◌∙◌, ◌≢◌, ◌↔◌, ◌⊎◌, inl, inr, Bool, true, false, not, ◌&&◌, ◌||◌, Option, none, some, List, [],
  ◌∷◌, ◌++◌, map, arith, str_eq, eq_iff, ltb, leb, ◌==◌, if◌then◌else◌, ltb→lt, lt→ltb, leb→le,
  le→leb, Bool-cases, Option-cases, is_some, unwrap_or, length, take, drop, filter, any,
  length-append, length-drop, length-filter-le, All, In, All-In, All-of-In, In-filter, In-filter-of,
  is_empty, sort_by, sort_by-IsSorted, In-sort_by, sort_by-In, IsSorted, length-sort_by, max_by,
  min_by, max_by-IsMax, max_by-In, min_by-IsMin, min_by-In, max_by-none, min_by-none, In-append,
  append-In, In-take, In-drop, In-split, take-append-drop, length-take, take-IsSorted,
  filter-IsSorted, take-le-drop, length-filter-and, length-filter_mono, Distinct, pigeonhole,
  In-map, map-In, length-map, filter_map, In-filter_map, filter_map-In,
}

-- `per_address`: the pending connections from an address; 0 is an address that the map lacks,
-- because a count that falls to 0 is removed.
abbrev pub Counts : Type 0
Counts = ℕ → ℕ

pub record Limits : Type 0 where
  pub total : ℕ
  pub pending : ℕ
  pub per_address : Counts
  pub per_address_max : ℕ

-- `Admitted` of one client: the address it came from, and whether its login permit is still held.
pub record Admitted : Type 0 where
  pub address : ℕ
  pub has_permit : Bool

-- `ConnectionLimits::with`
unfoldable pub with_caps : ℕ → ℕ → ℕ → Limits
with_caps total pending per_address = record {
  total = total;
  pending = pending;
  per_address = λ a. 0;
  per_address_max = per_address;
}

abbrev pub set_count : Counts → ℕ → ℕ → Counts
set_count counts address n a = if a == address then n else counts a

unfoldable pub release : Counts → ℕ → Counts
release counts address = set_count counts address (counts address - 1)

-- A refusal gives back what it had taken: the permits are dropped on return.
unfoldable pub admit : Limits → ℕ → Limits × Option Admitted
admit l address =
    if l.total == 0
    then (l, none)
    else if leb l.per_address_max (l.per_address address)
    then (l, none)
    else let counts = set_count l.per_address address (l.per_address address + 1) in
      if l.pending == 0 then (record l { per_address = release counts address }, none) else (
        record l { total = l.total - 1; pending = l.pending - 1; per_address = counts },
        some (record { address = address; has_permit = true }),
      )

-- `LoginGuard::finish`
unfoldable pub finish : Limits → Admitted → Limits × Admitted
finish l a =
    if a.has_permit
    then (
      record l { pending = l.pending + 1; per_address = release l.per_address a.address },
      record a { has_permit = false },
    )
    else (l, a)

-- The client is gone: its login guard finishes, and its permit of the total is dropped.
unfoldable pub drop_admitted : Limits → Admitted → Limits
drop_admitted l a = let (m, b) = finish l a in record m { total = m.total + 1 }
