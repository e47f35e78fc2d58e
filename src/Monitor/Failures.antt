-- ===== src/Monitor/Failures.antt =====
-- `FailureTracker` of pgcluster/src/node_monitor/failure_state.rs.
pub mod History
use pgcluster.Prelude.{
  ℕ, zero, suc, ◌+◌, ◌-◌, ◌*◌, ◌/◌, ◌%◌, ◌^◌, ◌≤◌, ◌<◌, min, max, String, ◌≡◌, refl, sym, ap, subst,
  ◌∙◌, ◌≢◌, ◌↔◌, ◌⊎◌, inl, inr, Bool, true, false, not, ◌&&◌, ◌||◌, Option, none, some, List, [],
  ◌∷◌, ◌++◌, map, arith, str_eq, eq_iff, ltb, leb, ◌==◌, if◌then◌else◌, ltb→lt, lt→ltb, leb→le,
  le→leb, Bool-cases, Option-cases, is_some, unwrap_or, length, take, drop, filter, any,
  length-append, length-drop, length-filter-le, All, In, All-In, All-of-In, In-filter, In-filter-of,
  is_empty, sort_by, sort_by-IsSorted, In-sort_by, sort_by-In, IsSorted, length-sort_by, max_by,
  min_by, max_by-IsMax, max_by-In, min_by-IsMin, min_by-In, max_by-none, min_by-none, In-append,
  append-In, In-take, In-drop, In-split, take-append-drop, length-take, take-IsSorted,
  filter-IsSorted, take-le-drop, length-filter-and, length-filter_mono,
}
use pgcluster.Dict.{
  Dict, get, insert, remove, or_insert, contains_key, IsMap, get-insert, get-remove, get-or_insert,
  insert-IsMap, remove-IsMap, or_insert-IsMap, In-get, get-In,
}

abbrev pub u32_mod : ℕ
u32_mod = 2 ^ 32

pub record FailureRecord : Type 0 where
  pub count : ℕ
  pub first_seen : ℕ
  pub last_seen : ℕ

-- The tracker's one field, `failures`.
abbrev pub FailureTracker : Type 0
FailureTracker = Dict FailureRecord

-- The record to count on: the one there is, or a new one.
abbrev entry_or_new : Option FailureRecord → ℕ → FailureRecord
entry_or_new none now = record { count = 0; first_seen = now; last_seen = now }
entry_or_new (some r) now = r

abbrev counted : FailureRecord → ℕ → FailureRecord
counted rec now = record rec { count = (rec.count + 1) % u32_mod; last_seen = now }

unfoldable pub record_failure : FailureTracker → String → ℕ → FailureTracker
record_failure t node_id now = insert t node_id (counted (entry_or_new (get t node_id) now) now)

unfoldable pub record_success : FailureTracker → String → FailureTracker
record_success t node_id = remove t node_id

unfoldable pub failure_count : FailureTracker → String → ℕ
failure_count t node_id = elim (get t node_id) [ none ↦ 0 | some r ↦ r.count ]

unfoldable pub is_failed : FailureTracker → String → ℕ → Bool
unfolding failure_count
is_failed t node_id threshold = leb threshold (failure_count t node_id)
