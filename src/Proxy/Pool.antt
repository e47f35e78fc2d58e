-- ===== src/Proxy/Pool.antt =====
-- pgcluster/src/proxy/pool.rs: the connections to one backend for one database and user. A
-- connection is what the pool reads of it. Each function here is what runs while the lock of the
-- bucket is held, or one atomic change of its counter.
pub mod Accounting
use pgcluster.Prelude.{
  ℕ, zero, suc, ◌+◌, ◌-◌, ◌*◌, ◌/◌, ◌%◌, ◌^◌, ◌≤◌, ◌<◌, min, max, String, ◌≡◌, refl, sym, ap, subst,
  ◌∙◌, ◌≢◌, ◌↔◌, ◌⊎◌, inl, inr, Bool, true, false, not, ◌&&◌, ◌||◌, Option, none, some, List, [],
  ◌∷◌, ◌++◌, map, arith, str_eq, eq_iff, ltb, leb, ◌==◌, if◌then◌else◌, ltb→lt, lt→ltb, leb→le,
  le→leb, Bool-cases, Option-cases, is_some, unwrap_or, length, take, drop, filter, any,
  length-append, length-drop, length-filter-le, All, In, All-In, All-of-In, In-filter, In-filter-of,
  is_empty, sort_by, sort_by-IsSorted, In-sort_by, sort_by-In, IsSorted, length-sort_by, max_by,
  min_by, max_by-IsMax, max_by-In, min_by-IsMin, min_by-In, max_by-none, min_by-none, In-append,
  append-In, In-take, In-drop, In-split, take-append-drop, length-take, take-IsSorted,
  filter-IsSorted, take-le-drop, length-filter-and, length-filter_mono, Distinct, pigeonhole,
  In-map, map-In, length-map, filter_map, In-filter_map, filter_map-In,
}

-- A number to tell connections apart, `is_alive()`, and the time of the last `touch`.
pub record Connection : Type 0 where
  pub id : ℕ
  pub alive : Bool
  pub touched : ℕ

-- `PoolBucket`, with the idle connections newest first: the head of the list is the end of the
-- vector, which `push` and `pop` work on.
pub record Bucket : Type 0 where
  pub idle : List Connection
  pub total : ℕ
  pub max : ℕ

unfoldable pub new_bucket : ℕ → Bucket
new_bucket max = record { idle = []; total = 0; max = max }

unfoldable pub increment : Bucket → Bucket
increment b = record b { total = b.total + 1 }

unfoldable pub decrement : Bucket → Bucket
decrement b = record b { total = b.total - 1 }

-- The `while` loop of the fast path of `acquire`: dead connections are discarded until one lives.
unfoldable pub take_idle : List Connection → ℕ → ℕ → Bucket × Option Connection
take_idle [] total max = (record { idle = []; total = total; max = max }, none)
take_idle (c ∷ cs) total max =
    let rest = take_idle cs (total - 1) max in
    if c.alive then (record { idle = cs; total = total; max = max }, some c) else rest

unfoldable pub acquire_idle : Bucket → Bucket × Option Connection
acquire_idle b = take_idle b.idle b.total b.max

-- The test before a new connection is opened. It does not reserve: `increment` is a second step.
unfoldable pub has_room : Bucket → Bool
has_room b = ltb b.total b.max

-- `release` of a connection to a bucket that is there.
unfoldable pub release : Bucket → Connection → ℕ → Bucket
release b c now =
    if c.alive then record b { idle = record c { touched = now } ∷ b.idle } else decrement b

abbrev pub drop_last : List Connection → List Connection
drop_last [] = []
drop_last (c ∷ []) = []
drop_last (c ∷ d ∷ cs) = c ∷ drop_last (d ∷ cs)

-- `inject`: a full bucket loses its oldest idle connection. `none` is the panic of `remove(0)` on an
-- empty vector.
unfoldable pub inject : Bucket → Connection → ℕ → Option Bucket
inject b c now =
    let counted = increment b in
    let fresh = record c { touched = now } in
    if leb b.max (length b.idle)
    then (if length b.idle == 0
        then none
        else some (record (decrement counted) { idle = fresh ∷ drop_last b.idle }))
    else some (record counted { idle = fresh ∷ b.idle })

-- `drain_backend`, for one bucket.
unfoldable pub drain_bucket : Bucket → Bucket
drain_bucket b = record b { idle = []; total = b.total - length b.idle }

-- `is_idle_too_long`, in nanoseconds.
abbrev pub too_long : ℕ → ℕ → Connection → Bool
too_long now timeout c = ltb timeout ((now - c.touched) / 1000000000)

abbrev pub is_fresh : ℕ → ℕ → Connection → Bool
is_fresh now timeout c = not (too_long now timeout c)

-- `evict_idle`, for one bucket.
unfoldable pub evict_idle : Bucket → ℕ → ℕ → Bucket
evict_idle b now timeout =
    let kept = filter (is_fresh now timeout) b.idle in
    record b { idle = kept; total = b.total - (length b.idle - length kept) }
