-- ===== src/Raft/Storage/Database.antt =====
-- The sled database, as pgcluster/src/raft/storage.rs uses it: an interface of its calls, each of
-- which may fail, with what sled documents of those that succeed.
use pgcluster.Prelude.{
  ◌≡◌, refl, ◌≢◌, inl, inr, Bool, true, not, ◌&&◌, Option, none, some, List, [], ◌∷◌, map, arith,
  if◌then◌else◌, Bool-cases, filter, In, All-In, IsSorted,
}
use pgcluster.Raft.Storage.Keys.{
  Bytes, bytes_le, bytes_eq, bytes_eq-true, bytes_eq_refl, bytes_le_refl, bytes_le_total,
}

abbrev pub Pair : Type 0
Pair = Bytes × Bytes

pub data Bound (A : Type 0) : Type 0 where
  included : A → Bound A
  excluded : A → Bound A
  unbounded : Bound A

abbrev pub above : Bound Bytes → Bytes → Bool
above (included a) k = bytes_le a k
above (excluded a) k = not (bytes_le k a)
above unbounded k = true

abbrev pub below : Bound Bytes → Bytes → Bool
below (included a) k = bytes_le k a
below (excluded a) k = not (bytes_le a k)
below unbounded k = true

abbrev pub inside : Bound Bytes → Bound Bytes → Pair → Bool
inside low high (k, v) = above low k && below high k

abbrev pub find : Bytes → List Pair → Option Bytes
find k [] = none
find k ((j, v) ∷ ps) = if bytes_eq j k then some v else find k ps

abbrev pub last_of : List Pair → Option Pair
last_of [] = none
last_of (p ∷ []) = some p
last_of (p ∷ q ∷ ps) = last_of (q ∷ ps)

-- A batch is inserted pair by pair, a later pair over an earlier.
abbrev pub find_batch : List Pair → Bytes → Option Bytes → Option Bytes
find_batch [] k o = o
find_batch ((j, v) ∷ ps) k o = find_batch ps k (if bytes_eq j k then some v else o)

-- The key of `p` is below that of `q`.
abbrev pub pair_lt : Pair → Pair → Bool
pair_lt p q = not (bytes_le q.0 p.0)

-- `pairs` is what a tree holds, in the order of iteration. A call that may fail gives `none`, an
-- iterator of a range gives `none` for each item that cannot be read, and a test is false.
pub record Sled : Type 1 where
  pub Tree : Type 0
  pub pairs : Tree → List Pair
  pub open_tree : Tree → Bool
  pub range : Tree → Bound Bytes → Bound Bytes → List (Option Pair)
  pub last : Tree → Option (Option Pair)
  pub get : Tree → Bytes → Option (Option Bytes)
  pub insert : Tree → Bytes → Bytes → Option Tree
  pub remove : Tree → Bytes → Option Tree
  pub apply_batch : Tree → List Pair → Option Tree
  pub flush : Tree → Bool

-- What the calls that succeed do.
pub record IsSled (S : Sled) : Type 0 where
  pub ordered : (t : S.Tree) → IsSorted pair_lt (S.pairs t)
  pub range_reads :
      (t : S.Tree) (low high : Bound Bytes) (p : Pair)
      → In (some p) (S.range t low high)
      → In p (S.pairs t) × (inside low high p ≡ true)
  pub last_reads : (t : S.Tree) (o : Option Pair) → S.last t ≡ some o → o ≡ last_of (S.pairs t)
  pub get_reads :
      (t : S.Tree) (k : Bytes) (o : Option Bytes) → S.get t k ≡ some o → o ≡ find k (S.pairs t)
  pub insert_writes :
      (t u : S.Tree) (k v : Bytes)
      → S.insert t k v ≡ some u
      → (j : Bytes) → find j (S.pairs u) ≡ (if bytes_eq k j then some v else find j (S.pairs t))
  pub remove_writes :
      (t u : S.Tree) (k : Bytes)
      → S.remove t k ≡ some u
      → (j : Bytes) → find j (S.pairs u) ≡ (if bytes_eq k j then none else find j (S.pairs t))
  pub batch_writes :
      (t u : S.Tree) (ps : List Pair)
      → S.apply_batch t ps ≡ some u
      → (j : Bytes) → find j (S.pairs u) ≡ find_batch ps j (find j (S.pairs t))

-- No call fails.
pub record IsHealthy (S : Sled) : Type 0 where
  pub opens : (t : S.Tree) → S.open_tree t ≡ true
  pub ranges :
      (t : S.Tree) (low high : Bound Bytes)
      → S.range t low high ≡ map some (filter (inside low high) (S.pairs t))
  pub lasts : (t : S.Tree) → S.last t ≢ none
  pub gets : (t : S.Tree) (k : Bytes) → S.get t k ≢ none
  pub inserts : (t : S.Tree) (k v : Bytes) → S.insert t k v ≢ none
  pub removes : (t : S.Tree) (k : Bytes) → S.remove t k ≢ none
  pub batches : (t : S.Tree) (ps : List Pair) → S.apply_batch t ps ≢ none
  pub flushes : (t : S.Tree) → S.flush t ≡ true

pub find-In : (k v : Bytes) (ps : List Pair) → find k ps ≡ some v → In (k, v) ps
find-In k v [] h = ground arith
find-In k v ((j, w) ∷ ps) h = elim (Bool-cases (bytes_eq j k)) [
  | inl e ↦ inl (ground (arith, bytes_eq-true j k e))
  | inr e ↦ inr (find-In k v ps (ground arith))
]

-- In a sorted tree, what iteration meets is what a lookup finds.
pub In-find : (p : Pair) (ps : List Pair) → IsSorted pair_lt ps → In p ps → find p.0 ps ≡ some p.1
In-find p [] s i = absurd i
In-find p ((j, w) ∷ ps) s (inl e) = ground (arith, bytes_eq_refl j)
In-find p ((j, w) ∷ ps) s (inr i) =
    let before = All-In (λ q. pair_lt (j, w) q ≡ true) p ps s.0 i in
    let rest = In-find p ps s.1 i in ground arith

pub last_of-In : (p : Pair) (ps : List Pair) → last_of ps ≡ some p → In p ps
last_of-In p [] h = ground arith
last_of-In p (q ∷ []) h = inl (ground arith)
last_of-In p (q ∷ r ∷ ps) h = inr (last_of-In p (r ∷ ps) h)

-- The last pair of a sorted tree has the greatest key.
pub last_of-greatest :
    (p : Pair) (ps : List Pair)
    → IsSorted pair_lt ps
    → last_of ps ≡ some p
    → (q : Pair) → In q ps
    → bytes_le q.0 p.0 ≡ true
last_of-greatest p [] s h q i = absurd i
last_of-greatest p (r ∷ []) s h q (inl e) = ground (arith, bytes_le_refl (q.0))
last_of-greatest p (r ∷ []) s h q (inr i) = absurd i
last_of-greatest p (r ∷ t ∷ ps) s h q (inl e) =
    let place = last_of-In p (t ∷ ps) h in
    let before = All-In (λ x. pair_lt r x ≡ true) p (t ∷ ps) s.0 place in
    ground (arith, bytes_le_total (q.0) (p.0))
last_of-greatest p (r ∷ t ∷ ps) s h q (inr i) = last_of-greatest p (t ∷ ps) s.1 h q i

pub last_of-none : (ps : List Pair) → last_of ps ≡ none → ps ≡ []
last_of-none [] h = refl
last_of-none (p ∷ []) h = ground arith
last_of-none (p ∷ q ∷ ps) h = absurd (ground (arith, last_of-none (q ∷ ps) h))
