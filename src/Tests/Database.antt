-- ===== src/Tests/Database.antt =====
-- A database without faults as a sorted list, and a codec of one number, for the tests.
use pgcluster.Prelude.{
  ℕ, ◌≡◌, refl, sym, ap, subst, ◌∙◌, inl, inr, true, not, Option, none, some, List, [], ◌∷◌, map,
  arith, if◌then◌else◌, Bool-cases, filter, All, In, In-filter, IsSorted, filter-IsSorted, In-map,
}
use pgcluster.Raft.Storage.Keys.{
  Bytes, bytes_le, bytes_eq, bytes_eq-true, bytes_eq_refl, bytes_le_total, bytes_le_trans,
}
use pgcluster.Raft.Storage.Database.{
  Sled, IsSled, IsHealthy, Pair, Bound, inside, find, find_batch, last_of, pair_lt,
}
use pgcluster.Raft.Storage.{Codec}
use pgcluster.Raft.Storage.View.{IsCodec, IsTotal}

abbrev pub insert_pair : Bytes → Bytes → List Pair → List Pair
insert_pair k v [] = (k, v) ∷ []
insert_pair k v ((j, w) ∷ ps) =
    if bytes_eq k j
    then (k, v) ∷ ps
    else if bytes_le k j
    then (k, v) ∷ (j, w) ∷ ps
    else (j, w) ∷ insert_pair k v ps

pair_lt_trans : (p q r : Pair) → pair_lt p q ≡ true → pair_lt q r ≡ true → pair_lt p r ≡ true
pair_lt_trans p q r h k = ground (arith, bytes_le_trans q.0 r.0 p.0, bytes_le_total r.0 q.0)

find-insert_pair :
    (k v : Bytes) (ps : List Pair) (j : Bytes)
    → find j (insert_pair k v ps) ≡ (if bytes_eq k j then some v else find j ps)
find-insert_pair k v [] j = refl
find-insert_pair k v ((i, w) ∷ ps) j = elim (Bool-cases (bytes_eq k i)) [
  | inl e ↦ let same = ap (λ x. bytes_eq x j) (bytes_eq-true k i e) in ground arith
  | inr e ↦ elim (Bool-cases (bytes_le k i)) [
    | inl f ↦ ground arith
    | inr f ↦
        let rest = find-insert_pair k v ps j in
        let apart = λ (a : bytes_eq k j ≡ true) (b : bytes_eq i j ≡ true).
          bytes_eq-true k j a ∙ sym (bytes_eq-true i j b) in
        let same = λ (h : k ≡ i). ap (λ x. bytes_eq k x) (sym h) ∙ bytes_eq_refl k in ground arith
  ]
]

All-insert_pair :
    (p : Pair) (k v : Bytes) (ps : List Pair)
    → pair_lt p (k, v) ≡ true
    → All (λ q. pair_lt p q ≡ true) ps
    → All (λ q. pair_lt p q ≡ true) (insert_pair k v ps)
All-insert_pair p k v [] h a = (h, tt)
All-insert_pair p k v ((j, w) ∷ ps) h a = let rest = All-insert_pair p k v ps h a.1 in ground arith

All-lt_trans :
    (p q : Pair) (ps : List Pair)
    → pair_lt p q ≡ true
    → All (λ r. pair_lt q r ≡ true) ps
    → All (λ r. pair_lt p r ≡ true) ps
All-lt_trans p q [] h a = tt
All-lt_trans p q (r ∷ ps) h a = (pair_lt_trans p q r h a.0, All-lt_trans p q ps h a.1)

pub insert_pair-IsSorted :
    (k v : Bytes) (ps : List Pair) → IsSorted pair_lt ps → IsSorted pair_lt (insert_pair k v ps)
insert_pair-IsSorted k v [] s = (tt, tt)
insert_pair-IsSorted k v ((j, w) ∷ ps) s = elim (Bool-cases (bytes_eq k j)) [
  | inl e ↦
      let same = bytes_eq-true k j e in
      let before = subst (λ x. All (λ q. pair_lt (x, v) q ≡ true) ps) (sym same) s.0 in
      rw e (before, s.1)
  | inr e ↦ elim (Bool-cases (bytes_le k j)) [
    | inl f ↦
        let first : pair_lt (k, v) (j, w) ≡ true = ground arith in
        rw (e, f) ((first, All-lt_trans (k, v) (j, w) ps first s.0), s)
    | inr f ↦
        let first : pair_lt (j, w) (k, v) ≡ true = ground arith in
        rw (e, f) (All-insert_pair (j, w) k v ps first s.0, insert_pair-IsSorted k v ps s.1)
  ]
]

find-filter :
    (k j : Bytes) (ps : List Pair)
    → find j (filter (λ p. not (bytes_eq k p.0)) ps) ≡ (if bytes_eq k j then none else find j ps)
find-filter k j [] = ground arith
find-filter k j ((i, w) ∷ ps) =
    let rest = find-filter k j ps in
    let chain = λ (a : bytes_eq k i ≡ true). ap (λ x. bytes_eq x j) (bytes_eq-true k i a) in
    let back = λ (a : bytes_eq i j ≡ true). ap (λ x. bytes_eq k x) (bytes_eq-true i j a) in
    ground arith

abbrev pub SortedPairs : Type 0
SortedPairs = (ps : List Pair) × IsSorted pair_lt ps

abbrev pub put_pair : SortedPairs → Bytes → Bytes → SortedPairs
put_pair (ps, s) k v = (insert_pair k v ps, insert_pair-IsSorted k v ps s)

abbrev pub drop_pair : SortedPairs → Bytes → SortedPairs
drop_pair (ps, s) k = (
  filter (λ p. not (bytes_eq k p.0)) ps,
  filter-IsSorted pair_lt (λ p. not (bytes_eq k p.0)) ps s,
)

abbrev pub put_all : SortedPairs → List Pair → SortedPairs
put_all t [] = t
put_all t ((k, v) ∷ ps) = put_all (put_pair t k v) ps

abbrev pub listed : Sled
listed = record {
  Tree = SortedPairs;
  pairs = λ t. t.0;
  open_tree = λ t. true;
  range = λ t low high. map some (filter (inside low high) t.0);
  last = λ t. some (last_of t.0);
  get = λ t k. some (find k t.0);
  insert = λ t k v. some (put_pair t k v);
  remove = λ t k. some (drop_pair t k);
  apply_batch = λ t ps. some (put_all t ps);
  flush = λ t. true;
}

find-put_all :
    (t : SortedPairs) (ps : List Pair) (j : Bytes)
    → find j (put_all t ps).0 ≡ find_batch ps j (find j t.0)
find-put_all t [] j = refl
find-put_all t ((k, v) ∷ ps) j =
    find-put_all (put_pair t k v) ps j ∙ ap (find_batch ps j) (find-insert_pair k v t.0 j)

some_pair : {A : Type 0} (p q : A) → some p ≡ some q → p ≡ q
some_pair p q h = cc

range_listed :
    (low high : Bound Bytes) (ps : List Pair) (p : Pair)
    → In (some p) (map some (filter (inside low high) ps))
    → In p ps × (inside low high p ≡ true)
range_listed low high ps p i =
    let (q, place, e) = In-map some (some p) (filter (inside low high) ps) i in
    In-filter (inside low high) p ps
      (subst (λ x. In x (filter (inside low high) ps)) (some_pair q p e) place)

pub listed-IsSled : IsSled listed
listed-IsSled = record {
  ordered = λ t. t.1;
  range_reads = λ t low high p i. range_listed low high t.0 p i;
  last_reads = λ t o h. some_pair o (last_of t.0) (sym h);
  get_reads = λ t k o h. some_pair o (find k t.0) (sym h);
  insert_writes = λ t u k v h j.
      ap (λ x. find j x.0) (some_pair u (put_pair t k v) (sym h)) ∙ find-insert_pair k v t.0 j;
  remove_writes =
      λ t u k h j. ap (λ x. find j x.0) (some_pair u (drop_pair t k) (sym h)) ∙ find-filter k j t.0;
  batch_writes =
      λ t u ps h j. ap (λ x. find j x.0) (some_pair u (put_all t ps) (sym h)) ∙ find-put_all t ps j;
}

pub listed-IsHealthy : IsHealthy listed
listed-IsHealthy = record {
  opens = λ t. refl;
  ranges = λ t low high. refl;
  lasts = λ t h. ground arith;
  gets = λ t k h. ground arith;
  inserts = λ t k v h. ground arith;
  removes = λ t k h. ground arith;
  batches = λ t ps h. ground arith;
  flushes = λ t. refl;
}

-- An entry is its index and a payload, a log id its index.
abbrev pub first_byte : Bytes → Option ℕ
first_byte [] = none
first_byte (n ∷ ns) = some n

abbrev pub two_bytes : Bytes → Option (ℕ × ℕ)
two_bytes (n ∷ m ∷ ns) = some (n, m)
two_bytes ns = none

abbrev pub plain : Codec
plain = record {
  Entry = ℕ × ℕ;
  LogId = ℕ;
  Vote = ℕ;
  log_id = λ e. e.0;
  index = λ l. l;
  encode_entry = λ e. some (e.0 ∷ e.1 ∷ []);
  decode_entry = two_bytes;
  encode_vote = λ v. some (v ∷ []);
  decode_vote = first_byte;
  encode_log_id = λ l. some (l ∷ []);
  decode_log_id = first_byte;
}

pub plain-IsCodec : IsCodec plain
plain-IsCodec = record {
  entry_trip = λ e b h. ap two_bytes (some_pair b (e.0 ∷ e.1 ∷ []) (sym h));
  vote_trip = λ v b h. ap first_byte (some_pair b (v ∷ []) (sym h));
  log_id_trip = λ l b h. ap first_byte (some_pair b (l ∷ []) (sym h));
}

pub plain-IsTotal : IsTotal plain
plain-IsTotal = record {
  entries_encode = λ e h. ground arith;
  votes_encode = λ v h. ground arith;
  log_ids_encode = λ l h. ground arith;
}
