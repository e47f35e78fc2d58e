-- ===== src/Raft/Storage/Reads.antt =====
-- What the calls of pgcluster/src/raft/storage.rs that read the store return, on a database without
-- faults.
use pgcluster.Prelude.{
  ℕ, ◌^◌, ◌<◌, ◌≡◌, refl, sym, ap, subst, ◌∙◌, inl, inr, Bool, true, ◌&&◌, some, List, [], ◌∷◌, map,
  arith, ltb, leb, Option-cases, filter, In, All-In, All-of-In, In-filter, In-filter-of, IsSorted,
  filter-IsSorted,
}
use pgcluster.Raft.Storage.Keys.{idx_key, idx_key-le}
use pgcluster.Raft.Storage.Database.{
  Sled, IsSled, IsHealthy, Pair, Bound, included, excluded, unbounded, above, below, inside, find,
  find-In, In-find, pair_lt,
}
use pgcluster.Raft.Storage.{Codec, Store, done, to_key_bound, decode_items, get_entries_range}
use pgcluster.Raft.Storage.View.{Decodes-code, Decodes-value, LogView, Implements, index_of}

abbrev above_index : Bound ℕ → ℕ → Bool
above_index (included n) i = leb n i
above_index (excluded n) i = ltb n i
above_index unbounded i = true

abbrev below_index : Bound ℕ → ℕ → Bool
below_index (included n) i = leb i n
below_index (excluded n) i = ltb i n
below_index unbounded i = true

-- The range of indices, whose bounds are of 64 bits.
abbrev pub in_bounds : Bound ℕ → Bound ℕ → ℕ → Bool
in_bounds low high i = above_index low i && below_index high i

abbrev pub BoundFits : Bound ℕ → Type 0
BoundFits (included n) = n < 2 ^ 64
BoundFits (excluded n) = n < 2 ^ 64
BoundFits unbounded = Unit

module _ (S : Sled) (C : Codec) where
  above-above_index :
      (low : Bound ℕ) (i : ℕ)
      → BoundFits low
      → i < 2 ^ 64
      → above (to_key_bound low) (idx_key i) ≡ above_index low i
  above-above_index (included n) i f h = idx_key-le n i f h
  above-above_index (excluded n) i f h = ground (arith, idx_key-le i n h f)
  above-above_index unbounded i f h = refl

  below-below_index :
      (high : Bound ℕ) (i : ℕ)
      → BoundFits high
      → i < 2 ^ 64
      → below (to_key_bound high) (idx_key i) ≡ below_index high i
  below-below_index (included n) i f h = idx_key-le i n h f
  below-below_index (excluded n) i f h = ground (arith, idx_key-le n i f h)
  below-below_index unbounded i f h = refl

  -- What the pair at an index holds.
  abbrev pub Holds : Pair → C.Entry → Type 0
  Holds p e =
      (p.0 ≡ idx_key (index_of S C e)) × (index_of S C e < 2 ^ 64) × (C.decode_entry p.1 ≡ some e)

  abbrev pub index_lt : C.Entry → C.Entry → Bool
  index_lt d e = ltb (index_of S C d) (index_of S C e)

  inside-in_bounds :
      (low high : Bound ℕ) (p : Pair) (e : C.Entry)
      → BoundFits low
      → BoundFits high
      → Holds p e
      → inside (to_key_bound low) (to_key_bound high) p ≡ in_bounds low high (index_of S C e)
  inside-in_bounds low high p e f g (key, small, code) = ground (
    arith,
    ap (above (to_key_bound low)) key ∙ above-above_index low (index_of S C e) f small,
    ap (below (to_key_bound high)) key ∙ below-below_index high (index_of S C e) g small,
  )

  Holds-unique : (p : Pair) (d e : C.Entry) → Holds p d → Holds p e → d ≡ e
  Holds-unique p d e h k = ground arith

  decode_items-Holds :
      (ps : List Pair) (s : Store S C)
      → IsSorted pair_lt ps
      → ((p : Pair) → In p ps → (e : C.Entry) × Holds p e)
      → (es : List C.Entry) × (decode_items S C (map some ps) s ≡ (done es, s))
        × ((e : C.Entry) → In e es → (p : Pair) × In p ps × Holds p e)
        × ((p : Pair) → In p ps → (e : C.Entry) × In e es × Holds p e)
        × IsSorted index_lt es
  unfolding decode_items
  decode_items-Holds [] s o h = ([], refl, λ e i. absurd i, λ p i. absurd i, tt)
  decode_items-Holds (p ∷ ps) s o h =
      let (e, (key, small, code)) = h p (inl refl) in
      let (es, run, from, to, sorted) = decode_items-Holds ps s o.1 (λ q i. h q (inr i)) in
      (
        e ∷ es,
        ground (arith, run),
        λ d i. elim i [
          | inl same ↦ (p, inl refl, subst (λ x. Holds p x) same (key, small, code))
          | inr j ↦ let r = from d j in (r.0, inr r.1, r.2)
        ],
        λ q i. elim i [
          | inl same ↦ (e, inl refl, subst (λ x. Holds x e) same (key, small, code))
          | inr j ↦ let r = to q j in (r.0, inr r.1, r.2)
        ],
        (
          All-of-In (λ d. index_lt e d ≡ true) es
              λ d i.
                let (q, j, hq) = from d i in
                let before = All-In (λ r. pair_lt p r ≡ true) q ps o.0 j in
                ground (arith, idx_key-le (index_of S C d) (index_of S C e) hq.1 small),
          sorted,
        ),
      )

module _ (S : Sled) (C : Codec) (D : IsSled S) (s : Store S C) (a : LogView S C)
    (I : Implements S C s a) where
  -- A pair of the log's tree holds an entry of the view, at its index.
  pub pair-held :
      (p : Pair)
      → In p (S.pairs s.logs)
      → (e : C.Entry) × Holds S C p e × (a.entries (index_of S C e) ≡ some e)
  pair-held p i =
      let found = In-find p (S.pairs s.logs) (D.ordered s.logs) i in
      let (n, key, small) = I.keyed p.0 p.1 found in
      let (code, full) =
        Decodes-code C.decode_entry (find (idx_key n) (S.pairs s.logs)) (a.entries n) p.1
          (I.held n small) (ap (λ k. find k (S.pairs s.logs)) (sym key) ∙ found) in
      elim (Option-cases (a.entries n)) [
        | inl e ↦ absurd (full e)
        | inr (e, here) ↦
            let same = sym (I.indexed n e here) in
            (
              e,
              (key ∙ ap idx_key same, subst (λ m. m < 2 ^ 64) same small, code ∙ here),
              ap a.entries (sym same) ∙ here,
            )
      ]

  -- And each entry of the view is held by a pair.
  pub held-pair :
      (i : ℕ) (e : C.Entry)
      → i < 2 ^ 64
      → a.entries i ≡ some e
      → (p : Pair) × In p (S.pairs s.logs) × Holds S C p e
  held-pair i e h here =
      let same = I.indexed i e here in
      let (b, found, code) =
        Decodes-value C.decode_entry (find (idx_key i) (S.pairs s.logs)) (a.entries i) e
          (I.held i h) here in
      (
        (idx_key i, b),
        find-In (idx_key i) b (S.pairs s.logs) found,
        (ap idx_key (sym same), subst (λ m. m < 2 ^ 64) (sym same) h, code),
      )

  -- If no call on the database fails and the store holds what a view says, then a read of a range
  -- whose bounds are of 64 bits succeeds, leaves the store as it is, and gives exactly the entries
  -- of the view whose indices are in the range, in ascending order of the indices.
  pub get_entries_range-reads :
      IsHealthy S
      → (low high : Bound ℕ) → BoundFits low
      → BoundFits high
      → (es : List C.Entry) × (get_entries_range S C low high s ≡ (done es, s))
        × IsSorted (index_lt S C) es
        × ((e : C.Entry)
            → In e es
            → (a.entries (index_of S C e) ≡ some e) × (in_bounds low high (index_of S C e) ≡ true))
        × ((i : ℕ) (e : C.Entry)
            → i < 2 ^ 64
            → a.entries i ≡ some e
            → in_bounds low high i ≡ true
            → In e es)
  unfolding get_entries_range
  get_entries_range-reads H low high f g =
      let test = inside (to_key_bound low) (to_key_bound high) in
      let ps = filter test (S.pairs s.logs) in
      let (es, run, from, to, sorted) =
        decode_items-Holds S C ps s
          (filter-IsSorted pair_lt test (S.pairs s.logs) (D.ordered s.logs))
          (λ p i.
            let (e, holds, here) = pair-held p (In-filter test p (S.pairs s.logs) i).0 in
            (e, holds)) in
      (
        es,
        ground (arith, H.opens s.logs, H.ranges s.logs (to_key_bound low) (to_key_bound high), run),
        sorted,
        λ e i.
            let (p, j, holds) = from e i in
            let (place, passes) = In-filter test p (S.pairs s.logs) j in
            let (d, same, here) = pair-held p place in
            (
              subst (λ x. a.entries (index_of S C x) ≡ some x) (Holds-unique S C p d e same holds)
                  here,
              sym (inside-in_bounds S C low high p e f g holds) ∙ passes,
            ),
        λ i e h here within.
            let (p, place, holds) = held-pair i e h here in
            let passes =
              inside-in_bounds S C low high p e f g holds
              ∙ ap (in_bounds low high) (I.indexed i e here)
              ∙ within in
            let (d, j, same) = to p (In-filter-of test p (S.pairs s.logs) place passes) in
            subst (λ x. In x es) (Holds-unique S C p d e same holds) j,
      )
