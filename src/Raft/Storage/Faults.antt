-- ===== src/Raft/Storage/Faults.antt =====
-- What a call of pgcluster/src/raft/storage.rs leaves alone, whatever fails on the way.
use pgcluster.Prelude.{
  ℕ, ◌^◌, ◌≤◌, ◌<◌, ◌≡◌, refl, ap, inl, inr, true, false, Option, none, some, List, [], ◌∷◌, map,
  arith, Option-cases, All, In,
}
use pgcluster.Raft.Storage.Keys.{Bytes, idx_key, idx_key-le, idx_key-eq, bytes_eq, bytes_eq-true}
use pgcluster.Raft.Storage.Database.{
  Sled, IsSled, Pair, Bound, included, unbounded, inside, find, find_batch,
}
use pgcluster.Raft.Storage.{
  Outcome-cases, Codec, Store, StorageOp, append_to_log, delete_conflict_logs_since,
  purge_logs_upto, op_save_vote, done, ok_keys, remove_all, append_entries, encode_batch,
  truncate_since, purge_upto, save_vote, run_op,
}
use pgcluster.Raft.Storage.View.{index_of, Fits}

module _ (S : Sled) (C : Codec) where
  -- The call is about the entry at `i`.
  unfoldable pub Touches : StorageOp S C → ℕ → Type 0
  Touches (append_to_log es) i = In i (map (index_of S C) es)
  Touches (delete_conflict_logs_since l) i = C.index l ≤ i
  Touches (purge_logs_upto l) i = i ≤ C.index l
  Touches (op_save_vote v) i = ⊥

module _ (S : Sled) (C : Codec) (D : IsSled S) where
  -- Removing keys leaves other keys alone, and the metadata.
  remove_all-others :
      (ks : List Bytes) (s : Store S C) (j : Bytes)
      → (In j ks → ⊥)
      → (find j (S.pairs ((remove_all S C ks s).1.logs)) ≡ find j (S.pairs s.logs))
        × ((remove_all S C ks s).1.meta ≡ s.meta)
  unfolding remove_all
  remove_all-others [] s j out = (refl, refl)
  remove_all-others (k ∷ ks) s j out = elim (Option-cases (S.remove s.logs k)) [
    | inl e ↦ (ground arith, ground arith)
    | inr (t, e) ↦
        let (finds, metas) = remove_all-others ks (record s { logs = t }) j (λ i. out (inr i)) in
        let other = D.remove_writes s.logs t k e j in
        let apart = λ (h : bytes_eq k j ≡ true). out (inl (bytes_eq-true k j h)) in
        (ground (arith, apart), ground arith)
  ]

  ok_keys-In :
      (k : Bytes) (items : List (Option Pair))
      → In k (ok_keys S C items)
      → (v : Bytes) × In (some (k, v)) items
  ok_keys-In k [] i = absurd i
  ok_keys-In k (none ∷ items) i = let (v, j) = ok_keys-In k items i in (v, inr j)
  ok_keys-In k (some p ∷ items) (inl e) = (p.1, inl (ap (λ x. some (x, p.1)) e))
  ok_keys-In k (some p ∷ items) (inr i) = let (v, j) = ok_keys-In k items i in (v, inr j)

  range_others :
      (low high : Bound Bytes) (s : Store S C) (j : Bytes)
      → inside low high (j, []) ≡ false
      → (find j (S.pairs ((remove_all S C (ok_keys S C (S.range s.logs low high)) s).1.logs))
          ≡ find j (S.pairs s.logs))
        × ((remove_all S C (ok_keys S C (S.range s.logs low high)) s).1.meta ≡ s.meta)
  range_others low high s j out = remove_all-others (ok_keys S C (S.range s.logs low high)) s j λ i.
      let (v, place) = ok_keys-In j (S.range s.logs low high) i in
      let (held, within) = D.range_reads s.logs low high (j, v) place in ground arith

  pub truncate_since-others :
      (l : C.LogId) (s : Store S C) (i : ℕ)
      → C.index l < 2 ^ 64
      → i < C.index l
      → find (idx_key i) (S.pairs ((truncate_since S C l s).1.logs))
        ≡ find (idx_key i) (S.pairs s.logs)
  unfolding truncate_since
  truncate_since-others l s i f h =
      let (finds, metas) =
        range_others (included (idx_key (C.index l))) unbounded s (idx_key i)
          (ground (arith, idx_key-le (C.index l) i f (omega arith))) in
      ground arith

  pub purge_upto-others :
      (l : C.LogId) (s : Store S C) (i : ℕ)
      → i < 2 ^ 64
      → C.index l < i
      → find (idx_key i) (S.pairs ((purge_upto S C l s).1.logs)) ≡ find (idx_key i) (S.pairs s.logs)
  unfolding purge_upto
  purge_upto-others l s i f h =
      let (finds, metas) =
        range_others unbounded (included (idx_key (C.index l))) s (idx_key i)
          (ground (arith, idx_key-le i (C.index l) f (omega arith))) in
      ground arith

  encode_batch-store : (es : List C.Entry) (s : Store S C) → (encode_batch S C es s).1 ≡ s
  unfolding encode_batch
  encode_batch-store [] s = refl
  encode_batch-store (e ∷ es) s = ground (arith, encode_batch-store es s)

  encode_batch-others :
      (es : List C.Entry) (s : Store S C) (batch : List Pair) (i : ℕ) (o : Option Bytes)
      → All (λ e. index_of S C e < 2 ^ 64) es
      → i < 2 ^ 64
      → (In i (map (index_of S C) es) → ⊥)
      → (encode_batch S C es s).0 ≡ done batch
      → find_batch batch (idx_key i) o ≡ o
  unfolding encode_batch
  encode_batch-others [] s batch i o fits h out run = ground arith
  encode_batch-others (e ∷ es) s batch i o fits h out run = elim (Option-cases (C.encode_entry e)) [
    | inl f ↦ absurd (ground arith)
    | inr (b, f) ↦ elim (Outcome-cases (encode_batch S C es s).0) [
      | inl (v, g) ↦ absurd (ground arith)
      | inr (rest, g) ↦
          let tail = encode_batch-others es s rest i o fits.1 h (λ j. out (inr j)) g in
          let apart = λ (same : index_of S C e ≡ i). out (inl same) in
          let keys = idx_key-eq (index_of S C e) i fits.0 h in
          let whole = λ (same : batch ≡ (idx_key (index_of S C e), b) ∷ rest).
            ap (λ ps. find_batch ps (idx_key i) o) same in
          ground arith
    ]
  ]

  pub append_entries-others :
      (es : List C.Entry) (s : Store S C) (i : ℕ)
      → All (λ e. index_of S C e < 2 ^ 64) es
      → i < 2 ^ 64
      → (In i (map (index_of S C) es) → ⊥)
      → find (idx_key i) (S.pairs ((append_entries S C es s).1.logs))
        ≡ find (idx_key i) (S.pairs s.logs)
  unfolding append_entries
  append_entries-others es s i fits h out =
      let same = encode_batch-store es s in
      elim (Outcome-cases (encode_batch S C es s).0) [
        | inl (v, g) ↦ ground arith
        | inr (batch, g) ↦
            let keys =
              encode_batch-others es s batch i (find (idx_key i) (S.pairs s.logs)) fits h out g in
            elim (Option-cases (S.apply_batch s.logs batch)) [
              | inl f ↦ ground arith
              | inr (t, f) ↦ let finds = D.batch_writes s.logs t batch f (idx_key i) in ground arith
            ]
      ]

  pub save_vote-others : (v : C.Vote) (s : Store S C) → (save_vote S C v s).1.logs ≡ s.logs
  unfolding save_vote
  save_vote-others v s = ground arith

  -- Whatever calls on the database fail on the way, a change of the store leaves every entry alone
  -- that it is not about: an append the entries at other indices, a truncation those below its
  -- index, a purge those above its index, and a vote all of them. The indices are of 64 bits.
  pub run_op-others :
      (op : StorageOp S C) (s : Store S C) (i : ℕ)
      → Fits S C op
      → i < 2 ^ 64
      → (Touches S C op i → ⊥)
      → find (idx_key i) (S.pairs ((run_op S C op s).1.logs)) ≡ find (idx_key i) (S.pairs s.logs)
  unfolding run_op Fits Touches
  run_op-others (append_to_log es) s i fits h out = append_entries-others es s i fits h out
  run_op-others (delete_conflict_logs_since l) s i fits h out =
      truncate_since-others l s i fits (omega (arith, out))
  run_op-others (purge_logs_upto l) s i fits h out = purge_upto-others l s i h (omega (arith, out))
  run_op-others (op_save_vote v) s i fits h out =
      ap (λ t. find (idx_key i) (S.pairs t)) (save_vote-others v s)
