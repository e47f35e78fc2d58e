-- ===== src/Raft/Storage/Refines.antt =====
-- The calls of pgcluster/src/raft/storage.rs that change the store do to it what openraft expects,
-- on a database without faults.
use pgcluster.Prelude.{
  ℕ, ◌^◌, ◌<◌, ◌≡◌, refl, sym, subst, ◌∙◌, ◌⊎◌, inl, inr, Option, some, List, [], ◌∷◌, arith, ◌==◌,
  if◌then◌else◌, Bool-cases, Option-cases, All,
}
use pgcluster.Raft.Storage.Keys.{Bytes, idx_key, idx_key-le, idx_key-eq, bytes_eq, bytes_eq-true}
use pgcluster.Raft.Storage.Database.{
  Sled, IsSled, IsHealthy, Pair, included, unbounded, find, find_batch,
}
use pgcluster.Raft.Storage.{
  Codec, Store, StorageOp, append_to_log, delete_conflict_logs_since, purge_logs_upto, op_save_vote,
  vote_key, purged_key, done, append_entries, encode_batch, truncate_since, purge_upto, save_vote,
  run_op,
}
use pgcluster.Raft.Storage.View.{
  IsCodec, IsTotal, Decodes, IsKey, LogView, put, spec_op, Fits, Implements, index_of,
}
use pgcluster.Raft.Storage.Removal.{range_removed}

module _ (S : Sled) (C : Codec) (D : IsSled S) (H : IsHealthy S) (T : IsCodec C)
    (E : IsTotal C) where
  -- The call succeeds, and what the store holds then is what the call means.
  unfoldable pub Refines : StorageOp S C → Store S C → LogView S C → Type 0
  Refines op s a =
      (s' : Store S C) × (run_op S C op s ≡ (done tt, s')) × Implements S C s' (spec_op S C op a)

  save_vote-Refines :
      (v : C.Vote) (s : Store S C) (a : LogView S C)
      → Implements S C s a
      → Refines (op_save_vote v) s a
  unfolding run_op save_vote Refines spec_op
  save_vote-Refines v s a I = elim (Option-cases (C.encode_vote v)) [
    | inl e ↦ absurd (E.votes_encode v e)
    | inr (b, e) ↦ elim (Option-cases (S.insert s.meta vote_key b)) [
      | inl f ↦ absurd (H.inserts s.meta vote_key b f)
      | inr (t, f) ↦ (
        record s { meta = t },
        ground (arith, H.opens s.meta, H.flushes t),
        record {
          held = I.held;
          keyed = I.keyed;
          indexed = I.indexed;
          purged_held =
              ground (arith, D.insert_writes s.meta t vote_key b f purged_key, I.purged_held);
          vote_held =
              ground (arith, D.insert_writes s.meta t vote_key b f vote_key, T.vote_trip v b e);
        },
      )
    ]
  ]

  truncate_since-Refines :
      (l : C.LogId) (s : Store S C) (a : LogView S C)
      → C.index l < 2 ^ 64
      → Implements S C s a
      → Refines (delete_conflict_logs_since l) s a
  unfolding run_op truncate_since Refines spec_op
  truncate_since-Refines l s a fits I =
      let (t, run, finds) = range_removed S C D H (included (idx_key (C.index l))) unbounded s in
      (
        record s { logs = t },
        ground (arith, H.opens s.logs, H.flushes t, run),
        record {
          held =
              λ i h. ground (arith, finds (idx_key i), idx_key-le (C.index l) i fits h, I.held i h);
          keyed = λ k v e. I.keyed k v (ground (arith, finds k));
          indexed = λ i e h. I.indexed i e (ground arith);
          purged_held = I.purged_held;
          vote_held = I.vote_held;
        },
      )

  purge_upto-Refines :
      (l : C.LogId) (s : Store S C) (a : LogView S C)
      → C.index l < 2 ^ 64
      → Implements S C s a
      → Refines (purge_logs_upto l) s a
  unfolding run_op purge_upto Refines spec_op
  purge_upto-Refines l s a fits I =
      let (t, run, finds) = range_removed S C D H unbounded (included (idx_key (C.index l))) s in
      elim (Option-cases (C.encode_log_id l)) [
        | inl e ↦ absurd (E.log_ids_encode l e)
        | inr (b, e) ↦ elim (Option-cases (S.insert s.meta purged_key b)) [
          | inl f ↦ absurd (H.inserts s.meta purged_key b f)
          | inr (u, f) ↦ (
            record { logs = t; meta = u },
            ground (arith, H.opens s.logs, H.opens s.meta, H.flushes t, H.flushes u, run),
            record {
              held = λ i h.
                  ground (arith, finds (idx_key i), idx_key-le i (C.index l) h fits, I.held i h);
              keyed = λ k v e. I.keyed k v (ground (arith, finds k));
              indexed = λ i e h. I.indexed i e (ground arith);
              purged_held =
                  ground (
                    arith,
                    D.insert_writes s.meta u purged_key b f purged_key,
                    T.log_id_trip l b e,
                  );
              vote_held =
                  ground (arith, D.insert_writes s.meta u purged_key b f vote_key, I.vote_held);
            },
          )
        ]
      ]

  -- The batch of `es` holds, at each key, what is put there.
  encode_batch-puts :
      (es : List C.Entry) (s : Store S C)
      → All (λ e. index_of S C e < 2 ^ 64) es
      → (batch : List Pair) × (encode_batch S C es s ≡ (done batch, s))
        × ((i : ℕ) (o : Option Bytes) (x : Option C.Entry)
            → i < 2 ^ 64
            → Decodes C.decode_entry o x
            → Decodes C.decode_entry (find_batch batch (idx_key i) o) (put S C es i x))
        × ((k v : Bytes) (o : Option Bytes)
            → find_batch batch k o ≡ some v
            → (o ≡ some v) ⊎ IsKey k)
  unfolding encode_batch
  encode_batch-puts [] s fits = ([], refl, λ i o x h d. d, λ k v o h. inl h)
  encode_batch-puts (e ∷ es) s fits = elim (Option-cases (C.encode_entry e)) [
    | inl f ↦ absurd (E.entries_encode e f)
    | inr (b, f) ↦
        let (batch, run, puts, keys) = encode_batch-puts es s fits.1 in
        (
          (idx_key (index_of S C e), b) ∷ batch,
          ground (arith, run),
          λ i o x h d.
              puts i (if bytes_eq (idx_key (index_of S C e)) (idx_key i) then some b else o)
                (if index_of S C e == i then some e else x) h
                (ground (arith, idx_key-eq (index_of S C e) i fits.0 h, T.entry_trip e b f)),
          λ k v o h. elim (Bool-cases (bytes_eq (idx_key (index_of S C e)) k)) [
            | inl same ↦
                inr (index_of S C e, sym (bytes_eq-true (idx_key (index_of S C e)) k same), fits.0)
            | inr other ↦ elim (keys k v o (ground arith)) [ inl d ↦ inl d | inr d ↦ inr d ]
          ],
        )
  ]

  put-index :
      (es : List C.Entry) (i : ℕ) (x : Option C.Entry) (e : C.Entry)
      → ((d : C.Entry) → x ≡ some d → index_of S C d ≡ i)
      → put S C es i x ≡ some e
      → index_of S C e ≡ i
  put-index [] i x e h p = h e p
  put-index (c ∷ es) i x e h p =
      put-index es i (if index_of S C c == i then some c else x) e (λ d q. ground (arith, h d)) p

  append_entries-Refines :
      (es : List C.Entry) (s : Store S C) (a : LogView S C)
      → All (λ e. index_of S C e < 2 ^ 64) es
      → Implements S C s a
      → Refines (append_to_log es) s a
  unfolding run_op append_entries Refines spec_op
  append_entries-Refines es s a fits I =
      let (batch, run, puts, keys) = encode_batch-puts es s fits in
      elim (Option-cases (S.apply_batch s.logs batch)) [
        | inl f ↦ absurd (H.batches s.logs batch f)
        | inr (t, f) ↦ (
          record s { logs = t },
          ground (arith, H.opens s.logs, H.flushes t, run),
          record {
            held = λ i h.
                subst (λ o. Decodes C.decode_entry o (put S C es i (a.entries i)))
                  (sym (D.batch_writes s.logs t batch f (idx_key i)))
                  (puts i (find (idx_key i) (S.pairs s.logs)) (a.entries i) h (I.held i h));
            keyed = λ k v e.
                elim (keys k v (find k (S.pairs s.logs))
                  (sym (D.batch_writes s.logs t batch f k) ∙ e)) [
                    | inl d ↦ I.keyed k v d
                    | inr d ↦ d
                  ];
            indexed = λ i e p. put-index es i (a.entries i) e (I.indexed i) p;
            purged_held = I.purged_held;
            vote_held = I.vote_held;
          },
        )
      ]

  pub run_op-Refines :
      (op : StorageOp S C) (s : Store S C) (a : LogView S C)
      → Fits S C op
      → Implements S C s a
      → Refines op s a
  unfolding Fits
  run_op-Refines (append_to_log es) s a fits I = append_entries-Refines es s a fits I
  run_op-Refines (delete_conflict_logs_since l) s a fits I = truncate_since-Refines l s a fits I
  run_op-Refines (purge_logs_upto l) s a fits I = purge_upto-Refines l s a fits I
  run_op-Refines (op_save_vote v) s a fits I = save_vote-Refines v s a I
