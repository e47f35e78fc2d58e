-- ===== src/Raft/Storage/Last.antt =====
-- The state of the log that pgcluster/src/raft/storage.rs reports, and the vote that it reads, on a
-- database without faults.
use pgcluster.Prelude.{
  ℕ, ◌^◌, ◌<◌, ◌≡◌, sym, ap, subst, ◌∙◌, inl, inr, Option, none, some, arith, Option-cases,
  unwrap_or, In,
}
use mathlib.Core.Option
use pgcluster.Raft.Storage.Keys.{Bytes, idx_key, idx_key-le, bytes_le}
use pgcluster.Raft.Storage.Database.{
  Sled, IsSled, IsHealthy, Pair, last_of, last_of-In, last_of-greatest, last_of-none,
}
use pgcluster.Raft.Storage.{
  Codec, Store, done, get_log_state, read_vote, vote_key, purged_key, decode_if,
}
use pgcluster.Raft.Storage.View.{Decodes, LogView, Implements, index_of}
use pgcluster.Raft.Storage.Reads.{Holds, pair-held, held-pair}

module _ (S : Sled) (C : Codec) (D : IsSled S) (s : Store S C) (a : LogView S C)
    (I : Implements S C s a) where
  -- An optional value that is read and decoded.
  decode_if-value :
      {A : Type 0} (decode : Bytes → Option A) (o : Option Bytes) (x : Option A)
      → Decodes decode o x
      → decode_if S C decode o s ≡ (done x, s)
  decode_if-value decode none x d = ground arith
  decode_if-value decode (some b) x d = elim (Option-cases x) [
    | inl e ↦ absurd (d.1 e)
    | inr (v, e) ↦ ground arith
  ]

  pub read_vote-reads : IsHealthy S → read_vote S C s ≡ (done a.vote, s)
  unfolding read_vote
  read_vote-reads H = elim (Option-cases (S.get s.meta vote_key)) [
    | inl e ↦ absurd (H.gets s.meta vote_key e)
    | inr (o, e) ↦
        let reads = D.get_reads s.meta vote_key o e in
        let value =
          decode_if-value C.decode_vote o a.vote
            (subst (λ x. Decodes C.decode_vote x a.vote) (sym reads) I.vote_held) in
        ground (arith, H.opens s.meta)
  ]

  entries_none : last_of (S.pairs s.logs) ≡ none → (i : ℕ) → i < 2 ^ 64 → a.entries i ≡ none
  entries_none h i small = elim (Option-cases (a.entries i)) [
    | inl e ↦ e
    | inr (e, here) ↦
        let (p, place, holds) = held-pair S C D s a I i e small here in
        absurd (subst (λ ps. In p ps) (last_of-none (S.pairs s.logs) h) place)
  ]

  entries_last :
      (p : Pair) (e : C.Entry)
      → last_of (S.pairs s.logs) ≡ some p
      → Holds S C p e
      → (i : ℕ) → i < 2 ^ 64
      → index_of S C e < i
      → a.entries i ≡ none
  entries_last p e h (key, fits, code) i small later = elim (Option-cases (a.entries i)) [
    | inl d ↦ d
    | inr (d, here) ↦
        let (q, place, (key2, fits2, code2)) = held-pair S C D s a I i d small here in
        let greatest = last_of-greatest p (S.pairs s.logs) (D.ordered s.logs) h q place in
        absurd (
          ground (
            arith,
            idx_key-le (index_of S C d) (index_of S C e) fits2 fits,
            I.indexed i d here,
            ap (λ k. bytes_le k p.0) key2,
            ap (λ k. bytes_le (idx_key (index_of S C d)) k) key,
          ))
  ]

  get_log_state-done :
      (o : Option Bytes) (l : Option Pair) (x : Option C.Entry)
      → IsHealthy S
      → S.get s.meta purged_key ≡ some o
      → S.last s.logs ≡ some l
      → decode_if S C C.decode_log_id o s ≡ (done a.purged, s)
      → decode_if S C C.decode_entry (Option.map (λ p. p.1) l) s ≡ (done x, s)
      → get_log_state S C s
        ≡ (done (record { last_purged_log_id = a.purged; last_log_id = Option.map C.log_id x }), s)
  unfolding get_log_state
  get_log_state-done o l x H g f d e = ground (arith, H.opens s.meta, H.opens s.logs)

  -- If no call on the database fails and the store holds what a view says, then the state of the
  -- log has the last purged id of the view. If it has no last id, then the view has no entry at an
  -- index of 64 bits; if it has one, it is the id of the entry that the view has at its index, and
  -- the view has no entry at a greater index of 64 bits.
  pub get_log_state-reads :
      IsHealthy S
      → (last_log_id : Option C.LogId) × (get_log_state S C s
          ≡ (done (record { last_purged_log_id = a.purged; last_log_id = last_log_id }), s))
        × (last_log_id ≡ none → (i : ℕ) → i < 2 ^ 64 → a.entries i ≡ none)
        × ((l : C.LogId)
            → last_log_id ≡ some l
            → ((e : C.Entry) × (C.log_id e ≡ l) × (a.entries (C.index l) ≡ some e))
              × ((i : ℕ) → i < 2 ^ 64 → C.index l < i → a.entries i ≡ none))
  get_log_state-reads H = elim (Option-cases (S.get s.meta purged_key)) [
    | inl e ↦ absurd (H.gets s.meta purged_key e)
    | inr (o, g) ↦
        let reads = D.get_reads s.meta purged_key o g in
        let purged =
          decode_if-value C.decode_log_id o a.purged
            (subst (λ x. Decodes C.decode_log_id x a.purged) (sym reads) I.purged_held) in
        elim (Option-cases (S.last s.logs)) [
          | inl f ↦ absurd (H.lasts s.logs f)
          | inr (l, f) ↦
              let is_last = D.last_reads s.logs l f in
              elim (Option-cases l) [
                | inl empty ↦ (
                  none,
                  get_log_state-done o l none H g f purged
                      (ap (λ x. decode_if S C C.decode_entry (Option.map (λ p. p.1) x) s) empty),
                  λ x. entries_none (sym is_last ∙ empty),
                  λ k x. absurd (ground arith),
                )
                | inr (p, there) ↦
                    let (e, holds, here) =
                      pair-held S C D s a I p
                        (last_of-In p (S.pairs s.logs) (sym is_last ∙ there)) in
                    (
                      some (C.log_id e),
                      get_log_state-done o l (some e) H g f purged (
                          ap (λ x. decode_if S C C.decode_entry (Option.map (λ p. p.1) x) s) there
                          ∙ ground (arith, holds.2)),
                      λ h. absurd (ground arith),
                      λ k same.
                          let id = ap (λ x. unwrap_or x (C.log_id e)) same in
                          (
                            (e, id, ap (λ x. a.entries (C.index x)) (sym id) ∙ here),
                            λ i small later.
                                entries_last p e (sym is_last ∙ there) holds i small
                                  (subst (λ x. C.index x < i) (sym id) later),
                          ),
                    )
              ]
        ]
  ]
