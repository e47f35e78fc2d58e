-- ===== src/Raft/Storage/View.antt =====
-- What openraft expects of the storage of pgcluster/src/raft/storage.rs: a map from indices to
-- entries, the last purged id and the vote; and when a store holds that.
use pgcluster.Prelude.{
  ℕ, ◌^◌, ◌<◌, ◌≡◌, refl, subst, ◌∙◌, ◌≢◌, Option, none, some, List, [], ◌∷◌, arith, leb, ◌==◌,
  if◌then◌else◌, All,
}
use pgcluster.Raft.Storage.Keys.{Bytes, idx_key}
use pgcluster.Raft.Storage.Database.{Sled, find}
use pgcluster.Raft.Storage.{
  Codec, Store, StorageOp, append_to_log, delete_conflict_logs_since, purge_logs_upto, op_save_vote,
  vote_key, purged_key,
}

-- A read of what was written gives it back.
pub record IsCodec (C : Codec) : Type 0 where
  pub entry_trip : (e : C.Entry) (b : Bytes) → C.encode_entry e ≡ some b → C.decode_entry b ≡ some e
  pub vote_trip : (v : C.Vote) (b : Bytes) → C.encode_vote v ≡ some b → C.decode_vote b ≡ some v
  pub log_id_trip :
      (l : C.LogId) (b : Bytes) → C.encode_log_id l ≡ some b → C.decode_log_id b ≡ some l

-- Every value can be written.
pub record IsTotal (C : Codec) : Type 0 where
  pub entries_encode : (e : C.Entry) → C.encode_entry e ≢ none
  pub votes_encode : (v : C.Vote) → C.encode_vote v ≢ none
  pub log_ids_encode : (l : C.LogId) → C.encode_log_id l ≢ none

-- The stored bytes are those of `x`, or there are none for none.
abbrev pub Decodes : {A : Type 0} → (Bytes → Option A) → Option Bytes → Option A → Type 0
Decodes decode none x = x ≡ none
Decodes decode (some b) x = (decode b ≡ x) × (x ≢ none)

pub Decodes-code :
    {A : Type 0} (decode : Bytes → Option A) (o : Option Bytes) (x : Option A) (b : Bytes)
    → Decodes decode o x
    → o ≡ some b
    → (decode b ≡ x) × (x ≢ none)
Decodes-code decode o x b d e = subst (λ p. Decodes decode p x) e d

pub Decodes-value :
    {A : Type 0} (decode : Bytes → Option A) (o : Option Bytes) (x : Option A) (a : A)
    → Decodes decode o x
    → x ≡ some a
    → (b : Bytes) × (o ≡ some b) × (decode b ≡ some a)
Decodes-value decode none x a d e = absurd (ground arith)
Decodes-value decode (some b) x a d e = (b, refl, d.0 ∙ e)

abbrev pub IsKey : Bytes → Type 0
IsKey k = (i : ℕ) × (k ≡ idx_key i) × (i < 2 ^ 64)

module _ (S : Sled) (C : Codec) where
  abbrev pub index_of : C.Entry → ℕ
  index_of e = C.index (C.log_id e)

  pub record LogView : Type 0 where
    pub entries : ℕ → Option C.Entry
    pub purged : Option C.LogId
    pub vote : Option C.Vote

  -- The entry at `i` after `es` was written over `o`.
  abbrev pub put : List C.Entry → ℕ → Option C.Entry → Option C.Entry
  put [] i o = o
  put (e ∷ es) i o = put es i (if index_of e == i then some e else o)

  unfoldable pub spec_op : StorageOp S C → LogView → LogView
  spec_op (append_to_log es) a = record a { entries = λ i. put es i (a.entries i) }
  spec_op (delete_conflict_logs_since l) a = record a {
    entries = λ i. if leb (C.index l) i then none else a.entries i;
  }
  spec_op (purge_logs_upto l) a = record a {
    entries = λ i. if leb i (C.index l) then none else a.entries i;
    purged = some l;
  }
  spec_op (op_save_vote v) a = record a { vote = some v }

  -- The indices that the call names are of 64 bits.
  unfoldable pub Fits : StorageOp S C → Type 0
  Fits (append_to_log es) = All (λ e. index_of e < 2 ^ 64) es
  Fits (delete_conflict_logs_since l) = C.index l < 2 ^ 64
  Fits (purge_logs_upto l) = C.index l < 2 ^ 64
  Fits (op_save_vote v) = Unit

  pub record Implements (s : Store S C) (a : LogView) : Type 0 where
    pub held :
        (i : ℕ)
        → i < 2 ^ 64
        → Decodes C.decode_entry (find (idx_key i) (S.pairs s.logs)) (a.entries i)
    pub keyed : (k v : Bytes) → find k (S.pairs s.logs) ≡ some v → IsKey k
    pub indexed : (i : ℕ) (e : C.Entry) → a.entries i ≡ some e → index_of e ≡ i
    pub purged_held : Decodes C.decode_log_id (find purged_key (S.pairs s.meta)) a.purged
    pub vote_held : Decodes C.decode_vote (find vote_key (S.pairs s.meta)) a.vote
