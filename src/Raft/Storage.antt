-- ===== src/Raft/Storage.antt =====
-- `SledLogStorage` of pgcluster/src/raft/storage.rs: the Raft log and the vote in a sled database.
-- Keys has the keys and Database what sled does; View and Refines relate it to what openraft expects.
pub mod Keys
pub mod Database
pub mod View
pub mod Removal
pub mod Refines
pub mod Reads
pub mod Last
pub mod Faults
pub mod History
use pgcluster.Prelude.{
  ℕ, zero, suc, ◌+◌, ◌-◌, ◌*◌, ◌/◌, ◌%◌, ◌^◌, ◌≤◌, ◌<◌, min, max, String, ◌≡◌, refl, sym, ap, subst,
  ◌∙◌, ◌≢◌, ◌↔◌, ◌⊎◌, inl, inr, Bool, true, false, not, ◌&&◌, ◌||◌, Option, none, some, List, [],
  ◌∷◌, ◌++◌, map, arith, str_eq, eq_iff, ltb, leb, ◌==◌, if◌then◌else◌, ltb→lt, lt→ltb, leb→le,
  le→leb, Bool-cases, Option-cases, is_some, unwrap_or, length, take, drop, filter, any,
  length-append, length-drop, length-filter-le, All, In, All-In, All-of-In, In-filter, In-filter-of,
  is_empty, sort_by, sort_by-IsSorted, In-sort_by, sort_by-In, IsSorted, length-sort_by, max_by,
  min_by, max_by-IsMax, max_by-In, min_by-IsMin, min_by-In, max_by-none, min_by-none, In-append,
  append-In, In-take, In-drop, In-split, take-append-drop, length-take, take-IsSorted,
  filter-IsSorted, take-le-drop, length-filter-and, length-filter_mono, Distinct, pigeonhole,
  In-map, map-In, length-map, filter_map, In-filter_map, filter_map-In,
}
use mathlib.Core.Option
use pgcluster.Raft.Storage.Keys.{Bytes, idx_key}
use pgcluster.Raft.Storage.Database.{Sled, Pair, Bound, included, excluded, unbounded}

-- openraft's types and serde_json's functions on them; each function may fail.
pub record Codec : Type 1 where
  pub Entry : Type 0
  pub LogId : Type 0
  pub Vote : Type 0
  pub log_id : Entry → LogId
  pub index : LogId → ℕ
  pub encode_entry : Entry → Option Bytes
  pub decode_entry : Bytes → Option Entry
  pub encode_vote : Vote → Option Bytes
  pub decode_vote : Bytes → Option Vote
  pub encode_log_id : LogId → Option Bytes
  pub decode_log_id : Bytes → Option LogId

-- `ErrorVerb`, of `io_err_read` and `io_err_write`.
pub data ErrorVerb : Type 0 where
  verb_read : ErrorVerb
  verb_write : ErrorVerb

pub data Outcome (A : Type 0) : Type 0 where
  failed : ErrorVerb → Outcome A
  done : A → Outcome A

pub Outcome-cases :
    {A : Type 0} (o : Outcome A) → ((e : ErrorVerb) × (o ≡ failed e)) ⊎ ((a : A) × (o ≡ done a))
Outcome-cases (failed e) = inl (e, refl)
Outcome-cases (done a) = inr (a, refl)

abbrev pub vote_key : Bytes
vote_key = 118 ∷ 111 ∷ 116 ∷ 101 ∷ []

abbrev pub purged_key : Bytes
purged_key = 112 ∷ 117 ∷ 114 ∷ 103 ∷ 101 ∷ 100 ∷ []

abbrev pub to_key_bound : Bound ℕ → Bound Bytes
to_key_bound (included n) = included (idx_key n)
to_key_bound (excluded n) = excluded (idx_key n)
to_key_bound unbounded = unbounded

module _ (S : Sled) (C : Codec) where
  -- The trees "raft_logs" and "raft_meta".
  pub record Store : Type 0 where
    pub logs : S.Tree
    pub meta : S.Tree

  -- A call on the store: what it returns, and the store after it, also when it fails.
  abbrev pub Io : Type 0 → Type 0
  Io A = Store → Outcome A × Store

  abbrev pub pure : {A : Type 0} → A → Io A
  pure a s = (done a, s)

  abbrev pub and_then : {A B : Type 0} → (A → Io B) → Outcome A × Store → Outcome B × Store
  and_then f (failed e, s) = (failed e, s)
  and_then f (done a, s) = f a s

  infixl 5 ◌>>=◌ ◌>>◌
  abbrev pub ◌>>=◌ : {A B : Type 0} → Io A → (A → Io B) → Io B
  ◌>>=◌ m f s = and_then f (m s)

  abbrev pub ◌>>◌ : {B : Type 0} → Io (Unit {0}) → Io B → Io B
  m >> k = m >>= λ _. k

  -- `result.map_err(…)?`
  abbrev pub attempt : {A : Type 0} → ErrorVerb → Option A → Io A
  attempt e none s = (failed e, s)
  attempt e (some a) s = (done a, s)

  abbrev pub ensure : ErrorVerb → Bool → Io (Unit {0})
  ensure e true s = (done tt, s)
  ensure e false s = (failed e, s)

  abbrev pub logs_tree : Io S.Tree
  logs_tree s = if S.open_tree s.logs then (done s.logs, s) else (failed verb_read, s)

  abbrev pub meta_tree : Io S.Tree
  meta_tree s = if S.open_tree s.meta then (done s.meta, s) else (failed verb_read, s)

  -- A call that changes a tree leaves it as it was when it fails.
  abbrev pub change_logs : (S.Tree → Option S.Tree) → Io (Unit {0})
  change_logs f s = elim (f s.logs) [
    | none ↦ (failed verb_write, s)
    | some t ↦ (done tt, record s { logs = t })
  ]

  abbrev pub change_meta : (S.Tree → Option S.Tree) → Io (Unit {0})
  change_meta f s = elim (f s.meta) [
    | none ↦ (failed verb_write, s)
    | some t ↦ (done tt, record s { meta = t })
  ]

  abbrev pub flush_logs : Io (Unit {0})
  flush_logs s = ensure verb_write (S.flush s.logs) s

  abbrev pub flush_meta : Io (Unit {0})
  flush_meta s = ensure verb_write (S.flush s.meta) s

  -- `for key in keys { tree.remove(key)? }`
  unfoldable pub remove_all : List Bytes → Io (Unit {0})
  remove_all [] = pure tt
  remove_all (k ∷ ks) = do change_logs (λ t. S.remove t k); remove_all ks

  -- `.filter_map(|r| r.ok().map(|(k, _)| k))`
  abbrev pub ok_keys : List (Option Pair) → List Bytes
  ok_keys [] = []
  ok_keys (none ∷ items) = ok_keys items
  ok_keys (some p ∷ items) = p.0 ∷ ok_keys items

  -- The two ids of openraft's `LogState`.
  pub record LogState : Type 0 where
    pub last_purged_log_id : Option C.LogId
    pub last_log_id : Option C.LogId

  -- The body of the loop of `get_entries_range`.
  unfoldable pub decode_items : List (Option Pair) → Io (List C.Entry)
  decode_items [] = pure []
  decode_items (none ∷ items) = λ s. (failed verb_read, s)
  decode_items (some p ∷ items) = do
    e ← attempt verb_read (C.decode_entry p.1)
    es ← decode_items items
    pure (e ∷ es)

  unfoldable pub get_entries_range : Bound ℕ → Bound ℕ → Io (List C.Entry)
  get_entries_range low high = do
    tree ← logs_tree
    decode_items (S.range tree (to_key_bound low) (to_key_bound high))

  -- `value.map(decode).transpose()?`
  abbrev pub decode_if : {A : Type 0} → (Bytes → Option A) → Option Bytes → Io (Option A)
  decode_if decode none = pure none
  decode_if decode (some v) = do a ← attempt verb_read (decode v); pure (some a)

  unfoldable pub get_log_state : Io LogState
  get_log_state = do
    meta ← meta_tree
    logs ← logs_tree
    purged ← attempt verb_read (S.get meta purged_key)
    last_purged_log_id ← decode_if C.decode_log_id purged
    pair ← attempt verb_read (S.last logs)
    entry ← decode_if C.decode_entry (Option.map (λ p. p.1) pair)
    pure (record {
      last_purged_log_id = last_purged_log_id;
      last_log_id = Option.map C.log_id entry;
    })

  unfoldable pub save_vote : C.Vote → Io (Unit {0})
  save_vote vote = do
    _ ← meta_tree
    bytes ← attempt verb_write (C.encode_vote vote)
    change_meta (λ t. S.insert t vote_key bytes)
    flush_meta

  unfoldable pub read_vote : Io (Option C.Vote)
  read_vote = do
    meta ← meta_tree
    value ← attempt verb_read (S.get meta vote_key)
    decode_if C.decode_vote value

  -- The batch that the loop of `append_entries` builds.
  unfoldable pub encode_batch : List C.Entry → Io (List Pair)
  encode_batch [] = pure []
  encode_batch (e ∷ es) = do
    value ← attempt verb_write (C.encode_entry e)
    batch ← encode_batch es
    pure ((idx_key (C.index (C.log_id e)), value) ∷ batch)

  unfoldable pub append_entries : List C.Entry → Io (Unit {0})
  append_entries entries = do
    _ ← logs_tree
    batch ← encode_batch entries
    change_logs (λ t. S.apply_batch t batch)
    flush_logs

  unfoldable pub truncate_since : C.LogId → Io (Unit {0})
  truncate_since log_id = do
    tree ← logs_tree
    remove_all (ok_keys (S.range tree (included (idx_key (C.index log_id))) unbounded))
    flush_logs

  unfoldable pub purge_upto : C.LogId → Io (Unit {0})
  purge_upto log_id = do
    tree ← logs_tree
    _ ← meta_tree
    remove_all (ok_keys (S.range tree unbounded (included (idx_key (C.index log_id)))))
    purge_bytes ← attempt verb_write (C.encode_log_id log_id)
    change_meta (λ t. S.insert t purged_key purge_bytes)
    flush_logs
    flush_meta

  -- The calls with which openraft changes the store.
  pub data StorageOp : Type 0 where
    append_to_log : List C.Entry → StorageOp
    delete_conflict_logs_since : C.LogId → StorageOp
    purge_logs_upto : C.LogId → StorageOp
    op_save_vote : C.Vote → StorageOp

  unfoldable pub run_op : StorageOp → Io (Unit {0})
  run_op (append_to_log entries) = append_entries entries
  run_op (delete_conflict_logs_since log_id) = truncate_since log_id
  run_op (purge_logs_upto log_id) = purge_upto log_id
  run_op (op_save_vote vote) = save_vote vote
