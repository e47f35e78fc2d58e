-- ===== src/Raft/Machine/Replay.antt =====
-- The log against the states that it leads to: invariants over a whole log, instances that apply
-- the same log, and a snapshot in place of the log's beginning.
use pgcluster.Prelude.{ℕ, ◌≡◌, refl, subst, ◌∙◌, true, some, List, [], ◌∷◌, ◌++◌, arith}
use pgcluster.Raft.Apply.Primary.{Named}
use pgcluster.Raft.Apply.Invariant.{IsValid, apply_command-IsValid}
use pgcluster.Raft.Apply.Clock.{SameState, apply_command-SameState}
use pgcluster.Raft.Machine.{
  RaftTypes, EntryPayload, blank, normal, membership, Entry, Machine, Snapshot, SnapshotMeta, Json,
  apply_payload, apply_entry, apply_entries, build_snapshot_data, install_snapshot_from,
}

module _ (R : RaftTypes) where
  abbrev pub NamedPayload : EntryPayload R → Type 0
  NamedPayload (normal cmd) = Named cmd
  NamedPayload _ = Unit

  -- Every command of the log that appoints a primary names a node.
  abbrev pub NamedLog : List (Entry R) → Type 0
  NamedLog [] = Unit
  NamedLog (e ∷ es) = NamedPayload e.payload × NamedLog es

  -- What the proxies read is what the log has built, and it is well-formed.
  pub record IsSound (m : Machine R) : Type 0 where
    pub valid : IsValid m.state
    pub current : m.watched ≡ true → m.published ≡ m.state

  payload-IsSound :
      (m : Machine R) (id : R.LogId) (clock : ℕ) (p : EntryPayload R)
      → NamedPayload p
      → IsSound m
      → IsSound (apply_payload R m id clock p)
  unfolding apply_payload
  payload-IsSound m id clock blank n s = s
  payload-IsSound m id clock (normal cmd) n s = record {
    valid = apply_command-IsValid clock m.state cmd n s.valid;
    current = λ w. rw w refl;
  }
  payload-IsSound m id clock (membership ms) n s = record { valid = s.valid; current = s.current }

  -- If each command of a log that appoints a primary gives a node id that is not empty, then
  -- applying the log to a sound machine leaves it sound: the role of primary is held by the
  -- recorded primary at most, none of the topology's maps has a key twice, the failover history,
  -- the backups and the version are within their bounds, the backups are sorted newest first, and
  -- the watch channel holds the current topology as long as it has a receiver.
  pub apply_entries-IsSound :
      (m : Machine R) (es : List (Entry R))
      → NamedLog es
      → IsSound m
      → IsSound (apply_entries R m es).0
  unfolding apply_entries
  apply_entries-IsSound m [] n s = s
  apply_entries-IsSound m (e ∷ es) n s = apply_entries-IsSound (apply_entry R m e) es n.1 (
      payload-IsSound (record m { last_log = some e.log_id }) e.log_id e.clock e.payload n.0
        (record { valid = s.valid; current = s.current }))

  -- Applying a log in two parts is applying it whole.
  pub apply_entries-append :
      (m : Machine R) (xs ys : List (Entry R))
      → (apply_entries R m (xs ++ ys)).0 ≡ (apply_entries R (apply_entries R m xs).0 ys).0
  unfolding apply_entries
  apply_entries-append m [] ys = refl
  apply_entries-append m (e ∷ es) ys = apply_entries-append (apply_entry R m e) es ys

  -- Two logs with the same entries, applied at times of their own.
  abbrev pub SameLog : List (Entry R) → List (Entry R) → Type 0
  SameLog [] [] = Unit
  SameLog (e ∷ es) (f ∷ fs) = (e.log_id ≡ f.log_id) × (e.payload ≡ f.payload) × SameLog es fs
  SameLog _ _ = ⊥

  -- Two instances in the same place of the log.
  pub record Agree (m n : Machine R) : Type 0 where
    pub state : SameState m.state n.state
    pub last_log : m.last_log ≡ n.last_log
    pub members : m.members ≡ n.members

  payload-Agree :
      (m n : Machine R) (id : R.LogId) (c d : ℕ) (p : EntryPayload R)
      → Agree m n
      → Agree (apply_payload R m id c p) (apply_payload R n id d p)
  unfolding apply_payload
  payload-Agree m n id c d blank a = a
  payload-Agree m n id c d (normal cmd) a = record {
    state = apply_command-SameState c d m.state n.state cmd a.state;
    last_log = a.last_log;
    members = a.members;
  }
  payload-Agree m n id c d (membership ms) a = record {
    state = a.state;
    last_log = a.last_log;
    members = refl;
  }

  entry-Agree :
      (m n : Machine R) (e f : Entry R)
      → e.log_id ≡ f.log_id
      → e.payload ≡ f.payload
      → Agree m n
      → Agree (apply_entry R m e) (apply_entry R n f)
  unfolding apply_entry
  entry-Agree m n e f i p a =
      subst
        (λ q.
          Agree (apply_entry R m e)
            (apply_payload R (record n { last_log = some f.log_id }) f.log_id f.clock q))
        p
        (subst
          (λ l.
            Agree (apply_entry R m e)
              (apply_payload R (record n { last_log = some l }) l f.clock e.payload))
          i
          (payload-Agree (record m { last_log = some e.log_id })
            (record n { last_log = some e.log_id }) e.log_id e.clock f.clock e.payload
            (record { state = a.state; last_log = refl; members = a.members })))

  -- Instances that agree, and apply logs with the same entries at times of their own, agree
  -- afterwards: on the last entry, on the membership, and on all of the topology but its time
  -- stamp.
  pub apply_entries-Agree :
      (m n : Machine R) (es fs : List (Entry R))
      → SameLog es fs
      → Agree m n
      → Agree (apply_entries R m es).0 (apply_entries R n fs).0
  unfolding apply_entries
  apply_entries-Agree m n [] [] h a = a
  apply_entries-Agree m n [] (f ∷ fs) h a = absurd h
  apply_entries-Agree m n (e ∷ es) [] h a = absurd h
  apply_entries-Agree m n (e ∷ es) (f ∷ fs) h a =
      apply_entries-Agree (apply_entry R m e) (apply_entry R n f) es fs h.2
        (entry-Agree m n e f h.0 h.1 a)

  Agree-refl : (m : Machine R) → Agree m m
  Agree-refl m = record { state = refl; last_log = refl; members = refl }

  SameLog-refl : (es : List (Entry R)) → SameLog es es
  SameLog-refl [] = tt
  SameLog-refl (e ∷ es) = (refl, refl, SameLog-refl es)

  module _ (json : Json R)
      (round_trip : (s : Snapshot R) (b : json.Bytes)
        → json.to_vec s ≡ some b
        → json.from_slice b ≡ some s) where
    built_parts :
        (m : Machine R) (meta : SnapshotMeta R) (b : json.Bytes)
        → build_snapshot_data R json m ≡ some (meta, b)
        → (json.from_slice b ≡ some (record { meta = m.members; topology = m.state }))
          × (meta.last_log_id ≡ m.last_log)
    unfolding build_snapshot_data
    built_parts m meta b built =
        ground (arith, round_trip (record { meta = m.members; topology = m.state }) b)

    installed_parts :
        (q q' : Machine R) (meta : SnapshotMeta R) (b : json.Bytes) (s : Snapshot R)
        → json.from_slice b ≡ some s
        → install_snapshot_from R json q meta b ≡ some q'
        → (q'.state ≡ s.topology) × (q'.last_log ≡ meta.last_log_id) × (q'.members ≡ s.meta)
    unfolding install_snapshot_from
    installed_parts q q' meta b s parsed installed = ground arith

    install_built :
        (m q q' : Machine R) (meta : SnapshotMeta R) (b : json.Bytes)
        → build_snapshot_data R json m ≡ some (meta, b)
        → install_snapshot_from R json q meta b ≡ some q'
        → Agree q' m
    unfolding build_snapshot_data install_snapshot_from
    install_built m q q' meta b built installed =
        let snap : Snapshot R = record { meta = m.members; topology = m.state } in
        let (parsed, logged) = built_parts m meta b built in
        let (state, last, members) = installed_parts q q' meta b snap parsed installed in
        record { state = rw state refl; last_log = last ∙ logged; members = members }

    -- If the serialiser reads back what it writes, then an instance that installs the snapshot that
    -- another one built after the first part of a log, and then applies the second part, agrees
    -- with an instance that applied both parts, on the last entry, the membership, and all of the
    -- topology but its time stamp.
    pub snapshot_replaces_log :
        (m q q' : Machine R) (xs ys zs : List (Entry R)) (meta : SnapshotMeta R) (b : json.Bytes)
        → build_snapshot_data R json (apply_entries R m xs).0 ≡ some (meta, b)
        → install_snapshot_from R json q meta b ≡ some q'
        → SameLog zs ys
        → Agree (apply_entries R q' zs).0 (apply_entries R m (xs ++ ys)).0
    snapshot_replaces_log m q q' xs ys zs meta b built installed same =
        rw (apply_entries-append m xs ys) (
          apply_entries-Agree q' (apply_entries R m xs).0 zs ys same
            (install_built (apply_entries R m xs).0 q q' meta b built installed))
