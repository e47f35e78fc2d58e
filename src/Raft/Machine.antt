-- ===== src/Raft/Machine.antt =====
-- `TopologyStateMachine` of pgcluster/src/raft/state_machine.rs: the log entries that it applies,
-- and its snapshots. What openraft and serde_json supply is a parameter.
pub mod Replay
use pgcluster.Prelude.{
  ℕ, zero, suc, ◌+◌, ◌-◌, ◌*◌, ◌/◌, ◌%◌, ◌^◌, ◌≤◌, ◌<◌, min, max, String, ◌≡◌, refl, sym, ap, subst,
  ◌∙◌, ◌≢◌, ◌↔◌, ◌⊎◌, inl, inr, Bool, true, false, not, ◌&&◌, ◌||◌, Option, none, some, List, [],
  ◌∷◌, ◌++◌, map, arith, str_eq, eq_iff, ltb, leb, ◌==◌, if◌then◌else◌, ltb→lt, lt→ltb, leb→le,
  le→leb, Bool-cases, Option-cases, is_some, unwrap_or, length, take, drop, filter, any,
  length-append, length-drop, length-filter-le, All, In, All-In, All-of-In, In-filter, In-filter-of,
  is_empty, sort_by, sort_by-IsSorted, In-sort_by, sort_by-In, IsSorted, length-sort_by, max_by,
  min_by, max_by-IsMax, max_by-In, min_by-IsMin, min_by-In, max_by-none, min_by-none, In-append,
  append-In, In-take, In-drop, In-split, take-append-drop, length-take, take-IsSorted,
  filter-IsSorted, take-le-drop,
}
use pgcluster.Raft.Topology.{ClusterTopology, empty_topology}
use pgcluster.Raft.Command.{TopologyCommand}
use pgcluster.Raft.Apply.{apply_command}

-- openraft's log ids and memberships, and `StoredMembership::new` and `::default`.
pub record RaftTypes : Type 1 where
  pub LogId : Type 0
  pub Membership : Type 0
  pub StoredMembership : Type 0
  pub stored_new : Option LogId → Membership → StoredMembership
  pub stored_default : StoredMembership

pub data EntryPayload (R : RaftTypes) : Type 0 where
  blank : EntryPayload R
  normal : TopologyCommand → EntryPayload R
  membership : R.Membership → EntryPayload R

-- `clock` is what the instance's clock reads when it applies the entry.
pub record Entry (R : RaftTypes) : Type 0 where
  pub log_id : R.LogId
  pub payload : EntryPayload R
  pub clock : ℕ

-- `watched`: whether the watch channel still has a receiver. `send` changes its value only then.
pub record Machine (R : RaftTypes) : Type 0 where
  pub state : ClusterTopology
  pub last_log : Option R.LogId
  pub members : R.StoredMembership
  pub published : ClusterTopology
  pub watched : Bool

pub record Snapshot (R : RaftTypes) : Type 0 where
  pub meta : R.StoredMembership
  pub topology : ClusterTopology

-- What a snapshot message carries beside its bytes.
pub record SnapshotMeta (R : RaftTypes) : Type 0 where
  pub last_log_id : Option R.LogId
  pub last_membership : R.StoredMembership

-- serde_json's two functions on a snapshot; each may fail.
pub record Json (R : RaftTypes) : Type 1 where
  pub Bytes : Type 0
  pub to_vec : Snapshot R → Option Bytes
  pub from_slice : Bytes → Option (Snapshot R)

module _ (R : RaftTypes) where
  -- `TopologyStateMachine::new`: the receiver is returned to the caller.
  unfoldable pub new_machine : Machine R
  new_machine = record {
    state = empty_topology;
    last_log = none;
    members = R.stored_default;
    published = empty_topology;
    watched = true;
  }

  -- `change_tx.send`
  send : Machine R → ClusterTopology → Machine R
  send m t = record m { published = (if m.watched then t else m.published) }

  apply_payload : Machine R → R.LogId → ℕ → EntryPayload R → Machine R
  unfolding send
  apply_payload m id clock blank = m
  apply_payload m id clock (normal cmd) =
      let topo = apply_command clock m.state cmd in send (record m { state = topo }) topo
  apply_payload m id clock (membership ms) = record m { members = R.stored_new (some id) ms }

  -- One round of the loop of `apply_entries`.
  unfoldable pub apply_entry : Machine R → Entry R → Machine R
  unfolding apply_payload
  apply_entry m e = apply_payload (record m { last_log = some e.log_id }) e.log_id e.clock e.payload

  -- The machine, and the version after each entry.
  unfoldable pub apply_entries : Machine R → List (Entry R) → Machine R × List ℕ
  unfolding apply_entry
  apply_entries m [] = (m, [])
  apply_entries m (e ∷ es) =
      let m' = apply_entry m e in
      let (last, versions) = apply_entries m' es in (last, m'.state.version ∷ versions)

  module _ (json : Json R) where
    unfoldable pub build_snapshot_data : Machine R → Option (SnapshotMeta R × json.Bytes)
    build_snapshot_data m = elim (json.to_vec (record { meta = m.members; topology = m.state })) [
      | none ↦ none
      | some data_bytes ↦
          some (record { last_log_id = m.last_log; last_membership = m.members }, data_bytes)
    ]

    -- `Ok(None)` if nothing was applied yet; `none` on the outside is a failure to serialise.
    pub get_current_snapshot_data : Machine R → Option (Option (SnapshotMeta R × json.Bytes))
    unfolding build_snapshot_data
    get_current_snapshot_data m = elim m.last_log [
      | none ↦ some none
      | some id ↦ elim (build_snapshot_data m) [ none ↦ none | some s ↦ some (some s) ]
    ]

    -- On bytes that do not parse, nothing changes.
    unfoldable pub install_snapshot_from :
        Machine R → SnapshotMeta R → json.Bytes → Option (Machine R)
    unfolding send
    install_snapshot_from m meta bytes = elim (json.from_slice bytes) [
      | none ↦ none
      | some snap ↦ some (
          send
            (record m { state = snap.topology; members = snap.meta; last_log = meta.last_log_id })
            snap.topology)
    ]
