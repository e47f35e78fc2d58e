-- ===== src/Tests/Raft.antt =====
-- Logs of two or three entries.
use pgcluster.Prelude.{
  ℕ, ◌≡◌, refl, sym, ap, ◌≢◌, Bool, true, false, ◌&&◌, Option, none, some, List, [], ◌∷◌, ◌++◌,
  arith, any,
}
use pgcluster.Raft.Topology.{BackupManifest, completed, FailoverEvent}
use pgcluster.Raft.Command.{TopologyCommand, add_node, set_primary, mark_offline}
use pgcluster.Raft.Apply.Invariant.{empty_topology-IsValid}
use pgcluster.Raft.Machine.{
  RaftTypes, normal, Entry, Machine, Snapshot, SnapshotMeta, Json, new_machine, apply_entries,
  build_snapshot_data, install_snapshot_from,
}
use pgcluster.Raft.Machine.Replay.{
  IsSound, Agree, apply_entries-IsSound, apply_entries-Agree, snapshot_replaces_log,
}
use pgcluster.Raft.Lease.{is_majority, reached, QuorumLease, new, is_held, renew, renewal_round}
use pgcluster.Raft.Lease.Window.{renew_all, Recent, held_only_within_duration}
use pgcluster.Raft.Lease.Quorum.{vouches, renewing_rounds_meet}
use pgcluster.Tests.Data.{node}

abbrev types : RaftTypes
types = record {
  LogId = ℕ;
  Membership = ℕ;
  StoredMembership = Option ℕ × ℕ;
  stored_new = λ id m. (id, m);
  stored_default = (none, 0);
}

abbrev entry : ℕ → ℕ → TopologyCommand → Entry types
entry id clock command = record { log_id = id; payload = normal command; clock = clock }

abbrev first_log : List (Entry types)
first_log = entry 1 10 (add_node (node "a")) ∷ entry 2 20 (set_primary "a" 5 1) ∷ []

abbrev same_log : List (Entry types)
same_log = entry 1 11 (add_node (node "a")) ∷ entry 2 22 (set_primary "a" 5 1) ∷ []

new_machine-IsSound : IsSound types (new_machine types)
unfolding new_machine
new_machine-IsSound = record { valid = empty_topology-IsValid; current = λ w. refl }

apply_entries-IsSound_example : IsSound types (apply_entries types (new_machine types) first_log).0
apply_entries-IsSound_example =
    apply_entries-IsSound types (new_machine types) first_log (tt, (refl, tt)) new_machine-IsSound

apply_entries-Agree_example :
    Agree types
      (apply_entries types (new_machine types) first_log).0
      (apply_entries types (new_machine types) same_log).0
apply_entries-Agree_example =
    apply_entries-Agree types (new_machine types) (new_machine types) first_log same_log
      (refl, refl, (refl, refl, tt)) (record { state = refl; last_log = refl; members = refl })

abbrev as_is : Json types
as_is = record { Bytes = Snapshot types; to_vec = λ s. some s; from_slice = λ b. some b }

abbrev after_first : Machine types
after_first = (apply_entries types (new_machine types) first_log).0

abbrev image : Snapshot types
image = record { meta = after_first.members; topology = after_first.state }

abbrev image_meta : SnapshotMeta types
image_meta = record { last_log_id = after_first.last_log; last_membership = after_first.members }

abbrev installed : Machine types
installed = record {
  state = after_first.state;
  last_log = after_first.last_log;
  members = after_first.members;
  published = after_first.state;
  watched = true;
}

snapshot_replaces_log_example :
    Agree types
      (apply_entries types installed (entry 3 30 (mark_offline "a") ∷ [])).0
      (apply_entries types (new_machine types) (first_log ++ entry 3 33 (mark_offline "a") ∷ [])).0
unfolding build_snapshot_data install_snapshot_from new_machine
snapshot_replaces_log_example =
    snapshot_replaces_log types as_is (λ s b e. sym e) (new_machine types) (new_machine types)
      installed first_log (entry 3 33 (mark_offline "a") ∷ []) (entry 3 30 (mark_offline "a") ∷ [])
      image_meta image refl refl (refl, refl, tt)

abbrev manifest : BackupManifest
manifest = record {
  backup_id = "m";
  label = "";
  frequency = "daily";
  source_node = "b";
  started_at = 1;
  completed_at = 2;
  size_bytes = 3;
  location = "";
  status = completed;
}

abbrev event : FailoverEvent
event = record {
  old_primary = "a";
  new_primary = "b";
  triggered_at = 1;
  duration_ms = 2;
  reason = "r";
  ran_degraded = false;
}

abbrev lease : QuorumLease
lease = new 0 5000000000

held_at_two : is_held (renew_all lease (1000000000 ∷ [])) 2000000000 ≡ true
unfolding new is_held renew_all renew
held_at_two = refl

held_only_within_duration_example : Recent 2000000000 5000000000 (1000000000 ∷ [])
held_only_within_duration_example =
    held_only_within_duration 0 5000000000 (1000000000 ∷ []) 2000000000
      ((omega arith, omega arith), tt) (omega arith, omega arith) held_at_two

abbrev all_answer : ℕ → Option Bool
all_answer id = some true

abbrev voters : List ℕ
voters = 1 ∷ 2 ∷ 3 ∷ []

renewed_one : renewal_round lease 1000000000 1 voters all_answer ≢ lease
unfolding renewal_round new renew is_majority reached
renewed_one e = let same : ◌≡◌ {A = ℕ} 1001 0 = ap (λ l. l.renewed) e in absurd (omega arith)

renewed_two : renewal_round lease 1000000000 2 voters all_answer ≢ lease
unfolding renewal_round new renew is_majority reached
renewed_two e = let same : ◌≡◌ {A = ℕ} 1001 0 = ap (λ l. l.renewed) e in absurd (omega arith)

renewing_rounds_meet_example :
    any (λ id. vouches 1 all_answer id && vouches 2 all_answer id) voters ≡ true
renewing_rounds_meet_example =
    renewing_rounds_meet lease lease 1000000000 1000000000 1 2 voters all_answer all_answer
      renewed_one renewed_two
