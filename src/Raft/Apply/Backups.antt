-- ===== src/Raft/Apply/Backups.antt =====
-- The backup list of the topology: `AddBackupManifest` and `RemoveBackupManifest`.
use pgcluster.Prelude.{
  ℕ, ◌+◌, ◌≤◌, min, ◌≡◌, sym, ◌⊎◌, inl, inr, true, false, List, [], ◌∷◌, ◌++◌, arith, leb→le,
  length, length-append, In, sort_by, sort_by-IsSorted, In-sort_by, sort_by-In, IsSorted,
  length-sort_by, In-append, append-In, In-take, In-split, length-take, take-IsSorted, take-le-drop,
}
use pgcluster.Raft.Topology.{ClusterTopology, BackupManifest}
use pgcluster.Raft.Command.{add_backup_manifest}
use pgcluster.Raft.Apply.{apply_command, apply_add_backup, newest_first, backups_max}

newest_total : (a b : BackupManifest) → newest_first a b ≡ false → newest_first b a ≡ true
newest_total a b h = ground arith

newest_trans :
    (a b c : BackupManifest)
    → newest_first a b ≡ true
    → newest_first b c ≡ true
    → newest_first a c ≡ true
newest_trans a b c h k = ground arith

sorted_backups : List BackupManifest → BackupManifest → List BackupManifest
sorted_backups old m = sort_by newest_first (old ++ m ∷ [])

sorted_backups-IsSorted :
    (old : List BackupManifest) (m : BackupManifest) → IsSorted newest_first (sorted_backups old m)
unfolding sorted_backups
sorted_backups-IsSorted old m =
    sort_by-IsSorted newest_first newest_total newest_trans (old ++ m ∷ [])

pub apply_add_backup-IsSorted :
    (t : ClusterTopology) (m : BackupManifest)
    → IsSorted newest_first (apply_add_backup t m).backups
unfolding apply_add_backup sorted_backups
apply_add_backup-IsSorted t m =
    take-IsSorted newest_first backups_max (sorted_backups t.backups m)
      (sorted_backups-IsSorted t.backups m)

pub length-apply_add_backup :
    (t : ClusterTopology) (m : BackupManifest)
    → length (apply_add_backup t m).backups ≡ min backups_max (length t.backups + 1)
unfolding apply_add_backup sorted_backups
length-apply_add_backup t m = omega (
  arith,
  length-take backups_max (sorted_backups t.backups m),
  length-sort_by newest_first (t.backups ++ m ∷ []),
  length-append t.backups (m ∷ []),
)

kept_from :
    (t : ClusterTopology) (m b : BackupManifest)
    → In b (apply_add_backup t m).backups
    → In b t.backups ⊎ (b ≡ m)
unfolding apply_add_backup
kept_from t m b i =
    let all = t.backups ++ m ∷ [] in
    let there =
      In-sort_by newest_first b all (In-take backups_max b (sort_by newest_first all) i) in
    elim (In-append b t.backups (m ∷ []) there) [
      | inl o ↦ inl o
      | inr (inl e) ↦ inr (sym e)
      | inr (inr n) ↦ absurd n
    ]

old_or_new-In :
    (t : ClusterTopology) (m b : BackupManifest)
    → In b t.backups ⊎ (b ≡ m)
    → In b (sorted_backups t.backups m)
unfolding sorted_backups
old_or_new-In t m b (inl o) =
    sort_by-In newest_first b (t.backups ++ m ∷ []) (append-In b t.backups (m ∷ []) (inl o))
old_or_new-In t m b (inr e) =
    sort_by-In newest_first b (t.backups ++ m ∷ [])
      (append-In b t.backups (m ∷ []) (inr (inl (sym e))))

kept_or_old :
    (t : ClusterTopology) (m b : BackupManifest)
    → In b t.backups ⊎ (b ≡ m)
    → In b (apply_add_backup t m).backups
      ⊎ ((k : BackupManifest)
          → In k (apply_add_backup t m).backups
          → b.completed_at ≤ k.completed_at)
unfolding apply_add_backup sorted_backups
kept_or_old t m b i =
    let all = sorted_backups t.backups m in
    elim (In-split backups_max b all (old_or_new-In t m b i)) [
      | inl kept ↦ inl kept
      | inr gone ↦ inr λ k kept. leb→le b.completed_at k.completed_at (
          take-le-drop newest_first backups_max k b all (sorted_backups-IsSorted t.backups m) kept
            gone)
    ]

-- Adding a manifest leaves the manifests sorted newest first, all of them if there are at most
-- 1000; each of them was there or is the new one; and each that was there or is the new one is
-- kept, unless all that are kept completed no earlier.
pub add_backup_keeps_newest :
    (now : ℕ) (t : ClusterTopology) (m : BackupManifest)
    → let kept = (apply_command now t (add_backup_manifest m)).backups in
      IsSorted newest_first kept
      × (length kept ≡ min backups_max (length t.backups + 1))
      × ((b : BackupManifest) → In b kept → In b t.backups ⊎ (b ≡ m))
      × ((b : BackupManifest)
          → In b t.backups ⊎ (b ≡ m)
          → In b kept ⊎ ((k : BackupManifest) → In k kept → b.completed_at ≤ k.completed_at))
unfolding apply_command
add_backup_keeps_newest now t m =
    (apply_add_backup-IsSorted t m, length-apply_add_backup t m, kept_from t m, kept_or_old t m)
