-- ===== src/Raft/Storage/History.antt =====
-- Sequences of the calls with which openraft changes the store of pgcluster/src/raft/storage.rs.
use pgcluster.Prelude.{◌≡◌, refl, List, [], ◌∷◌, arith, All}
use pgcluster.Raft.Storage.Database.{Sled, IsSled, IsHealthy}
use pgcluster.Raft.Storage.{Codec, Store, StorageOp, done, Io, pure, ◌>>=◌, run_op}
use pgcluster.Raft.Storage.View.{IsCodec, IsTotal, LogView, spec_op, Fits, Implements}
use pgcluster.Raft.Storage.Refines.{Refines, run_op-Refines}

module _ (S : Sled) (C : Codec) where
  unfoldable pub run_ops : List (StorageOp S C) → Io S C (Unit {0})
  run_ops [] = pure S C tt
  run_ops (op ∷ ops) = ◌>>=◌ S C (run_op S C op) (λ _. run_ops ops)

  unfoldable pub spec_ops : List (StorageOp S C) → LogView S C → LogView S C
  spec_ops [] a = a
  spec_ops (op ∷ ops) a = spec_ops ops (spec_op S C op a)

module _ (S : Sled) (C : Codec) (D : IsSled S) (H : IsHealthy S) (T : IsCodec C)
    (E : IsTotal C) where
  -- The store implements a map from indices to entries, with the last purged id and the vote. If no
  -- call on the database fails, every value can be encoded and is decoded to itself, the indices
  -- are of 64 bits, and a store holds what a view says, then any sequence of appends, truncations,
  -- purges and votes succeeds, and the store holds what the same sequence makes of the view: an
  -- append puts each entry at its index, a truncation clears the indices from its own on, and a
  -- purge clears those up to its own and records its id.
  pub run_ops-Refines :
      (ops : List (StorageOp S C)) (s : Store S C) (a : LogView S C)
      → All (Fits S C) ops
      → Implements S C s a
      → (s' : Store S C) × (run_ops S C ops s ≡ (done tt, s'))
        × Implements S C s' (spec_ops S C ops a)
  unfolding run_ops spec_ops Refines
  run_ops-Refines [] s a fits I = (s, refl, I)
  run_ops-Refines (op ∷ ops) s a fits I =
      let (t, run, J) = run_op-Refines S C D H T E op s a fits.0 I in
      let (u, runs, K) = run_ops-Refines ops t (spec_op S C op a) fits.1 J in
      (u, ground (arith, run, runs), K)
