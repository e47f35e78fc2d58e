-- ===== src/Tests/Storage.antt =====
-- The theorems about the storage of the Raft log, on a log of two entries.
use pgcluster.Prelude.{
  ℕ, ◌^◌, ◌<◌, ◌≡◌, refl, sym, ap, subst, ◌∙◌, true, Option, none, some, List, [], ◌∷◌, arith, All,
  In, IsSorted,
}
use pgcluster.Raft.Storage.Keys.{idx_key}
use pgcluster.Raft.Storage.Database.{find, included, unbounded}
use pgcluster.Raft.Storage.{
  Store, StorageOp, append_to_log, delete_conflict_logs_since, purge_logs_upto, op_save_vote, done,
  run_op, append_entries, encode_batch, get_entries_range, get_log_state,
}
use pgcluster.Raft.Storage.View.{LogView, Implements, Fits, spec_op}
use pgcluster.Raft.Storage.Refines.{run_op-Refines, Refines}
use pgcluster.Raft.Storage.History.{run_ops, spec_ops, run_ops-Refines}
use pgcluster.Raft.Storage.Faults.{run_op-others, Touches}
use pgcluster.Raft.Storage.Reads.{get_entries_range-reads, in_bounds, index_lt}
use pgcluster.Raft.Storage.Last.{get_log_state-reads}
use pgcluster.Tests.Database.{
  listed, plain, listed-IsSled, listed-IsHealthy, plain-IsCodec, plain-IsTotal, put_all,
}

abbrev blank_store : Store listed plain
blank_store = record { logs = ([], tt); meta = ([], tt) }

abbrev blank_view : LogView listed plain
blank_view = record { entries = λ i. none; purged = none; vote = none }

blank-Implements : Implements listed plain blank_store blank_view
blank-Implements = record {
  held = λ i h. refl;
  keyed = λ k v h. absurd (ground arith);
  indexed = λ i e h. absurd (ground arith);
  purged_held = refl;
  vote_held = refl;
}

-- The entries at 1 and 2 are written, that at 2 is replaced, the vote saved, and 1 purged.
abbrev some_ops : List (StorageOp listed plain)
some_ops =
    append_to_log ((1, 10) ∷ (2, 20) ∷ [])
    ∷ delete_conflict_logs_since 2
    ∷ append_to_log ((2, 21) ∷ [])
    ∷ op_save_vote 5
    ∷ purge_logs_upto 1
    ∷ []

some_ops-Fits : All (Fits listed plain) some_ops
unfolding Fits
some_ops-Fits =
    ((omega arith, (omega arith, tt)), (omega arith, ((omega arith, tt), (tt, (omega arith, tt)))))

run_ops-Refines_example :
    (s' : Store listed plain) × (run_ops listed plain some_ops blank_store ≡ (done tt, s'))
    × Implements listed plain s' (spec_ops listed plain some_ops blank_view)
run_ops-Refines_example =
    run_ops-Refines listed plain listed-IsSled listed-IsHealthy plain-IsCodec plain-IsTotal some_ops
      blank_store blank_view some_ops-Fits blank-Implements

abbrev two_entries : StorageOp listed plain
two_entries = append_to_log ((1, 10) ∷ (2, 20) ∷ [])

abbrev two_store : Store listed plain
two_store = record {
  logs = put_all ([], tt) ((idx_key 1, 1 ∷ 10 ∷ []) ∷ (idx_key 2, 2 ∷ 20 ∷ []) ∷ []);
  meta = ([], tt);
}

abbrev two_view : LogView listed plain
two_view = spec_op listed plain two_entries blank_view

two_run : run_op listed plain two_entries blank_store ≡ (done tt, two_store)
unfolding run_op append_entries encode_batch
two_run = refl

two_Fits : Fits listed plain two_entries
unfolding Fits
two_Fits = (omega arith, (omega arith, tt))

two-Implements : Implements listed plain two_store two_view
unfolding Refines
two-Implements =
    let (s, run, I) =
      run_op-Refines listed plain listed-IsSled listed-IsHealthy plain-IsCodec plain-IsTotal
        two_entries blank_store blank_view two_Fits blank-Implements in
    subst (λ x. Implements listed plain x two_view) (ap (λ r. r.1) (sym run ∙ two_run)) I

get_entries_range-reads_example :
    (es : List (ℕ × ℕ)) × (get_entries_range listed plain (included 2) unbounded two_store
      ≡ (done es, two_store))
    × IsSorted (index_lt listed plain) es
    × ((e : ℕ × ℕ)
        → In e es
        → (two_view.entries e.0 ≡ some e) × (in_bounds (included 2) unbounded e.0 ≡ true))
    × ((i : ℕ) (e : ℕ × ℕ)
        → i < 2 ^ 64
        → two_view.entries i ≡ some e
        → in_bounds (included 2) unbounded i ≡ true
        → In e es)
get_entries_range-reads_example =
    get_entries_range-reads listed plain listed-IsSled two_store two_view two-Implements
      listed-IsHealthy (included 2) unbounded (omega arith) tt

get_log_state-reads_example :
    (last_log_id : Option ℕ) × (get_log_state listed plain two_store ≡ (
      done (record { last_purged_log_id = two_view.purged; last_log_id = last_log_id }),
      two_store,
    ))
    × (last_log_id ≡ none → (i : ℕ) → i < 2 ^ 64 → two_view.entries i ≡ none)
    × ((l : ℕ)
        → last_log_id ≡ some l
        → ((e : ℕ × ℕ) × (e.0 ≡ l) × (two_view.entries l ≡ some e))
          × ((i : ℕ) → i < 2 ^ 64 → l < i → two_view.entries i ≡ none))
get_log_state-reads_example =
    get_log_state-reads listed plain listed-IsSled two_store two_view two-Implements
      listed-IsHealthy

untouched : Touches listed plain (delete_conflict_logs_since 2) 1 → ⊥
unfolding Touches
untouched h = omega arith

cut_Fits : Fits listed plain (delete_conflict_logs_since 2)
unfolding Fits
cut_Fits = omega arith

run_op-others_example :
    find (idx_key 1) ((run_op listed plain (delete_conflict_logs_since 2) two_store).1.logs.0)
    ≡ find (idx_key 1) (two_store.logs.0)
run_op-others_example =
    run_op-others listed plain listed-IsSled (delete_conflict_logs_since 2) two_store 1 cut_Fits
      (omega arith) untouched
