-- ===== src/Raft/Apply/History.antt =====
-- `record_failover` of pgcluster/src/raft/topology.rs against the sliding window that it keeps.
use pgcluster.Prelude.{
  ℕ, suc, ◌+◌, ◌-◌, ◌≤◌, min, ◌≡◌, refl, inl, inr, List, [], ◌∷◌, ◌++◌, arith, ltb, Bool-cases,
  length, take, drop, length-append, length-drop, take-append-drop,
}
use pgcluster.Raft.Topology.{
  ClusterTopology, FailoverEvent, failover_history_max, trim_history, record_failover,
}

trim_history-eq-drop :
    (es : List FailoverEvent) → trim_history es ≡ drop (length es - failover_history_max) es
unfolding trim_history
trim_history-eq-drop [] = refl
trim_history-eq-drop (e ∷ es) = elim (Bool-cases (ltb failover_history_max (length (e ∷ es)))) [
  | inl more ↦ rw more (rw (sub_suc (length es) (ground arith)) (trim_history-eq-drop es))
  | inr fits ↦ rw (fits, sub_none (length (e ∷ es)) (ground arith))
]
  where
    sub_suc :
        (n : ℕ)
        → failover_history_max ≤ n
        → suc n - failover_history_max ≡ suc (n - failover_history_max)
    sub_suc n h = omega arith

    sub_none : (n : ℕ) → n ≤ failover_history_max → n - failover_history_max ≡ 0
    sub_none n h = omega arith

-- Recording a failover keeps the newest events, the new one last: what is kept is the history with
-- the event at its end, less the oldest events, and its length is one more than before, or 100 at
-- most.
pub record_failover_window :
    (t : ClusterTopology) (e : FailoverEvent)
    → let all = t.failover_history ++ e ∷ [] in
      let kept = (record_failover t e).failover_history in
      (take (length all - failover_history_max) all ++ kept ≡ all)
      × (length kept ≡ min failover_history_max (length t.failover_history + 1))
unfolding record_failover
record_failover_window t e =
    let all = t.failover_history ++ e ∷ [] in
    let n = length all - failover_history_max in
    (
      rw (trim_history-eq-drop all) (take-append-drop n all),
      rw (trim_history-eq-drop all)
          (omega (arith, length-drop n all, length-append t.failover_history (e ∷ []))),
    )

pub length-record_failover :
    (t : ClusterTopology) (e : FailoverEvent)
    → length (record_failover t e).failover_history ≤ failover_history_max
length-record_failover t e = omega (arith, (record_failover_window t e).1)
