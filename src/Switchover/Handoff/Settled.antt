-- ===== src/Switchover/Handoff/Settled.antt =====
-- The wait before the promotion: the target's position stood still.
use pgcluster.Prelude.{
  ℕ, zero, suc, String, ◌≡◌, refl, sym, subst, inl, inr, Bool, true, Option, none, some, List, [],
  ◌∷◌, arith, str_eq, eq_iff, ◌==◌, if◌then◌else◌, Bool-cases, Option-cases, filter_map,
}
use pgcluster.Failover.Candidate.{NodeStatus}
use pgcluster.Switchover.Handoff.{
  settle, wait_for_position_to_settle, next_steady, steady_reads, max_reads,
}
use pgcluster.Agents.{Call, status_read, connected, Log, World}

abbrev pub read_of : String → Call → Option ℕ
read_of id (status_read x (some s)) = if str_eq x id then some s.received_lsn else none
read_of id c = none

-- The positions that a node reported, the newest first.
abbrev pub reads : String → Log → List ℕ
reads id log = filter_map (read_of id) log

-- The first `n` are there, and all `p`.
abbrev pub StartsWith : ℕ → ℕ → List ℕ → Type 0
StartsWith zero p xs = Unit
StartsWith (suc n) p [] = ⊥
StartsWith (suc n) p (x ∷ xs) = (x ≡ p) × StartsWith n p xs

abbrev SeenLast : Option ℕ → ℕ → List ℕ → Type 0
SeenLast none steady xs = steady ≡ 0
SeenLast (some p) steady xs = StartsWith (suc steady) p xs

reads-newest :
    (s : NodeStatus) (log : Log) (id : String) (ok : Bool)
    → reads id (status_read id (some s) ∷ connected id ok ∷ log) ≡ s.received_lsn ∷ reads id log
reads-newest s log id ok = rw ((eq_iff id id).1 refl) refl

one_more :
    (s : NodeStatus) (log : Log) (id : String) (ok : Bool) (last : Option ℕ) (steady : ℕ)
    → SeenLast last steady (reads id log)
    → StartsWith
        (suc (next_steady last s.received_lsn steady))
        s.received_lsn
        (reads id (status_read id (some s) ∷ connected id ok ∷ log))
one_more s log id ok none steady inv =
    subst (StartsWith 1 s.received_lsn) (sym (reads-newest s log id ok)) (refl, tt)
one_more s log id ok (some p) steady inv =
    subst (StartsWith (suc (next_steady (some p) s.received_lsn steady)) s.received_lsn)
      (sym (reads-newest s log id ok)) (refl, tail)
  where
    tail : StartsWith (next_steady (some p) s.received_lsn steady) s.received_lsn (reads id log)
    tail = elim (Bool-cases (p == s.received_lsn)) [
      | inl same ↦
          let is : p ≡ s.received_lsn = ground arith in
          let n : suc steady ≡ next_steady (some p) s.received_lsn steady = ground arith in
          subst (λ k. StartsWith k s.received_lsn (reads id log)) n
            (subst (λ q. StartsWith (suc steady) q (reads id log)) is inv)
      | inr other ↦
          let n : 0 ≡ next_steady (some p) s.received_lsn steady = ground arith in
          subst (λ k. StartsWith k s.received_lsn (reads id log)) n tt
    ]

settle-steady :
    (w : World) (n : ℕ) (log : Log) (id addr : String) (last : Option ℕ) (steady : ℕ)
    → SeenLast last steady (reads id log)
    → (settle w n log id addr last steady).1 ≡ true
    → (p : ℕ) × StartsWith (suc steady_reads) p (reads id (settle w n log id addr last steady).0)
unfolding settle
settle-steady w zero log id addr last steady inv h = absurd (ground arith)
settle-steady w (suc n) log id addr last steady inv h =
    elim (Option-cases (w.statuses (connected id (w.connects log id addr) ∷ log) id)) [
      | inl e ↦ absurd (ground arith)
      | inr (s, e) ↦
          let p = s.received_lsn in
          let log2 = status_read id (some s) ∷ connected id (w.connects log id addr) ∷ log in
          let count = next_steady last p steady in
          let held = one_more s log id (w.connects log id addr) last steady inv in
          elim (Bool-cases (count == steady_reads)) [
            | inl done ↦ (p, ground (arith, held))
            | inr more ↦
                let (q, r) = settle-steady w n log2 id addr (some p) count held (ground arith) in
                (q, ground (arith, r))
          ]
    ]

-- If the wait for the position of the target succeeds, then the last four positions that the target
-- reported are the same.
pub wait_for_position_to_settle-steady :
    (w : World) (log : Log) (id addr : String)
    → (wait_for_position_to_settle w log id addr).1 ≡ true
    → (p : ℕ) × StartsWith 4 p (reads id (wait_for_position_to_settle w log id addr).0)
unfolding wait_for_position_to_settle
wait_for_position_to_settle-steady w log id addr h =
    settle-steady w max_reads log id addr none 0 refl h
