-- ===== src/Failover/Candidate/Strict.antt =====
-- What `sync_strict` adds: no promotion before every standby has answered.
use pgcluster.Prelude.{
  ℕ, ◌≤◌, String, ◌≡◌, refl, subst, ◌≢◌, inl, inr, false, Option, none, some, List, [], ◌∷◌, map,
  arith, str_eq, eq_iff, length, filter, In, In-filter-of, Distinct, pigeonhole, In-map, map-In,
  length-map,
}
use pgcluster.Dict.{Dict, get, IsMap, In-get}
use pgcluster.Raft.Topology.{ClusterTopology, NodeConfig, NodeRole, sync_strict, is_external}
use pgcluster.Failover.Candidate.{
  Replies, Position, check_standby, collect, Arrival, live_positions, is_standby,
  pick_live_candidate, keep_some,
}
use pgcluster.Failover.Candidate.Best.{Eligible, live_positions_iff, In-keep_some}

abbrev id_of : Position → String
id_of p = p.0

position_id :
    (t : ClusterTopology) (failed : String) (reply : Replies) (id : String) (role : NodeRole)
    (p : Position)
    → check_standby t failed reply id role ≡ some p
    → p.0 ≡ id
unfolding check_standby
position_id t failed reply id role p h = ground arith

found_at_head :
    (id : String) (role : NodeRole) (rs : Dict NodeRole) (key : String)
    → key ≡ id
    → get ((id, role) ∷ rs) key ≢ none
found_at_head id role rs key e h = ground (arith, eq_iff key id, eq_iff id key)

found_below :
    (id : String) (role : NodeRole) (rs : Dict NodeRole) (key : String)
    → get rs key ≢ none
    → get ((id, role) ∷ rs) key ≢ none
found_below id role rs key e h = ground arith

collect_has_role :
    (t : ClusterTopology) (failed : String) (reply : Replies) (rs : Dict NodeRole) (p : Position)
    → In p (collect t failed reply rs)
    → get rs p.0 ≢ none
unfolding collect
collect_has_role t failed reply [] p i = absurd i
collect_has_role t failed reply ((id, role) ∷ rs) p i =
    elim (In-keep_some (check_standby t failed reply id role) p (collect t failed reply rs) i) [
      | inl e ↦ found_at_head id role rs p.0 (position_id t failed reply id role p e)
      | inr r ↦ found_below id role rs p.0 (collect_has_role t failed reply rs p r)
    ]

keep_some-Distinct :
    (o : Option Position) (ps : List Position)
    → ((p : Position) → o ≡ some p → In p.0 (map id_of ps) → ⊥)
    → Distinct (map id_of ps)
    → Distinct (map id_of (keep_some o ps))
keep_some-Distinct none ps new d = d
keep_some-Distinct (some p) ps new d = (new p refl, d)

collect-Distinct :
    (t : ClusterTopology) (failed : String) (reply : Replies) (rs : Dict NodeRole)
    → IsMap rs
    → Distinct (map id_of (collect t failed reply rs))
unfolding collect
collect-Distinct t failed reply [] h = tt
collect-Distinct t failed reply ((id, role) ∷ rs) h =
    keep_some-Distinct (check_standby t failed reply id role) (collect t failed reply rs)
      (λ p e i.
        let (q, j, same) = In-map id_of p.0 (collect t failed reply rs) i in
        let none_there : get rs q.0 ≡ none =
          rw (same, position_id t failed reply id role p e) h.0 in
        collect_has_role t failed reply rs q j none_there)
      (collect-Distinct t failed reply rs h.1)

standby_ids : ClusterTopology → String → List String
standby_ids t failed = map (λ e. e.0) (filter (is_standby failed) t.node_configs)

Eligible-is_standby :
    (t : ClusterTopology) (failed : String) (reply : Replies) (p : Position)
    → Eligible t failed reply p
    → In p.0 (standby_ids t failed)
unfolding standby_ids
Eligible-is_standby t failed reply p e =
    map-In (λ x. x.0) (p.0, e.config) (filter (is_standby failed) t.node_configs)
      (In-filter-of (is_standby failed) (p.0, e.config) t.node_configs
        (In-get t.node_configs p.0 e.config e.configured) (ground (arith, e.other, e.inside)))

enough_answers :
    (a : Arrival) (t : ClusterTopology) (failed : String) (reply : Replies) (best : Position)
    → t.replication_mode ≡ sync_strict
    → pick_live_candidate a t failed reply ≡ some best
    → length (filter (is_standby failed) t.node_configs) ≤ length (live_positions a t failed reply)
unfolding pick_live_candidate
enough_answers a t failed reply best mode h = ground arith

-- If the replication mode is `sync_strict`, no node has two roles recorded, and a candidate is
-- chosen, then every configured node that is neither the failed one nor external is a replica whose
-- agent answered that it runs and is in recovery.
pub strict_waits_for_all :
    (a : Arrival) (t : ClusterTopology) (failed : String) (reply : Replies) (best : Position)
    → IsMap t.node_roles
    → t.replication_mode ≡ sync_strict
    → pick_live_candidate a t failed reply ≡ some best
    → (id : String) (cfg : NodeConfig) → In (id, cfg) t.node_configs
    → str_eq id failed ≡ false
    → is_external cfg ≡ false
    → (lsn : ℕ) × Eligible t failed reply (id, lsn)
unfolding live_positions standby_ids
strict_waits_for_all a t failed reply best keyed mode h id cfg known other inside =
    let in_ids : In id (standby_ids t failed) =
      map-In (λ x. x.0) (id, cfg) (filter (is_standby failed) t.node_configs)
        (In-filter-of (is_standby failed) (id, cfg) t.node_configs known (ground arith)) in
    let answered = collect t failed reply t.node_roles in
    let all_in : In id (map id_of answered) =
      pigeonhole (map id_of answered) (standby_ids t failed)
        (collect-Distinct t failed reply t.node_roles keyed)
        (λ x i.
          let (q, j, same) = In-map id_of x answered i in
          subst (λ y. In y (standby_ids t failed)) same
            (Eligible-is_standby t failed reply q (collected q j)))
        (omega (
          arith,
          enough_answers a t failed reply best mode h,
          a.same_length answered,
          length-map id_of answered,
          length-map (λ e. e.0) (filter (is_standby failed) t.node_configs),
        ))
        id in_ids in
    let (q, j, same) = In-map id_of id answered all_in in
    (q.1, subst (λ y. Eligible t failed reply (y, q.1)) same (collected q j))
  where
    collected :
        (q : Position) → In q (collect t failed reply t.node_roles) → Eligible t failed reply q
    collected q j =
        (live_positions_iff a t failed reply q).0
          (a.arrives q (collect t failed reply t.node_roles) j)
