-- ===== src/Proxy/Router/Reads.antt =====
-- Which backend a read is sent to.
use pgcluster.Prelude.{
  ℕ, ◌≤◌, String, ◌≡◌, refl, sym, ap, subst, ◌⊎◌, inl, inr, true, false, none, some, List, [], ◌∷◌,
  arith, leb→le, le→leb, Bool-cases, Option-cases, In, All-In, sort_by, sort_by-IsSorted,
  In-sort_by, sort_by-In, IsSorted, In-filter_map, filter_map-In,
}
use pgcluster.Dict.{get}
use pgcluster.Failover.Candidate.Best.{role_eq→replica}
use pgcluster.Raft.Topology.{ClusterTopology, NodeConfig, NodeRole, replica}
use pgcluster.Proxy.Router.{
  Router, ReadCandidate, lag_of, read_candidate, read_candidates, lag_le, first, best_replica_addr,
  fall_back, read_backend,
}

-- A replica that may serve reads.
pub record Readable (r : Router) (id : String) (cfg : NodeConfig) : Type 0 where
  pub is_replica : In (id, replica) r.topology.node_roles
  pub configured : get r.topology.node_configs id ≡ some cfg
  pub current : lag_of r.topology id ≤ r.max_replica_lag_bytes

read_candidate_sound :
    (t : ClusterTopology) (max_lag : ℕ) (id : String) (role : NodeRole) (c : ReadCandidate)
    → read_candidate t max_lag (id, role) ≡ some c
    → (role ≡ replica)
      × (c.0 ≡ id)
      × (get t.node_configs id ≡ some c.1)
      × (c.2 ≡ lag_of t id)
      × (lag_of t id ≤ max_lag)
unfolding read_candidate
read_candidate_sound t max_lag id role c h =
    ground (arith, role_eq→replica role, leb→le (lag_of t id) max_lag)

-- The candidates are the readable replicas, with their lags.
candidates-Readable :
    (r : Router) (c : ReadCandidate)
    → In c (read_candidates r.topology r.max_replica_lag_bytes)
    → Readable r c.0 c.1 × (c.2 ≡ lag_of r.topology c.0)
unfolding read_candidates
candidates-Readable r c i =
    let ((id, role), m, e) =
      In-filter_map (read_candidate r.topology r.max_replica_lag_bytes) c r.topology.node_roles i in
    let (is, same, found, lag, small) =
      read_candidate_sound r.topology r.max_replica_lag_bytes id role c e in
    (
      record {
        is_replica = subst (λ x. In (c.0, x) r.topology.node_roles) is (rw same m);
        configured = rw same found;
        current = rw same small;
      },
      rw same lag,
    )

read_candidate_complete :
    (t : ClusterTopology) (max_lag : ℕ) (id : String) (cfg : NodeConfig)
    → get t.node_configs id ≡ some cfg
    → lag_of t id ≤ max_lag
    → read_candidate t max_lag (id, replica) ≡ some (id, cfg, lag_of t id)
unfolding read_candidate
read_candidate_complete t max_lag id cfg found small = ground (arith, le→leb (lag_of t id) max_lag)

Readable-candidates :
    (r : Router) (id : String) (cfg : NodeConfig)
    → Readable r id cfg
    → In (id, cfg, lag_of r.topology id) (read_candidates r.topology r.max_replica_lag_bytes)
unfolding read_candidates
Readable-candidates r id cfg ok =
    filter_map-In (read_candidate r.topology r.max_replica_lag_bytes) (id, replica)
      (id, cfg, lag_of r.topology id) r.topology.node_roles ok.is_replica
      (read_candidate_complete r.topology r.max_replica_lag_bytes id cfg ok.configured ok.current)

first-IsSorted :
    (cs : List ReadCandidate) (b : String × String)
    → IsSorted lag_le cs
    → first cs ≡ some b
    → (c : ReadCandidate) × In c cs
      × ((c.0, c.1.postgres_addr) ≡ b)
      × ((d : ReadCandidate) → In d cs → c.2 ≤ d.2)
first-IsSorted [] b s h = absurd (ground arith)
first-IsSorted (c ∷ cs) b s h = (c, inl refl, ground arith, below)
  where
    below : (d : ReadCandidate) → In d (c ∷ cs) → c.2 ≤ d.2
    below d (inl e) = omega (arith, ap (λ x. x.2) e)
    below d (inr i) = leb→le c.2 d.2 (All-In (λ y. lag_le c y ≡ true) d cs s.0 i)

lag_total : (x y : ReadCandidate) → lag_le x y ≡ false → lag_le y x ≡ true
lag_total x y h = ground arith

lag_trans : (x y z : ReadCandidate) → lag_le x y ≡ true → lag_le y z ≡ true → lag_le x z ≡ true
lag_trans x y z h k = ground arith

-- The node that `best_replica_addr` returns, if it returns one, is a configured replica whose lag
-- is within the limit, with its own address, and no other such replica lags less.
pub best_replica_addr-least :
    (r : Router) (b : String × String)
    → best_replica_addr r ≡ some b
    → (cfg : NodeConfig) × Readable r b.0 cfg
      × (b.1 ≡ cfg.postgres_addr)
      × ((other : String) (c : NodeConfig)
          → Readable r other c
          → lag_of r.topology b.0 ≤ lag_of r.topology other)
unfolding best_replica_addr
best_replica_addr-least r b h =
    let found = read_candidates r.topology r.max_replica_lag_bytes in
    let (c, i, same, least) =
      first-IsSorted (sort_by lag_le found) b (sort_by-IsSorted lag_le lag_total lag_trans found)
        h in
    let (ok, lag) = candidates-Readable r c (In-sort_by lag_le c found i) in
    (
      c.1,
      subst (λ x. Readable r x c.1) (ap (λ x. x.0) same) ok,
      sym (ap (λ x. x.1) same),
      λ other d readable.
          let below =
            least (other, d, lag_of r.topology other)
              (sort_by-In lag_le (other, d, lag_of r.topology other) found
                (Readable-candidates r other d readable)) in
          subst (λ x. lag_of r.topology x ≤ lag_of r.topology other) (ap (λ x. x.0) same)
            (omega (arith, below, lag)),
    )

first-none : (cs : List ReadCandidate) (c : ReadCandidate) → first cs ≡ none → In c cs → ⊥
first-none [] c h i = absurd i
first-none (d ∷ cs) c h i = ground arith

no_replica-none :
    (r : Router) (id : String) (cfg : NodeConfig)
    → best_replica_addr r ≡ none
    → Readable r id cfg
    → ⊥
unfolding best_replica_addr
no_replica-none r id cfg h ok =
    let found = read_candidates r.topology r.max_replica_lag_bytes in
    first-none (sort_by lag_le found) (id, cfg, lag_of r.topology id) h
      (sort_by-In lag_le (id, cfg, lag_of r.topology id) found (Readable-candidates r id cfg ok))

-- The backend for a read, if there is one, is either, with reads from replicas enabled, the address
-- of a configured replica whose lag is within the limit, or the configured primary, and then reads
-- from replicas are not enabled or there is no such replica.
pub read_backend_cases :
    (r : Router) (b : String × String)
    → read_backend r ≡ some b
    → ((r.enabled ≡ true) × (cfg : NodeConfig) × Readable r b.0 cfg × (b.1 ≡ cfg.postgres_addr))
      ⊎ ((b.0 ≡ r.topology.primary_node_id)
          × (cfg : NodeConfig) × (get r.topology.node_configs b.0 ≡ some cfg)
          × (b.1 ≡ cfg.postgres_addr)
          × ((id : String) (c : NodeConfig) → r.enabled ≡ true → Readable r id c → ⊥))
unfolding read_backend fall_back
read_backend_cases r b h = elim (Option-cases (best_replica_addr r)) [
  | inl none_best ↦ inr (fell_back (ground arith) (λ id c on. no_replica-none r id c none_best))
  | inr (d, e) ↦ elim (Bool-cases r.enabled) [
    | inl on ↦
        let (cfg, ok, addr, least) = best_replica_addr-least r b (ground arith) in
        inl (on, cfg, ok, addr)
    | inr off ↦ inr (fell_back (ground arith) (λ id c on. absurd (ground arith)))
  ]
]
  where
    fell_back :
        fall_back r ≡ some b
        → ((id : String) (c : NodeConfig) → r.enabled ≡ true → Readable r id c → ⊥)
        → (b.0 ≡ r.topology.primary_node_id)
          × (cfg : NodeConfig) × (get r.topology.node_configs b.0 ≡ some cfg)
          × (b.1 ≡ cfg.postgres_addr)
          × ((id : String) (c : NodeConfig) → r.enabled ≡ true → Readable r id c → ⊥)
    fell_back e nobody =
        let (cfg, found, id, addr) = primary_config e in (id, cfg, rw id found, addr, nobody)
      where
        primary_config :
            fall_back r ≡ some b
            → (cfg : NodeConfig) × (get r.topology.node_configs r.topology.primary_node_id
                ≡ some cfg)
              × (b.0 ≡ r.topology.primary_node_id)
              × (b.1 ≡ cfg.postgres_addr)
        primary_config e = ground arith
