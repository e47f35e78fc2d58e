-- ===== src/Backup.antt =====
-- The node that a backup is taken from: pgcluster/src/backup/mod.rs, `select_source`.
use pgcluster.Prelude.{
  ℕ, ◌-◌, ◌^◌, ◌≤◌, String, ◌≡◌, refl, sym, ap, subst, ◌∙◌, ◌⊎◌, inl, inr, Bool, true, false, not,
  ◌&&◌, Option, none, some, List, [], map, arith, leb, if◌then◌else◌, leb→le, Option-cases,
  unwrap_or, filter, All, In, All-In, All-of-In, In-filter, min_by, min_by-IsMin, min_by-In,
  min_by-none, In-map,
}
use pgcluster.Dict.{get}
use pgcluster.Raft.Topology.{ClusterTopology, NodeConfig, NodeRole, replica, role_eq, is_external}

-- A replica that is configured and not external.
unfoldable pub may_be_source : ClusterTopology → String × NodeRole → Bool
unfolding is_external
may_be_source t (id, role) =
    role_eq role replica
    && (elim (get t.node_configs id) [ none ↦ false | some cfg ↦ not (is_external cfg) ])

abbrev pub lag_of : ClusterTopology → String → ℕ
lag_of t id = unwrap_or (get t.replica_lag_bytes id) (2 ^ 64 - 1)

abbrev pub less_lag : String × ℕ → String × ℕ → Bool
less_lag a b = leb a.1 b.1

-- The replicas with their lags.
unfoldable pub sources : ClusterTopology → List (String × ℕ)
sources t = map (λ e. (e.0, lag_of t e.0)) (filter (may_be_source t) t.node_roles)

unfoldable pub primary_source : ClusterTopology → Option (String × String)
primary_source t = elim (get t.node_configs t.primary_node_id) [
  | none ↦ none
  | some cfg ↦ some (t.primary_node_id, cfg.agent_addr)
]

-- The replica of the least lag, unless its node is not configured.
unfoldable pub replica_source : ClusterTopology → Option (String × ℕ) → Option (String × String)
unfolding primary_source
replica_source t none = primary_source t
replica_source t (some (id, lag)) = elim (get t.node_configs id) [
  | none ↦ primary_source t
  | some cfg ↦ some (id, cfg.agent_addr)
]

unfoldable pub select_source : ClusterTopology → Bool → Option (String × String)
unfolding sources primary_source replica_source
select_source t prefer_replica =
    if prefer_replica then replica_source t (min_by less_lag (sources t)) else primary_source t

-- A replica of the least lag, where replicas are preferred and there is one; else the primary.
abbrev pub IsSource : ClusterTopology → Bool → String → Type 0
IsSource t prefer id =
    ((prefer ≡ true)
      × ((role : NodeRole) × In (id, role) t.node_roles × (may_be_source t (id, role) ≡ true))
      × All (λ e. lag_of t id ≤ e.1) (sources t))
    ⊎ ((id ≡ t.primary_node_id) × ((prefer ≡ false) ⊎ (sources t ≡ [])))

min_source :
    (t : ClusterTopology) (id : String) (lag : ℕ)
    → min_by less_lag (sources t) ≡ some (id, lag)
    → ((role : NodeRole) × In (id, role) t.node_roles × (may_be_source t (id, role) ≡ true))
      × All (λ e. lag_of t id ≤ e.1) (sources t)
unfolding sources
min_source t id lag h =
    let place = min_by-In less_lag (sources t) (id, lag) h in
    let ((at, role), i, e) =
      In-map (λ e. (e.0, lag_of t e.0)) (id, lag) (filter (may_be_source t) t.node_roles) place in
    let (j, ok) = In-filter (may_be_source t) (at, role) t.node_roles i in
    let same : lag_of t id ≡ lag = ap (lag_of t) (sym (ap (λ p. p.0) e)) ∙ ap (λ p. p.1) e in
    let least =
      min_by-IsMin less_lag (λ x y f. ground (arith, f)) (λ x y z f g. ground (arith, f, g))
        (λ x. ground arith) (sources t) (id, lag) h in
    (
      subst (λ x. (r : NodeRole) × In (x, r) t.node_roles × (may_be_source t (x, r) ≡ true))
          (ap (λ p. p.0) e) (role, j, ok),
      All-of-In (λ p. lag_of t id ≤ p.1) (sources t)
          (λ p k.
            let le = leb→le lag p.1 (All-In (λ y. leb lag y.1 ≡ true) p (sources t) least k) in
            omega (arith, same, le)),
    )

-- The agent of the node has this address.
abbrev pub Configured : ClusterTopology → String → String → Type 0
Configured t id addr =
    (cfg : NodeConfig) × (get t.node_configs id ≡ some cfg) × (cfg.agent_addr ≡ addr)

primary_source-Configured :
    (t : ClusterTopology) (id addr : String)
    → primary_source t ≡ some (id, addr)
    → (id ≡ t.primary_node_id) × Configured t id addr
unfolding primary_source
primary_source-Configured t id addr h = elim (Option-cases (get t.node_configs t.primary_node_id)) [
  | inl e ↦ absurd (ground arith)
  | inr (cfg, e) ↦
      let same : t.primary_node_id ≡ id = ground arith in
      (sym same, (cfg, ap (get t.node_configs) (sym same) ∙ e, ground arith))
]

-- A replica that may be the source is configured.
may_be_source-is_some :
    (t : ClusterTopology) (id : String) (role : NodeRole)
    → may_be_source t (id, role) ≡ true
    → (cfg : NodeConfig) × (get t.node_configs id ≡ some cfg)
unfolding may_be_source
may_be_source-is_some t id role h = elim (Option-cases (get t.node_configs id)) [
  | inl e ↦ absurd (ground arith)
  | inr found ↦ found
]

select_by_lag :
    (t : ClusterTopology) (best : Option (String × ℕ)) (id addr : String)
    → min_by less_lag (sources t) ≡ best
    → replica_source t best ≡ some (id, addr)
    → IsSource t true id × Configured t id addr
unfolding replica_source
select_by_lag t none id addr e h =
    let (p, c) = primary_source-Configured t id addr h in
    (inr (p, inr (min_by-none less_lag (sources t) e)), c)
select_by_lag t (some (at, lag)) id addr e h =
    let ((role, i, ok), least) = min_source t at lag e in
    let (cfg, found) = may_be_source-is_some t at role ok in
    let same : at ≡ id = ground (arith, found) in
    (
      inl (
        refl,
        subst (λ x. (r : NodeRole) × In (x, r) t.node_roles × (may_be_source t (x, r) ≡ true)) same
            (role, i, ok),
        subst (λ x. All (λ p. lag_of t x ≤ p.1) (sources t)) same least,
      ),
      (cfg, ap (get t.node_configs) (sym same) ∙ found, ground (arith, found)),
    )

-- If a backup has a source, then the source is configured with the address that is given. It is a
-- replica that is not external, replicas are preferred, and no such replica has a smaller recorded
-- lag, an unrecorded one being the greatest of 64 bits; or it is the primary, and replicas are not
-- preferred or there is none.
pub select_source-IsSource :
    (t : ClusterTopology) (prefer : Bool) (id addr : String)
    → select_source t prefer ≡ some (id, addr)
    → IsSource t prefer id × Configured t id addr
unfolding select_source
select_source-IsSource t true id addr h =
    select_by_lag t (min_by less_lag (sources t)) id addr refl h
select_source-IsSource t false id addr h =
    let (p, c) = primary_source-Configured t id addr h in (inr (p, inl refl), c)
