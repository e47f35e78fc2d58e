-- ===== src/Switchover/Rolling.antt =====
-- pgcluster/src/switchover/rolling.rs, `standbys_in_order`: the standbys that a rolling restart
-- goes through. `le` is the order of strings.
pub mod Restart
pub mod OneDown
pub mod Ends
use pgcluster.Prelude.{
  String, ◌≡◌, refl, sym, ap, subst, ◌⊎◌, inl, inr, Bool, true, false, not, ◌&&◌, Option, none,
  some, List, [], ◌∷◌, arith, str_eq, if◌then◌else◌, Bool-cases, Option-cases, In, is_empty,
  sort_by, In-sort_by, sort_by-In,
}
use pgcluster.Dict.{Dict, get}
use pgcluster.Raft.Topology.{ClusterTopology, NodeConfig, NodeRole, replica, role_eq, is_external}
use pgcluster.Failover.Candidate.Best.{role_eq→replica}

-- The nodes that the loop does not pass over.
abbrev pub is_follower : ClusterTopology → String × NodeConfig → Bool
is_follower t (id, cfg) = not (str_eq id t.primary_node_id) && not (is_external cfg)

-- One round of the loop, before the ids of the later rounds.
abbrev add_standby : Option NodeRole → String → Option (List String) → Option (List String)
add_standby none id ids = none
add_standby (some role) id none = none
add_standby (some role) id (some ids) = if role_eq role replica then some (id ∷ ids) else none

unfoldable pub collect_standbys : ClusterTopology → Dict NodeConfig → Option (List String)
collect_standbys t [] = some []
collect_standbys t ((id, cfg) ∷ cs) =
    let rest = collect_standbys t cs in
    if is_follower t (id, cfg) then add_standby (get t.node_roles id) id rest else rest

-- `none` is an error.
unfoldable pub standbys_in_order : (String → String → Bool) → ClusterTopology → Option (List String)
standbys_in_order le t =
    if is_empty t.primary_node_id
    then none
    else elim (collect_standbys t t.node_configs) [ none ↦ none | some ids ↦ some (sort_by le ids) ]

module _ (t : ClusterTopology) where
  add_standby_parts :
      (o : Option NodeRole) (id : String) (rest : Option (List String)) (ids : List String)
      → add_standby o id rest ≡ some ids
      → (o ≡ some replica) × (tail : List String) × (rest ≡ some tail) × (ids ≡ id ∷ tail)
  add_standby_parts none id rest ids h = absurd (ground arith)
  add_standby_parts (some role) id none ids h = absurd (ground arith)
  add_standby_parts (some role) id (some tail) ids h =
      (ground (arith, role_eq→replica role), tail, refl, ground arith)

  collect_standbys_all :
      (cs : Dict NodeConfig) (ids : List String)
      → collect_standbys t cs ≡ some ids
      → (id : String) (cfg : NodeConfig) → In (id, cfg) cs
      → is_follower t (id, cfg) ≡ true
      → (get t.node_roles id ≡ some replica) × In id ids
  unfolding collect_standbys
  collect_standbys_all [] ids h id cfg i follows = absurd i
  collect_standbys_all ((at, c) ∷ cs) ids h id cfg i follows =
      elim (Bool-cases (is_follower t (at, c))) [
        | inl yes_it ↦
            let (role, tail, rest, same) =
              add_standby_parts (get t.node_roles at) at (collect_standbys t cs) ids
                (ground arith) in
            (elim i [
              | inl e ↦ (
                subst (λ x. get t.node_roles x ≡ some replica) (ap (λ x. x.0) e) role,
                rw same (inl (ap (λ x. x.0) e)),
              )
              | inr j ↦
                  let (good, m) = collect_standbys_all cs tail rest id cfg j follows in
                  (good, rw same (inr m))
            ])
        | inr not_it ↦ (elim i [
          | inl e ↦ absurd (passed_over (ap (is_follower t) e) not_it follows)
          | inr j ↦ collect_standbys_all cs ids (ground arith) id cfg j follows
        ])
      ]
    where
      passed_over : {a b : Bool} → a ≡ b → a ≡ false → b ≡ true → ⊥
      passed_over e f g = cc

  collect_standbys_only :
      (cs : Dict NodeConfig) (ids : List String)
      → collect_standbys t cs ≡ some ids
      → (id : String) → In id ids
      → (cfg : NodeConfig) × In (id, cfg) cs × (is_follower t (id, cfg) ≡ true)
  unfolding collect_standbys
  collect_standbys_only [] ids h id i = absurd (no_ids ids (ground arith) i)
    where
      no_ids : (xs : List String) → xs ≡ [] → In id xs → ⊥
      no_ids [] e i = i
      no_ids (x ∷ xs) e i = cc
  collect_standbys_only ((at, c) ∷ cs) ids h id i = elim (Bool-cases (is_follower t (at, c))) [
    | inl yes_it ↦
        let (role, tail, rest, same) =
          add_standby_parts (get t.node_roles at) at (collect_standbys t cs) ids (ground arith) in
        let j : (at ≡ id) ⊎ In id tail = subst (λ xs. In id xs) same i in
        (elim j [
          | inl e ↦ (c, inl (ap (λ x. (x, c)) e), subst (λ x. is_follower t (x, c) ≡ true) e yes_it)
          | inr k ↦
              let (cfg, m, follows) = collect_standbys_only cs tail rest id k in
              (cfg, inr m, follows)
        ])
    | inr not_it ↦
        let (cfg, m, follows) = collect_standbys_only cs ids (ground arith) id i in
        (cfg, inr m, follows)
  ]

-- If a rolling restart gets its list of standbys, then the cluster has a primary, every configured
-- node that is neither the primary nor external is a replica and is in the list, and every id of
-- the list is such a node, whatever the order of strings.
pub standbys_in_order_healthy :
    (le : String → String → Bool) (t : ClusterTopology) (ids : List String)
    → standbys_in_order le t ≡ some ids
    → (is_empty t.primary_node_id ≡ false)
      × ((id : String) (cfg : NodeConfig)
          → In (id, cfg) t.node_configs
          → is_follower t (id, cfg) ≡ true
          → (get t.node_roles id ≡ some replica) × In id ids)
      × ((id : String)
          → In id ids
          → (cfg : NodeConfig) × In (id, cfg) t.node_configs × (is_follower t (id, cfg) ≡ true))
unfolding standbys_in_order
standbys_in_order_healthy le t ids h = elim (Option-cases (collect_standbys t t.node_configs)) [
  | inl e ↦ absurd (ground arith)
  | inr (found, e) ↦
      let same : sort_by le found ≡ ids = ground arith in
      (
        ground arith,
        λ id cfg i follows.
            let (role, m) = collect_standbys_all t t.node_configs found e id cfg i follows in
            (role, subst (λ xs. In id xs) same (sort_by-In le id found m)),
        λ id i.
            collect_standbys_only t t.node_configs found e id
              (In-sort_by le id found (subst (λ xs. In id xs) (sym same) i)),
      )
]
