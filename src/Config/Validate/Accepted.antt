-- ===== src/Config/Validate/Accepted.antt =====
-- What an accepted configuration has, by pgcluster/src/config/validate.rs: the ids are consistent.
use pgcluster.Prelude.{
  ℕ, ◌≤◌, String, ◌≡◌, refl, sym, subst, inl, inr, Bool, true, false, not, none, some, List, [],
  ◌∷◌, map, arith, str_eq, eq_iff, ◌==◌, if◌then◌else◌, Bool-cases, length, any, In, is_empty,
  Distinct, length-map,
}
use pgcluster.Config.{PgClusterConfig, RaftPeer, NodeEntry}
use pgcluster.Config.Validate.{
  ConfigError, Checked, ◌then◌, refuse, Parsers, validate_cluster, validate_raft, validate_nodes,
  check_nodes, validate_addresses, validate_replication, validate_timing, validate, id_set, has_id,
  is_nil,
}

pub then-none : (a b : Checked) → (a then b) ≡ none → (a ≡ none) × (b ≡ none)
then-none none b h = (refl, h)
then-none (some e) b h = absurd (ground arith)

pub refuse-none : (b : Bool) (e : ConfigError) → refuse b e ≡ none → b ≡ false
refuse-none true e h = absurd (ground arith)
refuse-none false e h = refl

-- The parts of the check all pass.
pub validate-parts :
    (ps : Parsers) (cfg : PgClusterConfig)
    → validate ps cfg ≡ none
    → (validate_raft cfg ≡ none) × (validate_nodes cfg ≡ none) × (validate_timing ps cfg ≡ none)
unfolding validate
validate-parts ps cfg h =
    let one = then-none (validate_cluster cfg) _ h in
    let two = then-none (validate_raft cfg) _ one.1 in
    let three = then-none (validate_nodes cfg) _ two.1 in
    let four = then-none (validate_addresses ps cfg) _ three.1 in
    let five = then-none (validate_replication cfg) _ four.1 in
    let six = then-none (validate_timing ps cfg) _ five.1 in (two.0, three.0, six.0)

has_id-In : (n : ℕ) (ids : List ℕ) → has_id n ids ≡ true → In n ids
has_id-In n [] h = absurd (ground arith)
has_id-In n (m ∷ ids) h = elim (Bool-cases (m == n)) [
  | inl e ↦ inl (ground arith)
  | inr e ↦ inr (has_id-In n ids (ground arith))
]

In-has_id : (n : ℕ) (ids : List ℕ) → In n ids → has_id n ids ≡ true
In-has_id n [] i = absurd i
In-has_id n (m ∷ ids) (inl e) = ground arith
In-has_id n (m ∷ ids) (inr i) = ground (arith, In-has_id n ids i)

In-id_set : (n : ℕ) (ids : List ℕ) → In n (id_set ids) → In n ids
In-id_set n [] i = i
In-id_set n (m ∷ ids) i = let rest = In-id_set n ids in ground (arith, rest)

length-id_set : (ids : List ℕ) → length (id_set ids) ≤ length ids
length-id_set [] = omega arith
length-id_set (n ∷ ids) = ground (arith, length-id_set ids)

-- A set of the ids that is as large as their list has each of them once.
id_set-Distinct : (ids : List ℕ) → length (id_set ids) ≡ length ids → Distinct ids
id_set-Distinct [] h = tt
id_set-Distinct (n ∷ ids) h = elim (Bool-cases (has_id n ids)) [
  | inl e ↦ absurd (ground (arith, length-id_set ids))
  | inr e ↦ (λ i. absurd (ground (arith, In-has_id n ids i)), id_set-Distinct ids (ground arith))
]

pub validate_raft-ids :
    (cfg : PgClusterConfig)
    → validate_raft cfg ≡ none
    → In cfg.raft.node_id (map (λ (p : RaftPeer). p.id) cfg.raft.peers)
      × Distinct (map (λ (p : RaftPeer). p.id) cfg.raft.peers)
unfolding validate_raft
validate_raft-ids cfg h =
    let ids = map (λ (p : RaftPeer). p.id) cfg.raft.peers in
    let one = then-none (refuse (is_nil cfg.raft.peers) _) _ h in
    let two = then-none (refuse (not (has_id cfg.raft.node_id (id_set ids))) _) _ one.1 in
    let three = then-none (refuse (not (length (id_set ids) == length cfg.raft.peers)) _) _ two.1 in
    let member = refuse-none _ _ two.0 in
    let sizes = refuse-none _ _ three.0 in
    let same = length-map (λ (p : RaftPeer). p.id) cfg.raft.peers in
    (
      In-id_set cfg.raft.node_id ids (has_id-In cfg.raft.node_id (id_set ids) (ground arith)),
      id_set-Distinct ids (ground arith),
    )

any-In : (a : String) (seen : List String) → In a seen → any (λ s. str_eq s a) seen ≡ true
any-In a [] i = absurd i
any-In a (s ∷ seen) (inl e) = ground (arith, eq_iff s a)
any-In a (s ∷ seen) (inr i) = ground (arith, any-In a seen i)

check_nodes-ids :
    (seen : List String) (ns : List NodeEntry)
    → check_nodes seen ns ≡ none
    → ((a : String) → In a seen → In a (map (λ (n : NodeEntry). n.id) ns) → ⊥)
      × Distinct (map (λ (n : NodeEntry). n.id) ns)
unfolding check_nodes
check_nodes-ids seen [] h = (λ a i j. j, tt)
check_nodes-ids seen (n ∷ ns) h =
    let one = then-none (refuse (is_empty n.id) _) _ h in
    let two = then-none (refuse (any (λ s. str_eq s n.id) seen) _) _ one.1 in
    let fresh = refuse-none _ _ two.0 in
    let (apart, distinct) = check_nodes-ids (n.id ∷ seen) ns two.1 in
    (
      λ a i j. elim j [
        | inl e ↦ absurd (ground (arith, any-In n.id seen (subst (λ x. In x seen) (sym e) i)))
        | inr k ↦ apart a (inr i) k
      ],
      (λ j. apart n.id (inl refl) j, distinct),
    )

-- If a configuration is accepted, then the instance's id is one of its peers', no two peers have
-- one id, and no two nodes have one id.
pub validate-Distinct :
    (ps : Parsers) (cfg : PgClusterConfig)
    → validate ps cfg ≡ none
    → In cfg.raft.node_id (map (λ (p : RaftPeer). p.id) cfg.raft.peers)
      × Distinct (map (λ (p : RaftPeer). p.id) cfg.raft.peers)
      × Distinct (map (λ (n : NodeEntry). n.id) cfg.nodes)
unfolding validate_nodes
validate-Distinct ps cfg h =
    let (raft, nodes, timing) = validate-parts ps cfg h in
    let (member, peers) = validate_raft-ids cfg raft in
    (member, peers, (check_nodes-ids [] cfg.nodes nodes).1)
