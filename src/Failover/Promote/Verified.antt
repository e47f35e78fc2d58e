-- ===== src/Failover/Promote/Verified.antt =====
-- What a promotion that succeeded has shown, and what repointing does for each node.
use pgcluster.Prelude.{
  ℕ, zero, suc, String, ◌≡◌, ap, subst, ◌⊎◌, inl, inr, true, some, List, [], ◌∷◌, arith,
  if◌then◌else◌, Bool-cases, Option-cases, is_some, In,
}
use pgcluster.Failover.Candidate.{NodeStatus}
use pgcluster.Failover.Promote.{
  promote_node, is_primary, evict_unless, verify_promotion, slot_name, repoint_replicas,
}
use pgcluster.Agents.{
  connected, evicted, promoted, status_read, demoted, Log, Extends, World, get_or_connect,
  get_status, demote,
}

-- A node was asked to become primary, said that it did, and then reported that it is one.
unfoldable pub BecamePrimary : String → Log → Type 0
BecamePrimary id log =
    In (promoted id (some true)) log
    × (s : NodeStatus) × In (status_read id (some s)) log
    × (is_primary s ≡ true)

pub promote_node-Extends :
    (w : World) (log : Log) (id addr : String) → Extends log (promote_node w log id addr).0
unfolding promote_node
promote_node-Extends w log id addr c i = ground arith

pub promote_node-promoted :
    (w : World) (log : Log) (id addr : String)
    → (promote_node w log id addr).1 ≡ true
    → In (promoted id (some true)) (promote_node w log id addr).0
unfolding promote_node
promote_node-promoted w log id addr h = ground arith

pub verify_promotion-Extends :
    (w : World) (n : ℕ) (log : Log) (id addr : String)
    → Extends log (verify_promotion w n log id addr).0
unfolding verify_promotion
verify_promotion-Extends w zero log id addr c i = i
verify_promotion-Extends w (suc n) log id addr c i =
    let (log1, ok) = get_or_connect w log id addr in
    let (log2, status) = get_status w log1 id in
    ground (arith, verify_promotion-Extends w n (evict_unless (is_some status) id log2) id addr c)

pub verify_promotion-read :
    (w : World) (n : ℕ) (log : Log) (id addr : String)
    → (verify_promotion w n log id addr).1 ≡ true
    → (s : NodeStatus) × In (status_read id (some s)) (verify_promotion w n log id addr).0
      × (is_primary s ≡ true)
unfolding verify_promotion
verify_promotion-read w zero log id addr h = absurd (ground arith)
verify_promotion-read w (suc n) log id addr h =
    let log1 = connected id (w.connects log id addr) ∷ log in
    let log2 = status_read id (w.statuses log1 id) ∷ log1 in
    let again = evict_unless (is_some (w.statuses log1 id)) id log2 in
    elim (Option-cases (w.statuses log1 id)) [
      | inl e ↦
          let (s, i, p) = verify_promotion-read w n again id addr (ground arith) in
          (s, ground arith, p)
      | inr (s, e) ↦ elim (Bool-cases (is_primary s)) [
        | inl p ↦ (s, ground arith, p)
        | inr p ↦
            let (r, i, q) = verify_promotion-read w n again id addr (ground arith) in
            (r, ground arith, q)
      ]
    ]

pub repoint_replicas-Extends :
    (w : World) (log : Log) (rs : List (String × String)) (conninfo prefix : String)
    → Extends log (repoint_replicas w log rs conninfo prefix).0
unfolding repoint_replicas
repoint_replicas-Extends w log [] conninfo prefix c i = i
repoint_replicas-Extends w log ((id, addr) ∷ rs) conninfo prefix c i =
    let (log1, ok) = get_or_connect w log id addr in
    let (log2, resp) = demote w log1 id conninfo (slot_name prefix id) in
    let log3 = if ok then evict_unless (is_some resp) id log2 else evicted id ∷ log1 in
    repoint_replicas-Extends w log3 rs conninfo prefix c (ground arith)

-- Every node of the list to repoint is either among those reported as failed, or its agent
-- confirmed that it follows the new primary with the slot of its name; a failure of one node does
-- not keep the others from being tried.
pub repoint_replicas-each :
    (w : World) (log : Log) (rs : List (String × String)) (conninfo prefix id addr : String)
    → In (id, addr) rs
    → In id (repoint_replicas w log rs conninfo prefix).1
      ⊎ In
          (demoted id conninfo (slot_name prefix id) (some true))
          (repoint_replicas w log rs conninfo prefix).0
unfolding repoint_replicas
repoint_replicas-each w log [] conninfo prefix id addr i = absurd i
repoint_replicas-each w log ((at, to) ∷ rs) conninfo prefix id addr i =
    let (log1, ok) = get_or_connect w log at to in
    let (log2, resp) = demote w log1 at conninfo (slot_name prefix at) in
    let log3 = if ok then evict_unless (is_some resp) at log2 else evicted at ∷ log1 in
    let deeper = repoint_replicas-each w log3 rs conninfo prefix id addr in
    let kept =
      repoint_replicas-Extends w log3 rs conninfo prefix
        (demoted at conninfo (slot_name prefix at) (some true)) in
    elim i [
      | inl e ↦ subst Done (ap (λ x. x.0) e) (ground (arith, kept))
      | inr r ↦ ground (arith, deeper r)
    ]
  where
    Done : String → Type 0
    Done x =
        In x (repoint_replicas w log ((at, to) ∷ rs) conninfo prefix).1
        ⊎ In (demoted x conninfo (slot_name prefix x) (some true))
            (repoint_replicas w log ((at, to) ∷ rs) conninfo prefix).0
