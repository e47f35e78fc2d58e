-- ===== src/Switchover/Handoff/Needs.antt =====
-- What each call of a switchover needs before it, and the parts of the flow that keep to it.
use pgcluster.Failover.Promote.{
  promote_node, verify_promotion, repoint_replicas, evict_unless, slot_name,
}
use pgcluster.Failover.Promote.Verified.{
  BecamePrimary, promote_node-promoted, verify_promotion-Extends, verify_promotion-read,
}
use pgcluster.Failover.Trigger.{conninfo}
use pgcluster.Switchover.Handoff.{settle, next_steady}
use pgcluster.Agents.{
  evicted, connected, demoted, stopped, promoted, proposed, Log, World, IsOrdered, Needs, Extends,
  get_or_connect, get_status, demote,
}
use pgcluster.Prelude.{
  ℕ, zero, suc, String, ◌≡◌, ◌⊎◌, inl, inr, Bool, true, Option, some, List, [], ◌∷◌, arith,
  if◌then◌else◌, Option-cases, is_some, In,
}
use pgcluster.Raft.Command.{set_primary}

-- The old primary confirmed its demotion, and was then asked to stop.
abbrev pub SteppedDown : String → Log → Type 0
SteppedDown old log =
    (conninfo slot : String) × In (demoted old conninfo slot (some true)) log
    × (resp : Option Bool) × In (stopped old resp) log

-- A node is promoted only after the old primary stepped down; only the target is named as the
-- primary, and only after it became one; and a node other than the old primary is pointed at the
-- target only after that.
abbrev pub switchover_needs : String → String → Needs
switchover_needs old new (promoted id resp) log = SteppedDown old log
switchover_needs old new (proposed (set_primary id lsn timeline) ok) log =
    (id ≡ new) × BecamePrimary new log
switchover_needs old new (demoted id conninfo slot resp) log = (id ≡ old) ⊎ BecamePrimary new log
switchover_needs old new c log = Unit

module _ (old new : String) (w : World) where
  pub promote_node-IsOrdered :
      (log : Log) (id addr : String)
      → SteppedDown old log
      → IsOrdered (switchover_needs old new) log
      → IsOrdered (switchover_needs old new) (promote_node w log id addr).0
  unfolding promote_node IsOrdered
  promote_node-IsOrdered log id addr (ci, slot, i, resp, j) h =
      let need : SteppedDown old (connected id (w.connects log id addr) ∷ log) =
        (ci, slot, inr i, resp, inr j) in
      ground (arith, need)

  pub verify_promotion-IsOrdered :
      (n : ℕ) (log : Log) (id addr : String)
      → IsOrdered (switchover_needs old new) log
      → IsOrdered (switchover_needs old new) (verify_promotion w n log id addr).0
  unfolding verify_promotion IsOrdered
  verify_promotion-IsOrdered zero log id addr h = h
  verify_promotion-IsOrdered (suc n) log id addr h =
      let (log1, ok) = get_or_connect w log id addr in
      let (log2, status) = get_status w log1 id in
      ground (arith, verify_promotion-IsOrdered n (evict_unless (is_some status) id log2) id addr)

  pub settle-IsOrdered :
      (n : ℕ) (log : Log) (id addr : String) (last : Option ℕ) (steady : ℕ)
      → IsOrdered (switchover_needs old new) log
      → IsOrdered (switchover_needs old new) (settle w n log id addr last steady).0
  unfolding settle IsOrdered
  settle-IsOrdered zero log id addr last steady h = h
  settle-IsOrdered (suc n) log id addr last steady h =
      let (log1, ok) = get_or_connect w log id addr in
      let (log2, status) = get_status w log1 id in
      elim (Option-cases (w.statuses log1 id)) [
        | inl e ↦ ground arith
        | inr (s, e) ↦ ground (
          arith,
          settle-IsOrdered n log2 id addr (some s.received_lsn)
              (next_steady last s.received_lsn steady),
        )
      ]

  pub settle-Extends :
      (n : ℕ) (log : Log) (id addr : String) (last : Option ℕ) (steady : ℕ)
      → Extends log (settle w n log id addr last steady).0
  unfolding settle
  settle-Extends zero log id addr last steady c i = i
  settle-Extends (suc n) log id addr last steady c i =
      let (log1, ok) = get_or_connect w log id addr in
      let (log2, status) = get_status w log1 id in
      elim (Option-cases (w.statuses log1 id)) [
        | inl e ↦ ground arith
        | inr (s, e) ↦ ground (
          arith,
          settle-Extends n log2 id addr (some s.received_lsn)
              (next_steady last s.received_lsn steady) c,
        )
      ]

  pub repoint_replicas-IsOrdered :
      (log : Log) (rs : List (String × String)) (conninfo prefix : String)
      → BecamePrimary new log
      → IsOrdered (switchover_needs old new) log
      → IsOrdered (switchover_needs old new) (repoint_replicas w log rs conninfo prefix).0
  unfolding repoint_replicas IsOrdered BecamePrimary
  repoint_replicas-IsOrdered log [] conninfo prefix became h = h
  repoint_replicas-IsOrdered log ((id, addr) ∷ rs) conninfo prefix (i, s, j, p) h =
      let (log1, ok) = get_or_connect w log id addr in
      let (log2, resp) = demote w log1 id conninfo (slot_name prefix id) in
      let log3 = if ok then evict_unless (is_some resp) id log2 else evicted id ∷ log1 in
      let need : (id ≡ old) ⊎ BecamePrimary new log1 = inr (inr i, s, inr j, p) in
      repoint_replicas-IsOrdered log3 rs conninfo prefix (ground arith, s, ground arith, p)
        (ground (arith, need))

  pub promoted-Became :
      (log : Log) (addr : String)
      → (promote_node w log new addr).1 ≡ true
      → (verify_promotion w 3 (promote_node w log new addr).0 new addr).1 ≡ true
      → BecamePrimary new (verify_promotion w 3 (promote_node w log new addr).0 new addr).0
  unfolding BecamePrimary
  promoted-Became log addr did seen =
      let log1 = (promote_node w log new addr).0 in
      let (status, i, p) = verify_promotion-read w 3 log1 new addr seen in
      (
        verify_promotion-Extends w 3 log1 new addr (promoted new (some true))
            (promote_node-promoted w log new addr did),
        status,
        i,
        p,
      )

pub SteppedDown-Extends :
    (old : String) (log later : Log)
    → Extends log later
    → SteppedDown old log
    → SteppedDown old later
SteppedDown-Extends old log later grows (ci, slot, i, resp, j) =
    (ci, slot, grows (demoted old ci slot (some true)) i, resp, grows (stopped old resp) j)
