-- ===== src/Raft/Apply/Primary.antt =====
-- What every command of the log keeps true of the topology.
use pgcluster.Prelude.{
  ℕ, String, ◌≡◌, ◌≢◌, false, not, ◌&&◌, some, arith, str_eq, eq_iff, if◌then◌else◌, is_empty,
}
use pgcluster.Dict.{Dict, get, insert, remove, or_insert, get-insert, get-remove}
use pgcluster.Raft.Topology.{
  NodeRole, primary, replica, offline, maintenance, unknown, ClusterTopology,
}
use pgcluster.Raft.Command.{
  TopologyCommand, set_primary, mark_offline, mark_replica, mark_maintenance, add_node, remove_node,
}
use pgcluster.Raft.Apply.{apply_command}

-- A node is in the role `primary` only if the topology names it, and the name is not empty.
abbrev pub OnePrimary : Dict NodeRole → String → Type 0
OnePrimary roles p = (id : String) → get roles id ≡ some primary → (id ≡ p) × (is_empty p ≡ false)

-- A command that appoints a primary names a node.
abbrev pub Named : TopologyCommand → Type 0
Named (set_primary node_id at_lsn new_timeline) = is_empty node_id ≡ false
Named _ = Unit

insert-OnePrimary :
    (roles : Dict NodeRole) (p k : String) (r : NodeRole)
    → r ≢ primary
    → OnePrimary roles p
    → OnePrimary (insert roles k r) p
insert-OnePrimary roles p k r ne h id e = ground (arith, get-insert roles k id r, h id, eq_iff k id)

or_insert-OnePrimary :
    (roles : Dict NodeRole) (p k : String)
    → OnePrimary roles p
    → OnePrimary (or_insert roles k unknown) p
or_insert-OnePrimary roles p k h id e = ground (arith, get-insert roles k id unknown, h id)

remove-OnePrimary :
    (roles : Dict NodeRole) (p k : String) → OnePrimary roles p → OnePrimary (remove roles k) p
remove-OnePrimary roles p k h id e = ground (arith, get-remove roles k id, h id)

-- The heart of `SetPrimary`: the old primary is demoted before the new one is appointed.
appoint-OnePrimary :
    (roles : Dict NodeRole) (p k : String)
    → is_empty k ≡ false
    → OnePrimary roles p
    → OnePrimary
        (insert
          (if not (is_empty p) && not (str_eq p k) then insert roles p replica else roles)
          k
          primary)
        k
appoint-OnePrimary roles p k named h id e = ground (
  arith,
  get-insert (insert roles p replica) k id primary,
  get-insert roles k id primary,
  get-insert roles p id replica,
  eq_iff k id,
  eq_iff p id,
  eq_iff p k,
  h id,
)

pub apply_command-OnePrimary :
    (now : ℕ) (t : ClusterTopology) (cmd : TopologyCommand)
    → Named cmd
    → OnePrimary t.node_roles t.primary_node_id
    → OnePrimary (apply_command now t cmd).node_roles (apply_command now t cmd).primary_node_id
unfolding apply_command
apply_command-OnePrimary now t (set_primary k l tl) n h =
    appoint-OnePrimary t.node_roles t.primary_node_id k n h
apply_command-OnePrimary now t (mark_offline k) n h =
    insert-OnePrimary t.node_roles t.primary_node_id k offline (λ e. cc) h
apply_command-OnePrimary now t (mark_replica k l) n h =
    insert-OnePrimary t.node_roles t.primary_node_id k replica (λ e. cc) h
apply_command-OnePrimary now t (mark_maintenance k) n h =
    insert-OnePrimary t.node_roles t.primary_node_id k maintenance (λ e. cc) h
apply_command-OnePrimary now t (add_node c) n h =
    or_insert-OnePrimary t.node_roles t.primary_node_id c.node_id h
apply_command-OnePrimary now t (remove_node k) n h =
    remove-OnePrimary t.node_roles t.primary_node_id k h
apply_command-OnePrimary now t _ n h = h
