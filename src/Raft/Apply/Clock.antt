-- ===== src/Raft/Apply/Clock.antt =====
-- Each instance reads its own clock when it applies a command.
use pgcluster.Prelude.{ℕ, ◌+◌, ◌%◌, ◌≡◌, refl, sym, ap, ◌∙◌}
use pgcluster.Raft.Topology.{ClusterTopology}
use pgcluster.Raft.Command.{TopologyCommand}
use pgcluster.Raft.Apply.{apply_command, u64_mod}

-- Two copies of the topology that differ in the time stamp at most.
abbrev pub SameState : ClusterTopology → ClusterTopology → Type 0
SameState a b = record a { last_changed_at = b.last_changed_at } ≡ b

abbrev restamp : ℕ → ClusterTopology → ClusterTopology
restamp n t = record t { last_changed_at = n }

restamp-apply_command :
    (now later : ℕ) (t : ClusterTopology) (cmd : TopologyCommand)
    → restamp later (apply_command now t cmd) ≡ apply_command later t cmd
unfolding apply_command
restamp-apply_command now later t (TopologyCommand.set_primary k l tl) = refl
restamp-apply_command now later t _ = refl

apply_command-restamp :
    (now n : ℕ) (t : ClusterTopology) (cmd : TopologyCommand)
    → apply_command now (restamp n t) cmd ≡ apply_command now t cmd
unfolding apply_command
apply_command-restamp now n t (TopologyCommand.set_primary k l tl) = refl
apply_command-restamp now n t _ = refl

stamp-apply_command :
    (now : ℕ) (t : ClusterTopology) (cmd : TopologyCommand)
    → (apply_command now t cmd).last_changed_at ≡ now
unfolding apply_command
stamp-apply_command now t (TopologyCommand.set_primary k l tl) = refl
stamp-apply_command now t _ = refl

-- Topologies that differ in their time stamp at most, to which the same command is applied at
-- different times, differ in their time stamp at most afterwards.
pub apply_command-SameState :
    (now later : ℕ) (a b : ClusterTopology) (cmd : TopologyCommand)
    → SameState a b
    → SameState (apply_command now a cmd) (apply_command later b cmd)
apply_command-SameState now later a b cmd h =
    ap (λ n. restamp n (apply_command now a cmd)) (stamp-apply_command later b cmd)
    ∙ restamp-apply_command now later a cmd
    ∙ sym (apply_command-restamp later b.last_changed_at a cmd)
    ∙ ap (λ t. apply_command later t cmd) h

-- Every command counts once, in 64 bits.
pub version-apply_command :
    (now : ℕ) (t : ClusterTopology) (cmd : TopologyCommand)
    → (apply_command now t cmd).version ≡ (t.version + 1) % u64_mod
unfolding apply_command
version-apply_command now t (TopologyCommand.set_primary k l tl) = refl
version-apply_command now t _ = refl
