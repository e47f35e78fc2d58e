-- ===== src/Switchover/Rolling/OneDown.antt =====
-- A rolling restart has at most one standby down: pgcluster/src/switchover/rolling.rs.
use pgcluster.Prelude.{
  ℕ, zero, suc, ◌+◌, String, ◌≡◌, refl, sym, ap, subst, ◌∙◌, ◌⊎◌, inl, inr, Bool, true, false, not,
  Option, none, some, List, [], ◌∷◌, arith, str_eq, leb, Bool-cases, Option-cases, unwrap_or,
  if-case, filter, any, All, In,
}
use pgcluster.Dict.{get}
use pgcluster.Raft.Topology.{ClusterTopology, NodeConfig}
use pgcluster.Agents.{Log, Run, Call, stopped, checked, connected, IsOrdered, Needs, World}
use pgcluster.Monitor.Check.{
  Probe, check_node, unreachable_result, reached_result, timed_out, not_connected, status_failed,
  answered,
}
use pgcluster.Switchover.Rolling.{standbys_in_order}
use pgcluster.Switchover.Rolling.Restart.{
  Look, Restart, Back, streaming, late, out_of_fuel, restart_node, check_primary, look_at,
  look_once, or_later, look_rounds, catch_up_timeout, wait_until_streaming, is_streaming,
  restart_standby, restart_standbys, switch_over, rolling_restart,
}

-- A check does not find the node among those that stream.
abbrev unseen : List String → String → Bool
unseen ids id = not (any (λ n. str_eq n id) ids)

-- The nodes that were stopped and that no check has found streaming since.
abbrev pub down : Log → List String
down [] = []
down (stopped id resp ∷ log) = id ∷ down log
down (checked at ids ∷ log) = filter (unseen ids) (down log)
down (c ∷ log) = down log

-- No node is down.
abbrev pub NoneDown : Log → Type 0
NoneDown log = down log ≡ []

abbrev pub OnlyDown : String → Log → Type 0
OnlyDown id log = All (λ x. x ≡ id) (down log)

-- A node is stopped when no other is down.
abbrev pub restart_needs : Needs
restart_needs (stopped id resp) log = NoneDown log
restart_needs c log = Unit

NoneDown-OnlyDown : (id : String) (log : Log) → NoneDown log → OnlyDown id log
NoneDown-OnlyDown id log h = subst (All (λ x. x ≡ id)) (sym h) tt

-- A filter that drops the only value leaves nothing.
filter_only :
    (test : String → Bool) (id : String) (xs : List String)
    → All (λ x. x ≡ id) xs
    → test id ≡ false
    → filter test xs ≡ []
filter_only test id [] h f = refl
filter_only test id (x ∷ xs) h f = rw (ap test h.0 ∙ f) (filter_only test id xs h.1 f)

filter-All :
    (test : String → Bool) (P : String → Type 0) (xs : List String)
    → All P xs
    → All P (filter test xs)
filter-All test P [] h = tt
filter-All test P (x ∷ xs) h =
    if-case (All P) (test x) _ _ (h.0, filter-All test P xs h.1) (filter-All test P xs h.1)

-- What a step leaves: the order of the calls, and at most the node that it is about down; none,
-- if it saw the node streaming.
abbrev pub Left : String → Log × Option Back → Type 0
Left id (log, none) = IsOrdered restart_needs log × OnlyDown id log
Left id (log, some streaming) = IsOrdered restart_needs log × NoneDown log
Left id (log, some late) = IsOrdered restart_needs log × OnlyDown id log
Left id (log, some out_of_fuel) = IsOrdered restart_needs log × OnlyDown id log

check_primary-Left :
    (cfg : NodeConfig) (probe : Probe) (id : String) (log : Log)
    → IsOrdered restart_needs log
    → OnlyDown id log
    → Left id (check_primary cfg probe id log)
unfolding check_primary check_node reached_result unreachable_result IsOrdered
check_primary-Left cfg timed_out id log ok only =
    ((tt, (tt, ok)), filter-All (unseen []) (λ x. x ≡ id) (down log) only)
check_primary-Left cfg not_connected id log ok only =
    ((tt, (tt, ok)), filter-All (unseen []) (λ x. x ≡ id) (down log) only)
check_primary-Left cfg status_failed id log ok only =
    ((tt, (tt, ok)), filter-All (unseen []) (λ x. x ≡ id) (down log) only)
check_primary-Left cfg (answered s) id log ok only =
    let ids = (reached_result cfg.node_id s).streaming_standbys in
    elim (Bool-cases (any (λ n. str_eq n id) ids)) [
      | inl k ↦ rw k ((tt, ok), filter_only (unseen ids) id (down log) only (ground (arith, k)))
      | inr f ↦ rw f ((tt, ok), filter-All (unseen ids) (λ x. x ≡ id) (down log) only)
    ]

look_at-Left :
    (o : Option NodeConfig) (probe : Probe) (id : String) (log : Log)
    → IsOrdered restart_needs log
    → OnlyDown id log
    → Left id (look_at o probe id log)
unfolding look_at
look_at-Left none probe id log ok only = (ok, only)
look_at-Left (some cfg) probe id log ok only = check_primary-Left cfg probe id log ok only

look_once-Left :
    (l : Look) (deadline : ℕ) (id : String) (log : Log)
    → IsOrdered restart_needs log
    → OnlyDown id log
    → Left id (look_once l deadline id log)
unfolding look_once
look_once-Left l deadline id log ok only =
    if-case (Left id) (leb deadline l.now) _ _ (ok, only)
      (look_at-Left (get l.topology.node_configs l.topology.primary_node_id) l.probe id log ok only)

-- What a wait leaves.
abbrev pub Waits : String → Log × Back → Type 0
Waits id (log, end) = Left id (log, some end)

or_later-Waits :
    (later : Log → Log × Back) (id : String) (out : Log × Option Back)
    → ((log : Log) → IsOrdered restart_needs log → OnlyDown id log → Waits id (later log))
    → Left id out
    → Waits id (or_later later out)
or_later-Waits later id (log, none) rest (ok, only) = rest log ok only
or_later-Waits later id (log, some end) rest left = left

look_rounds-Waits :
    (fuel n : ℕ) (look : ℕ → Look) (deadline : ℕ) (id : String) (log : Log)
    → IsOrdered restart_needs log
    → OnlyDown id log
    → Waits id (look_rounds fuel n look deadline id log)
unfolding look_rounds
look_rounds-Waits zero n look deadline id log ok only = (ok, only)
look_rounds-Waits (suc fuel) n look deadline id log ok only =
    or_later-Waits (look_rounds fuel (n + 1) look deadline id) id
      (look_once (look n) deadline id log)
      (λ log1 o d. look_rounds-Waits fuel (n + 1) look deadline id log1 o d)
      (look_once-Left (look n) deadline id log ok only)

-- What a restart of a standby leaves: none is down if it succeeds.
abbrev pub Kept : Log × Bool → Type 0
Kept (log, true) = IsOrdered restart_needs log × NoneDown log
Kept (log, false) = IsOrdered restart_needs log

Left-Kept :
    (id : String) (log : Log) (end : Back) → Left id (log, some end) → Kept (log, is_streaming end)
Left-Kept id log streaming left = left
Left-Kept id log late left = left.0
Left-Kept id log out_of_fuel left = left.0

restart_node-Left :
    (w : World) (t : ClusterTopology) (id : String) (log : Log)
    → IsOrdered restart_needs log
    → NoneDown log
    → Left id ((restart_node w t id log).0, none)
unfolding restart_node IsOrdered
restart_node-Left w t id log ok empty = elim (Option-cases (get t.node_configs id)) [
  | inl e ↦ rw (e, restart_node) (ok, NoneDown-OnlyDown id log empty)
  | inr (cfg, e) ↦
      let connects = w.connects log id cfg.agent_addr in
      let log1 = connected id connects ∷ log in
      let resp = w.stops log1 id in
      rw (e, restart_node)
        (if-case {A = Log × Bool} (λ x. Left id (x.0, none)) connects
          (stopped id resp ∷ log1, unwrap_or resp false) (log1, false)
          ((empty, (tt, ok)), (refl, NoneDown-OnlyDown id log empty))
          ((tt, ok), NoneDown-OnlyDown id log empty))
]

restart_standby-Kept :
    (r : Restart) (t : ClusterTopology) (id : String) (log : Log)
    → IsOrdered restart_needs log
    → NoneDown log
    → Kept (restart_standby r t id log)
unfolding restart_standby wait_until_streaming
restart_standby-Kept r t id log ok empty =
    let (log1, restarted) = restart_node r.world t id log in
    let (o, d) = restart_node-Left r.world t id log ok empty in
    let (log2, end) = wait_until_streaming r id log1 in
    if-case Kept restarted (log2, is_streaming end) (log1, false)
      (Left-Kept id log2 end
        (look_rounds-Waits 241 0 (r.look log1) (r.start log1 + catch_up_timeout) id log1 o d))
      o

restart_standbys-Kept :
    (r : Restart) (t : ClusterTopology) (ids : List String) (log : Log)
    → IsOrdered restart_needs log
    → NoneDown log
    → Kept (restart_standbys r t ids log)
unfolding restart_standbys
restart_standbys-Kept r t [] log ok empty = (ok, empty)
restart_standbys-Kept r t (id ∷ ids) log ok empty =
    go (restart_standby r t id log) refl (restart_standby-Kept r t id log ok empty)
      (λ log1 o d. restart_standbys-Kept r t ids log1 o d)
  where
    go :
        (out : Log × Bool)
        → restart_standby r t id log ≡ out
        → Kept out
        → ((log1 : Log)
            → IsOrdered restart_needs log1
            → NoneDown log1
            → Kept (restart_standbys r t ids log1))
        → Kept (restart_standbys r t (id ∷ ids) log)
    go (log1, true) e (o, d) rest = rw e (rest log1 o d)
    go (log1, false) e kept rest = rw e kept

look_at-Extends :
    (o : Option NodeConfig) (probe : Probe) (id : String) (log : Log) (c : Call)
    → In c log
    → In c (look_at o probe id log).0
unfolding look_at check_primary
look_at-Extends none probe id log c i = i
look_at-Extends (some cfg) probe id log c i =
    if-case (In c) (check_node cfg.node_id probe).1 _ _ (inr (inr i)) (inr i)

look_once-Extends :
    (l : Look) (deadline : ℕ) (id : String) (log : Log) (c : Call)
    → In c log
    → In c (look_once l deadline id log).0
unfolding look_once
look_once-Extends l deadline id log c i =
    if-case {A = Log × Option Back} (λ x. In c x.0) (leb deadline l.now) _ _ i
      (look_at-Extends (get l.topology.node_configs l.topology.primary_node_id) l.probe id log c i)

or_later-Extends :
    (later : Log → Log × Back) (c : Call) (out : Log × Option Back)
    → ((log : Log) → In c log → In c (later log).0)
    → In c out.0
    → In c (or_later later out).0
or_later-Extends later c (log, none) rest i = rest log i
or_later-Extends later c (log, some end) rest i = i

look_rounds-Extends :
    (fuel n : ℕ) (look : ℕ → Look) (deadline : ℕ) (id : String) (log : Log) (c : Call)
    → In c log
    → In c (look_rounds fuel n look deadline id log).0
unfolding look_rounds
look_rounds-Extends zero n look deadline id log c i = i
look_rounds-Extends (suc fuel) n look deadline id log c i =
    or_later-Extends (look_rounds fuel (n + 1) look deadline id) c
      (look_once (look n) deadline id log)
      (λ log1 j. look_rounds-Extends fuel (n + 1) look deadline id log1 c j)
      (look_once-Extends (look n) deadline id log c i)

-- The restart of the node was confirmed.
abbrev pub Restarted : Log → String → Type 0
Restarted log id = In (stopped id (some true)) log

restart_node-Restarted :
    (w : World) (t : ClusterTopology) (id : String) (log : Log)
    → (restart_node w t id log).1 ≡ true
    → Restarted (restart_node w t id log).0 id
unfolding restart_node
restart_node-Restarted w t id log h = ground arith

restart_node-Extends :
    (w : World) (t : ClusterTopology) (id : String) (log : Log) (c : Call)
    → In c log
    → In c (restart_node w t id log).0
unfolding restart_node
restart_node-Extends w t id log c i = ground (arith, i)

restart_standby-Restarted :
    (r : Restart) (t : ClusterTopology) (id : String) (log : Log)
    → (restart_standby r t id log).1 ≡ true
    → Restarted (restart_standby r t id log).0 id
unfolding restart_standby wait_until_streaming
restart_standby-Restarted r t id log h =
    let (log1, restarted) = restart_node r.world t id log in
    let deadline = r.start log1 + catch_up_timeout in
    elim (Bool-cases restarted) [
      | inl k ↦ rw k (
          look_rounds-Extends 241 0 (r.look log1) deadline id log1 (stopped id (some true))
            (restart_node-Restarted r.world t id log k))
      | inr f ↦ absurd (ground (arith, f, h))
    ]

restart_standby-Extends :
    (r : Restart) (t : ClusterTopology) (id : String) (log : Log) (c : Call)
    → In c log
    → In c (restart_standby r t id log).0
unfolding restart_standby wait_until_streaming
restart_standby-Extends r t id log c i =
    let (log1, restarted) = restart_node r.world t id log in
    let deadline = r.start log1 + catch_up_timeout in
    let j = restart_node-Extends r.world t id log c i in
    if-case {A = Log × Bool} (λ x. In c x.0) restarted _ _
      (look_rounds-Extends 241 0 (r.look log1) deadline id log1 c j) j

restart_standbys-Extends :
    (r : Restart) (t : ClusterTopology) (ids : List String) (log : Log) (c : Call)
    → In c log
    → In c (restart_standbys r t ids log).0
unfolding restart_standbys
restart_standbys-Extends r t [] log c i = i
restart_standbys-Extends r t (id ∷ ids) log c i =
    let (log1, ok) = restart_standby r t id log in
    let j = restart_standby-Extends r t id log c i in
    if-case {A = Log × Bool} (λ x. In c x.0) ok _ _ (restart_standbys-Extends r t ids log1 c j) j

restart_standbys-Restarted :
    (r : Restart) (t : ClusterTopology) (ids : List String) (log : Log)
    → (restart_standbys r t ids log).1 ≡ true
    → All (Restarted (restart_standbys r t ids log).0) ids
unfolding restart_standbys
restart_standbys-Restarted r t [] log h = tt
restart_standbys-Restarted r t (id ∷ ids) log h =
    let (log1, ok) = restart_standby r t id log in
    elim (Bool-cases ok) [
      | inl k ↦
          let step : restart_standbys r t (id ∷ ids) log ≡ restart_standbys r t ids log1 =
            ground (arith, k) in
          subst (λ x. All (Restarted x.0) (id ∷ ids)) (sym step)
            (
              restart_standbys-Extends r t ids log1 (stopped id (some true))
                  (restart_standby-Restarted r t id log k),
              restart_standbys-Restarted r t ids log1 (ap (λ x. x.1) (sym step) ∙ h),
            )
      | inr f ↦ absurd (ground (arith, f, h))
    ]

-- The rest of a rolling restart, after the standbys.
abbrev pub last_step : Restart → Log → List String → Log → Run Bool
last_step r log [] log1 = let t = r.current log in restart_node r.world t t.primary_node_id log1
last_step r log (s ∷ ss) log1 = switch_over r (r.current log) log1

-- The run does its last step after `log1`: all standbys were restarted, and none is down.
abbrev pub ReachesLast : Restart → Log → Log → Type 0
ReachesLast r log log1 =
    NoneDown log1
    × ((standbys : List String) × (standbys_in_order r.le (r.current log) ≡ some standbys)
        × All (Restarted log1) standbys
        × (rolling_restart r log ≡ last_step r log standbys log1))

-- The run stops after `log1`, or does its last step.
abbrev pub Phases : Restart → Log → Log → Type 0
Phases r log log1 =
    IsOrdered restart_needs log1
    × ((rolling_restart r log ≡ (log1, false)) ⊎ ReachesLast r log log1)

restart_standbys-Phases :
    (r : Restart) (log : Log) (standbys : List String)
    → standbys_in_order r.le (r.current log) ≡ some standbys
    → (out : Log × Bool) → restart_standbys r (r.current log) standbys log ≡ out
    → Kept out
    → (out.1 ≡ true → All (Restarted out.0) standbys)
    → (log1 : Log) × Phases r log log1
unfolding rolling_restart
restart_standbys-Phases r log standbys e (log1, false) same kept back =
    (log1, (kept, inl (ground (arith, e, same))))
restart_standbys-Phases r log [] e (log1, true) same (o, d) back =
    (log1, (o, inr (d, ([], e, tt, ground (arith, e, same)))))
restart_standbys-Phases r log (s ∷ ss) e (log1, true) same (o, d) back =
    (log1, (o, inr (d, (s ∷ ss, e, back refl, ground (arith, e, same)))))

-- If no node is down at first, and every node in the log of calls was stopped when none was down,
-- then a rolling restart, up to its last step, stops a node only when none is down, a node being
-- down from its stop until a check finds it streaming. Then either the restart ends there with an
-- error, or none is down, the stop of every listed standby was confirmed, and what is left is the
-- last step: the restart of the only node if there are no standbys, else the switchover.
pub rolling_restart-Phases :
    (r : Restart) (log : Log)
    → NoneDown log
    → IsOrdered restart_needs log
    → (log1 : Log) × Phases r log log1
unfolding rolling_restart
rolling_restart-Phases r log empty ok =
    let t = r.current log in
    elim (Option-cases (standbys_in_order r.le t)) [
      | inl e ↦ (log, (ok, inl (ground (arith, e))))
      | inr (standbys, e) ↦
          restart_standbys-Phases r log standbys e (restart_standbys r t standbys log) refl
            (restart_standbys-Kept r t standbys log ok empty)
            (restart_standbys-Restarted r t standbys log)
    ]
