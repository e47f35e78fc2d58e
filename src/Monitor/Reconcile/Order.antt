-- ===== src/Monitor/Reconcile/Order.antt =====
-- The order in which pgcluster/src/node_monitor/replication.rs changes the sync flag and the primary's
-- settings.
use pgcluster.Prelude.{
  ℕ, ◌*◌, String, ◌≡◌, refl, sym, ap, subst, ◌∙◌, ◌⊎◌, inl, inr, Bool, true, false, not, some, List,
  [], ◌∷◌, arith, if◌then◌else◌, Bool-cases, Option-cases, if-case, if-case_when, In,
}
use pgcluster.Dict.{Dict, get}
use pgcluster.Raft.Topology.{ClusterTopology, ReplicationMode, sync, async, sync_strict}
use pgcluster.Raft.Topology.Standbys.{standby_names, synchronous_standby_names, is_required}
use pgcluster.Raft.Command.{set_sync_degraded}
use pgcluster.Agents.{
  proposed, parameters_set, Log, World, Needs, IsOrdered, get_or_connect, client_write,
}
use pgcluster.Monitor.Fallback.{DegradeTimer, Fallback, stay, degrade, restore, is_sync, step}
use pgcluster.Monitor.Check.{HealthCheckResult}
use pgcluster.Monitor.Setup.{NodeMonitor, second}
use pgcluster.Monitor.Reconcile.{
  ensure_proxy_auth, apply_parameters, desired_parameters, has_any, write_needs_reseed, flag_lost,
  clear_streaming, track_reseeds, apply_replication, act_on, reconcile_replication, is_restore,
  lost_nodes, is_streaming, is_reported,
}

abbrev pub names_key : String
names_key = "synchronous_standby_names"

-- The primary reported the names of the standbys, or confirmed that it took them.
abbrev pub WaitsForStandby : ClusterTopology → HealthCheckResult → Log → Type 0
WaitsForStandby t p log =
    (is_reported p.parameters (names_key, standby_names t) ≡ true)
    ⊎ ((id : String) × (params : Dict String) × (get params names_key ≡ some (standby_names t))
        × In (parameters_set id params (some true)) log)

-- Commits stop waiting only once the log says so: while the topology asks for a standby, the names are
-- cleared only after the fallback was committed, and the fallback is taken back only after commits
-- wait again.
abbrev pub sync_needs : ClusterTopology → HealthCheckResult → Needs
sync_needs t p (parameters_set id params resp) log =
    get params names_key ≡ some ""
    → (synchronous_standby_names t ≡ "") ⊎ In (proposed (set_sync_degraded true) true) log
sync_needs t p (proposed (set_sync_degraded false) ok) log = WaitsForStandby t p log
sync_needs t p c log = Unit

module _ (m : NodeMonitor) (t : ClusterTopology) (p : HealthCheckResult) where
  abbrev world : World
  world = m.setting.world

  abbrev Ordered : Log → Type 0
  Ordered = IsOrdered (sync_needs t p)

  ensure_proxy_auth-Ordered : (log : Log) → Ordered log → Ordered (ensure_proxy_auth m t log p)
  unfolding ensure_proxy_auth IsOrdered
  ensure_proxy_auth-Ordered log h = ground arith

  write_needs_reseed-Ordered :
      (b : Bool) (log : Log) (id : String) (needed : Bool)
      → Ordered log
      → Ordered (if b then write_needs_reseed m t log id needed else log)
  unfolding write_needs_reseed IsOrdered
  write_needs_reseed-Ordered true log id needed h = (tt, h)
  write_needs_reseed-Ordered false log id needed h = h

  flag_lost-Ordered :
      (ids : List String) (log : Log) → Ordered log → Ordered (flag_lost m t log ids)
  unfolding flag_lost
  flag_lost-Ordered [] log h = h
  flag_lost-Ordered (id ∷ ids) log h =
      flag_lost-Ordered ids _ (write_needs_reseed-Ordered _ log id true h)

  clear_streaming-Ordered :
      (lost streaming ids : List String) (log : Log)
      → Ordered log
      → Ordered (clear_streaming m t log lost streaming ids)
  unfolding clear_streaming
  clear_streaming-Ordered lost streaming [] log h = h
  clear_streaming-Ordered lost streaming (id ∷ ids) log h =
      clear_streaming-Ordered lost streaming ids _ (write_needs_reseed-Ordered _ log id false h)

  track_reseeds-Ordered : (log : Log) → Ordered log → Ordered (track_reseeds m t log p)
  unfolding track_reseeds
  track_reseeds-Ordered log h =
      clear_streaming-Ordered _ _ _ _ (flag_lost-Ordered (lost_nodes m t p.lost_slots) log h)

  -- Setting the names to `names` when that is allowed; what was applied holds the names.
  apply_parameters-Ordered :
      (log : Log) (params : Dict String)
      → (get params names_key ≡ some ""
          → (synchronous_standby_names t ≡ "") ⊎ In (proposed (set_sync_degraded true) true) log)
      → Ordered log
      → Ordered (apply_parameters m t log params).0
        × ((apply_parameters m t log params).1 ≡ true
            → (id : String) × In
                (parameters_set id params (some true))
                (apply_parameters m t log params).0)
  unfolding apply_parameters IsOrdered
  apply_parameters-Ordered log params allowed h =
      elim (Option-cases (get t.node_configs t.primary_node_id)) [
        | inl e ↦ (ground arith, λ f. absurd (ground arith))
        | inr (cfg, e) ↦
            let (log1, ok) = get_or_connect world log t.primary_node_id cfg.agent_addr in
            let resp = m.around.sets_parameters log1 t.primary_node_id params in
            elim (Bool-cases ok) [
              | inl f ↦ (ground arith, λ g. (t.primary_node_id, ground arith))
              | inr f ↦ (ground arith, λ g. absurd (ground arith))
            ]
      ]

  desired_parameters-names :
      (names : String)
      → (is_reported p.parameters (names_key, names) ≡ true)
        ⊎ ((get (desired_parameters m t p names) names_key ≡ some names)
            × (has_any (desired_parameters m t p names) ≡ true))
  unfolding desired_parameters
  desired_parameters-names names = ground arith

  desired_parameters-sub :
      (names v : String) → get (desired_parameters m t p names) names_key ≡ some v → v ≡ names
  unfolding desired_parameters
  desired_parameters-sub names v h = ground arith

  -- The names may be cleared, or are not cleared.
  abbrev Allowed : Log → String → Type 0
  Allowed log names =
      names ≡ ""
      → (synchronous_standby_names t ≡ "") ⊎ In (proposed (set_sync_degraded true) true) log

  waits :
      (names : String) (log1 log : Log) (desired : Dict String)
      → (is_reported p.parameters (names_key, names) ≡ true)
        ⊎ ((get desired names_key ≡ some names) × (has_any desired ≡ true))
      → (applied : Bool)
      → (applied ≡ true → (id : String) × In (parameters_set id desired (some true)) log1)
      → names ≡ standby_names t
      → (if has_any desired then applied else true) ≡ true
      → WaitsForStandby t p (if has_any desired then log1 else log)
  waits names log1 log desired (inl reported) applied took same going =
      inl (subst (λ x. is_reported p.parameters (names_key, x) ≡ true) same reported)
  waits names log1 log desired (inr (found, some_left)) applied took same going =
      let (id, place) = took (ground arith) in
      inr (
        id,
        desired,
        found ∙ ap some same,
        subst (λ b. In (parameters_set id desired (some true)) (if b then log1 else log))
            (sym some_left) place,
      )

  apply_replication-Ordered :
      (log : Log) (f : Fallback) (names : String)
      → Allowed log names
      → (is_restore m t f ≡ true → names ≡ standby_names t)
      → Ordered log
      → Ordered (apply_replication m t log p f names)
  unfolding apply_replication IsOrdered
  apply_replication-Ordered log f names allowed back h =
      let desired = desired_parameters m t p names in
      let (log1, applied) = apply_parameters m t log desired in
      let (one, took) =
        apply_parameters-Ordered log desired
          (λ e. allowed (sym (desired_parameters-sub names "" e))) h in
      let log2 = if has_any desired then log1 else log in
      let two : Ordered log2 = if-case Ordered (has_any desired) log1 log one h in
      let go_on = if has_any desired then applied else true in
      let (log3, ok) = client_write world log2 (set_sync_degraded false) in
      if-case_when Ordered go_on _ log2
        (λ e. track_reseeds-Ordered (if is_restore m t f then log3 else log2) (
          if-case_when Ordered (is_restore m t f) log3 log2
            (λ r. (
              waits names log1 log desired (desired_parameters-names names) applied took (back r) e,
              two,
            ))
            two))
        two

  act_on-Ordered :
      (log : Log) (f : Fallback)
      → (is_restore m t f ≡ true → synchronous_standby_names t ≡ "")
      → Ordered log
      → Ordered (act_on m t log p f)
  unfolding act_on IsOrdered
  act_on-Ordered log stay s h =
      apply_replication-Ordered log stay (synchronous_standby_names t) (λ e. inl e)
        (λ e. absurd (ground arith)) h
  act_on-Ordered log restore s h =
      apply_replication-Ordered log restore (standby_names t) (λ e. inl (s refl)) (λ e. refl) h
  act_on-Ordered log degrade s h = elim (Bool-cases (world.commits log (set_sync_degraded true))) [
    | inl e ↦
        let log1 = proposed (set_sync_degraded true) true ∷ log in
        let rest =
          apply_replication-Ordered log1 degrade "" (λ x. inr (inl refl))
            (λ x. absurd (ground arith)) (tt, h) in
        subst
          (λ b. Ordered (
            if b
            then apply_replication m t (proposed (set_sync_degraded true) b ∷ log) p degrade ""
            else proposed (set_sync_degraded true) b ∷ log))
          (sym e) rest
    | inr e ↦
        subst
          (λ b. Ordered (
            if b
            then apply_replication m t (proposed (set_sync_degraded true) b ∷ log) p degrade ""
            else proposed (set_sync_degraded true) b ∷ log))
          (sym e) (tt, h)
  ]

  sync_not_required :
      (mode : ReplicationMode) (degraded : Bool)
      → is_sync mode ≡ true
      → degraded ≡ true
      → is_required mode degraded ≡ false
  sync_not_required async degraded h k = refl
  sync_not_required sync degraded h k = ap not k
  sync_not_required sync_strict degraded h k = absurd (ground arith)

  step-restore :
      (timer : DegradeTimer) (streaming : Bool) (timeout now : ℕ)
      → is_restore m t (step timer t.replication_mode t.sync_degraded streaming timeout now).1
        ≡ true
      → synchronous_standby_names t ≡ ""
  unfolding step synchronous_standby_names
  step-restore timer streaming timeout now h =
      ground (arith, sync_not_required t.replication_mode t.sync_degraded)

  -- If every call of the log came after what it needs, then so it is after the primary was brought
  -- in line: while the topology requires a standby to confirm commits, the names of the standbys
  -- are cleared on the primary only after the fallback to async was committed to the Raft log; and
  -- the fallback is taken back in the log only after the primary reported the names of the
  -- standbys, or confirmed that it took them.
  pub reconcile_replication-IsOrdered :
      (log : Log) (timer : DegradeTimer)
      → IsOrdered (sync_needs t p) log
      → IsOrdered (sync_needs t p) (reconcile_replication m t log timer p).0
  unfolding reconcile_replication
  reconcile_replication-IsOrdered log timer h =
      let log1 = ensure_proxy_auth m t log p in
      act_on-Ordered log1 _
        (step-restore timer (is_streaming m t p) (m.sync_degrade_timeout_seconds * second)
          (m.around.now log1))
        (ensure_proxy_auth-Ordered log h)
