-- ===== src/Failover/Candidate/Best.antt =====
-- The candidate is the most advanced standby that answered.
use pgcluster.Prelude.{
  max, String, ◌≡◌, refl, ap, subst, ◌∙◌, ◌≢◌, ◌↔◌, ◌⊎◌, inl, inr, true, false, Option, none, some,
  List, [], ◌∷◌, arith, str_eq, All, In, All-In, max_by, max_by-IsMax, max_by-In, max_by-none,
}
use pgcluster.Dict.{Dict, get}
use pgcluster.Raft.Topology.{
  ClusterTopology, NodeConfig, NodeRole, primary, replica, offline, maintenance, unknown, role_eq,
  sync_strict, is_external,
}
use pgcluster.Failover.Candidate.{
  Replies, Position, check_standby, collect, Arrival, live_positions, ranks_below, rank_positions,
  pick_live_candidate, keep_some, NodeStatus,
}

pub role_eq→replica : (r : NodeRole) → role_eq r replica ≡ true → r ≡ replica
role_eq→replica replica h = refl
role_eq→replica primary h = cc
role_eq→replica offline h = cc
role_eq→replica maintenance h = cc
role_eq→replica unknown h = cc

-- A standby that may be promoted, and the position that its agent reported.
pub record Eligible (t : ClusterTopology) (failed : String) (reply : Replies) (p : Position)
    : Type 0 where
  pub other : str_eq p.0 failed ≡ false
  pub is_replica : In (p.0, replica) t.node_roles
  pub config : NodeConfig
  pub configured : get t.node_configs p.0 ≡ some config
  pub inside : is_external config ≡ false
  pub status : NodeStatus
  pub answered : reply p.0 config.agent_addr ≡ some status
  pub running : status.postgres_running ≡ true
  pub recovering : status.is_in_recovery ≡ true
  pub at : p.1 ≡ max status.received_lsn status.replayed_lsn

check-Eligible :
    (t : ClusterTopology) (failed : String) (reply : Replies) (id : String) (role : NodeRole)
    (p : Position)
    → In (id, role) t.node_roles
    → check_standby t failed reply id role ≡ some p
    → Eligible t failed reply p
unfolding check_standby
check-Eligible t failed reply id role p i h =
    let (other, is, cfg, found, inside, s, came, run, rec, same, at) = opened in
    record {
      other = rw same other;
      is_replica = subst (λ r. In (p.0, r) t.node_roles) is (rw same i);
      config = cfg;
      configured = rw same found;
      inside = inside;
      status = s;
      answered = rw same came;
      running = run;
      recovering = rec;
      at = at;
    }
  where
    opened :
        (str_eq id failed ≡ false)
        × (role ≡ replica)
        × (cfg : NodeConfig) × (get t.node_configs id ≡ some cfg)
        × (is_external cfg ≡ false)
        × (s : NodeStatus) × (reply id cfg.agent_addr ≡ some s)
        × (s.postgres_running ≡ true)
        × (s.is_in_recovery ≡ true)
        × (p.0 ≡ id)
        × (p.1 ≡ max s.received_lsn s.replayed_lsn)
    opened = ground (arith, role_eq→replica role)

pub In-keep_some :
    (o : Option Position) (p : Position) (ps : List Position)
    → In p (keep_some o ps)
    → (o ≡ some p) ⊎ In p ps
In-keep_some none p ps i = inr i
In-keep_some (some q) p ps (inl e) = inl (ap some e)
In-keep_some (some q) p ps (inr i) = inr i

keep_some-In :
    (o : Option Position) (p : Position) (ps : List Position)
    → (o ≡ some p) ⊎ In p ps
    → In p (keep_some o ps)
keep_some-In none p ps (inl e) = cc
keep_some-In none p ps (inr i) = i
keep_some-In (some q) p ps (inl e) = inl (cc)
keep_some-In (some q) p ps (inr i) = inr i

check_of_Eligible :
    (t : ClusterTopology) (failed : String) (reply : Replies) (p : Position)
    → Eligible t failed reply p
    → check_standby t failed reply p.0 replica ≡ some p
unfolding check_standby
check_of_Eligible t failed reply p e = ground arith

collect-Eligible :
    (t : ClusterTopology) (failed : String) (reply : Replies) (rs : Dict NodeRole) (p : Position)
    → ((entry : String × NodeRole) → In entry rs → In entry t.node_roles)
    → In p (collect t failed reply rs)
    → Eligible t failed reply p
unfolding collect
collect-Eligible t failed reply [] p sub i = absurd i
collect-Eligible t failed reply ((id, role) ∷ rs) p sub i =
    elim (In-keep_some (check_standby t failed reply id role) p (collect t failed reply rs) i) [
      | inl e ↦ check-Eligible t failed reply id role p (sub (id, role) (inl refl)) e
      | inr r ↦ collect-Eligible t failed reply rs p (λ x m. sub x (inr m)) r
    ]

Eligible-collect :
    (t : ClusterTopology) (failed : String) (reply : Replies) (rs : Dict NodeRole) (p : Position)
    → Eligible t failed reply p
    → In (p.0, replica) rs
    → In p (collect t failed reply rs)
unfolding collect
Eligible-collect t failed reply [] p e i = absurd i
Eligible-collect t failed reply ((id, role) ∷ rs) p e (inl same) =
    keep_some-In (check_standby t failed reply id role) p (collect t failed reply rs) (
      inl (
        ap (λ x. check_standby t failed reply x.0 x.1) same ∙ check_of_Eligible t failed reply p e))
Eligible-collect t failed reply ((id, role) ∷ rs) p e (inr i) =
    keep_some-In (check_standby t failed reply id role) p (collect t failed reply rs)
      (inr (Eligible-collect t failed reply rs p e i))

-- The positions that come in are those of the eligible standbys, no more and no less.
pub live_positions_iff :
    (a : Arrival) (t : ClusterTopology) (failed : String) (reply : Replies) (p : Position)
    → In p (live_positions a t failed reply) ↔ Eligible t failed reply p
unfolding live_positions
live_positions_iff a t failed reply p = (
  λ i.
      collect-Eligible t failed reply t.node_roles p (λ x m. m)
        (a.arranged p (collect t failed reply t.node_roles) i),
  λ e.
      a.arrives p (collect t failed reply t.node_roles)
        (Eligible-collect t failed reply t.node_roles p e e.is_replica),
)

ranks_total :
    (t : ClusterTopology) (p q : Position) → ranks_below t p q ≡ false → ranks_below t q p ≡ true
ranks_total t p q h = ground arith

ranks_trans :
    (t : ClusterTopology) (p q r : Position)
    → ranks_below t p q ≡ true
    → ranks_below t q r ≡ true
    → ranks_below t p r ≡ true
ranks_trans t p q r h k = ground arith

ranks_same : (t : ClusterTopology) (p : Position) → ranks_below t p p ≡ true
ranks_same t p = ground arith

rank_positions-max :
    (t : ClusterTopology) (ps : List Position) (best : Position)
    → rank_positions t ps ≡ some best
    → In best ps × All (λ q. ranks_below t q best ≡ true) ps
unfolding rank_positions
rank_positions-max t ps best h = (
  max_by-In (ranks_below t) ps best h,
  max_by-IsMax (ranks_below t) (ranks_total t) (ranks_trans t) (ranks_same t) ps best h,
)

pub picked_is_ranked :
    (a : Arrival) (t : ClusterTopology) (failed : String) (reply : Replies) (best : Position)
    → pick_live_candidate a t failed reply ≡ some best
    → rank_positions t (live_positions a t failed reply) ≡ some best
unfolding pick_live_candidate
picked_is_ranked a t failed reply best h = ground arith

-- The chosen candidate, if there is one, is an eligible standby with the position that it reported:
-- configured, not failed, not external, a replica, running and in recovery. No eligible standby
-- reported a higher position, or the same position with a higher priority.
pub pick_live_candidate_best :
    (a : Arrival) (t : ClusterTopology) (failed : String) (reply : Replies) (best : Position)
    → pick_live_candidate a t failed reply ≡ some best
    → Eligible t failed reply best
      × ((q : Position) → Eligible t failed reply q → ranks_below t q best ≡ true)
pick_live_candidate_best a t failed reply best h =
    let (i, top) =
      rank_positions-max t (live_positions a t failed reply) best
        (picked_is_ranked a t failed reply best h) in
    (
      (live_positions_iff a t failed reply best).0 i,
      λ q e.
          All-In (λ r. ranks_below t r best ≡ true) q (live_positions a t failed reply) top
            ((live_positions_iff a t failed reply q).1 e),
    )

-- Unless the replication mode is `sync_strict`, a candidate is chosen as soon as one standby is
-- eligible.
pub pick_live_candidate_finds :
    (a : Arrival) (t : ClusterTopology) (failed : String) (reply : Replies) (q : Position)
    → t.replication_mode ≢ sync_strict
    → Eligible t failed reply q
    → pick_live_candidate a t failed reply ≢ none
unfolding pick_live_candidate rank_positions
pick_live_candidate_finds a t failed reply q mode e h =
    let i = (live_positions_iff a t failed reply q).1 e in
    let no_max : max_by (ranks_below t) (live_positions a t failed reply) ≡ none = ground arith in
    subst (λ ps. In q ps) (max_by-none (ranks_below t) (live_positions a t failed reply) no_max) i
