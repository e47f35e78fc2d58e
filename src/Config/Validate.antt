-- ===== src/Config/Validate.antt =====
-- The checks of pgcluster/src/config/validate.rs. An error is named by what is wrong; its text is left
-- out. Arithmetic on `u64` wraps, as in a release build.
pub mod Accepted
pub mod Timing
use pgcluster.Prelude.{
  ℕ, zero, suc, ◌+◌, ◌-◌, ◌*◌, ◌/◌, ◌%◌, ◌^◌, ◌≤◌, ◌<◌, min, max, String, ◌≡◌, refl, sym, ap, subst,
  ◌∙◌, ◌≢◌, ◌↔◌, ◌⊎◌, inl, inr, Bool, true, false, not, ◌&&◌, ◌||◌, Option, none, some, List, [],
  ◌∷◌, ◌++◌, map, arith, str_eq, eq_iff, ltb, leb, ◌==◌, if◌then◌else◌, ltb→lt, lt→ltb, leb→le,
  le→leb, Bool-cases, Option-cases, is_some, unwrap_or, if-case, if-case_when, length, take, drop,
  filter, any, length-append, length-drop, length-filter-le, All, In, All-In, All-of-In, In-filter,
  In-filter-of, is_empty, sort_by, sort_by-IsSorted, In-sort_by, sort_by-In, IsSorted,
  length-sort_by, max_by, min_by, max_by-IsMax, max_by-In, min_by-IsMin, min_by-In, max_by-none,
  min_by-none, In-append, append-In, In-take, In-drop, In-split, take-append-drop, length-take,
  take-IsSorted, filter-IsSorted, take-le-drop, length-filter-and, length-filter_mono, Distinct,
  pigeonhole, In-map, map-In, length-map, filter_map, In-filter_map, filter_map-In,
}
use Prim.Native.String.{String, [] as nil, ◌∷◌ as ◌∷s◌}
use Prim.Native.Char.{code}
use text.Mathlib.Text.{starts_with}
use pgcluster.Text.{rsplit_colon, parse_uint}
use pgcluster.Raft.Topology.{ReplicationMode, async, sync, sync_strict}
use pgcluster.Config.{PgClusterConfig, RaftPeer, NodeEntry, S3Config, BackupConfig}

pub data ConfigError : Type 0 where
  empty_name empty_data_dir no_peers node_id_not_a_peer duplicate_peers bad_peer_addr : ConfigError
  short_election_timeout empty_node_id duplicate_node_id bad_bind_address bad_node_addr :
      ConfigError
  needs_standby zero_degrade_timeout zero_wal_keep_size empty_auth_user bad_cidr : ConfigError
  tls_without_certificates zero_limit short_lease long_lease short_heartbeat_timeout : ConfigError
  certificates_and_plaintext missing_certificates empty_api_key no_api_key : ConfigError
  key_and_no_auth empty_bucket relative_path two_or_no_stores zero_interval zero_retain :
      ConfigError

-- `none` for `Ok(())`.
abbrev pub Checked : Type 0
Checked = Option ConfigError

-- One check after another, the first error wins.
infixr 5 ◌then◌
abbrev pub ◌then◌ : Checked → Checked → Checked
none then c = c
(some e) then c = some e

-- `if bad { bail!(…) }`
abbrev pub refuse : Bool → ConfigError → Checked
refuse true e = some e
refuse false e = none

-- std's and ipnet's parsers, and `char::is_whitespace` by the number of the character.
pub record Parsers : Type 0 where
  pub is_socket_addr : String → Bool
  pub is_net : String → Bool
  pub is_whitespace : ℕ → Bool

abbrev pub u64_mod : ℕ
u64_mod = 2 ^ 64

-- `MIN_QUORUM_LEASE_MS`
abbrev pub min_quorum_lease_ms : ℕ
min_quorum_lease_ms = 200

-- Whether `parse_host_port` accepts the address.
unfoldable pub parse_host_port : String → Bool
parse_host_port s = elim (rsplit_colon s) [
  | none ↦ false
  | some (host, port) ↦ not (is_empty host) && is_some (parse_uint (2 ^ 16) port)
]

-- `k.trim().is_empty()`
abbrev pub is_blank : Parsers → String → Bool
is_blank ps nil = true
is_blank ps (c ∷s s) = let rest = is_blank ps s in ps.is_whitespace (code c) && rest

abbrev pub has_id : ℕ → List ℕ → Bool
has_id n ids = any (λ m. m == n) ids

-- A `HashSet` of the ids: each stands in it once.
abbrev pub id_set : List ℕ → List ℕ
id_set [] = []
id_set (n ∷ ids) = let rest = id_set ids in if has_id n ids then rest else n ∷ rest

unfoldable pub validate_cluster : PgClusterConfig → Checked
validate_cluster cfg =
    refuse (is_empty cfg.cluster.name) empty_name
    then refuse (is_empty cfg.cluster.data_dir) empty_data_dir

abbrev pub is_nil : {A : Type 0} → List A → Bool
is_nil [] = true
is_nil (x ∷ xs) = false

unfoldable pub validate_raft : PgClusterConfig → Checked
validate_raft cfg =
    let ids = map (λ (p : RaftPeer). p.id) cfg.raft.peers in
    refuse (is_nil cfg.raft.peers) no_peers
    then refuse (not (has_id cfg.raft.node_id (id_set ids))) node_id_not_a_peer
    then refuse (not (length (id_set ids) == length cfg.raft.peers)) duplicate_peers
    then refuse (any (λ (p : RaftPeer). not (parse_host_port p.addr)) cfg.raft.peers) bad_peer_addr
    then refuse (ltb cfg.raft.election_timeout_ms (cfg.raft.heartbeat_interval_ms * 2 % u64_mod))
        short_election_timeout

-- The loop of `validate_nodes`, with the ids that were seen.
unfoldable pub check_nodes : List String → List NodeEntry → Checked
check_nodes seen [] = none
check_nodes seen (n ∷ ns) =
    let rest = check_nodes (n.id ∷ seen) ns in
    refuse (is_empty n.id) empty_node_id
    then refuse (any (λ s. str_eq s n.id) seen) duplicate_node_id
    then rest

unfoldable pub validate_nodes : PgClusterConfig → Checked
validate_nodes cfg = check_nodes [] cfg.nodes

unfoldable pub validate_addresses : Parsers → PgClusterConfig → Checked
validate_addresses ps cfg =
    refuse
      (any (λ addr. not (ps.is_socket_addr addr))
        (cfg.proxy.listen_addr ∷ cfg.proxy.admin_listen_addr ∷ cfg.proxy.health_listen_addr
          ∷ cfg.metrics_addr ∷ cfg.api.listen_addr ∷ []))
      bad_bind_address
    then refuse
        (any
          (λ (n : NodeEntry).
            not (parse_host_port n.postgres_addr) || not (parse_host_port n.agent_addr))
          cfg.nodes)
        bad_node_addr

abbrev pub is_async : ReplicationMode → Bool
is_async async = true
is_async sync = false
is_async sync_strict = false

unfoldable pub validate_replication : PgClusterConfig → Checked
validate_replication cfg =
    refuse (not (is_async cfg.replication.replication_mode) && ltb (length cfg.nodes) 2)
      needs_standby
    then refuse (cfg.replication.sync_degrade_timeout_seconds == 0) zero_degrade_timeout
    then refuse (cfg.replication.max_slot_wal_keep_size_mb == 0) zero_wal_keep_size

-- `Allowlist::parse(cidrs).is_err()`
abbrev pub has_bad_net : Parsers → Option (List String) → Bool
has_bad_net ps none = false
has_bad_net ps (some cidrs) = any (λ c. not (ps.is_net c)) cidrs

unfoldable pub validate_timing : Parsers → PgClusterConfig → Checked
validate_timing ps cfg =
    let f = cfg.failover in
    let p = cfg.proxy in
    let detection =
      f.health_check_interval_ms * f.health_check_failures_before_failover % u64_mod in
    let needed =
      (cfg.raft.election_timeout_ms * 2 % u64_mod + f.health_check_interval_ms) % u64_mod in
    let heartbeat_timeout = f.agent_heartbeat_timeout_seconds * 1000 % u64_mod in
    refuse (is_empty p.auth_user) empty_auth_user
    then refuse (has_bad_net ps p.allowed_cidrs) bad_cidr
    then refuse (p.require_tls && cfg.tls.insecure_plaintext) tls_without_certificates
    then refuse
        ((p.max_client_connections == 0)
          || (p.max_pending_logins == 0)
          || (p.max_pending_logins_per_address == 0)
          || (p.login_timeout_ms == 0))
        zero_limit
    then refuse (ltb p.quorum_lease_ms min_quorum_lease_ms) short_lease
    then refuse (leb detection p.quorum_lease_ms) long_lease
    then refuse (leb heartbeat_timeout needed) short_heartbeat_timeout

unfoldable pub validate_tls : PgClusterConfig → Checked
validate_tls cfg =
    let t = cfg.tls in
    if t.insecure_plaintext
    then refuse (is_some t.ca_cert || is_some t.cert || is_some t.key) certificates_and_plaintext
    else refuse (not (is_some t.ca_cert && is_some t.cert && is_some t.key)) missing_certificates

unfoldable pub validate_api : Parsers → PgClusterConfig → Checked
validate_api ps cfg =
    refuse (any (is_blank ps) cfg.api.api_keys) empty_api_key
    then refuse (is_nil cfg.api.api_keys && not cfg.api.insecure_no_auth) no_api_key
    then refuse (not (is_nil cfg.api.api_keys) && cfg.api.insecure_no_auth) key_and_no_auth

-- The `match` on the two stores.
abbrev pub check_stores : Option S3Config → Option String → Checked
check_stores (some s3) none = refuse (is_empty s3.bucket) empty_bucket
check_stores none (some path) = refuse (not (starts_with path "/")) relative_path
check_stores none none = some two_or_no_stores
check_stores (some s3) (some path) = some two_or_no_stores

abbrev check_backup : BackupConfig → Checked
check_backup b =
    check_stores b.s3 b.posix
    then refuse (b.interval_seconds == 0) zero_interval
    then refuse (b.retain_full == 0) zero_retain

unfoldable pub validate_backup : PgClusterConfig → Checked
validate_backup cfg = elim cfg.backup [ none ↦ none | some b ↦ check_backup b ]

unfoldable pub validate : Parsers → PgClusterConfig → Checked
validate ps cfg =
    validate_cluster cfg
    then validate_raft cfg
    then validate_nodes cfg
    then validate_addresses ps cfg
    then validate_replication cfg
    then validate_timing ps cfg
    then validate_tls cfg
    then validate_api ps cfg
    then validate_backup cfg
