-- ===== src/Proxy/Connection.antt =====
-- The loop of a client's connection in pgcluster/src/proxy/connection.rs, `run`: one message, with
-- what the proxy finds when it handles it. `trim_upper` is `trim_start` and then `to_uppercase`.
pub mod Sent
pub mod Kept
pub mod Destination
use pgcluster.Prelude.{
  ℕ, zero, suc, ◌+◌, ◌-◌, ◌*◌, ◌/◌, ◌%◌, ◌^◌, ◌≤◌, ◌<◌, min, max, String, ◌≡◌, refl, sym, ap, subst,
  ◌∙◌, ◌≢◌, ◌↔◌, ◌⊎◌, inl, inr, Bool, true, false, not, ◌&&◌, ◌||◌, Option, none, some, List, [],
  ◌∷◌, ◌++◌, map, arith, str_eq, eq_iff, ltb, leb, ◌==◌, if◌then◌else◌, ltb→lt, lt→ltb, leb→le,
  le→leb, Bool-cases, Option-cases, is_some, unwrap_or, if-case, if-case_when, length, take, drop,
  filter, any, length-append, length-drop, length-filter-le, All, In, All-In, All-of-In, In-filter,
  In-filter-of, is_empty, sort_by, sort_by-IsSorted, In-sort_by, sort_by-In, IsSorted,
  length-sort_by, max_by, min_by, max_by-IsMax, max_by-In, min_by-IsMin, min_by-In, max_by-none,
  min_by-none, In-append, append-In, In-take, In-drop, In-split, take-append-drop, length-take,
  take-IsSorted, filter-IsSorted, take-le-drop, length-filter-and, length-filter_mono, Distinct,
  pigeonhole, length-Distinct-le, In-map, map-In, length-map, filter_map, In-filter_map,
  filter_map-In,
}
use pgcluster.Proxy.Session.{
  StatementIntent, write, read, set_local, TxnState, idle, in_transaction, failed, RouteTarget,
  primary, replica_or_primary, SessionState, update_from_ready_for_query, route_intent,
}
use pgcluster.Proxy.Router.{Router, has_quorum, primary_addr, primary_node_id, read_backend}
use pgcluster.Proxy.Statement.{classify_statement}
use pgcluster.Proxy.Wire.{
  FrontendMessage, query, parse, bind, execute, describe, sync, flush, close, terminate, copy_data,
  copy_done, copy_fail, password_message,
}

-- A node and its address.
abbrev pub Backend : Type 0
Backend = String × String

-- What the loop keeps: the session, and the backend it holds. The stream is left out of it.
pub record Connection : Type 0 where
  pub session : SessionState
  pub current : Option Backend

-- What a message meets: the router and the time, whether the pool gives a connection, whether an
-- error can be written to the client, whether the message can be written to the backend, and the
-- status byte of its `ReadyForQuery`, if that is read and passed on.
pub record Surroundings : Type 0 where
  pub router : Router
  pub now : ℕ
  pub acquires : Bool
  pub client_writes : Bool
  pub backend_writes : Bool
  pub reply : Option ℕ

-- What became of a message: it went to a backend, which answered with a status byte, or was not to
-- answer yet, or was lost, which ends the connection; it went nowhere; or the connection ended.
pub data Outcome : Type 0 where
  answered : Backend → ℕ → Outcome
  forwarded lost : Backend → Outcome
  unsent closed : Outcome

abbrev pub is_idle : TxnState → Bool
is_idle idle = true
is_idle in_transaction = false
is_idle failed = false

abbrev pub is_primary : RouteTarget → Bool
is_primary primary = true
is_primary replica_or_primary = false

abbrev pub zip : Option String → Option String → Option Backend
zip none b = none
zip (some a) none = none
zip (some a) (some b) = some (a, b)

unfoldable pub resolve_backend : Router → RouteTarget → Option Backend
resolve_backend r primary = zip (primary_node_id r) (primary_addr r)
resolve_backend r replica_or_primary = read_backend r

abbrev pub answers_now : FrontendMessage → Bool
answers_now sync = true
answers_now copy_done = true
answers_now (copy_fail reason) = true
answers_now m = false

-- An error is written, and the loop goes on.
abbrev pub refuse : Connection → Surroundings → Connection × Outcome
refuse c s = (c, if s.client_writes then unsent else closed)

-- `forward_and_pipe`, and what follows it.
unfoldable pub exchange : Connection → Surroundings → Backend → Connection × Outcome
exchange c s b = elim s.reply [
  | none ↦ (record c { current = some b }, lost b)
  | some byte ↦
      let session = update_from_ready_for_query c.session byte in
      (
        record { session = session; current = if is_idle session.txn_state then none else some b },
        answered b byte,
      )
]

unfoldable pub pass_on : Connection → Surroundings → Backend → Connection × Outcome
pass_on c s b = (record c { current = some b }, if s.backend_writes then forwarded b else lost b)

-- `ensure_backend` for a backend that is not held, and what follows it.
abbrev pub acquire :
    (Backend → Connection × Outcome)
    → Connection
    → Surroundings
    → Option Backend
    → Connection × Outcome
acquire send c s none = refuse c s
acquire send c s (some b) = if s.acquires then send b else refuse c s

-- A simple query for a target, with the backend that is held.
unfoldable pub send_query :
    Connection → Surroundings → RouteTarget → Option Backend → Connection × Outcome
unfolding exchange resolve_backend
send_query c s target (some b) = exchange c s b
send_query c s target none =
    if s.router.draining && is_primary target
    then (c, closed)
    else acquire (exchange c s) c s (resolve_backend s.router target)

-- A simple query of an intent.
unfoldable pub handle_query : Connection → Surroundings → StatementIntent → Connection × Outcome
unfolding send_query
handle_query c s intent =
    let (session, target) = route_intent c.session intent in
    send_query (record c { session = session }) s target c.current

-- A message is sent to a backend, whose answer is waited for or not.
abbrev pub send : Connection → Surroundings → Bool → Backend → Connection × Outcome
send c s answers b = if answers then exchange c s b else pass_on c s b

-- A message of the extended protocol, with the backend that is held.
unfoldable pub send_extended :
    Connection → Surroundings → Bool → Option Backend → Connection × Outcome
unfolding exchange pass_on
send_extended c s answers (some b) = send c s answers b
send_extended c s answers none =
    acquire (send c s answers) c s (zip (primary_node_id s.router) (primary_addr s.router))

unfoldable pub handle_extended : Connection → Surroundings → Bool → Connection × Outcome
unfolding send_extended
handle_extended c s answers = send_extended c s answers c.current

-- The `match` of the loop.
unfoldable pub dispatch :
    (String → String) → Connection → Surroundings → FrontendMessage → Connection × Outcome
unfolding handle_query handle_extended classify_statement
dispatch trim_upper c s terminate = (c, closed)
dispatch trim_upper c s (query sql) = handle_query c s (classify_statement trim_upper sql)
dispatch trim_upper c s (password_message bytes) = (c, unsent)
dispatch trim_upper c s m = handle_extended c s (answers_now m)

abbrev pub is_terminate : FrontendMessage → Bool
is_terminate terminate = true
is_terminate m = false

unfoldable pub handle_message :
    (String → String) → Connection → Surroundings → FrontendMessage → Connection × Outcome
unfolding dispatch
handle_message trim_upper c s m =
    if not (has_quorum s.router s.now) && not (is_terminate m)
    then (c, closed)
    else dispatch trim_upper c s m
