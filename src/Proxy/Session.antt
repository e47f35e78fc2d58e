-- ===== src/Proxy/Session.antt =====
-- pgcluster/src/proxy/session.rs, and the intents of protocol.rs. A status byte is a number.
pub mod Routing
use pgcluster.Prelude.{
  ℕ, zero, suc, ◌+◌, ◌-◌, ◌*◌, ◌/◌, ◌%◌, ◌^◌, ◌≤◌, ◌<◌, min, max, String, ◌≡◌, refl, sym, ap, subst,
  ◌∙◌, ◌≢◌, ◌↔◌, ◌⊎◌, inl, inr, Bool, true, false, not, ◌&&◌, ◌||◌, Option, none, some, List, [],
  ◌∷◌, ◌++◌, map, arith, str_eq, eq_iff, ltb, leb, ◌==◌, if◌then◌else◌, ltb→lt, lt→ltb, leb→le,
  le→leb, Bool-cases, Option-cases, is_some, unwrap_or, length, take, drop, filter, any,
  length-append, length-drop, length-filter-le, All, In, All-In, All-of-In, In-filter, In-filter-of,
  is_empty, sort_by, sort_by-IsSorted, In-sort_by, sort_by-In, IsSorted, length-sort_by, max_by,
  min_by, max_by-IsMax, max_by-In, min_by-IsMin, min_by-In, max_by-none, min_by-none, In-append,
  append-In, In-take, In-drop, In-split, take-append-drop, length-take, take-IsSorted,
  filter-IsSorted, take-le-drop, length-filter-and, length-filter_mono, Distinct, pigeonhole,
  In-map, map-In, length-map, filter_map, In-filter_map, filter_map-In,
}
use pgcluster.Dict.{
  Dict, get, insert, remove, or_insert, contains_key, IsMap, get-insert, get-remove, get-or_insert,
  insert-IsMap, remove-IsMap, or_insert-IsMap, In-get, get-In,
}

pub data StatementIntent : Type 0 where
  write read set_local : StatementIntent

pub data TxnState : Type 0 where
  idle in_transaction failed : TxnState

pub data RouteTarget : Type 0 where
  primary replica_or_primary : RouteTarget

pub record SessionState : Type 0 where
  pub txn_state : TxnState
  pub is_read_only : Bool
  pub database : String
  pub user : String
  pub application_name : String
  pub set_vars : Dict String
  pub shard_key : Option String
  pub used_set : Bool
  pub pinned_backend : Option String

-- `SessionState::default()`
abbrev pub new_session : SessionState
new_session = record {
  txn_state = idle;
  is_read_only = false;
  database = "";
  user = "";
  application_name = "";
  set_vars = [];
  shard_key = none;
  used_set = false;
  pinned_backend = none;
}

-- The bytes `I`, `T` and `E`.
abbrev pub idle_byte : ℕ
idle_byte = 73

abbrev pub transaction_byte : ℕ
transaction_byte = 84

abbrev pub error_byte : ℕ
error_byte = 69

unfoldable pub update_from_ready_for_query : SessionState → ℕ → SessionState
update_from_ready_for_query s status_byte =
    if status_byte == idle_byte
    then record s { txn_state = idle; is_read_only = false; pinned_backend = none }
    else if status_byte == transaction_byte
    then record s { txn_state = in_transaction }
    else if status_byte == error_byte
    then record s { txn_state = failed }
    else record s { txn_state = idle; pinned_backend = none }

unfoldable pub needs_primary : SessionState → Bool
needs_primary s = elim s.txn_state [
  | idle ↦ false
  | in_transaction ↦ not s.is_read_only
  | failed ↦ true
]

unfoldable pub route_intent : SessionState → StatementIntent → SessionState × RouteTarget
unfolding needs_primary
route_intent s write = (record s { is_read_only = false }, primary)
route_intent s set_local = (record s { used_set = true }, primary)
route_intent s read = (s, if needs_primary s || s.used_set then primary else replica_or_primary)
