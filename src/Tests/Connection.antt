-- ===== src/Tests/Connection.antt =====
-- A connection whose read-only transaction runs on the replica `c`.
use pgcluster.Prelude.{String, ◌≡◌, refl, true, false, none, some, [], ◌∷◌, sort_by}
use pgcluster.Proxy.Session.{new_session, transaction_byte, route_intent, needs_primary}
use pgcluster.Proxy.Router.{
  Router, has_quorum, read_backend, best_replica_addr, read_candidates, read_candidate, lag_of,
}
use pgcluster.Proxy.Statement.{classify_statement}
use pgcluster.Proxy.Wire.{query}
use pgcluster.Proxy.Connection.{
  Connection, Surroundings, Outcome, handle_message, dispatch, handle_query, send_query, exchange,
  resolve_backend,
}
use pgcluster.Proxy.Connection.Sent.{routed, held, ran_set}
use pgcluster.Tests.Data.{cluster}

abbrev router : Router
router = record {
  topology = record cluster { replica_lag_bytes = ("b", 7) ∷ ("c", 3) ∷ [] };
  enabled = true;
  max_replica_lag_bytes = 5;
  draining = false;
  quorum = none;
}

-- A message met in a transaction.
abbrev in_block : Surroundings
in_block = record {
  router = router;
  now = 0;
  acquires = true;
  client_writes = true;
  backend_writes = true;
  reply = some transaction_byte;
}

-- The statements are in capitals and without a space in front.
abbrev as_it_is : String → String
as_it_is sql = sql

abbrev opened : Connection
opened = record { session = new_session; current = none }

abbrev begin : Connection × Outcome
begin = handle_message as_it_is opened in_block (query "BEGIN READ ONLY")

-- The read in the block goes to the replica.
stays_on_c :
    routed as_it_is ((query "BEGIN READ ONLY", begin.1) ∷ []) in_block (query "SELECT 1")
    ≡ some ("c", "c")
unfolding handle_message dispatch handle_query send_query exchange resolve_backend has_quorum
    classify_statement route_intent needs_primary read_backend best_replica_addr read_candidates
    read_candidate lag_of sort_by held ran_set
stays_on_c = refl
