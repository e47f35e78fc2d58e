-- ===== src/Proxy/Connection/Sent.antt =====
-- What has become of the messages of a connection, and where its next query is to go in terms of that:
-- pgcluster/src/proxy/connection.rs.
use pgcluster.Prelude.{
  ℕ, String, ◌≡◌, Bool, true, false, not, ◌&&◌, ◌||◌, Option, none, some, List, [], ◌∷◌, ◌==◌,
  if◌then◌else◌,
}
use pgcluster.Proxy.Session.{
  StatementIntent, write, read, set_local, idle, RouteTarget, primary, replica_or_primary,
  SessionState, transaction_byte, error_byte,
}
use pgcluster.Proxy.Router.{has_quorum}
use pgcluster.Proxy.Statement.{classify_statement}
use pgcluster.Proxy.Wire.{FrontendMessage, query, terminate, password_message}
use pgcluster.Proxy.Connection.{
  Backend, Connection, Surroundings, Outcome, answered, forwarded, lost, unsent, closed, is_primary,
  resolve_backend, handle_message,
}

-- The loop goes on after it.
abbrev pub goes_on : Outcome → Bool
goes_on (answered b byte) = true
goes_on (forwarded b) = true
goes_on (lost b) = false
goes_on unsent = true
goes_on closed = false

-- The message is one for a backend.
abbrev pub is_forwarded : FrontendMessage → Bool
is_forwarded terminate = false
is_forwarded (password_message bytes) = false
is_forwarded m = true

-- Where the message went.
abbrev pub destination : Outcome → Option Backend
destination (answered b byte) = some b
destination (forwarded b) = some b
destination (lost b) = some b
destination unsent = none
destination closed = none

-- The messages so far and what became of them, the latest first.
abbrev pub History : Type 0
History = List (FrontendMessage × Outcome)

-- The status byte reports an open or a failed transaction.
abbrev pub opens : ℕ → Bool
opens byte = byte == transaction_byte || byte == error_byte

-- The backend of the last message that was sent, unless it answered that no transaction is open.
unfoldable pub held : History → Option Backend
held [] = none
held ((m, answered b byte) ∷ es) = if opens byte then some b else none
held ((m, forwarded b) ∷ es) = some b
held ((m, lost b) ∷ es) = some b
held ((m, unsent) ∷ es) = held es
held ((m, closed) ∷ es) = held es

abbrev pub is_read : StatementIntent → Bool
is_read read = true
is_read write = false
is_read set_local = false

abbrev pub is_set : StatementIntent → Bool
is_set set_local = true
is_set read = false
is_set write = false

-- A session before its first statement.
abbrev pub IsNew : SessionState → Type 0
IsNew s0 = (s0.txn_state ≡ idle) × (s0.is_read_only ≡ false) × (s0.used_set ≡ false)

-- A backend of the router, unless it drains the primary's connections or the pool gives none.
abbrev pub fresh : Surroundings → RouteTarget → Option Backend
fresh s target =
    if s.router.draining && is_primary target
    then none
    else if s.acquires
    then resolve_backend s.router target
    else none

module _ (trim_upper : String → String) where
  abbrev pub is_set_query : FrontendMessage → Bool
  is_set_query (query sql) = is_set (classify_statement trim_upper sql)
  is_set_query m = false

  -- The client ran `SET` at some time.
  unfoldable pub ran_set : History → Bool
  ran_set [] = false
  ran_set ((m, o) ∷ es) = is_set_query m || ran_set es

  -- The histories of a connection that is open, and what the loop then keeps. The session is new.
  pub data Reached (s0 : SessionState) : History → Connection → Type 0 where
    start : Reached s0 [] (record { session = s0; current = none })
    next :
        {es : History} {c : Connection}
        → Reached s0 es c
        → (s : Surroundings) (m : FrontendMessage)
        → goes_on (handle_message trim_upper c s m).1 ≡ true
        → Reached s0
            ((m, (handle_message trim_upper c s m).1) ∷ es)
            (handle_message trim_upper c s m).0

  -- The target of a query for which no backend is held.
  abbrev pub wanted : History → String → RouteTarget
  wanted es sql =
      if is_read (classify_statement trim_upper sql) && not (ran_set es)
      then replica_or_primary
      else primary

  -- Where a message goes if no backend is held: one of the extended protocol to the primary.
  abbrev pub unheld : History → Surroundings → FrontendMessage → Option Backend
  unheld es s (query sql) = fresh s (wanted es sql)
  unheld es s m = if s.acquires then resolve_backend s.router primary else none

  -- Where a message goes after a history: nowhere without a quorum, to the backend that is held, or
  -- where it goes if none is.
  abbrev pub routed : History → Surroundings → FrontendMessage → Option Backend
  routed es s m =
      if has_quorum s.router s.now && is_forwarded m
      then elim (held es) [ some b ↦ some b | none ↦ unheld es s m ]
      else none
