-- ===== src/Proxy/Connection/Kept.antt =====
-- The loop of a connection keeps the backend and the session that its history gives:
-- pgcluster/src/proxy/connection.rs.
use pgcluster.Prelude.{
  ℕ, String, ◌≡◌, refl, inl, inr, Bool, true, false, not, ◌&&◌, ◌||◌, Option, none, some, ◌∷◌,
  arith, if◌then◌else◌, Bool-cases, Option-cases, if-case,
}
use pgcluster.Proxy.Session.{
  StatementIntent, write, read, set_local, idle, RouteTarget, SessionState,
  update_from_ready_for_query, route_intent,
}
use pgcluster.Proxy.Router.{has_quorum, primary_addr, primary_node_id}
use pgcluster.Proxy.Statement.{classify_statement}
use pgcluster.Proxy.Wire.{FrontendMessage, query, terminate, password_message}
use pgcluster.Proxy.Connection.{
  Backend, Connection, Surroundings, Outcome, answered, is_idle, is_primary, zip, resolve_backend,
  answers_now, refuse, exchange, pass_on, acquire, send_query, handle_query, send, send_extended,
  handle_extended, dispatch, is_terminate, handle_message,
}
use pgcluster.Proxy.Connection.Sent.{
  goes_on, History, held, is_set_query, ran_set, Reached, start, next, IsNew,
}

module _ (trim_upper : String → String) where
  -- What the loop keeps is what the history says.
  unfoldable pub Follows : Connection → History → Type 0
  Follows c es =
      (c.session.is_read_only ≡ false)
      × (c.session.used_set ≡ ran_set trim_upper es)
      × (c.current ≡ held es)
      × (held es ≡ none → c.session.txn_state ≡ idle)

  -- The connection once the message has changed the session, and before it is sent.
  Ready : FrontendMessage → History → Connection → Type 0
  Ready m es c =
      (c.session.is_read_only ≡ false)
      × (c.session.used_set ≡ (is_set_query trim_upper m || ran_set trim_upper es))
      × (c.current ≡ held es)
      × (held es ≡ none → c.session.txn_state ≡ idle)

  -- If the loop goes on after the message, then it follows the longer history.
  abbrev Kept : FrontendMessage → History → Connection × Outcome → Type 0
  Kept m es out = goes_on out.1 ≡ true → Follows out.0 ((m, out.1) ∷ es)

  answered-Follows :
      (m : FrontendMessage) (es : History) (c : Connection) (b : Backend) (byte : ℕ)
      → Ready m es c
      → Follows
          (record {
            session = update_from_ready_for_query c.session byte;
            current =
                (if is_idle (update_from_ready_for_query c.session byte).txn_state
                  then none
                  else some b);
          })
          ((m, answered b byte) ∷ es)
  unfolding Ready Follows held ran_set update_from_ready_for_query
  answered-Follows m es c b byte (ro, set, cur, free) = (
    ground (arith, ro),
    ground (arith, set),
    ground arith,
    λ none_held. ground (arith, none_held),
  )

  exchange-Kept :
      (m : FrontendMessage) (es : History) (c : Connection) (s : Surroundings) (b : Backend)
      → Ready m es c
      → Kept m es (exchange c s b)
  unfolding exchange Ready Follows held ran_set update_from_ready_for_query
  exchange-Kept m es c s b (ro, set, cur, free) go = elim (Option-cases s.reply) [
    | inl e ↦ absurd (ground (arith, e))
    | inr (byte, e) ↦ rw (e, exchange) (answered-Follows m es c b byte (ro, set, cur, free))
  ]

  pass_on-Kept :
      (m : FrontendMessage) (es : History) (c : Connection) (s : Surroundings) (b : Backend)
      → Ready m es c
      → Kept m es (pass_on c s b)
  unfolding pass_on Ready Follows held ran_set
  pass_on-Kept m es c s b (ro, set, cur, free) go = elim (Bool-cases s.backend_writes) [
    | inl k ↦ rw k (ro, set, refl, λ e. absurd (ground arith))
    | inr f ↦ absurd (ground (arith, f))
  ]

  refuse-Kept :
      (m : FrontendMessage) (es : History) (c : Connection) (s : Surroundings)
      → Ready m es c
      → Kept m es (refuse c s)
  unfolding Ready Follows held ran_set
  refuse-Kept m es c s (ro, set, cur, free) go = elim (Bool-cases s.client_writes) [
    | inl k ↦ rw k (ro, set, cur, free)
    | inr f ↦ absurd (ground (arith, f))
  ]

  acquire-Kept :
      (m : FrontendMessage) (es : History) (send : Backend → Connection × Outcome) (c : Connection)
      (s : Surroundings) (o : Option Backend)
      → Ready m es c
      → ((b : Backend) → Kept m es (send b))
      → Kept m es (acquire send c s o)
  acquire-Kept m es send c s none ready sends = refuse-Kept m es c s ready
  acquire-Kept m es send c s (some b) ready sends =
      if-case (Kept m es) s.acquires _ _ (sends b) (refuse-Kept m es c s ready)

  -- What `route_intent` leaves of the session.
  abbrev routed_session : Connection → StatementIntent → Connection
  routed_session c intent = record c { session = (route_intent c.session intent).0 }

  query-Ready :
      (es : History) (c : Connection) (sql : String) (intent : StatementIntent)
      → classify_statement trim_upper sql ≡ intent
      → Follows c es
      → Ready (query sql) es (routed_session c intent)
  unfolding Ready Follows route_intent
  query-Ready es c sql write e (ro, set, cur, free) = (refl, rw e set, cur, free)
  query-Ready es c sql set_local e (ro, set, cur, free) = (ro, rw e refl, cur, free)
  query-Ready es c sql read e (ro, set, cur, free) = (ro, rw e set, cur, free)

  send_query-Kept :
      (m : FrontendMessage) (es : History) (c : Connection) (s : Surroundings)
      (target : RouteTarget) (o : Option Backend)
      → Ready m es c
      → Kept m es (send_query c s target o)
  unfolding send_query
  send_query-Kept m es c s target (some b) ready = exchange-Kept m es c s b ready
  send_query-Kept m es c s target none ready =
      if-case (Kept m es) (s.router.draining && is_primary target) _ _
        (λ go. absurd (ground (arith, go)))
        (acquire-Kept m es (exchange c s) c s (resolve_backend s.router target) ready
          (λ b. exchange-Kept m es c s b ready))

  send-Kept :
      (m : FrontendMessage) (es : History) (c : Connection) (s : Surroundings) (answers : Bool)
      (b : Backend)
      → Ready m es c
      → Kept m es (send c s answers b)
  send-Kept m es c s answers b ready =
      if-case (Kept m es) answers _ _ (exchange-Kept m es c s b ready)
        (pass_on-Kept m es c s b ready)

  send_extended-Kept :
      (m : FrontendMessage) (es : History) (c : Connection) (s : Surroundings) (answers : Bool)
      (o : Option Backend)
      → Ready m es c
      → Kept m es (send_extended c s answers o)
  unfolding send_extended
  send_extended-Kept m es c s answers (some b) ready = send-Kept m es c s answers b ready
  send_extended-Kept m es c s answers none ready =
      acquire-Kept m es (send c s answers) c s
        (zip (primary_node_id s.router) (primary_addr s.router)) ready
        (λ b. send-Kept m es c s answers b ready)

  dispatch-Kept :
      (m : FrontendMessage) (es : History) (c : Connection) (s : Surroundings)
      → Follows c es
      → Kept m es (dispatch trim_upper c s m)
  unfolding dispatch handle_query handle_extended Ready Follows held ran_set
  dispatch-Kept terminate es c s f = λ go. absurd (ground (arith, go))
  dispatch-Kept (query sql) es c s f =
      let intent = classify_statement trim_upper sql in
      send_query-Kept (query sql) es (routed_session c intent) s (route_intent c.session intent).1
        c.current (query-Ready es c sql intent refl f)
  dispatch-Kept (password_message bytes) es c s f = λ go. f
  dispatch-Kept m es c s f = send_extended-Kept m es c s (answers_now m) c.current f

  handle_message-Kept :
      (m : FrontendMessage) (es : History) (c : Connection) (s : Surroundings)
      → Follows c es
      → Kept m es (handle_message trim_upper c s m)
  unfolding handle_message
  handle_message-Kept m es c s f =
      if-case (Kept m es) (not (has_quorum s.router s.now) && not (is_terminate m)) _ _
        (λ go. absurd (ground (arith, go))) (dispatch-Kept m es c s f)

  pub Reached-Follows :
      {s0 : SessionState} {es : History} {c : Connection}
      → IsNew s0
      → Reached trim_upper s0 es c
      → Follows c es
  unfolding Follows held ran_set
  Reached-Follows new start = (new.1, new.2, refl, λ e. new.0)
  Reached-Follows new (next {es} {c} r s m go) =
      handle_message-Kept m es c s (Reached-Follows new r) go
