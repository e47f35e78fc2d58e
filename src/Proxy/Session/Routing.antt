-- ===== src/Proxy/Session/Routing.antt =====
-- What a session asks for, in terms of what has passed on the connection.
use pgcluster.Prelude.{
  ℕ, ◌≡◌, refl, ◌↔◌, Bool, true, false, ◌||◌, none, List, [], ◌∷◌, arith, ◌==◌, any,
}
use pgcluster.Proxy.Session.{
  StatementIntent, write, read, set_local, idle, replica_or_primary, SessionState, new_session,
  transaction_byte, error_byte, update_from_ready_for_query, needs_primary, route_intent,
}

-- What changes the session: a `ReadyForQuery` of the backend, or a statement of the client.
pub data Event : Type 0 where
  ready : ℕ → Event
  statement : StatementIntent → Event

unfoldable pub after : SessionState → Event → SessionState
after s (ready byte) = update_from_ready_for_query s byte
after s (statement intent) = (route_intent s intent).0

-- The newest event is the head of the list.
unfoldable pub session_of : List Event → SessionState
session_of [] = new_session
session_of (e ∷ es) = after (session_of es) e

abbrev pub opens : ℕ → Bool
opens byte = byte == transaction_byte || byte == error_byte

-- The last `ReadyForQuery` said that a transaction is open.
unfoldable pub in_block : List Event → Bool
in_block [] = false
in_block (ready byte ∷ es) = opens byte
in_block (statement intent ∷ es) = in_block es

abbrev is_set : Event → Bool
is_set (ready byte) = false
is_set (statement write) = false
is_set (statement read) = false
is_set (statement set_local) = true

-- The client ran `SET` at some time.
unfoldable pub has_set : List Event → Bool
has_set es = any is_set es

unfoldable pub Tracks : SessionState → List Event → Type 0
Tracks s es = (s.is_read_only ≡ false) × (s.used_set ≡ has_set es) × (needs_primary s ≡ in_block es)

after-Tracks :
    (s : SessionState) (e : Event) (es : List Event) → Tracks s es → Tracks (after s e) (e ∷ es)
unfolding Tracks after has_set in_block update_from_ready_for_query route_intent needs_primary
after-Tracks s (ready byte) es (ro, set, block) = ground arith
after-Tracks s (statement write) es (ro, set, block) = ground arith
after-Tracks s (statement read) es (ro, set, block) = ground arith
after-Tracks s (statement set_local) es (ro, set, block) = ground arith

session_of-Tracks : (es : List Event) → Tracks (session_of es) es
unfolding session_of Tracks has_set in_block needs_primary
session_of-Tracks [] = (refl, refl, refl)
session_of-Tracks (e ∷ es) = after-Tracks (session_of es) e es (session_of-Tracks es)

-- After any sequence of statements of a client and `ReadyForQuery` bytes of the backend,
-- `route_intent` allows a replica exactly if the statement is a read, the last such byte did not
-- report an open or failed transaction, and the client has never run `SET`. The connection follows
-- it only where it holds no backend.
pub replica_allowed_iff :
    (es : List Event) (intent : StatementIntent)
    → ((route_intent (session_of es) intent).1 ≡ replica_or_primary)
      ↔ ((intent ≡ read) × (in_block es ≡ false) × (has_set es ≡ false))
unfolding route_intent Tracks
replica_allowed_iff es write = (λ h. ground arith, λ h. ground arith)
replica_allowed_iff es set_local = (λ h. ground arith, λ h. ground arith)
replica_allowed_iff es read =
    let (ro, set, block) = session_of-Tracks es in (λ h. ground arith, λ h. ground arith)

-- When a transaction ends, whatever the status byte, the session holds no backend.
pub unpinned_when_idle :
    (s : SessionState) (byte : ℕ)
    → opens byte ≡ false
    → ((update_from_ready_for_query s byte).txn_state ≡ idle)
      × ((update_from_ready_for_query s byte).pinned_backend ≡ none)
unfolding update_from_ready_for_query
unpinned_when_idle s byte h = ground arith
