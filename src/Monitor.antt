-- ===== src/Monitor.antt =====
-- The session monitor: src/diskless/bootd/websocket.py, and `poll_and_broadcast` of
-- src/diskless/bootd/main.py. A connection is a number; a message is the rows whose JSON is sent.
pub mod Broadcast
use diskless.Base.{
  ℕ, Bool, true, false, ◌&&◌, ◌||◌, List, [], ◌∷◌, ◌++◌, map, Text, eqb, ltb, if◌then◌else◌,
  contains, nat_eq,
}
use diskless.Database.{Database, ActiveSession, delete}

-- `SessionMonitorFactory`: its set of clients as a list without repetition.
pub record SessionMonitorFactory : Type 0 where
  pub clients : List ℕ

unfoldable pub register : ℕ → SessionMonitorFactory → SessionMonitorFactory
register client f =
    if contains f.clients client then f else record f { clients = f.clients ++ client ∷ [] }

unfoldable pub unregister : ℕ → SessionMonitorFactory → SessionMonitorFactory
unregister client f = record f { clients = delete (λ c. eqb c client) f.clients }

-- What each `sendMessage` is given.
unfoldable pub broadcast :
    List ActiveSession → SessionMonitorFactory → List (ℕ × List ActiveSession)
broadcast sessions f = map (λ client. (client, sessions)) f.clients

-- `onOpen` and `onClose` of a connection's protocol
pub data Connection : Type 0 where
  opened closed : ℕ → Connection

unfoldable pub connect : Connection → SessionMonitorFactory → SessionMonitorFactory
unfolding register unregister
connect (opened client) f = register client f
connect (closed client) f = unregister client f

-- SQLite compares texts by their bytes.
unfoldable pub is_before : Text → Text → Bool
is_before [] t = true
is_before (c ∷ s) [] = false
is_before (c ∷ s) (d ∷ t) = ltb c d || (eqb c d && is_before s t)

unfoldable pub put : ActiveSession → List ActiveSession → List ActiveSession
unfolding is_before
put row [] = row ∷ []
put row (r ∷ rows) =
    let rest = put row rows in
    if is_before row.started_at r.started_at then row ∷ r ∷ rows else r ∷ rest

-- `ORDER BY started_at`
unfoldable pub by_start : List ActiveSession → List ActiveSession
unfolding put
by_start [] = []
by_start (row ∷ rows) = put row (by_start rows)

unfoldable pub poll_and_broadcast : Database → SessionMonitorFactory → List (ℕ × List ActiveSession)
unfolding broadcast by_start
poll_and_broadcast db f = broadcast (by_start db.active_session) f
