-- ===== src/PrivHelper/Serving.antt =====
-- The accept loop of the privileged helper: `_handle` with its socket, and `serve`, of
-- src/diskless/priv_helper/server.py.
use diskless.Base.{
  ◌≡◌, refl, ap, map, ◌∙◌, Option, List, [], ◌∷◌, ◌++◌, Exn, Result, ok, raise, inl, inr,
  Result-cases,
}
use diskless.Machine.{Machine}
use diskless.PrivHelper.{Json, Request, Reply, result, error, perform, handle, reply_of}

-- A connection that is accepted: what `recv` and `json.loads` give, and what the two `sendall` of
-- `_handle` do.
pub record Conn : Type 0 where
  pub message : Result (Option Request)
  pub sends : Result (Unit {0})
  pub sends_error : Result (Unit {0})

-- The answers that reach the other side.
abbrev sent : Reply → Result (Unit {0}) → List Reply
sent reply (ok _) = reply ∷ []
sent reply (raise x) = []

module _ {K : Type 0} (os : Machine K) where
  -- `except Exception`: the answer with the error, whose own exception leaves `_handle`.
  unfoldable pub send_error : Conn → Exn → K → Result (Unit {0}) × List Reply × K
  send_error conn x k = (conn.sends_error, sent (error (os.str x)) conn.sends_error, k)

  unfoldable pub send_result : Conn → Result Json → K → Result (Unit {0}) × List Reply × K
  unfolding send_error
  send_result conn (raise x) k = send_error conn x k
  send_result conn (ok v) k = elim conn.sends [
    | ok _ ↦ (ok tt, result v ∷ [], k)
    | raise x ↦ send_error conn x k
  ]

  unfoldable pub handle_conn : Conn → K → Result (Unit {0}) × List Reply × K
  unfolding send_result
  handle_conn conn k = elim conn.message [
    | raise x ↦ send_error conn x k
    | ok req ↦ let (outcome, k') = perform os req k in send_result conn outcome k'
  ]

  -- The loop after a connection: what the rest comes to, unless an exception has ended it.
  unfoldable pub go_on :
      Result (Unit {0}) × List Reply × K
      → Result (Unit {0}) × List (List Reply) × K
      → Result (Unit {0}) × List (List Reply) × K
  go_on (raise x, replies, k) rest = (raise x, replies ∷ [], k)
  go_on (ok _, replies, k) (outcome, more, k') = (outcome, replies ∷ more, k')

  -- The loop over the connections as they come: what each was answered, and the exception that
  -- ended it, if any.
  unfoldable pub serve : List Conn → K → Result (Unit {0}) × List (List Reply) × K
  unfolding handle_conn go_on
  serve [] k = (ok tt, [], k)
  serve (conn ∷ conns) k = let handled = handle_conn conn k in go_on handled (serve conns handled.2)

  -- The answers of `_handle` to messages, one after the other.
  pub answered : List (Option Request) → K → List (List Reply) × K
  unfolding handle
  answered [] k = ([], k)
  answered (req ∷ reqs) k =
      let (reply, k') = handle os req k in
      let (rest, k'') = answered reqs k' in ((reply ∷ []) ∷ rest, k'')

-- A connection that stays.
abbrev pub staying : Option Request → Conn
staying req = record { message = ok req; sends = ok tt; sends_error = ok tt }

handle_conn-staying :
    {K : Type 0} (os : Machine K) (req : Option Request) (k : K)
    → handle_conn os (staying req) k ≡ (ok tt, (handle os req k).0 ∷ [], (handle os req k).1)
unfolding handle_conn send_result send_error handle reply_of
handle_conn-staying os req k = elim (Result-cases (perform os req k).0) [
  | inl (x, e) ↦ rw (handle_conn, handle, e, send_result, send_error, reply_of) refl
  | inr (v, e) ↦ rw (handle_conn, handle, e, send_result, reply_of) refl
]

handle_gone :
    {K : Type 0} (os : Machine K) (conn : Conn) (req : Option Request) (x y : Exn) (k : K)
    → conn.message ≡ ok req
    → conn.sends ≡ raise x
    → conn.sends_error ≡ raise y
    → handle_conn os conn k ≡ (raise y, [], (handle os req k).1)
unfolding handle_conn send_result send_error handle
handle_gone os conn req x y k given gone again = elim (Result-cases (perform os req k).0) [
  | inl (z, e) ↦ rw (handle_conn, given, e, send_result, send_error, again) refl
  | inr (v, e) ↦ rw (handle_conn, given, e, send_result, gone, send_error, again) refl
]

serve-answered :
    {K : Type 0} (os : Machine K) (reqs : List (Option Request)) (k : K)
    → serve os (map staying reqs) k ≡ (ok tt, (answered os reqs k).0, (answered os reqs k).1)
unfolding serve go_on answered
serve-answered os [] k = refl
serve-answered os (req ∷ reqs) k =
    ap (λ h. go_on os h (serve os (map staying reqs) h.2)) (handle_conn-staying os req k)
    ∙ ap (go_on os (ok tt, (handle os req k).0 ∷ [], (handle os req k).1))
        (serve-answered os reqs (handle os req k).1)

-- Connections that stay, before any others.
serve-staying :
    {K : Type 0} (os : Machine K) (reqs : List (Option Request)) (conns : List Conn) (k : K)
    → serve os (map staying reqs ++ conns) k ≡ (
      (serve os conns (answered os reqs k).1).0,
      (answered os reqs k).0 ++ (serve os conns (answered os reqs k).1).1,
      (serve os conns (answered os reqs k).1).2,
    )
unfolding serve go_on answered
serve-staying os [] conns k = refl
serve-staying os (req ∷ reqs) conns k =
    ap (λ h. go_on os h (serve os (map staying reqs ++ conns) h.2)) (handle_conn-staying os req k)
    ∙ ap (go_on os (ok tt, (handle os req k).0 ∷ [], (handle os req k).1))
        (serve-staying os reqs conns (handle os req k).1)

-- While connections stay, the loop goes on and answers each message, in order, as `_handle` does, with
-- one reply. A client behind them that is gone when its answer is sent, so that both attempts to send raise,
-- ends the loop: what its request does is done, it is answered nothing, and no connection behind it is
-- accepted.
pub serve_ends :
    {K : Type 0} (os : Machine K) (reqs : List (Option Request)) (conn : Conn) (conns : List Conn)
    (req : Option Request) (x y : Exn) (k : K)
    → conn.message ≡ ok req
    → conn.sends ≡ raise x
    → conn.sends_error ≡ raise y
    → (serve os (map staying reqs) k ≡ (ok tt, (answered os reqs k).0, (answered os reqs k).1))
      × (serve os (map staying reqs ++ conn ∷ conns) k
          ≡ (raise y, (answered os reqs k).0 ++ [] ∷ [], (handle os req (answered os reqs k).1).1))
unfolding serve go_on
serve_ends os reqs conn conns req x y k given gone again = (
  serve-answered os reqs k,
  serve-staying os reqs (conn ∷ conns) k
      ∙ ap
          (λ h. (
            (go_on os h (serve os conns h.2)).0,
            (answered os reqs k).0 ++ (go_on os h (serve os conns h.2)).1,
            (go_on os h (serve os conns h.2)).2,
          ))
          (handle_gone os conn req x y (answered os reqs k).1 given gone again),
)
