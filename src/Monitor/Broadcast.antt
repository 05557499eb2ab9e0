-- ===== src/Monitor/Broadcast.antt =====
-- Who hears of the sessions, and of which.
use mathlib.Core.List.{Perm}
use mathlib.Core.List.Perm
use diskless.Base.{
  ℕ, ◌≡◌, refl, sym, Bool, true, false, ◌||◌, List, [], ◌∷◌, ◌++◌, map, arith, Text, eqb,
  if◌then◌else◌, contains, nat_eq, inl, inr, Bool-cases,
}
use diskless.Database.{Database, ActiveSession, delete}
use diskless.Monitor.{
  SessionMonitorFactory, register, unregister, broadcast, Connection, opened, closed, connect,
  is_before, put, by_start, poll_and_broadcast,
}

-- The connections, one after the other.
pub connects : List Connection → SessionMonitorFactory → SessionMonitorFactory
connects [] f = f
connects (e ∷ es) f = connects es (connect e f)

-- Whether a connection is open after what has happened to it.
pub is_open : List Connection → ℕ → Bool → Bool
is_open [] c before = before
is_open (opened d ∷ es) c before = is_open es c (if eqb c d then true else before)
is_open (closed d ∷ es) c before = is_open es c (if eqb c d then false else before)

-- No connection is listed twice.
abbrev pub Once : List ℕ → Type 0
Once [] = Unit
Once (c ∷ cs) = (contains cs c ≡ false) × Once cs

contains-append : (cs : List ℕ) (c d : ℕ) → contains (cs ++ d ∷ []) c ≡ (contains cs c || eqb c d)
unfolding contains nat_eq
contains-append [] c d = ground arith
contains-append (x ∷ cs) c d = ground (arith, contains-append cs c d)

contains-delete :
    (cs : List ℕ) (c d : ℕ)
    → contains (delete (λ x. eqb x d) cs) c ≡ (if eqb c d then false else contains cs c)
unfolding contains delete nat_eq
contains-delete [] c d = ground arith
contains-delete (x ∷ cs) c d = ground (arith, contains-delete cs c d)

append-Once : (cs : List ℕ) (d : ℕ) → contains cs d ≡ false → Once cs → Once (cs ++ d ∷ [])
unfolding contains nat_eq
append-Once [] d new h = (refl, tt)
append-Once (x ∷ cs) d new h = (
  rw (contains-append cs x d) (ground (arith, h.0, new)),
  append-Once cs d (ground (arith, new)) h.1,
)

delete-Once : (cs : List ℕ) (d : ℕ) → Once cs → Once (delete (λ x. eqb x d) cs)
unfolding delete
delete-Once [] d h = tt
delete-Once (x ∷ cs) d h = elim (Bool-cases (eqb x d)) [
  | inl gone ↦ rw (gone, delete) (delete-Once cs d h.1)
  | inr stays ↦ rw (stays, delete) (rw (contains-delete cs x d, stays) h.0, delete-Once cs d h.1)
]

connect-Once :
    (e : Connection) (f : SessionMonitorFactory) → Once f.clients → Once (connect e f).clients
unfolding connect register unregister
connect-Once (opened d) f h = elim (Bool-cases (contains f.clients d)) [
  | inl known ↦ rw (known, register) h
  | inr new ↦ rw (new, register) (append-Once f.clients d new h)
]
connect-Once (closed d) f h = delete-Once f.clients d h

contains-connect :
    (e : Connection) (c : ℕ) (f : SessionMonitorFactory)
    → contains (connect e f).clients c ≡ is_open (e ∷ []) c (contains f.clients c)
unfolding connect register unregister is_open
contains-connect (opened d) c f = ground (arith, contains-append f.clients c d)
contains-connect (closed d) c f = contains-delete f.clients c d

is_open_again :
    (e : Connection) (es : List Connection) (c : ℕ) (before : Bool)
    → is_open (e ∷ es) c before ≡ is_open es c (is_open (e ∷ []) c before)
unfolding is_open
is_open_again (opened d) es c before = refl
is_open_again (closed d) es c before = refl

connected :
    (es : List Connection) (f : SessionMonitorFactory)
    → Once f.clients
    → Once (connects es f).clients
      × ((c : ℕ) → contains (connects es f).clients c ≡ is_open es c (contains f.clients c))
unfolding connects is_open
connected [] f h = (h, λ c. refl)
connected (e ∷ es) f h =
    let (once, reached) = connected es (connect e f) (connect-Once e f h) in
    (
      once,
      λ c.
          rw (reached c, contains-connect e c f)
            (sym (is_open_again e es c (contains f.clients c))),
    )

put-Perm : (row : ActiveSession) (rows : List ActiveSession) → Perm (row ∷ rows) (put row rows)
unfolding put
put-Perm row [] = Perm.rfl
put-Perm row (r ∷ rows) = elim (Bool-cases (is_before row.started_at r.started_at)) [
  | inl first ↦ rw (first, put) Perm.rfl
  | inr later ↦
      rw (later, put) (Perm.trans (Perm.swap r row rows) (Perm.cons r (put-Perm row rows)))
]

by_start-Perm : (rows : List ActiveSession) → Perm rows (by_start rows)
unfolding by_start
by_start-Perm [] = Perm.nil
by_start-Perm (row ∷ rows) =
    Perm.trans (Perm.cons row (by_start-Perm rows)) (put-Perm row (by_start rows))

-- The first of some rows is not before a row.
abbrev pub Starts : ActiveSession → List ActiveSession → Type 0
Starts row [] = Unit
Starts row (r ∷ rows) = is_before row.started_at r.started_at ≡ true

abbrev pub Ordered : List ActiveSession → Type 0
Ordered [] = Unit
Ordered (row ∷ rows) = Starts row rows × Ordered rows

before_or_after : (s t : Text) → is_before s t ≡ false → is_before t s ≡ true
unfolding is_before
before_or_after [] t h = ground arith
before_or_after (c ∷ s) [] h = refl
before_or_after (c ∷ s) (d ∷ t) h = ground (arith, before_or_after s t)

Starts-put :
    (r row : ActiveSession) (rows : List ActiveSession)
    → Starts r rows
    → is_before row.started_at r.started_at ≡ false
    → Starts r (put row rows)
unfolding put
Starts-put r row [] h later = before_or_after row.started_at r.started_at later
Starts-put r row (q ∷ rows) h later = elim (Bool-cases (is_before row.started_at q.started_at)) [
  | inl first ↦ rw (first, put) (before_or_after row.started_at r.started_at later)
  | inr second ↦ rw (second, put) h
]

put-Ordered :
    (row : ActiveSession) (rows : List ActiveSession) → Ordered rows → Ordered (put row rows)
unfolding put
put-Ordered row [] h = (tt, tt)
put-Ordered row (r ∷ rows) h = elim (Bool-cases (is_before row.started_at r.started_at)) [
  | inl first ↦ rw (first, put) (first, h)
  | inr later ↦ rw (later, put) (Starts-put r row rows h.0 later, put-Ordered row rows h.1)
]

by_start-Ordered : (rows : List ActiveSession) → Ordered (by_start rows)
unfolding by_start
by_start-Ordered [] = tt
by_start-Ordered (row ∷ rows) = put-Ordered row (by_start rows) (by_start-Ordered rows)

-- The messages to one connection.
pub heard : ℕ → List (ℕ × List ActiveSession) → List (List ActiveSession)
heard c [] = []
heard c ((d, rows) ∷ messages) =
    let rest = heard c messages in if eqb c d then rows ∷ rest else rest

heard_none :
    (c : ℕ) (rows : List ActiveSession) (cs : List ℕ)
    → contains cs c ≡ false
    → heard c (map (λ client. (client, rows)) cs) ≡ []
unfolding heard contains nat_eq
heard_none c rows [] h = refl
heard_none c rows (d ∷ cs) h = ground (arith, heard_none c rows cs)

heard_single :
    (c : ℕ) (rows : List ActiveSession) (cs : List ℕ)
    → Once cs
    → heard c (map (λ client. (client, rows)) cs) ≡ (if contains cs c then rows ∷ [] else [])
unfolding heard contains nat_eq
heard_single c rows [] h = refl
heard_single c rows (d ∷ cs) h =
    ground (arith, heard_single c rows cs h.1, heard_none c rows cs, h.0)

-- After any connections and disconnections from a factory with no client, a poll sends one message to every
-- connection that is open and none to any other; each message has exactly the rows of
-- `active_session`, in the order of their start.
pub poll_reaches :
    (es : List Connection) (db : Database) (c : ℕ)
    → (heard c (poll_and_broadcast db (connects es (record { clients = [] })))
        ≡ (if is_open es c false then by_start db.active_session ∷ [] else []))
      × Perm db.active_session (by_start db.active_session)
      × Ordered (by_start db.active_session)
unfolding poll_and_broadcast broadcast contains
poll_reaches es db c =
    let (once, reached) = connected es (record { clients = [] }) tt in
    (
      rw
          (
            heard_single c (by_start db.active_session)
                (connects es (record { clients = [] })).clients once,
            reached c,
          )
          refl,
      by_start-Perm db.active_session,
      by_start-Ordered db.active_session,
    )
