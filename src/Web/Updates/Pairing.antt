-- ===== src/Web/Updates/Pairing.antt =====
-- Starting and finishing an update keep sessions and locks paired, and a finish gives the lock back.
use diskless.Base.{
  ℕ, ◌≡◌, refl, true, false, none, some, List, arith, Text, codes, Result, ok, raise, ◌==◌, list_eq,
  nat_eq, eq_refl, eqb, eqb→eq, inl, inr, Bool-cases, Option-cases,
}
use diskless.Base.Dict.{lookup, insert, erase, has_key, lookup-insert, lookup-erase}
use diskless.Config.{Config}
use diskless.Machine.{Machine}
use diskless.Orchestration.Lock
use diskless.Orchestration.Lock.Holding.{
  is_locked-acquire, is_locked-acquire_self, is_locked-release_ne, is_locked-release,
}
use diskless.Orchestration.Lock.Keys.{acquire-IsKeyed, release-IsKeyed, was_free}
use diskless.Orchestration.Session.{Session}
use diskless.Orchestration.Lifecycle.{start_session, end_session}
use diskless.Orchestration.Lifecycle.Profiles.{start_session-Same, end_session-Same}
use diskless.Web.{Args, WebSession, World, verify_csrf, checked_cases}
use diskless.Web.Pairing.{IsPaired, same_rows, keep_pairs, same_pairs}
use diskless.Web.Updates.{
  Running, Form, host_of, with_host, with_db, started, popped, begin_update, acquired, update_with,
  start_update_session, finish_with, finish_session, finish_update_session, form, admin_binding,
  admin_iqn, action_of,
}

-- Sessions and locks after a release of the lock of a profile that is edited no more.
release-IsPaired :
    (j : ℕ) (w : World)
    → ((i : ℕ) → has_key i w.admin_sessions ≡ true → eqb i j ≡ false)
    → IsPaired w
    → IsPaired (record w { db = Lock.release j w.db })
release-IsPaired j w others h = record {
  locked = λ i k. rw (is_locked-release_ne i j w.db (others i k)) (h.locked i k);
  keyed = release-IsKeyed j w.db h.keyed;
}

erased :
    (i j : ℕ) (sessions : List (ℕ × Session))
    → has_key i (erase j sessions) ≡ true
    → (eqb i j ≡ false) × (has_key i sessions ≡ true)
unfolding has_key
erased i j sessions k = ground (arith, lookup-erase i j sessions)

inserted :
    (i j : ℕ) (s : Session) (sessions : List (ℕ × Session))
    → has_key i (insert j s sessions) ≡ true
    → eqb i j ≡ false
    → has_key i sessions ≡ true
unfolding has_key
inserted i j s sessions k ne = ground (arith, lookup-insert i j s sessions)

module _ {K : Type 0} (j : ℕ) (r : Running K) where
  -- A profile that is locked may be edited.
  started-IsPaired :
      (outcome : Result Session)
      → has_key j r.world.admin_sessions ≡ false
      → Lock.is_locked j r.world.db ≡ true
      → IsPaired r.world
      → IsPaired (started j outcome r).1.world
  unfolding started
  started-IsPaired (raise x) idle held h =
      release-IsPaired j r.world
        (λ i k. elim (Bool-cases (eqb i j)) [
          | inl same ↦ let e : i ≡ j = eqb→eq i j same in cc (rw e at k, idle)
          | inr ne ↦ ne
        ])
        h
  started-IsPaired (ok s) idle held h = record {
    locked = λ i k. elim (Bool-cases (eqb i j)) [
      | inl same ↦ let e : i ≡ j = eqb→eq i j same in rw e held
      | inr ne ↦ h.locked i (inserted i j s r.world.admin_sessions k ne)
    ];
    keyed = h.keyed;
  }

-- No session of the profile, for its lock was free.
idle_of :
    (j : ℕ) (w : World)
    → IsPaired w
    → Lock.is_locked j w.db ≡ false
    → has_key j w.admin_sessions ≡ false
idle_of j w h free = elim (Bool-cases (has_key j w.admin_sessions)) [
  | inl edited ↦ cc (h.locked j edited, free)
  | inr idle ↦ idle
]

module _ {K : Type 0} (os : Machine K) (cfg : Config) where
  begin_update-IsPaired :
      (at : Text) (j : ℕ) (user : Text) (f : Form) (r : Running K)
      → has_key j r.world.admin_sessions ≡ false
      → Lock.is_locked j r.world.db ≡ true
      → IsPaired r.world
      → IsPaired (begin_update os cfg at j user f r).1.world
  unfolding begin_update
  begin_update-IsPaired at j user f r idle held h =
      let act =
        start_session os cfg at (admin_binding j user f.base_version) (admin_iqn cfg user) false
          (some user) f.additional_bytes in
      let after = act (host_of r) in
      let rows =
        (start_session-Same r.world.db os cfg at (admin_binding j user f.base_version)
            (admin_iqn cfg user) false (some user) f.additional_bytes).after
          (host_of r) (refl, refl) in
      started-IsPaired j (with_host after.1 r) after.0 idle
        (rw (same_rows j r.world.db after.1.db rows) held) (same_pairs r.world _ refl rows h)

  acquired-IsPaired :
      (at : Text) (j : ℕ) (user : Text) (f : Form) (outcome : Result (Unit {0})) (r : Running K)
      → (outcome ≡ ok tt
          → (has_key j r.world.admin_sessions ≡ false) × (Lock.is_locked j r.world.db ≡ true))
      → IsPaired r.world
      → IsPaired (acquired os cfg at j user f outcome r).1.world
  unfolding acquired
  acquired-IsPaired at j user f (ok tt) r got h =
      begin_update-IsPaired at j user f r (got refl).0 (got refl).1 h
  acquired-IsPaired at j user f (raise x) r got h =
      same_pairs r.world _ (ground arith) (ground arith, ground arith) h

  update_with-IsPaired :
      (at : Text) (j : ℕ) (user : Text) (f : Result Form) (r : Running K)
      → IsPaired r.world
      → IsPaired (update_with os cfg at j user f r).1.world
  unfolding update_with
  update_with-IsPaired at j user (raise x) r h = h
  update_with-IsPaired at j user (ok f) r h =
      let db = r.world.db in
      let taken = Lock.acquire j user at db in
      acquired-IsPaired at j user f taken.0 (with_db taken.1 r)
        (λ got. (
          idle_of j r.world h (was_free j user at db h.keyed got),
          is_locked-acquire_self j user at db got,
        ))
        (keep_pairs r.world _ refl (λ i k. is_locked-acquire i j user at db k)
          (acquire-IsKeyed j user at db h.keyed) h)

  pub start_update_session-IsPaired :
      (at : Text) (j : ℕ) (args : Args) (session : WebSession) (r : Running K)
      → IsPaired r.world
      → IsPaired (start_update_session os cfg at j args session r).1.world
  unfolding start_update_session
  start_update_session-IsPaired at j args session r h =
      checked_cases (λ (q : Running K). IsPaired q.world) (verify_csrf args session) _ r h
        (update_with-IsPaired at j session.user (form args) r h)

  finish_with-IsPaired :
      (at : Text) (j : ℕ) (s : Session) (action : Result Text) (r : Running K)
      → ((i : ℕ) → has_key i r.world.admin_sessions ≡ true → eqb i j ≡ false)
      → IsPaired r.world
      → IsPaired (finish_with os cfg at j s action r).1.world
  unfolding finish_with
  finish_with-IsPaired at j s (raise x) r others h = h
  finish_with-IsPaired at j s (ok action) r others h =
      let after = end_session os cfg at s (action == codes "merge") (host_of r) in
      let rows =
        (end_session-Same r.world.db os cfg at s (action == codes "merge")).after (host_of r)
          (refl, refl) in
      release-IsPaired j (with_host after.1 r).world others (same_pairs r.world _ refl rows h)

  pub popped-IsPaired : (j : ℕ) (r : Running K) → IsPaired r.world → IsPaired (popped j r).world
  unfolding popped
  popped-IsPaired j r h = record {
    locked = λ i k. h.locked i (erased i j r.world.admin_sessions k).1;
    keyed = h.keyed;
  }

  pub finish_update_session-IsPaired :
      (at : Text) (j : ℕ) (args : Args) (session : WebSession) (r : Running K)
      → IsPaired r.world
      → IsPaired (finish_update_session os cfg at j args session r).1.world
  unfolding finish_update_session
  finish_update_session-IsPaired at j args session r h =
      checked_cases (λ (q : Running K). IsPaired q.world) (verify_csrf args session) _ r h
        (elim (Option-cases (lookup j r.world.admin_sessions)) [
          | inl none_here ↦ rw (none_here, finish_session) h
          | inr (s, here) ↦
              rw (here, finish_session)
                (finish_with-IsPaired at j s (action_of args) (popped j r)
                  (λ i k. unfold popped in (erased i j r.world.admin_sessions k).0)
                  (popped-IsPaired j r h))
        ])

-- Whatever the action and however `end_session` ends, once the action is read the profile is free again
-- and its session is gone from the process.
pub finish_releases :
    {K : Type 0} (os : Machine K) (cfg : Config) (at : Text) (j : ℕ) (args : Args) (action : Text)
    (s : Session) (r : Running K)
    → lookup j r.world.admin_sessions ≡ some s
    → action_of args ≡ ok action
    → (Lock.is_locked j (finish_session os cfg at j args r).1.world.db ≡ false)
      × (lookup j (finish_session os cfg at j args r).1.world.admin_sessions ≡ none)
unfolding finish_session finish_with popped
finish_releases os cfg at j args action s r here given =
    rw (here, given, finish_session, finish_with)
      (is_locked-release j _, rw (lookup-erase, eq_refl))
