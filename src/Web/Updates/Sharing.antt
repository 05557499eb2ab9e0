-- ===== src/Web/Updates/Sharing.antt =====
-- Two profiles that one administrator edits at a time: both sessions have the initiator of the
-- administrator.
use diskless.Base.{
  ℕ, ◌≡◌, ◌≢◌, refl, sym, ap, subst, ◌∙◌, Bool, true, false, some, List, [], ◌∷◌, arith, Text,
  codes, Result, ok, raise, ◌==◌, ℤ, list_eq, nat_eq, eq_refl, not_equal, inl, inr, Result-cases,
  ok_injective,
}
use diskless.Base.Action.{bind_returned, reads, return}
use diskless.Base.Dict.{lookup, insert, erase, lookup-insert, lookup-erase}
use diskless.Config.{Config}
use diskless.Database.{ActiveSession, ClientBinding, select, delete}
use diskless.Machine.{Machine}
use diskless.Orchestration.Host.{Host, on_db, on_kernel}
use diskless.Orchestration.Lock
use diskless.Orchestration.Session.{Session, active_row}
use diskless.Orchestration.Lifecycle.{start_admin_session, make_session, start_session, end_session}
use diskless.Orchestration.Lifecycle.Rows.{is_for, select-delete}
use diskless.Orchestration.Lifecycle.Starting.{Recorded, start_session-Recorded}
use diskless.Orchestration.Lifecycle.Ending.{Forgotten, end_session-Forgotten}
use diskless.Web.{Args, WebSession, Response, redirect, verify_csrf, checked}
use diskless.Web.Updates.{
  Running, Form, host_of, with_db, started, popped, begin_update, acquired, update_with,
  start_update_session, finish_with, finish_session, finish_update_session, form, admin_binding,
  admin_iqn, action_of,
}

-- A post to start an update has begun a session of the profile.
record Begun {K : Type 0} (cfg : Config) (user : Text) (i : ℕ) (r r' : Running K) : Type 0 where
  session : Session
  row : ActiveSession
  initiator : session.initiator_iqn ≡ admin_iqn cfg user
  held : r'.world.admin_sessions ≡ insert i session r.world.admin_sessions
  rows : select (is_for (admin_iqn cfg user)) r'.world.db.active_session ≡ row ∷ []
  version : row.version ≡ session.version_number

module _ {K : Type 0} (os : Machine K) (cfg : Config) where
  initiator_of :
      (at : Text) (b : ClientBinding) (iqn user : Text) (more : ℤ) (h : Host K) (s : Session)
      → (start_session os cfg at b iqn false (some user) more h).0 ≡ ok s
      → s.initiator_iqn ≡ iqn
  unfolding start_session make_session start_admin_session on_db reads return
  initiator_of at b iqn user more h s done =
      let (_, _, _, e1) = bind_returned _ _ h s done in
      let (made, admin, _, e2) = bind_returned _ _ h s e1 in
      let (_, _, _, e3) = bind_returned _ _ _ s e2 in
      let (_, _, _, e4) = bind_returned _ _ _ s e3 in
      let (_, _, _, f1) = bind_returned _ _ h made admin in
      let (_, _, _, f2) = bind_returned _ _ h made f1 in
      let (_, _, _, f3) = bind_returned _ _ _ made f2 in
      let (_, _, _, f4) = bind_returned _ _ _ made f3 in
      let (_, _, _, f5) = bind_returned _ _ _ made f4 in
      ap (λ (r : Session). r.initiator_iqn) (sym (ok_injective made s e4))
      ∙ ap (λ (r : Session). r.initiator_iqn) (sym (ok_injective _ made f5))

  begin_update-Begun :
      (at : Text) (i : ℕ) (user page : Text) (f : Form) (r : Running K)
      → (begin_update os cfg at i user f r).0 ≡ ok (redirect page)
      → Begun cfg user i r (begin_update os cfg at i user f r).1
  unfolding begin_update started active_row
  begin_update-Begun at i user page f r done =
      let b = admin_binding i user f.base_version in
      let iqn = admin_iqn cfg user in
      let act = start_session os cfg at b iqn false (some user) f.additional_bytes (host_of r) in
      elim (Result-cases act.0) [
        | inl (x, failed) ↦ ground (arith, failed, done)
        | inr (s, began) ↦
            let recorded : Recorded at iqn b false r.world.db.active_session (ok s)
                act.1.db.active_session =
              subst
                (λ o. Recorded at iqn b false r.world.db.active_session o act.1.db.active_session)
                began
                (start_session-Recorded os cfg at b iqn false (some user) f.additional_bytes
                  (host_of r)) in
            rw (begin_update, began, started)
              (record {
                session = s;
                row = active_row at iqn b false s;
                initiator = initiator_of at b iqn user f.additional_bytes (host_of r) s began;
                held = refl;
                rows = recorded iqn ∙ rw (eq_refl iqn) refl;
                version = refl;
              })
      ]

  acquired-Begun :
      (at : Text) (i : ℕ) (user page : Text) (f : Form) (outcome : Result (Unit {0}))
      (r : Running K)
      → (acquired os cfg at i user f outcome r).0 ≡ ok (redirect page)
      → Begun cfg user i r (acquired os cfg at i user f outcome r).1
  unfolding acquired
  acquired-Begun at i user page f (ok tt) r done = begin_update-Begun at i user page f r done
  acquired-Begun at i user page f (raise x) r done = absurd (ground (arith, done))

  start_update_session-Begun :
      (at : Text) (i : ℕ) (args : Args) (session : WebSession) (page : Text) (r : Running K)
      → (start_update_session os cfg at i args session r).0 ≡ ok (redirect page)
      → Begun cfg session.user i r (start_update_session os cfg at i args session r).1
  unfolding start_update_session update_with checked
  start_update_session-Begun at i args session page r done =
      elim (Result-cases (verify_csrf args session)) [
        | inl (x, unread) ↦ absurd (ground (arith, unread, done))
        | inr (false, forged) ↦ absurd (ground (arith, forged, done))
        | inr (true, own) ↦ elim (Result-cases (form args)) [
          | inl (x, unread) ↦ absurd (ground (arith, own, unread, done))
          | inr (f, filled) ↦
              let (outcome, db) = Lock.acquire i session.user at r.world.db in
              let same : start_update_session os cfg at i args session r
                  ≡ acquired os cfg at i session.user f outcome (with_db db r) =
                rw (start_update_session, own, checked, filled, update_with) refl in
              let b =
                acquired-Begun at i session.user page f outcome (with_db db r)
                  (ap (λ (o : Result Response × Running K). o.0) (sym same) ∙ done) in
              subst (λ o. Begun cfg session.user i r o.1) (sym same)
                (record {
                  session = b.session;
                  row = b.row;
                  initiator = b.initiator;
                  held = b.held;
                  rows = b.rows;
                  version = b.version;
                })
        ]
      ]

  ended_rows :
      (at : Text) (s : Session) (merge : Bool) (h : Host K)
      → (end_session os cfg at s merge h).0 ≡ ok tt
      → (end_session os cfg at s merge h).1.db.active_session
        ≡ delete (is_for s.initiator_iqn) h.db.active_session
  unfolding end_session on_kernel
  ended_rows at s merge h done =
      let (_, removed, _, _) = bind_returned _ _ h tt done in
      subst
        (λ o.
          Forgotten s.initiator_iqn h.db.active_session o
            (end_session os cfg at s merge h).1.db.active_session)
        removed (end_session-Forgotten os cfg at s merge h)

  -- What a finish leaves of the sessions and of the rows.
  finished :
      (at : Text) (i : ℕ) (args : Args) (session : WebSession) (page : Text) (s : Session)
      (r : Running K)
      → lookup i r.world.admin_sessions ≡ some s
      → (finish_update_session os cfg at i args session r).0 ≡ ok (redirect page)
      → ((finish_update_session os cfg at i args session r).1.world.admin_sessions
          ≡ erase i r.world.admin_sessions)
        × ((finish_update_session os cfg at i args session r).1.world.db.active_session
            ≡ delete (is_for s.initiator_iqn) r.world.db.active_session)
  unfolding finish_update_session finish_session finish_with popped checked Lock.release
  finished at i args session page s r edited done = elim (Result-cases (verify_csrf args session)) [
    | inl (x, unread) ↦ absurd (ground (arith, unread, done))
    | inr (false, forged) ↦ absurd (ground (arith, forged, done))
    | inr (true, own) ↦ elim (Result-cases (action_of args)) [
      | inl (x, unread) ↦ absurd (ground (arith, own, edited, unread, done))
      | inr (action, chosen) ↦
          let merge = action == codes "merge" in
          let act = end_session os cfg at s merge (host_of (popped i r)) in
          elim (Result-cases act.0) [
            | inl (x, failed) ↦ absurd (ground (arith, own, edited, chosen, failed, done))
            | inr (_, over) ↦
                rw
                  (finish_update_session, own, checked, finish_session, edited, chosen, finish_with)
                  (refl, ended_rows at s merge (host_of (popped i r)) over)
          ]
    ]
  ]

two_inserted :
    (i j : ℕ) (s t : Session) (d : List (ℕ × Session))
    → i ≢ j
    → lookup i (insert j t (insert i s d)) ≡ some s
two_inserted i j s t d ne =
    rw (lookup-insert i j t (insert i s d), not_equal i j ne, lookup-insert i i s d, eq_refl i) refl

one_erased :
    (i j : ℕ) (t : Session) (d : List (ℕ × Session))
    → i ≢ j
    → lookup j (erase i (insert j t d)) ≡ some t
one_erased i j t d ne =
    rw
      (
        lookup-erase j i (insert j t d),
        not_equal j i (λ e. ne (sym e)),
        lookup-insert j j t d,
        eq_refl j,
      )
      refl

-- What is left after the first of two sessions.
module _ {K : Type 0} {cfg : Config} {user : Text} {i j : ℕ} {r r1 r2 : Running K}
    (b1 : Begun cfg user i r r1) (b2 : Begun cfg user j r1 r2) (ne : i ≢ j) where
  first_held : lookup i r2.world.admin_sessions ≡ some b1.session
  first_held =
      rw (b2.held, b1.held) (two_inserted i j b1.session b2.session r.world.admin_sessions ne)

  second_held : lookup j (erase i r2.world.admin_sessions) ≡ some b2.session
  second_held = rw b2.held (one_erased i j b2.session r1.world.admin_sessions ne)

  no_row :
      select
        (is_for (admin_iqn cfg user))
        (delete (is_for b1.session.initiator_iqn) r2.world.db.active_session)
      ≡ []
  no_row =
      let iqn = admin_iqn cfg user in
      rw (b1.initiator, select-delete iqn iqn r2.world.db.active_session, eq_refl iqn) refl

-- An administrator who starts to edit a profile and then, before finishing, another one has one row
-- in `active_session` for both, the second one's; and when the first one is finished, no row is left for
-- their initiator, though the second profile's session is still in the process.
pub editing_two :
    {K : Type 0} (os : Machine K) (cfg : Config) (at1 at2 at3 : Text) (i j : ℕ)
    (args1 args2 args3 : Args) (session : WebSession) (page1 page2 page3 : Text)
    (r r1 r2 r3 : Running K)
    → i ≢ j
    → start_update_session os cfg at1 i args1 session r ≡ (ok (redirect page1), r1)
    → start_update_session os cfg at2 j args2 session r1 ≡ (ok (redirect page2), r2)
    → finish_update_session os cfg at3 i args3 session r2 ≡ (ok (redirect page3), r3)
    → (row : ActiveSession) × (s : Session) × (select
          (is_for (admin_iqn cfg session.user))
          r2.world.db.active_session
        ≡ row ∷ [])
      × (row.version ≡ s.version_number)
      × (select (is_for (admin_iqn cfg session.user)) r3.world.db.active_session ≡ [])
      × (lookup j r3.world.admin_sessions ≡ some s)
editing_two {K} os cfg at1 at2 at3 i j args1 args2 args3 session page1 page2 page3 r r1 r2 r3 ne
      first second third =
    let iqn = admin_iqn cfg session.user in
    let b1 =
      subst (λ o. Begun cfg session.user i r o.1) first
        (start_update_session-Begun os cfg at1 i args1 session page1 r (ap (λ o. o.0) first)) in
    let b2 =
      subst (λ o. Begun cfg session.user j r1 o.1) second
        (start_update_session-Begun os cfg at2 j args2 session page2 r1 (ap (λ o. o.0) second)) in
    let f =
      finished os cfg at3 i args3 session page3 b1.session r2 (first_held b1 b2 ne)
        (ap (λ o. o.0) third) in
    let left : r3.world.admin_sessions ≡ erase i r2.world.admin_sessions =
      ap (λ (o : Result Response × Running K). o.1.world.admin_sessions) (sym third) ∙ f.0 in
    let rows : r3.world.db.active_session
        ≡ delete (is_for b1.session.initiator_iqn) r2.world.db.active_session =
      ap (λ (o : Result Response × Running K). o.1.world.db.active_session) (sym third) ∙ f.1 in
    (
      b2.row,
      b2.session,
      b2.rows,
      b2.version,
      ap (select (is_for iqn)) rows ∙ no_row b1 b2 ne,
      ap (lookup j) left ∙ second_held b1 b2 ne,
    )
