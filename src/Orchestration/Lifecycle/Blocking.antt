-- ===== src/Orchestration/Lifecycle/Blocking.antt =====
-- The reaper, round after round, while one lost session cannot be removed.
use diskless.Base.{
  ◌≡◌, refl, ap, ◌∙◌, Bool, false, List, [], ◌∷◌, ◌++◌, Text, Exn, Result, ok, raise, arith, ◌==◌,
  list_eq, nat_eq, All, inl, inr, Result-cases,
}
use diskless.Base.Action.{reads, lift, ◌>>=◌}
use diskless.Config.{Config}
use diskless.Database.{ActiveSession, select, delete, exists_row}
use diskless.Machine.{Machine}
use diskless.Lio.{remove_lun, is_session_active}
use diskless.Orchestration.Host.{Host, on_kernel, on_db}
use diskless.Orchestration.Session.{Session}
use diskless.Orchestration.Lifecycle.{
  end_session, session_from_active_row, reap_row, reap_rows, reap_disconnected_sessions,
}
use diskless.Orchestration.Lifecycle.Rows.{is_for, select_others}
use diskless.Orchestration.Lifecycle.Reaping.{reap_row-Keeps}

abbrev pub clients : List ActiveSession → List ActiveSession
clients = select (λ (r : ActiveSession). r.readonly)

select-delete_comm :
    (p q : ActiveSession → Bool) (rs : List ActiveSession)
    → select p (delete q rs) ≡ delete q (select p rs)
unfolding select delete
select-delete_comm p q [] = refl
select-delete_comm p q (r ∷ rs) = ground (arith, select-delete_comm p q rs)

delete-append :
    (q : ActiveSession → Bool) (front back : List ActiveSession)
    → delete q (front ++ back) ≡ delete q front ++ delete q back
unfolding delete
delete-append q [] back = refl
delete-append q (r ∷ front) back = ground (arith, delete-append q front back)

pub exists-delete :
    (p q : ActiveSession → Bool) (rs : List ActiveSession)
    → exists_row p rs ≡ false
    → exists_row p (delete q rs) ≡ false
unfolding exists_row delete
exists-delete p q [] none_here = refl
exists-delete p q (r ∷ rs) none_here = ground (arith, exists-delete p q rs)

-- The client's row that blocks the reaper, and another initiator whose client's rows are behind it or
-- nowhere.
module _ (row : ActiveSession) (other : Text) where
  record Waits (fixed rows : List ActiveSession) : Type 0 where
    before : List ActiveSession
    behind : List ActiveSession
    listed : clients rows ≡ before ++ row ∷ behind
    not_before : exists_row (is_for other) before ≡ false
    first : exists_row (is_for row.initiator_iqn) before ≡ false
    kept : select (is_for other) rows ≡ fixed

  delete-Waits :
      (iqn : Text) (fixed rows : List ActiveSession)
      → (row.initiator_iqn == iqn) ≡ false
      → (other == iqn) ≡ false
      → Waits fixed rows
      → Waits fixed (delete (is_for iqn) rows)
  unfolding delete
  delete-Waits iqn fixed rows not_row not_other w = record {
    before = delete (is_for iqn) w.before;
    behind = delete (is_for iqn) w.behind;
    listed =
        select-delete_comm (λ (r : ActiveSession). r.readonly) (is_for iqn) rows
        ∙ ap (delete (is_for iqn)) w.listed
        ∙ delete-append (is_for iqn) w.before (row ∷ w.behind)
        ∙ rw not_row refl;
    not_before = exists-delete (is_for other) (is_for iqn) w.before w.not_before;
    first = exists-delete (is_for row.initiator_iqn) (is_for iqn) w.before w.first;
    kept = select_others iqn other rows not_other ∙ w.kept;
  }

  abbrev Deleting : List ActiveSession → ActiveSession → Type 0
  Deleting fixed r =
      (rs : List ActiveSession) → Waits fixed rs → Waits fixed (delete (is_for r.initiator_iqn) rs)

  all-Deleting :
      (fixed before : List ActiveSession)
      → exists_row (is_for other) before ≡ false
      → exists_row (is_for row.initiator_iqn) before ≡ false
      → All (Deleting fixed) before
  unfolding exists_row
  all-Deleting fixed [] no_other no_row = tt
  all-Deleting fixed (r ∷ before) no_other no_row = (
    λ rs. delete-Waits r.initiator_iqn fixed rs (ground (arith, no_row)) (ground (arith, no_other)),
    all-Deleting fixed before (ground (arith, no_other)) (ground (arith, no_row)),
  )

  module _ {K : Type 0} (os : Machine K) (cfg : Config) (s : Session) (x : Exn)
      (lost : (k : K)
        → (is_session_active os cfg.iscsi_target_wwn row.initiator_iqn k).0 ≡ ok false)
      (read : session_from_active_row row ≡ ok s)
      (stuck : (k : K)
        → (remove_lun os cfg.iscsi_target_wwn s.initiator_iqn s.lun_name k).0 ≡ raise x) where
    blocking :
        (at : Text) (h : Host K)
        → ((reap_row os cfg at row h).0 ≡ raise x) × ((reap_row os cfg at row h).1.db ≡ h.db)
    unfolding reap_row end_session ◌>>=◌ on_kernel lift
    blocking at h =
        let k = (is_session_active os cfg.iscsi_target_wwn row.initiator_iqn h.kernel).1 in
        rw (lost h.kernel, reap_row, ◌>>=◌, read, stuck k) (refl, refl)

    -- What a round comes to from some row on.
    record Stops (fixed : List ActiveSession) (o : Result (List Text) × Host K) : Type 0 where
      error : Exn
      raised : o.0 ≡ raise error
      waits : Waits fixed o.1.db.active_session

    stops :
        (fixed : List ActiveSession) (at : Text) (before behind : List ActiveSession) (h : Host K)
        → All (Deleting fixed) before
        → Waits fixed h.db.active_session
        → Stops fixed (reap_rows os cfg at (before ++ row ∷ behind) h)
    unfolding reap_rows ◌>>=◌
    stops fixed at [] behind h all w =
        let (raised, same) = blocking at h in
        rw (raised, reap_rows, ◌>>=◌) (record { error = x; raised = refl; waits = rw same w })
    stops fixed at (r ∷ before) behind h (here, later) w =
        let w' = (reap_row-Keeps os cfg at (Waits fixed) r here).after h w in
        let h' = (reap_row os cfg at r h).1 in
        elim (Result-cases (reap_row os cfg at r h).0) [
          | inl (y, failed) ↦
              rw (failed, reap_rows, ◌>>=◌) (record { error = y; raised = refl; waits = w' })
          | inr (gone, reaped) ↦
              let rest = stops fixed at before behind h' later w' in
              rw (reaped, reap_rows, ◌>>=◌, rest.raised)
                (record { error = rest.error; raised = refl; waits = rest.waits })
        ]

    -- A round stops at that row or before it.
    round-Stops :
        (fixed : List ActiveSession) (at : Text) (h : Host K)
        → Waits fixed h.db.active_session
        → Stops fixed (reap_disconnected_sessions os cfg at h)
    unfolding reap_disconnected_sessions ◌>>=◌ on_db reads
    round-Stops fixed at h w =
        rw w.listed
          (stops fixed at w.before w.behind h (all-Deleting fixed w.before w.not_before w.first) w)

-- Rounds of the reaper, whatever each comes to.
abbrev pub rounds : {K : Type 0} → Machine K → Config → List Text → Host K → Host K
rounds os cfg [] h = h
rounds os cfg (at ∷ ats) h = rounds os cfg ats (reap_disconnected_sessions os cfg at h).1

rounds-Waits :
    {K : Type 0} (os : Machine K) (cfg : Config) (row : ActiveSession) (other : Text) (s : Session)
    (x : Exn) (fixed : List ActiveSession) (ats : List Text) (h : Host K)
    → ((k : K) → (is_session_active os cfg.iscsi_target_wwn row.initiator_iqn k).0 ≡ ok false)
    → session_from_active_row row ≡ ok s
    → ((k : K) → (remove_lun os cfg.iscsi_target_wwn s.initiator_iqn s.lun_name k).0 ≡ raise x)
    → Waits row other fixed h.db.active_session
    → Waits row other fixed (rounds os cfg ats h).db.active_session
rounds-Waits os cfg row other s x fixed [] h lost read stuck w = w
rounds-Waits os cfg row other s x fixed (at ∷ ats) h lost read stuck w =
    rounds-Waits os cfg row other s x fixed ats (reap_disconnected_sessions os cfg at h).1 lost read
      stuck (round-Stops row other os cfg s x lost read stuck fixed at h w).waits

-- As long as a client's session is lost and its LUN cannot be removed, whatever the state of the target:
-- after any number of rounds of the reaper, every row for an initiator that has no client's row before
-- that session's is as it was, lost or not; and the next round raises too. (The session's row can be
-- read, and no row before it is for the same initiator.)
pub reap_blocked :
    {K : Type 0} (os : Machine K) (cfg : Config) (row : ActiveSession) (other : Text) (s : Session)
    (x : Exn) (before behind : List ActiveSession) (ats : List Text) (at : Text) (h : Host K)
    → ((k : K) → (is_session_active os cfg.iscsi_target_wwn row.initiator_iqn k).0 ≡ ok false)
    → session_from_active_row row ≡ ok s
    → ((k : K) → (remove_lun os cfg.iscsi_target_wwn s.initiator_iqn s.lun_name k).0 ≡ raise x)
    → clients h.db.active_session ≡ before ++ row ∷ behind
    → exists_row (is_for row.initiator_iqn) before ≡ false
    → exists_row (is_for other) before ≡ false
    → (select (is_for other) (rounds os cfg ats h).db.active_session
        ≡ select (is_for other) h.db.active_session)
      × (y : Exn) × ((reap_disconnected_sessions os cfg at (rounds os cfg ats h)).0 ≡ raise y)
reap_blocked os cfg row other s x before behind ats at h lost read stuck listed first not_before =
    let fixed = select (is_for other) h.db.active_session in
    let w : Waits row other fixed h.db.active_session = record {
      before = before;
      behind = behind;
      listed = listed;
      not_before = not_before;
      first = first;
      kept = refl;
    } in
    let later = rounds-Waits os cfg row other s x fixed ats h lost read stuck w in
    let next =
      round-Stops row other os cfg s x lost read stuck fixed at (rounds os cfg ats h) later in
    (later.kept, next.error, next.raised)
