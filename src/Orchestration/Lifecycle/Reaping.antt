-- ===== src/Orchestration/Lifecycle/Reaping.antt =====
-- Whose rows the reaper takes away, and whose it leaves.
use diskless.Base.{
  ◌≡◌, refl, Bool, true, false, List, [], ◌∷◌, Text, Result, ok, raise, arith, list_eq, nat_eq, All,
}
use diskless.Base.Action.{
  Action, Keeps, reads, return-Keeps, if-Keeps, bind-Keeps, lift-bind-Keeps, ◌>>=◌,
}
use diskless.Config.{Config}
use diskless.Database.{ActiveSession, select, delete, exists_row}
use diskless.Machine.{Machine}
use diskless.Lio.{remove_lun}
use diskless.Orchestration.Host.{Host, on_kernel, on_db}
use diskless.Orchestration.Session.{Session}
use diskless.Orchestration.Lifecycle.{
  end_session, session_from_active_row, reap_row, reap_rows, reap_disconnected_sessions,
}
use diskless.Orchestration.Lifecycle.Rows.{is_for, select_others}
use diskless.Orchestration.Lifecycle.Ending.{Forgotten, end_session-Forgotten}

pub row_iqn :
    (row : ActiveSession) (s : Session)
    → session_from_active_row row ≡ ok s
    → s.initiator_iqn ≡ row.initiator_iqn
unfolding session_from_active_row
row_iqn row s h = ground arith

-- A predicate of the rows that deleting some of them keeps, an end keeps.
ended_rows :
    {A : Type 0} (Q : List ActiveSession → Type 0) (iqn : Text) (before after : List ActiveSession)
    (removed : Result A)
    → Forgotten iqn before removed after
    → (Q before → Q (delete (is_for iqn) before))
    → Q before
    → Q after
ended_rows Q iqn before after (raise x) e deleting held = rw e held
ended_rows Q iqn before after (ok a) e deleting held = rw e (deleting held)

module _ {K : Type 0} (os : Machine K) (cfg : Config) (at : Text)
    (Q : List ActiveSession → Type 0) where
  abbrev Rows : Host K → Type 0
  Rows h = Q h.db.active_session

  end_session-Keeps :
      (s : Session) (merge : Bool)
      → ((rs : List ActiveSession) → Q rs → Q (delete (is_for s.initiator_iqn) rs))
      → Keeps Rows (end_session os cfg at s merge)
  end_session-Keeps s merge deleting = record {
    after = λ h held.
        ended_rows Q s.initiator_iqn h.db.active_session
          (end_session os cfg at s merge h).1.db.active_session
          (remove_lun os cfg.iscsi_target_wwn s.initiator_iqn s.lun_name h.kernel).0
          (end_session-Forgotten os cfg at s merge h) (deleting h.db.active_session) held;
  }

  on_kernel-Keeps : {A : Type 0} (act : Action K A) → Keeps Rows (on_kernel act)
  unfolding on_kernel
  on_kernel-Keeps act = record { after = λ h held. held }

  pub reap_row-Keeps :
      (row : ActiveSession)
      → ((rs : List ActiveSession) → Q rs → Q (delete (is_for row.initiator_iqn) rs))
      → Keeps Rows (reap_row os cfg at row)
  unfolding reap_row
  reap_row-Keeps row deleting = bind-Keeps _ _ (on_kernel-Keeps _) λ active.
      if-Keeps active _ _ (return-Keeps false) (
        lift-bind-Keeps (session_from_active_row row) _ λ s read.
          bind-Keeps _ _
            (end_session-Keeps s false (λ rs held. rw (row_iqn row s read) (deleting rs held)))
            (λ _. return-Keeps true))

  reap_rows-Keeps :
      (rows : List ActiveSession)
      → All
          (λ (row : ActiveSession).
            (rs : List ActiveSession) → Q rs → Q (delete (is_for row.initiator_iqn) rs))
          rows
      → Keeps Rows (reap_rows os cfg at rows)
  unfolding reap_rows
  reap_rows-Keeps [] all = return-Keeps []
  reap_rows-Keeps (row ∷ rows) (here, later) =
      bind-Keeps _ _ (reap_row-Keeps row here)
        λ gone. bind-Keeps _ _ (reap_rows-Keeps rows later) λ reaped. return-Keeps _

others_spared :
    (other : Text) (fixed rows : List ActiveSession)
    → exists_row (is_for other) rows ≡ false
    → All
        (λ (row : ActiveSession).
          (rs : List ActiveSession)
          → select (is_for other) rs ≡ fixed
          → select (is_for other) (delete (is_for row.initiator_iqn) rs) ≡ fixed)
        rows
unfolding exists_row
others_spared other fixed [] none_here = tt
others_spared other fixed (row ∷ rows) none_here = (
  λ rs held. ground (arith, select_others row.initiator_iqn other rs),
  others_spared other fixed rows (ground arith),
)

-- The reaper, returned or raised, leaves every row whose initiator has no client's session, so those
-- of the administrators, as it was.
pub reap_spares :
    {K : Type 0} (os : Machine K) (cfg : Config) (at : Text) (other : Text) (h : Host K)
    → exists_row (is_for other) (select (λ (r : ActiveSession). r.readonly) h.db.active_session)
      ≡ false
    → select (is_for other) (reap_disconnected_sessions os cfg at h).1.db.active_session
      ≡ select (is_for other) h.db.active_session
unfolding reap_disconnected_sessions ◌>>=◌ on_db reads
reap_spares os cfg at other h none_here =
    let rows = select (λ (r : ActiveSession). r.readonly) h.db.active_session in
    let fixed = select (is_for other) h.db.active_session in
    (reap_rows-Keeps os cfg at (λ rs. select (is_for other) rs ≡ fixed) rows
        (others_spared other fixed rows none_here)).after
      h refl
