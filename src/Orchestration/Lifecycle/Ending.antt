-- ===== src/Orchestration/Lifecycle/Ending.antt =====
-- What the end of a session leaves, and what the reaper does.
use diskless.Base.{
  ◌≡◌, refl, Bool, List, Text, Result, ok, raise, list_eq, nat_eq, inl, inr, Result-cases,
  Bool-cases,
}
use diskless.Base.Action.{changes, ◌>>=◌}
use diskless.Config.{Config}
use diskless.Database.{ActiveSession, delete}
use diskless.Machine.{Machine}
use diskless.Lio.{remove_lun}
use diskless.Orchestration.Host.{Host, on_kernel, on_db}
use diskless.Orchestration.Session.{Session}
use diskless.Orchestration.Lifecycle.{end_session}
use diskless.Orchestration.Lifecycle.Rows.{is_for, end_client-Same, end_admin-Same}

-- What an end does to the rows: nothing before the LUN is gone, and then it deletes the session's.
abbrev pub Forgotten :
    {A : Type 0} → Text → List ActiveSession → Result A → List ActiveSession → Type 0
Forgotten iqn before (raise x) after = after ≡ before
Forgotten iqn before (ok _) after = after ≡ delete (is_for iqn) before

module _ {K : Type 0} (os : Machine K) (cfg : Config) (at : Text) (s : Session) (merge : Bool)
    (h : Host K) where
  abbrev removing : Result (Unit {0}) × K
  removing = remove_lun os cfg.iscsi_target_wwn s.initiator_iqn s.lun_name h.kernel

  rows_after :
      Forgotten s.initiator_iqn h.db.active_session removing.0
        (end_session os cfg at s merge h).1.db.active_session
  unfolding end_session ◌>>=◌ on_db on_kernel changes
  rows_after = elim (Result-cases removing.0) [
    | inl (x, stuck) ↦ rw (stuck, end_session, ◌>>=◌) refl
    | inr (done, removed) ↦ elim (Bool-cases s.readonly) [
      | inl client ↦
          rw (removed, client, end_session, ◌>>=◌) ((end_client-Same _ os s).after _ refl)
      | inr admin ↦
          rw (removed, admin, end_session, ◌>>=◌) ((end_admin-Same _ os at s merge).after _ refl)
    ]
  ]

-- An end that cannot remove the LUN leaves the rows of `active_session` as they were; any other one deletes the
-- session's row, also where a later step raises.
pub end_session-Forgotten :
    {K : Type 0} (os : Machine K) (cfg : Config) (at : Text) (s : Session) (merge : Bool)
    (h : Host K)
    → Forgotten s.initiator_iqn h.db.active_session
        (remove_lun os cfg.iscsi_target_wwn s.initiator_iqn s.lun_name h.kernel).0
        (end_session os cfg at s merge h).1.db.active_session
end_session-Forgotten = rows_after
