-- ===== src/Orchestration/Lifecycle/Starting.antt =====
-- What the start of a session leaves, also where it fails.
use diskless.Base.{
  ℕ, ◌≡◌, refl, Bool, Option, List, [], ◌∷◌, Text, ℤ, Result, ok, raise, if◌then◌else◌, ◌==◌,
  list_eq, nat_eq, inl, inr, Result-cases,
}
use diskless.Base.Action.{reads, changes, ◌>>=◌}
use diskless.Config.{Config}
use diskless.Database.{ImageProfile, ClientBinding, ActiveSession, select}
use diskless.Machine.{Machine}
use diskless.Lio.{register_lun}
use diskless.Models.{get_image_profile}
use diskless.Orchestration.Host.{Host, on_kernel, on_db}
use diskless.Orchestration.Session.{Session, active_row}
use diskless.Orchestration.Lifecycle.{make_session, start_session}
use diskless.Orchestration.Lifecycle.Rows.{is_for, make_session-Same, select-record_session}

-- The rows after a start: as before if it raised, or with the session's row as the only one for
-- its initiator.
abbrev pub Recorded :
    Text
    → Text
    → ClientBinding
    → Bool
    → List ActiveSession
    → Result Session
    → List ActiveSession
    → Type 0
Recorded at iqn b readonly before (raise x) after = after ≡ before
Recorded at iqn b readonly before (ok s) after =
    (other : Text)
    → select (is_for other) after
      ≡ (if other == iqn then active_row at iqn b readonly s ∷ [] else select (is_for other) before)

-- The registration of a session's LUN.
abbrev pub registering : {K : Type 0} → Machine K → Config → Text → Session → Host K → Result ℕ × K
registering os cfg iqn s h =
    register_lun os cfg.iscsi_target_wwn iqn s.lun_name s.backing_dev cfg.iscsi_portal_ip
      cfg.iscsi_portal_port h.kernel

module _ {K : Type 0} (os : Machine K) (cfg : Config) (at : Text) (b : ClientBinding) (iqn : Text)
    (readonly : Bool) (user : Option Text) (more : ℤ) (h : Host K) where
  -- The rows do not change before the last step.
  pub made_rows :
      (p : ImageProfile)
      → (make_session os cfg b p iqn readonly user more h).1.db.active_session ≡ h.db.active_session
  made_rows p =
      (make_session-Same h.db.active_session os cfg b p iqn readonly user more).after h refl

  rows_after :
      Recorded at iqn b readonly h.db.active_session
        (start_session os cfg at b iqn readonly user more h).0
        (start_session os cfg at b iqn readonly user more h).1.db.active_session
  unfolding start_session ◌>>=◌ on_db on_kernel reads changes active_row
  rows_after = elim (Result-cases (get_image_profile b.image_profile_id h.db)) [
    | inl (x, unknown) ↦ rw (unknown, start_session, ◌>>=◌) refl
    | inr (p, known) ↦ elim (Result-cases (make_session os cfg b p iqn readonly user more h).0) [
      | inl (x, failed) ↦ rw (known, failed, start_session, ◌>>=◌) (made_rows p)
      | inr (s, made) ↦
          let h' = (make_session os cfg b p iqn readonly user more h).1 in
          elim (Result-cases (registering os cfg iqn s h').0) [
            | inl (x, refused) ↦ rw (known, made, refused, start_session, ◌>>=◌) (made_rows p)
            | inr (n, registered) ↦
                rw (known, made, registered, start_session, ◌>>=◌)
                  λ other. rw (select-record_session, made_rows p)
          ]
    ]
  ]

-- A start that raises leaves the rows of `active_session` as they were; one that returns leaves its row as
-- the only one for its initiator, in place of any that was there, and the rows for others.
pub start_session-Recorded :
    {K : Type 0} (os : Machine K) (cfg : Config) (at : Text) (b : ClientBinding) (iqn : Text)
    (readonly : Bool) (user : Option Text) (more : ℤ) (h : Host K)
    → Recorded at iqn b readonly h.db.active_session
        (start_session os cfg at b iqn readonly user more h).0
        (start_session os cfg at b iqn readonly user more h).1.db.active_session
start_session-Recorded = rows_after
