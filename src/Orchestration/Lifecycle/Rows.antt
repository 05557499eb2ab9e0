-- ===== src/Orchestration/Lifecycle/Rows.antt =====
-- Which rows of `active_session` a session writes and deletes.
use diskless.Base.{
  ℕ, ◌≡◌, refl, Bool, true, false, Option, none, some, List, [], ◌∷◌, ◌++◌, Text, ℤ, pos, negsuc,
  raise, value_error, arith, if◌then◌else◌, ◌==◌, list_eq, nat_eq,
}
use diskless.Base.Action.{Action, Keeps, keeps_rules, lift-Keeps, ◌>>◌}
use diskless.Config.{Config}
use diskless.Database.{
  Database, ImageProfile, ClientBinding, ActiveSession, select, delete, exists_row,
}
use diskless.Machine.{Machine}
use diskless.Orchestration.Host.{Host, Files, on_kernel, on_files, on_db}
use diskless.Orchestration.PrivClient.{detach_loop}
use diskless.Orchestration.Session.{Session, record_session}
use diskless.Orchestration.Lifecycle.{
  start_client_session, start_admin_session, make_session, end_client, merge_copy, drop_copy,
  insert_version,
}

abbrev pub is_for : Text → ActiveSession → Bool
is_for iqn r = r.initiator_iqn == iqn

module _ (rows : List ActiveSession) where
  abbrev Same : Database → Type 0
  Same db = db.active_session ≡ rows

  abbrev pub SameSessions : {K : Type 0} → Host K → Type 0
  SameSessions h = h.db.active_session ≡ rows

  insert_version-Same :
      (profile_id : ℤ) (version : ℕ) (file_path checksum at user : Text)
      → Keeps Same (insert_version profile_id version file_path checksum at user)
  unfolding insert_version
  insert_version-Same (negsuc n) version file_path checksum at user = record {
    after = λ db held. held;
  }
  insert_version-Same (pos n) version file_path checksum at user = record {
    after = λ db held. ground arith;
  }

  module _ {K A : Type 0} where
    on_kernel-Same : (act : Action K A) → Keeps SameSessions (on_kernel act)
    unfolding on_kernel
    on_kernel-Same act = record { after = λ h held. held }

    on_files-Same : (act : Action Files A) → Keeps (SameSessions {K = K}) (on_files act)
    unfolding on_files
    on_files-Same act = record { after = λ h held. held }

    on_db-Same :
        (act : Action Database A) → Keeps Same act → Keeps (SameSessions {K = K}) (on_db act)
    unfolding on_db
    on_db-Same act kept = record { after = λ h held. kept.after h.db held }

  ruleset same_rules = (keeps_rules, insert_version-Same, on_kernel-Same, on_files-Same, on_db-Same)

  module _ {K : Type 0} (os : Machine K) where
    pub make_session-Same :
        (cfg : Config) (b : ClientBinding) (p : ImageProfile) (iqn : Text) (readonly : Bool)
        (user : Option Text) (more : ℤ)
        → Keeps SameSessions (make_session os cfg b p iqn readonly user more)
    unfolding start_client_session start_admin_session
    make_session-Same cfg b p iqn true user more = unfold make_session in search same_rules depth 24
    make_session-Same cfg b p iqn false none more =
        unfold make_session in lift-Keeps (raise value_error)
    make_session-Same cfg b p iqn false (some user) more =
        unfold make_session in search same_rules depth 24

    pub end_client-Same : (s : Session) → Keeps SameSessions (end_client os s)
    unfolding end_client
    end_client-Same s = search same_rules depth 24

    pub end_admin-Same :
        (at : Text) (s : Session) (merge : Bool)
        → Keeps SameSessions (
            on_kernel (detach_loop os (some s.base_loop_dev))
            >> (if merge then merge_copy os at s else drop_copy s))
    unfolding merge_copy drop_copy
    end_admin-Same at s true = search same_rules depth 24
    end_admin-Same at s false = search same_rules depth 24

pub exists-delete_self :
    (iqn : Text) (rs : List ActiveSession)
    → exists_row (is_for iqn) (delete (is_for iqn) rs) ≡ false
unfolding exists_row delete
exists-delete_self iqn [] = refl
exists-delete_self iqn (r ∷ rs) = ground (arith, exists-delete_self iqn rs)

select_append :
    (p : ActiveSession → Bool) (rs : List ActiveSession) (r : ActiveSession)
    → select p (rs ++ r ∷ []) ≡ (if p r then select p rs ++ r ∷ [] else select p rs)
unfolding select
select_append p [] r = ground arith
select_append p (q ∷ rs) r = ground (arith, select_append p rs r)

select_deleted :
    (iqn : Text) (rs : List ActiveSession) → select (is_for iqn) (delete (is_for iqn) rs) ≡ []
unfolding select delete
select_deleted iqn [] = refl
select_deleted iqn (r ∷ rs) = ground (arith, select_deleted iqn rs)

pub select_others :
    (iqn other : Text) (rs : List ActiveSession)
    → (other == iqn) ≡ false
    → select (is_for other) (delete (is_for iqn) rs) ≡ select (is_for other) rs
unfolding select delete
select_others iqn other [] ne = refl
select_others iqn other (r ∷ rs) ne = ground (arith, select_others iqn other rs)

pub select-delete :
    (iqn other : Text) (rs : List ActiveSession)
    → select (is_for other) (delete (is_for iqn) rs)
      ≡ (if other == iqn then [] else select (is_for other) rs)
unfolding select delete
select-delete iqn other [] = ground arith
select-delete iqn other (r ∷ rs) = ground (arith, select-delete iqn other rs)

-- A new row takes the place of the rows for its initiator, and leaves the others'.
pub select-record_session :
    (row : ActiveSession) (db : Database) (iqn : Text)
    → select (is_for iqn) (record_session row db).active_session
      ≡ (if iqn == row.initiator_iqn then row ∷ [] else select (is_for iqn) db.active_session)
unfolding record_session
select-record_session row db iqn = ground (
  arith,
  select_append (is_for iqn) (delete (is_for row.initiator_iqn) db.active_session) row,
  select_deleted iqn db.active_session,
  select_others row.initiator_iqn iqn db.active_session,
)
