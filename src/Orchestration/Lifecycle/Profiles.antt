-- ===== src/Orchestration/Lifecycle/Profiles.antt =====
-- Sessions leave the rows of the profiles, and so the locks, as they are.
use diskless.Base.{
  List, [], ◌∷◌, ℕ, ◌≡◌, Bool, true, false, Option, none, some, Text, ℤ, pos, negsuc, arith, raise,
  value_error, ◌==◌, list_eq, nat_eq,
}
use diskless.Base.Action.{Action, Keeps, changes, keeps_rules, return-Keeps, bind-Keeps, lift-Keeps}
use diskless.Config.{Config}
use diskless.Database.{Database, ImageProfile, ClientBinding, ActiveSession, delete}
use diskless.Machine.{Machine}
use diskless.Orchestration.Host.{Host, Files, on_kernel, on_files, on_db}
use diskless.Orchestration.Session.{Session, record_session}
use diskless.Orchestration.Lifecycle.{
  start_client_session, start_admin_session, make_session, start_session, end_client, merge_copy,
  drop_copy, end_session, insert_version, build_sanboot_script, reap_row, reap_rows,
  reap_disconnected_sessions,
}

-- The rows of the profiles, and the next id, are those of the first database.
abbrev pub SameRows : Database → Database → Type 0
SameRows before db =
    (db.image_profile ≡ before.image_profile) × (db.next_profile ≡ before.next_profile)

module _ (before : Database) where
  abbrev Same : Database → Type 0
  Same = SameRows before

  abbrev pub SameProfiles : {K : Type 0} → Host K → Type 0
  SameProfiles h = SameRows before h.db

  record_session-Same : (row : ActiveSession) → Keeps Same (changes (record_session row))
  unfolding changes record_session
  record_session-Same row = record { after = λ db held. held }

  insert_version-Same :
      (profile_id : ℤ) (version : ℕ) (file_path checksum at user : Text)
      → Keeps Same (insert_version profile_id version file_path checksum at user)
  unfolding insert_version
  insert_version-Same (negsuc n) version file_path checksum at user = record {
    after = λ db held. held;
  }
  insert_version-Same (pos n) version file_path checksum at user = record {
    after = λ db held. ground arith;
  }

  module _ {K A : Type 0} where
    on_kernel-Same : (act : Action K A) → Keeps SameProfiles (on_kernel act)
    unfolding on_kernel
    on_kernel-Same act = record { after = λ h held. held }

    pub on_files-Same : (act : Action Files A) → Keeps (SameProfiles {K = K}) (on_files act)
    unfolding on_files
    on_files-Same act = record { after = λ h held. held }

    on_db-Same :
        (act : Action Database A) → Keeps Same act → Keeps (SameProfiles {K = K}) (on_db act)
    unfolding on_db
    on_db-Same act kept = record { after = λ h held. kept.after h.db held }

  ruleset same_rules = (
    keeps_rules, record_session-Same, insert_version-Same, on_kernel-Same, on_files-Same,
    on_db-Same,
  )

  module _ {K : Type 0} (os : Machine K) (cfg : Config) where
    start_client_session-Same :
        (b : ClientBinding) (p : ImageProfile) (iqn : Text)
        → Keeps SameProfiles (start_client_session os cfg b p iqn)
    unfolding start_client_session
    start_client_session-Same b p iqn = search same_rules depth 24

    start_admin_session-Same :
        (b : ClientBinding) (p : ImageProfile) (iqn user : Text) (more : ℤ)
        → Keeps SameProfiles (start_admin_session os cfg b p iqn user more)
    unfolding start_admin_session
    start_admin_session-Same b p iqn user more = search same_rules depth 24

    make_session-Same :
        (b : ClientBinding) (p : ImageProfile) (iqn : Text) (readonly : Bool) (user : Option Text)
        (more : ℤ)
        → Keeps SameProfiles (make_session os cfg b p iqn readonly user more)
    unfolding make_session
    make_session-Same b p iqn true user more = start_client_session-Same b p iqn
    make_session-Same b p iqn false none more = lift-Keeps (raise value_error)
    make_session-Same b p iqn false (some user) more = start_admin_session-Same b p iqn user more

    pub start_session-Same :
        (at : Text) (b : ClientBinding) (iqn : Text) (readonly : Bool) (user : Option Text)
        (more : ℤ)
        → Keeps SameProfiles (start_session os cfg at b iqn readonly user more)
    unfolding start_session
    start_session-Same at b iqn readonly user more = search (same_rules, make_session-Same) depth 24

    end_client-Same : (s : Session) → Keeps SameProfiles (end_client os s)
    unfolding end_client
    end_client-Same s = search same_rules depth 24

    merge_copy-Same : (at : Text) (s : Session) → Keeps (SameProfiles {K = K}) (merge_copy os at s)
    unfolding merge_copy
    merge_copy-Same at s = search same_rules depth 24

    drop_copy-Same : (s : Session) → Keeps (SameProfiles {K = K}) (drop_copy s)
    unfolding drop_copy
    drop_copy-Same s = search same_rules depth 24

    forget-Same :
        (iqn : Text)
        → Keeps Same (
            changes λ db. record db {
              active_session =
                  delete (λ (r : ActiveSession). r.initiator_iqn == iqn) db.active_session;
            })
    unfolding changes
    forget-Same iqn = record { after = λ db held. held }

    pub end_session-Same :
        (at : Text) (s : Session) (merge : Bool)
        → Keeps SameProfiles (end_session os cfg at s merge)
    unfolding end_session
    end_session-Same at s merge =
        search (same_rules, forget-Same, end_client-Same, merge_copy-Same, drop_copy-Same) depth 24

    pub build_sanboot_script-Same :
        (at client_mac : Text) → Keeps SameProfiles (build_sanboot_script os cfg at client_mac)
    unfolding build_sanboot_script
    build_sanboot_script-Same at client_mac = search (same_rules, start_session-Same) depth 24

    reap_row-Same : (at : Text) (row : ActiveSession) → Keeps SameProfiles (reap_row os cfg at row)
    unfolding reap_row
    reap_row-Same at row = search (same_rules, end_session-Same) depth 24

    reap_rows-Same :
        (at : Text) (rows : List ActiveSession) → Keeps SameProfiles (reap_rows os cfg at rows)
    unfolding reap_rows
    reap_rows-Same at [] = return-Keeps []
    reap_rows-Same at (row ∷ rows) =
        bind-Keeps _ _ (reap_row-Same at row)
          λ gone. bind-Keeps _ _ (reap_rows-Same at rows) λ reaped. return-Keeps _

    pub reap_disconnected_sessions-Same :
        (at : Text) → Keeps SameProfiles (reap_disconnected_sessions os cfg at)
    unfolding reap_disconnected_sessions
    reap_disconnected_sessions-Same at = search (same_rules, reap_rows-Same) depth 24
