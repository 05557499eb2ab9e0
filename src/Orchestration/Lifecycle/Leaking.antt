-- ===== src/Orchestration/Lifecycle/Leaking.antt =====
-- What the start of a client's session leaves when its LUN cannot be registered, and the reaper behind it.
use diskless.Base.{
  ℕ, ◌≡◌, refl, ap, ◌∙◌, Bool, true, false, Option, none, some, List, [], ◌∷◌, Text, ℤ, Bytes, Exn,
  ok, raise, attribute_error, arith, ◌==◌, list_eq, nat_eq, eq_refl, replicate, inl, inr,
  Result-cases,
}
use diskless.Base.Dict.{lookup, lookup-insert, lookup-erase}
use diskless.Base.Action.{
  Action, Keeps, reads, changes, return-Keeps, if-Keeps, bind-Keeps, lift-bind-Keeps, ◌>>=◌,
}
use diskless.Config.{Config}
use diskless.Database.{ImageProfile, ClientBinding, ActiveSession, select, delete, exists_row}
use diskless.Machine.{Machine}
use diskless.Models.{get_image_profile}
use diskless.Orchestration.Host.{Host, on_kernel, on_files, on_db, unlink}
use diskless.Orchestration.Session.{Session, overlay_file}
use diskless.Orchestration.Lifecycle.{
  make_session, start_session, end_client, end_session, session_from_active_row, reap_row,
  reap_rows, reap_disconnected_sessions, present,
}
use diskless.Orchestration.Lifecycle.Rows.{is_for}
use diskless.Orchestration.Lifecycle.Starting.{registering, made_rows}
use diskless.Orchestration.Lifecycle.Undoing.{client_session}
use diskless.Orchestration.Lifecycle.Blocking.{clients, rounds, exists-delete}

abbrev pub has_overlay : Text → ActiveSession → Bool
has_overlay path r = elim r.overlay_path [ none ↦ false | some overlay ↦ path == overlay ]

exists-select :
    (p q : ActiveSession → Bool) (rs : List ActiveSession)
    → exists_row p rs ≡ false
    → exists_row p (select q rs) ≡ false
unfolding exists_row select
exists-select p q [] none_here = refl
exists-select p q (r ∷ rs) none_here = ground (arith, exists-select p q rs)

-- A file that no row of `active_session` has as its overlay, and an initiator without a row.
module _ (path initiator : Text) (bytes : Bytes) where
  record Unowned {K : Type 0} (h : Host K) : Type 0 where
    rows : exists_row (has_overlay path) h.db.active_session ≡ false
    nobody : exists_row (is_for initiator) h.db.active_session ≡ false
    file : lookup path h.files ≡ some bytes

  module _ {K : Type 0} where
    on_kernel-Unowned : {A : Type 0} (act : Action K A) → Keeps (Unowned {K = K}) (on_kernel act)
    unfolding on_kernel
    on_kernel-Unowned act = record {
      after = λ h u. record { rows = u.rows; nobody = u.nobody; file = u.file };
    }

    unlink-Unowned :
        (other : Text) → (path == other) ≡ false → Keeps (Unowned {K = K}) (on_files (unlink other))
    unfolding on_files unlink changes
    unlink-Unowned other ne = record {
      after = λ h u. record {
        rows = u.rows;
        nobody = u.nobody;
        file = rw (lookup-erase path other h.files, ne) u.file;
      };
    }

    delete-Unowned :
        (iqn : Text)
        → Keeps (Unowned {K = K}) (
            on_db (
              changes λ db. record db {
                active_session =
                    delete (λ (r : ActiveSession). r.initiator_iqn == iqn) db.active_session;
              }))
    unfolding on_db changes
    delete-Unowned iqn = record {
      after = λ h u. record {
        rows = exists-delete (has_overlay path) (is_for iqn) h.db.active_session u.rows;
        nobody = exists-delete (is_for initiator) (is_for iqn) h.db.active_session u.nobody;
        file = u.file;
      };
    }

  -- A session of a client with another overlay.
  another :
      (s : Session) (row : ActiveSession) (overlay : Text)
      → session_from_active_row row ≡ ok s
      → has_overlay path row ≡ false
      → present attribute_error s.overlay_path ≡ ok overlay
      → (path == overlay) ≡ false
  unfolding session_from_active_row present
  another s row overlay read no_row has = ground (arith, read, no_row, has)

  client_of :
      (s : Session) (row : ActiveSession) → session_from_active_row row ≡ ok s → s.readonly ≡ true
  unfolding session_from_active_row
  client_of s row read = ground (arith, read)

  module _ {K : Type 0} (os : Machine K) (cfg : Config) (at : Text) where
    end-Unowned :
        (s : Session) (row : ActiveSession)
        → session_from_active_row row ≡ ok s
        → has_overlay path row ≡ false
        → Keeps (Unowned {K = K}) (end_session os cfg at s false)
    unfolding end_session end_client
    end-Unowned s row read no_row = rw (client_of s row read) (
        bind-Keeps _ _ (on_kernel-Unowned _) λ removed.
          bind-Keeps _ _ (delete-Unowned s.initiator_iqn) λ deleted.
            bind-Keeps _ _ (on_kernel-Unowned _) λ _. bind-Keeps _ _ (on_kernel-Unowned _) λ _.
              bind-Keeps _ _ (on_kernel-Unowned _) λ _.
                lift-bind-Keeps (present attribute_error s.overlay_path) _
                  λ overlay has. unlink-Unowned overlay (another s row overlay read no_row has))

    row-Unowned :
        (row : ActiveSession)
        → has_overlay path row ≡ false
        → Keeps (Unowned {K = K}) (reap_row os cfg at row)
    unfolding reap_row
    row-Unowned row no_row = bind-Keeps _ _ (on_kernel-Unowned _) λ active.
        if-Keeps active _ _ (return-Keeps false) (
          lift-bind-Keeps (session_from_active_row row) _
            λ s read. bind-Keeps _ _ (end-Unowned s row read no_row) (λ _. return-Keeps true))

    rows-Unowned :
        (rows : List ActiveSession)
        → exists_row (has_overlay path) rows ≡ false
        → Keeps (Unowned {K = K}) (reap_rows os cfg at rows)
    unfolding reap_rows exists_row
    rows-Unowned [] no_row = return-Keeps []
    rows-Unowned (row ∷ rows) no_row =
        bind-Keeps _ _ (row-Unowned row (ground (arith, no_row))) λ gone.
          bind-Keeps _ _ (rows-Unowned rows (ground (arith, no_row))) λ reaped. return-Keeps _

    round-Unowned : Keeps (Unowned {K = K}) (reap_disconnected_sessions os cfg at)
    unfolding reap_disconnected_sessions ◌>>=◌ on_db reads
    round-Unowned = record {
      after = λ h u.
          (rows-Unowned (clients h.db.active_session) (
              exists-select (has_overlay path) (λ (r : ActiveSession). r.readonly)
                h.db.active_session u.rows)).after
            h u;
    }

  rounds-Unowned :
      {K : Type 0} (os : Machine K) (cfg : Config) (ats : List Text) (h : Host K)
      → Unowned h
      → Unowned (rounds os cfg ats h)
  rounds-Unowned os cfg [] h u = u
  rounds-Unowned os cfg (at ∷ ats) h u =
      rounds-Unowned os cfg ats (reap_disconnected_sessions os cfg at h).1
        ((round-Unowned os cfg at).after h u)

module _ {K : Type 0} (os : Machine K) (cfg : Config) (at : Text) (b : ClientBinding) (iqn : Text)
    (user : Option Text) (more : ℤ) (h : Host K) where
  -- A start that raises once its session was made.
  failed_at_lun :
      (p : ImageProfile) (s : Session) (x : Exn)
      → get_image_profile b.image_profile_id h.db ≡ ok p
      → (make_session os cfg b p iqn true user more h).0 ≡ ok s
      → (start_session os cfg at b iqn true user more h).0 ≡ raise x
      → ((start_session os cfg at b iqn true user more h).1.files
          ≡ (make_session os cfg b p iqn true user more h).1.files)
        × ((start_session os cfg at b iqn true user more h).1.kernel
            ≡ (registering os cfg iqn s (make_session os cfg b p iqn true user more h).1).1)
        × ((start_session os cfg at b iqn true user more h).1.db.active_session
            ≡ h.db.active_session)
  unfolding start_session ◌>>=◌ on_db on_kernel reads changes
  failed_at_lun p s x known made failed =
      elim (Result-cases
        (registering os cfg iqn s (make_session os cfg b p iqn true user more h).1).0) [
          | inl (y, refused) ↦
              rw (known, made, refused, start_session, ◌>>=◌)
                (refl, refl, made_rows os cfg at b iqn true user more h p)
          | inr (n, registered) ↦ absurd (ground (arith, known, made, registered, failed))
        ]

-- The start of a client's session that raises after the session was made, as where its LUN cannot be
-- registered: the overlay is there, with nothing but zeros, and after the failed
-- registration nothing more is done on the machine, so nothing is detached. After any number of rounds of
-- the reaper the overlay is there still, and there is no row for the client. (There was no row
-- for the client, and none with its overlay.)
pub start_session_leaks :
    {K : Type 0} (os : Machine K) (cfg : Config) (at : Text) (b : ClientBinding) (iqn : Text)
    (user : Option Text) (more : ℤ) (h : Host K) (p : ImageProfile) (s : Session) (x : Exn)
    (ats : List Text)
    → get_image_profile b.image_profile_id h.db ≡ ok p
    → (make_session os cfg b p iqn true user more h).0 ≡ ok s
    → (start_session os cfg at b iqn true user more h).0 ≡ raise x
    → exists_row (has_overlay (overlay_file cfg iqn)) h.db.active_session ≡ false
    → exists_row (is_for iqn) h.db.active_session ≡ false
    → (size : ℕ) × (lookup
          (overlay_file cfg iqn)
          (start_session os cfg at b iqn true user more h).1.files
        ≡ some (replicate size 0))
      × ((start_session os cfg at b iqn true user more h).1.kernel
          ≡ (registering os cfg iqn s (make_session os cfg b p iqn true user more h).1).1)
      × (lookup
            (overlay_file cfg iqn)
            (rounds os cfg ats (start_session os cfg at b iqn true user more h).1).files
          ≡ some (replicate size 0))
      × (exists_row
            (is_for iqn)
            (rounds os cfg ats (start_session os cfg at b iqn true user more h).1).db.active_session
          ≡ false)
unfolding make_session
start_session_leaks os cfg at b iqn user more h p s x ats known made failed no_overlay no_row =
    let path = overlay_file cfg iqn in
    let h' = (start_session os cfg at b iqn true user more h).1 in
    let m = client_session os cfg b p iqn h s made in
    let (files, kernel, rows) = failed_at_lun os cfg at b iqn user more h p s x known made failed in
    let there : lookup path h'.files ≡ some (replicate m.size 0) =
      ap (lookup path) (files ∙ m.files)
      ∙ rw (lookup-insert path path m.content h.files, eq_refl path) (ap some m.sparse) in
    let after =
      rounds-Unowned path iqn (replicate m.size 0) os cfg ats h'
        (record { rows = rw rows no_overlay; nobody = rw rows no_row; file = there }) in
    (m.size, there, kernel, after.file, after.nobody)
