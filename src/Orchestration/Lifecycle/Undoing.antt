-- ===== src/Orchestration/Lifecycle/Undoing.antt =====
-- The end of a client's session takes back what its start has made.
use diskless.Base.{
  ℕ, ◌≡◌, refl, sym, ap, subst, ◌∙◌, true, false, none, some, [], Text, Bytes, pos, Result, ok,
  attribute_error, if◌then◌else◌, ◌==◌, list_eq, nat_eq, inl, inr, Bool-cases, arith, ok_injective,
  replicate,
}
use diskless.Base.Dict.{lookup, insert, erase, lookup-insert, lookup-erase}
use diskless.Base.Action.{bind_returned, reads, changes, lift, return, ◌>>◌}
use diskless.Config.{Config}
use diskless.Database.{ImageProfile, ClientBinding, select, delete}
use diskless.Machine.{Machine}
use diskless.Orchestration.Host.{Host, on_kernel, on_files, on_db, create_sparse_overlay, unlink}
use diskless.Orchestration.Session.{Session, overlay_file}
use diskless.Orchestration.Lifecycle.{
  start_client_session, make_session, start_session, end_session, end_client, present, drop_copy,
  merge_copy,
}
use diskless.Lio.{remove_lun}
use diskless.Orchestration.PrivClient.{detach_loop}
use diskless.Orchestration.Lifecycle.Rows.{is_for, select-delete}
use diskless.Orchestration.Lifecycle.Starting.{Recorded, start_session-Recorded}

-- A client's session has one file of its own, the overlay, which it has made.
pub record IsMade (cfg : Config) (iqn : Text) {K : Type 0} (h h' : Host K) (s : Session)
    : Type 0 where
  pub content : Bytes
  pub size : ℕ
  pub sparse : content ≡ replicate size 0
  pub files : h'.files ≡ insert (overlay_file cfg iqn) content h.files
  pub client : s.readonly ≡ true
  pub own : s.overlay_path ≡ some (overlay_file cfg iqn)
  pub initiator : s.initiator_iqn ≡ iqn

module _ {K : Type 0} (os : Machine K) (cfg : Config) where
  pub client_session :
      (b : ClientBinding) (p : ImageProfile) (iqn : Text) (h : Host K) (s : Session)
      → (start_client_session os cfg b p iqn h).0 ≡ ok s
      → IsMade cfg iqn h (start_client_session os cfg b p iqn h).1 s
  unfolding start_client_session on_db on_kernel on_files create_sparse_overlay changes reads lift
      return
  client_session b p iqn h s made =
      let (path, _, s1, e1) = bind_returned _ _ h s made in
      let (dev, _, s2, e2) = bind_returned _ _ h s e1 in
      let (size, _, s3, e3) = bind_returned _ _ _ s e2 in
      let (_, _, s4, e4) = bind_returned _ _ _ s e3 in
      let (_, _, s5, e5) = bind_returned _ _ _ s e4 in
      let (_, _, s6, e6) = bind_returned _ _ _ s e5 in
      let (n, _, s7, e7) = bind_returned _ _ _ s e6 in
      let same = ok_injective _ s e7 in
      record {
        content = replicate size 0;
        size = size;
        sparse = refl;
        files = ap (λ (r : Result Session × Host K). r.1.files) (s1 ∙ s2 ∙ s3 ∙ s4 ∙ s5 ∙ s6 ∙ s7);
        client = ap (λ (r : Session). r.readonly) (sym same);
        own = ap (λ (r : Session). r.overlay_path) (sym same);
        initiator = ap (λ (r : Session). r.initiator_iqn) (sym same);
      }

  started :
      (at : Text) (b : ClientBinding) (iqn : Text) (h : Host K) (s : Session)
      → (start_session os cfg at b iqn true none (pos 0) h).0 ≡ ok s
      → IsMade cfg iqn h (start_session os cfg at b iqn true none (pos 0) h).1 s
  unfolding start_session make_session on_db on_kernel reads changes return
  started at b iqn h s done =
      let (p, known, s1, e1) = bind_returned _ _ h s done in
      let (made, session, s2, e2) = bind_returned _ _ h s e1 in
      let (_, _, s3, e3) = bind_returned _ _ _ s e2 in
      let (_, _, s4, e4) = bind_returned _ _ _ s e3 in
      let m = client_session b p iqn h s (session ∙ e4) in
      record {
        content = m.content;
        size = m.size;
        sparse = m.sparse;
        files = ap (λ (r : Result Session × Host K). r.1.files) (s1 ∙ s2 ∙ s3 ∙ s4) ∙ m.files;
        client = m.client;
        own = m.own;
        initiator = m.initiator;
      }

  -- The end of a session with an overlay.
  cleared :
      (h : Host K) (s : Session) (path : Text)
      → s.overlay_path ≡ some path
      → (end_client os s h).0 ≡ ok tt
      → ((end_client os s h).1.files ≡ erase path h.files) × ((end_client os s h).1.db ≡ h.db)
  unfolding end_client on_kernel on_files unlink changes lift present
  cleared h s path own done =
      let (_, _, s1, e1) = bind_returned _ _ h tt done in
      let (_, _, s2, e2) = bind_returned _ _ _ tt e1 in
      let (_, _, s3, e3) = bind_returned _ _ _ tt e2 in
      let (path', has, s4, e4) = bind_returned _ _ _ tt e3 in
      let same : path' ≡ path =
        ok_injective path' path (sym has ∙ ap (present attribute_error) own) in
      let last = s1 ∙ s2 ∙ s3 ∙ s4 in
      (
        ap (λ (r : Result (Unit {0}) × Host K). r.1.files) last ∙ ap (λ q. erase q h.files) same,
        ap (λ (r : Result (Unit {0}) × Host K). r.1.db) last,
      )

  ended :
      (at : Text) (h : Host K) (s : Session) (path : Text)
      → s.readonly ≡ true
      → s.overlay_path ≡ some path
      → (end_session os cfg at s false h).0 ≡ ok tt
      → ((end_session os cfg at s false h).1.files ≡ erase path h.files)
        × ((end_session os cfg at s false h).1.db.active_session
            ≡ delete (is_for s.initiator_iqn) h.db.active_session)
  unfolding end_session on_kernel on_db changes
  ended at h s path client own done =
      let (_, _, s1, e1) = bind_returned _ _ h tt done in
      let (_, _, s2, e2) = bind_returned _ _ _ tt e1 in
      let h' : Host K = record h {
        kernel = (remove_lun os cfg.iscsi_target_wwn s.initiator_iqn s.lun_name h.kernel).1;
        db = record h.db { active_session = delete (is_for s.initiator_iqn) h.db.active_session };
      } in
      let branch : (if s.readonly then end_client os s else (do
        on_kernel (detach_loop os (some s.base_loop_dev))
        if false then merge_copy os at s else drop_copy s))
            h'
          ≡ end_client os s h' =
        rw client refl in
      let (files, db) =
        cleared h' s path own (ap (λ (r : Result (Unit {0}) × Host K). r.0) (sym branch) ∙ e2) in
      let last = s1 ∙ s2 ∙ branch in
      (
        ap (λ (r : Result (Unit {0}) × Host K). r.1.files) last ∙ files,
        ap (λ (r : Result (Unit {0}) × Host K). r.1.db.active_session) last
            ∙ ap (λ d. d.active_session) db,
      )

-- Where the start of a client's session and its end return, every file but the overlay is as it was
-- before, the overlay is gone, no row is left for the client's initiator, and the rows of all others are as
-- they were.
pub end_session-start_session :
    {K : Type 0} (os : Machine K) (cfg : Config) (at later : Text) (b : ClientBinding) (iqn : Text)
    (h : Host K) (s : Session)
    → (start_session os cfg at b iqn true none (pos 0) h).0 ≡ ok s
    → (end_session os cfg later s false (start_session os cfg at b iqn true none (pos 0) h).1).0
      ≡ ok tt
    → ((path : Text)
        → lookup path
            (end_session os cfg later s false
              (start_session os cfg at b iqn true none (pos 0) h).1).1.files
          ≡ (if path == overlay_file cfg iqn then none else lookup path h.files))
      × ((other : Text)
          → select
              (is_for other)
              (end_session os cfg later s false
                (start_session os cfg at b iqn true none (pos 0) h).1).1.db.active_session
            ≡ (if other == iqn then [] else select (is_for other) h.db.active_session))
end_session-start_session os cfg at later b iqn h s done over =
    let h' = (start_session os cfg at b iqn true none (pos 0) h).1 in
    let m = started os cfg at b iqn h s done in
    let (files, rows) = ended os cfg later h' s (overlay_file cfg iqn) m.client m.own over in
    let recorded : Recorded at iqn b true h.db.active_session (ok s) h'.db.active_session =
      subst (λ r. Recorded at iqn b true h.db.active_session r h'.db.active_session) done
        (start_session-Recorded os cfg at b iqn true none (pos 0) h) in
    (
      λ path.
          rw
            (
              files,
              m.files,
              lookup-erase path (overlay_file cfg iqn)
                  (insert (overlay_file cfg iqn) m.content h.files),
              lookup-insert path (overlay_file cfg iqn) m.content h.files,
            )
            (ground arith),
      λ other.
          rw (rows, m.initiator, select-delete iqn other h'.db.active_session)
            (elim (Bool-cases (other == iqn)) [
              | inl own ↦ rw own refl
              | inr another ↦ rw another (recorded other ∙ rw another refl)
            ]),
    )
