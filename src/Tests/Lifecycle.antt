-- ===== src/Tests/Lifecycle.antt =====
-- The start and the end of sessions, and the reaper, on the concrete machine.
use diskless.Base.{
  ℕ, List, ◌++◌, Exn, replicate, ◌≡◌, refl, Text, if◌then◌else◌, ◌==◌, true, false, none, some, [],
  ◌∷◌, codes, ok, raise, pos, negsuc, list_eq, nat_eq, int, os_error,
}
use diskless.Base.Dict.{lookup, insert}
use diskless.Base.Action.{◌>>=◌}
use diskless.Database.{
  ImageProfile, ClientBinding, ActiveSession, exists_row, select, fetch_one, sqlite_integer,
}
use diskless.Machine.{Machine}
use diskless.PrivHelper.{handle}
use diskless.Lio.{remove_lun, register_lun, is_session_active, session_of}
use diskless.Models.{get_image_profile, resolve_image_path, join_path}
use diskless.Orchestration.Host.{
  Host, content, on_db, on_files, on_kernel, file_size, create_sparse_overlay, unlink,
}
use diskless.Orchestration.PrivClient
use diskless.Orchestration.Session.{Session, version_of, safe_id, overlay_file}
use diskless.Orchestration.Lifecycle.{
  make_session, start_session, end_session, session_from_active_row, reap_disconnected_sessions,
  present,
}
use diskless.Orchestration.Lifecycle.Starting.{Recorded, registering, start_session-Recorded}
use diskless.Orchestration.Lifecycle.Leaking.{has_overlay, start_session_leaks}
use diskless.Orchestration.Lifecycle.Blocking.{clients, rounds, reap_blocked}
use diskless.Orchestration.Lifecycle.Ending.{Forgotten, end_session-Forgotten}
use diskless.Orchestration.Lifecycle.Reaping.{reap_spares}
use diskless.Orchestration.Lifecycle.Rows.{is_for}
use diskless.Orchestration.Lifecycle.Undoing.{end_session-start_session}
use diskless.Tests.Site.{site, config}
use diskless.Tests.Helper.{Kernel, rig, works, iqn, lun_name, kernel}

abbrev lost : ActiveSession
lost = record {
  initiator_iqn = iqn;
  client_mac = codes "02:00:00:00:00:01";
  version = 2;
  readonly = true;
  started_at = codes "t";
  snapshot_name = some lun_name;
  base_loop_dev = some (codes "/dev/loop0");
  overlay_loop_dev = some (codes "/dev/loop1");
  overlay_path = some (codes "/images/_overlays/1.cow");
}

abbrev host : Host Kernel
host = record {
  db = record (site none) { active_session = lost ∷ [] };
  files = (codes "/images/win11/v2.img", codes "disk") ∷ [];
  kernel = kernel;
}

abbrev binding : ClientBinding
binding = record {
  id = 1;
  client_mac = codes "02:00:00:00:00:01";
  initiator_iqn = none;
  image_profile_id = 1;
  assigned_version = pos 2;
}

start_session-Recorded_example :
    Recorded
      (codes "t")
      iqn
      binding
      true
      host.db.active_session
      (start_session works config (codes "t") binding iqn true none (pos 0) host).0
      (start_session works config
        (codes "t")
        binding
        iqn
        true
        none
        (pos 0)
        host).1.db.active_session
start_session-Recorded_example =
    start_session-Recorded works config (codes "t") binding iqn true none (pos 0) host

abbrev full : Machine Kernel
full = rig (raise os_error) (raise os_error)

abbrev pub profile : ImageProfile
profile = record {
  id = 1;
  name = codes "win11";
  storage_dir = codes "win11";
  locked_by = none;
  locked_at = none;
}

abbrev client_session : Session
client_session = record {
  initiator_iqn = iqn;
  lun_name = codes "session-iqn_client-020000000001";
  readonly = true;
  backing_dev = codes "/dev/mapper/session-iqn_client-020000000001";
  base_loop_dev = codes "/dev/loop0";
  profile_id = pos 1;
  version_number = 2;
  overlay_loop_dev = some (codes "/dev/loop0");
  overlay_path = some (codes "/images/_overlays/iqn_client-020000000001.cow");
  snapshot_name = some (codes "session-iqn_client-020000000001");
  admin_file_path = none;
  admin_username = none;
}

-- Another client's session, lost too.
abbrev neighbour : ActiveSession
neighbour = record lost {
  initiator_iqn = codes "iqn:client-020000000002";
  snapshot_name = some (codes "session-2");
  overlay_path = some (codes "/images/_overlays/2.cow");
}

abbrev idle : Host Kernel
idle = record host { db = record host.db { active_session = neighbour ∷ [] } }

known : get_image_profile 1 idle.db ≡ ok profile
unfolding get_image_profile fetch_one
known = refl

made : (make_session full config binding profile iqn true none (pos 0) idle).0 ≡ ok client_session
unfolding make_session resolve_image_path PrivClient.attach_loop handle lookup list_eq nat_eq ◌>>=◌
    content insert on_db sqlite_integer fetch_one on_kernel on_files file_size create_sparse_overlay
    PrivClient.create_snapshot int version_of safe_id overlay_file
made = refl

refused :
    (start_session full config (codes "t") binding iqn true none (pos 0) idle).0 ≡ raise os_error
unfolding start_session make_session get_image_profile resolve_image_path PrivClient.attach_loop
    handle lookup list_eq nat_eq ◌>>=◌ content insert on_db sqlite_integer fetch_one on_kernel
    on_files file_size create_sparse_overlay PrivClient.create_snapshot int version_of safe_id
    overlay_file register_lun
refused = refl

no_overlay : exists_row (has_overlay (overlay_file config iqn)) idle.db.active_session ≡ false
unfolding exists_row overlay_file safe_id list_eq nat_eq join_path
no_overlay = refl

no_row : exists_row (is_for iqn) idle.db.active_session ≡ false
unfolding exists_row list_eq nat_eq
no_row = refl

abbrev two_rounds : List Text
two_rounds = codes "u" ∷ codes "v" ∷ []

start_session_leaks_example :
    (size : ℕ) × (lookup
        (overlay_file config iqn)
        (start_session full config (codes "t") binding iqn true none (pos 0) idle).1.files
      ≡ some (replicate size 0))
    × ((start_session full config (codes "t") binding iqn true none (pos 0) idle).1.kernel
        ≡ (registering full config iqn client_session
            (make_session full config binding profile iqn true none (pos 0) idle).1).1)
    × (lookup
          (overlay_file config iqn)
          (rounds full config two_rounds
            (start_session full config (codes "t") binding iqn true none (pos 0) idle).1).files
        ≡ some (replicate size 0))
    × (exists_row
          (is_for iqn)
          (rounds full config two_rounds
            (start_session full config
              (codes "t")
              binding
              iqn
              true
              none
              (pos 0)
              idle).1).db.active_session
        ≡ false)
start_session_leaks_example =
    start_session_leaks full config (codes "t") binding iqn none (pos 0) idle profile client_session
      os_error two_rounds known made refused no_overlay no_row

end_session-Forgotten_example :
    Forgotten iqn host.db.active_session
      (remove_lun works config.iscsi_target_wwn iqn client_session.lun_name kernel).0
      (end_session works config (codes "t") client_session false host).1.db.active_session
end_session-Forgotten_example =
    end_session-Forgotten works config (codes "t") client_session false host

abbrev lost_session : Session
lost_session = record {
  initiator_iqn = iqn;
  lun_name = lun_name;
  readonly = true;
  backing_dev = codes "/dev/mapper/session-1";
  base_loop_dev = codes "/dev/loop0";
  profile_id = negsuc 0;
  version_number = 2;
  overlay_loop_dev = some (codes "/dev/loop1");
  overlay_path = some (codes "/images/_overlays/1.cow");
  snapshot_name = some lun_name;
  admin_file_path = none;
  admin_username = none;
}

-- A client whose session can be removed, the one whose LUN the target keeps, and another lost one.
abbrev behind : ActiveSession
behind = record lost { initiator_iqn = codes "iqn:client-020000000003" }

abbrev jammed : Machine Kernel
jammed = record works {
  node_acls = λ wwn tag k. (ok [], k);
  luns = λ wwn tag k. (ok [], k);
  delete_storage = λ name k. (if name == lun_name then raise os_error else ok tt, k);
}

abbrev crowded : Host Kernel
crowded = record host { db = record host.db { active_session = neighbour ∷ lost ∷ behind ∷ [] } }

listed : clients crowded.db.active_session ≡ (neighbour ∷ []) ++ lost ∷ behind ∷ []
unfolding select
listed = refl

is_lost : (k : Kernel) → (is_session_active jammed config.iscsi_target_wwn iqn k).0 ≡ ok false
unfolding is_session_active session_of ◌>>=◌
is_lost k = refl

read_back : session_from_active_row lost ≡ ok lost_session
unfolding session_from_active_row
read_back = refl

stuck : (k : Kernel) → (remove_lun jammed config.iscsi_target_wwn iqn lun_name k).0 ≡ raise os_error
unfolding remove_lun list_eq nat_eq ◌>>=◌
stuck k = refl

first_of_its_own : exists_row (is_for iqn) (neighbour ∷ []) ≡ false
unfolding exists_row list_eq nat_eq
first_of_its_own = refl

not_before : exists_row (is_for behind.initiator_iqn) (neighbour ∷ []) ≡ false
unfolding exists_row list_eq nat_eq
not_before = refl

reap_blocked_example :
    (select
        (is_for behind.initiator_iqn)
        (rounds jammed config two_rounds crowded).db.active_session
      ≡ select (is_for behind.initiator_iqn) crowded.db.active_session)
    × (y : Exn) × ((reap_disconnected_sessions jammed config
          (codes "w")
          (rounds jammed config two_rounds crowded)).0
        ≡ raise y)
reap_blocked_example =
    reap_blocked jammed config lost behind.initiator_iqn lost_session os_error (neighbour ∷ [])
      (behind ∷ []) two_rounds (codes "w") crowded is_lost read_back stuck listed first_of_its_own
      not_before

nobody :
    exists_row
      (is_for (codes "iqn:admin-ui-kim"))
      (select (λ (r : ActiveSession). r.readonly) host.db.active_session)
    ≡ false
unfolding exists_row select list_eq nat_eq
nobody = refl

reap_spares_example :
    select
      (is_for (codes "iqn:admin-ui-kim"))
      (reap_disconnected_sessions works config (codes "t") host).1.db.active_session
    ≡ select (is_for (codes "iqn:admin-ui-kim")) host.db.active_session
reap_spares_example = reap_spares works config (codes "t") (codes "iqn:admin-ui-kim") host nobody

begun :
    (start_session works config (codes "t") binding iqn true none (pos 0) host).0
    ≡ ok client_session
unfolding start_session make_session get_image_profile resolve_image_path PrivClient.attach_loop
    handle lookup list_eq nat_eq ◌>>=◌ content insert on_db sqlite_integer fetch_one on_kernel
    on_files file_size create_sparse_overlay PrivClient.create_snapshot int version_of safe_id
    overlay_file register_lun
begun = refl

finished :
    (end_session works config
      (codes "u")
      client_session
      false
      (start_session works config (codes "t") binding iqn true none (pos 0) host).1).0
    ≡ ok tt
unfolding start_session make_session get_image_profile resolve_image_path PrivClient.attach_loop
    handle lookup list_eq nat_eq ◌>>=◌ content insert on_db sqlite_integer fetch_one on_kernel
    on_files file_size create_sparse_overlay PrivClient.create_snapshot int version_of safe_id
    overlay_file register_lun end_session remove_lun PrivClient.remove_snapshot
    PrivClient.detach_loop present unlink
finished = refl

end_session-start_session_example :
    ((path : Text)
      → lookup path
          (end_session works config
            (codes "u")
            client_session
            false
            (start_session works config (codes "t") binding iqn true none (pos 0) host).1).1.files
        ≡ (if path == overlay_file config iqn then none else lookup path host.files))
    × ((other : Text)
        → select
            (is_for other)
            (end_session works config
              (codes "u")
              client_session
              false
              (start_session works config
                (codes "t")
                binding
                iqn
                true
                none
                (pos 0)
                host).1).1.db.active_session
          ≡ (if other == iqn then [] else select (is_for other) host.db.active_session))
end_session-start_session_example =
    end_session-start_session works config (codes "t") (codes "u") binding iqn host client_session
      begun finished
