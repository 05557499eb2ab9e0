-- ===== src/Orchestration/Lifecycle.antt =====
-- How sessions start and end, and how lost ones are cleared away: `start_session`, `end_session`,
-- `build_sanboot_script` and `reap_disconnected_sessions` of src/diskless/orchestration/session.py.
pub mod Profiles
pub mod Rows
pub mod Starting
pub mod Ending
pub mod Reaping
pub mod Blocking
pub mod Leaking
pub mod Merging
pub mod Booting
pub mod Undoing
use diskless.Base.{
  ℕ, suc, Bool, true, false, Option, none, some, List, [], ◌∷◌, ◌++◌, Text, codes, decimal, ℤ, pos,
  negsuc, Result, ok, raise, Exn, value_error, type_error, integrity_error, attribute_error, ◌||◌,
  if◌then◌else◌, ◌==◌, list_eq, nat_eq,
}
use diskless.Base.Action.{Action, return, lift, reads, changes, ◌>>=◌, ◌>>◌}
use diskless.Database.{
  Database, ImageProfile, ImageVersion, ClientBinding, ActiveSession, select, delete, exists_row,
  has_id, is_version,
}
use diskless.Config.{Config}
use diskless.Machine.{Machine}
use diskless.Models.{get_image_profile, lookup_client_binding_by_mac, resolve_image_path}
use diskless.Lio.{register_lun, remove_lun, is_session_active}
use diskless.Orchestration.Host.{
  Host, Files, on_kernel, on_files, on_db, content, file_size, create_sparse_overlay,
  reflink_or_copy, grow_file, unlink,
}
use diskless.Orchestration.PrivClient.{attach_loop, detach_loop, create_snapshot, remove_snapshot}
use diskless.Orchestration.Session.{
  Session, safe_id, initiator_iqn_for_mac, overlay_file, path_name, next_version_number, version_of,
  copy_path, record_session, active_row,
}

-- `_session_from_active_row`. A row of a client's session has all four texts. `Path` refuses a row with
-- no overlay path; a row with one but without the snapshot or the base device, which the program does
-- not write, is refused here too.
unfoldable pub session_from_active_row : ActiveSession → Result Session
session_from_active_row row = elim row.overlay_path [
  | none ↦ raise type_error
  | some overlay_path ↦ elim row.snapshot_name [
    | none ↦ raise type_error
    | some snapshot_name ↦ elim row.base_loop_dev [
      | none ↦ raise type_error
      | some base_loop_dev ↦ ok (record {
        initiator_iqn = row.initiator_iqn;
        lun_name = snapshot_name;
        readonly = true;
        backing_dev = codes "/dev/mapper/" ++ snapshot_name;
        base_loop_dev = base_loop_dev;
        profile_id = negsuc 0;
        version_number = row.version;
        overlay_loop_dev = row.overlay_loop_dev;
        overlay_path = some overlay_path;
        snapshot_name = some snapshot_name;
        admin_file_path = none;
        admin_username = none;
      })
    ]
  ]
]

-- What a use of an attribute does that may be `None`.
unfoldable pub present : Exn → Option Text → Result Text
present x none = raise x
present x (some s) = ok s

-- `INSERT INTO image_version`: the profile exists and has no such version yet.
unfoldable pub insert_version :
    ℤ → ℕ → Text → Text → Text → Text → Database → Result (Unit {0}) × Database
insert_version (negsuc n) version file_path checksum at user db = (raise integrity_error, db)
insert_version (pos profile_id) version file_path checksum at user db =
    if exists_row (is_version profile_id version) db.image_version
    then (raise integrity_error, db)
    else if exists_row (has_id profile_id) db.image_profile
    then (
      ok tt,
      record db {
        image_version =
            db.image_version
            ++ record {
              id = db.next_image_version;
              profile_id = profile_id;
              version_number = version;
              file_path = file_path;
              checksum = checksum;
              created_at = at;
              created_by = user;
            }
              ∷ [];
        next_image_version = suc db.next_image_version;
      },
    )
    else (raise integrity_error, db)

module _ {K : Type 0} where
  unfoldable pub drop_copy : Session → Action (Host K) (Unit {0})
  drop_copy s = do path ← lift (present attribute_error s.admin_file_path); on_files (unlink path)

module _ {K : Type 0} (os : Machine K) where
  -- The end of a client's session: its devices and its overlay go.
  unfoldable pub end_client : Session → Action (Host K) (Unit {0})
  end_client s = do
    on_kernel (remove_snapshot os s.snapshot_name)
    on_kernel (detach_loop os s.overlay_loop_dev)
    on_kernel (detach_loop os (some s.base_loop_dev))
    path ← lift (present attribute_error s.overlay_path)
    on_files (unlink path)

  -- `merge=True`: the copy becomes a version.
  unfoldable pub merge_copy : Text → Session → Action (Host K) (Unit {0})
  unfolding insert_version
  merge_copy at s = do
    path ← lift (present type_error s.admin_file_path)
    bytes ← on_files (reads (content path))
    user ← lift (present integrity_error s.admin_username)
    on_db (insert_version s.profile_id s.version_number (path_name path) (os.sha256 bytes) at user)

module _ {K : Type 0} (os : Machine K) (cfg : Config) where
  unfoldable pub start_client_session :
      ClientBinding → ImageProfile → Text → Action (Host K) Session
  start_client_session binding profile initiator_iqn = do
    img_path ← on_db (reads (resolve_image_path cfg.images_root profile binding.assigned_version))
    base_loop_dev ← on_kernel (attach_loop os img_path true)
    let overlay_path = overlay_file cfg initiator_iqn
    size ← on_files (reads (file_size img_path))
    on_files (create_sparse_overlay overlay_path size)
    overlay_loop_dev ← on_kernel (attach_loop os overlay_path false)
    let snapshot_name = codes "session-" ++ safe_id initiator_iqn
    on_kernel (create_snapshot os snapshot_name base_loop_dev overlay_loop_dev)
    version ← lift (version_of binding.assigned_version)
    return (record {
      initiator_iqn = initiator_iqn;
      lun_name = snapshot_name;
      readonly = true;
      backing_dev = codes "/dev/mapper/" ++ snapshot_name;
      base_loop_dev = base_loop_dev;
      profile_id = pos profile.id;
      version_number = version;
      overlay_loop_dev = some overlay_loop_dev;
      overlay_path = some overlay_path;
      snapshot_name = some snapshot_name;
      admin_file_path = none;
      admin_username = none;
    })

  unfoldable pub start_admin_session :
      ClientBinding → ImageProfile → Text → Text → ℤ → Action (Host K) Session
  start_admin_session binding profile initiator_iqn admin_username additional_bytes = do
    base_path ← on_db (reads (resolve_image_path cfg.images_root profile binding.assigned_version))
    next_version ← on_db (reads (λ db. ok (next_version_number profile.id db)))
    let new_path = copy_path cfg profile next_version
    on_files (reflink_or_copy os base_path new_path)
    on_files (grow_file new_path additional_bytes)
    admin_loop_dev ← on_kernel (attach_loop os new_path false)
    return (record {
      initiator_iqn = initiator_iqn;
      lun_name = codes "admin-" ++ (decimal profile.id ++ (codes "-v" ++ decimal next_version));
      readonly = false;
      backing_dev = admin_loop_dev;
      base_loop_dev = admin_loop_dev;
      profile_id = pos profile.id;
      version_number = next_version;
      overlay_loop_dev = none;
      overlay_path = none;
      snapshot_name = none;
      admin_file_path = some new_path;
      admin_username = some admin_username;
    })

  -- The session of the kind that is asked for.
  unfoldable pub make_session :
      ClientBinding → ImageProfile → Text → Bool → Option Text → ℤ → Action (Host K) Session
  unfolding start_client_session start_admin_session
  make_session binding profile initiator_iqn true admin_username additional_bytes =
      start_client_session binding profile initiator_iqn
  make_session binding profile initiator_iqn false none additional_bytes = lift (raise value_error)
  make_session binding profile initiator_iqn false (some user) additional_bytes =
      start_admin_session binding profile initiator_iqn user additional_bytes

  unfoldable pub start_session :
      Text → ClientBinding → Text → Bool → Option Text → ℤ → Action (Host K) Session
  unfolding make_session
  start_session at binding initiator_iqn readonly admin_username additional_bytes = do
    profile ← on_db (reads (get_image_profile binding.image_profile_id))
    s ← make_session binding profile initiator_iqn readonly admin_username additional_bytes
    on_kernel (
        register_lun os cfg.iscsi_target_wwn initiator_iqn s.lun_name s.backing_dev
          cfg.iscsi_portal_ip cfg.iscsi_portal_port)
    on_db (changes (record_session (active_row at initiator_iqn binding readonly s)))
    return s

  unfoldable pub end_session : Text → Session → Bool → Action (Host K) (Unit {0})
  unfolding end_client merge_copy drop_copy
  end_session at s merge = do
    on_kernel (remove_lun os cfg.iscsi_target_wwn s.initiator_iqn s.lun_name)
    on_db (
        changes λ db. record db {
          active_session =
              delete (λ (r : ActiveSession). r.initiator_iqn == s.initiator_iqn) db.active_session;
        })
    if s.readonly then end_client os s else do
      on_kernel (detach_loop os (some s.base_loop_dev))
      if merge then merge_copy os at s else drop_copy s

  unfoldable pub build_sanboot_script : Text → Text → Action (Host K) Text
  unfolding start_session
  build_sanboot_script at client_mac = do
    binding ← on_db (reads (lookup_client_binding_by_mac client_mac))
    let initiator_iqn = initiator_iqn_for_mac cfg client_mac
    session ← start_session at binding initiator_iqn true none (pos 0)
    return (
        codes "#!ipxe\nset initiator-iqn "
        ++ (initiator_iqn
            ++ (codes "\nsanboot iscsi:"
                ++ (cfg.iscsi_portal_ip
                    ++ (codes "::::" ++ (cfg.iscsi_target_wwn ++ codes "\n"))))))

  -- One row of the reaper's loop; whether it was reaped.
  unfoldable pub reap_row : Text → ActiveSession → Action (Host K) Bool
  unfolding end_session session_from_active_row
  reap_row at row = do
    active ← on_kernel (is_session_active os cfg.iscsi_target_wwn row.initiator_iqn)
    if active
        then return false
        else do s ← lift (session_from_active_row row); end_session at s false; return true

  unfoldable pub reap_rows : Text → List ActiveSession → Action (Host K) (List Text)
  unfolding reap_row
  reap_rows at [] = return []
  reap_rows at (row ∷ rows) = do
    gone ← reap_row at row
    reaped ← reap_rows at rows
    return (if gone then row.initiator_iqn ∷ reaped else reaped)

  unfoldable pub reap_disconnected_sessions : Text → Action (Host K) (List Text)
  unfolding reap_rows
  reap_disconnected_sessions at = do
    rows ← on_db (reads (λ db. ok (select (λ (r : ActiveSession). r.readonly) db.active_session)))
    reap_rows at rows
