-- ===== src/Tests/Sharing.antt =====
-- One administrator edits two profiles at a time.
use diskless.Base.{
  is_ascii, ℕ, ◌≡◌, refl, arith, none, some, [], ◌∷◌, Text, codes, ok, list_eq, nat_eq, int, decode,
}
use diskless.Base.Dict.{lookup, insert, erase}
use diskless.Base.Action.{◌>>=◌}
use diskless.Database.{
  ImageProfile, ImageVersion, ActiveSession, select, fetch_one, update, exists_row, sqlite_integer,
}
use diskless.PrivHelper.{handle}
use diskless.Lio.{register_lun, remove_lun}
use diskless.Models.{get_image_profile, resolve_image_path}
use diskless.Orchestration.Host.{
  content, on_db, on_files, on_kernel, reflink_or_copy, grow_file, unlink,
}
use diskless.Orchestration.Lock.{acquire}
use diskless.Orchestration.PrivClient
use diskless.Orchestration.Session.{Session, next_version_number, record_session, copy_path}
use diskless.Orchestration.Lifecycle.{make_session, start_session, end_session, present}
use diskless.Orchestration.Lifecycle.Rows.{is_for}
use diskless.Web.{Args, redirect, verify_csrf, checked, arg, arg_or}
use diskless.Web.Images.{versions_page}
use diskless.Web.Updates.{Running, admin_iqn, start_update_session, finish_update_session}
use diskless.Web.Updates.Sharing.{editing_two}
use diskless.Tests.Site.{site, config, web_session}
use diskless.Tests.Helper.{Kernel, works, kernel}

abbrev profile : ℕ → Text → ImageProfile
profile id name = record {
  id = id;
  name = name;
  storage_dir = name;
  locked_by = none;
  locked_at = none;
}

abbrev version : ℕ → ImageVersion
version profile_id = record {
  id = profile_id;
  profile_id = profile_id;
  version_number = 2;
  file_path = codes "v2.img";
  checksum = [];
  created_at = [];
  created_by = codes "admin";
}

abbrev idle : Running Kernel
idle = record {
  world = record {
    db = record (site none) {
      image_profile = profile 1 (codes "a") ∷ profile 2 (codes "b") ∷ [];
      image_version = version 1 ∷ version 2 ∷ [];
    };
    files = (codes "/images/a/v2.img", codes "a") ∷ (codes "/images/b/v2.img", codes "b") ∷ [];
    admin_sessions = [];
  };
  kernel = kernel;
}

abbrev posted : Args
posted = (codes "_csrf", codes "x1" ∷ []) ∷ (codes "base_version", codes "2" ∷ []) ∷ []

abbrev one : Running Kernel
one = (start_update_session works config (codes "t1") 1 posted web_session idle).1

abbrev both : Running Kernel
both = (start_update_session works config (codes "t2") 2 posted web_session one).1

abbrev rest : Running Kernel
rest = (finish_update_session works config (codes "t3") 1 posted web_session both).1

first :
    start_update_session works config (codes "t1") 1 posted web_session idle
    ≡ (ok (redirect (versions_page 1)), one)
unfolding start_update_session checked verify_csrf arg arg_or lookup is_ascii list_eq nat_eq decode
    int acquire exists_row update fetch_one start_session ◌>>=◌ on_db get_image_profile make_session
    resolve_image_path sqlite_integer next_version_number on_files reflink_or_copy content insert
    grow_file on_kernel PrivClient.attach_loop handle register_lun record_session copy_path
first = refl

second :
    start_update_session works config (codes "t2") 2 posted web_session one
    ≡ (ok (redirect (versions_page 2)), both)
unfolding start_update_session checked verify_csrf arg arg_or lookup is_ascii list_eq nat_eq decode
    int acquire exists_row update fetch_one start_session ◌>>=◌ on_db get_image_profile make_session
    resolve_image_path sqlite_integer next_version_number on_files reflink_or_copy content insert
    grow_file on_kernel PrivClient.attach_loop handle register_lun record_session copy_path
second = refl

third :
    finish_update_session works config (codes "t3") 1 posted web_session both
    ≡ (ok (redirect (versions_page 1)), rest)
unfolding start_update_session checked verify_csrf arg arg_or lookup is_ascii list_eq nat_eq decode
    int acquire exists_row update fetch_one start_session ◌>>=◌ on_db get_image_profile make_session
    resolve_image_path sqlite_integer next_version_number on_files reflink_or_copy content insert
    grow_file on_kernel PrivClient.attach_loop handle register_lun record_session copy_path
    finish_update_session end_session remove_lun PrivClient.detach_loop present unlink erase
third = refl

editing_two_example :
    (row : ActiveSession) × (s : Session) × (select
        (is_for (admin_iqn config (codes "admin")))
        both.world.db.active_session
      ≡ row ∷ [])
    × (row.version ≡ s.version_number)
    × (select (is_for (admin_iqn config (codes "admin"))) rest.world.db.active_session ≡ [])
    × (lookup 2 rest.world.admin_sessions ≡ some s)
editing_two_example =
    editing_two works config (codes "t1") (codes "t2") (codes "t3") 1 2 posted posted posted
      web_session (versions_page 1) (versions_page 2) (versions_page 1) idle one both rest
      (omega arith) first second third
