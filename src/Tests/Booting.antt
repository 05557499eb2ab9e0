-- ===== src/Tests/Booting.antt =====
-- An administrator assigns version 2 to a client that had version 1, and the client boots.
use diskless.Base.{
  is_ascii, ℕ, ◌≡◌, refl, true, Option, none, some, [], ◌∷◌, Text, codes, ok, pos, list_eq, nat_eq,
  decode, int, ◌==◌, if◌then◌else◌,
}
use diskless.Base.Dict.{lookup, insert}
use diskless.Base.Action.{◌>>=◌}
use diskless.Database.{ClientBinding, ActiveSession, select, fetch_one, update, sqlite_integer}
use diskless.PrivHelper.{handle}
use diskless.Lio.{register_lun}
use diskless.Models.{get_image_profile, resolve_image_path, lookup_client_binding_by_mac}
use diskless.Orchestration.Host.{
  Host, content, on_db, on_files, on_kernel, file_size, create_sparse_overlay,
}
use diskless.Orchestration.PrivClient
use diskless.Orchestration.Session.{version_of, safe_id, overlay_file, initiator_iqn_for_mac}
use diskless.Orchestration.Lifecycle.{make_session, start_session, build_sanboot_script}
use diskless.Orchestration.Lifecycle.Rows.{is_for}
use diskless.Orchestration.Lifecycle.Booting.{IsOf}
use diskless.Web.{Args, World, redirect, verify_csrf, checked, arg, arg_or}
use diskless.Web.Clients.{Assignment, assignment, assign_version}
use diskless.Web.Clients.Booting.{with_version, is_chosen, assign_version-boot}
use diskless.Tests.Site.{site, config, web_session, world}
use diskless.Tests.Helper.{Kernel, works, kernel}

abbrev mac : Text
mac = codes "02:00:00:00:00:01"

abbrev binding : ClientBinding
binding = record {
  id = 1;
  client_mac = mac;
  initiator_iqn = none;
  image_profile_id = 1;
  assigned_version = pos 1;
}

abbrev before : World
before = record (world none) { db = record (site none) { client_binding = binding ∷ [] } }

abbrev posted : Args
posted =
    (codes "_csrf", codes "x1" ∷ [])
    ∷ (codes "client_id", codes "1" ∷ [])
    ∷ (codes "version_number", codes "2" ∷ [])
    ∷ []

abbrev row_id : Text → Option ℕ
row_id t = if t == codes "1" then some 1 else none

abbrev form : Assignment
form = record { client_ids = codes "1" ∷ []; version_number = pos 2 }

filled : assignment posted ≡ ok form
unfolding assignment lookup is_ascii list_eq nat_eq decode arg int
filled = refl

known : lookup_client_binding_by_mac mac before.db ≡ ok binding
unfolding lookup_client_binding_by_mac fetch_one is_ascii list_eq nat_eq
known = refl

done : (assign_version row_id posted web_session before).0 ≡ ok (redirect (codes "/clients"))
unfolding assign_version checked verify_csrf arg_or lookup is_ascii list_eq nat_eq decode arg int
done = refl

abbrev host : Host Kernel
host = record {
  db = (assign_version row_id posted web_session before).1.db;
  files = before.files;
  kernel = kernel;
}

abbrev script : Text
script = codes "#!ipxe\nset initiator-iqn :client-020000000001\nsanboot iscsi:::::\n"

booted : (build_sanboot_script works config (codes "t") mac host).0 ≡ ok script
unfolding build_sanboot_script start_session ◌>>=◌ on_db lookup_client_binding_by_mac fetch_one
    assign_version checked verify_csrf arg_or lookup list_eq nat_eq decode arg int update
    get_image_profile make_session resolve_image_path PrivClient.attach_loop handle content insert
    sqlite_integer on_kernel on_files file_size create_sparse_overlay PrivClient.create_snapshot
    version_of safe_id overlay_file register_lun initiator_iqn_for_mac is_ascii
booted = refl

assign_version-boot_example :
    (row : ActiveSession) × (dev : Text) × (select
        (is_for (initiator_iqn_for_mac config mac))
        (build_sanboot_script works config (codes "t") mac host).1.db.active_session
      ≡ row ∷ [])
    × (row.readonly ≡ true)
    × (row.base_loop_dev ≡ some dev)
    × IsOf works config
        (with_version (pos 2) (is_chosen row_id (codes "1" ∷ []) binding) binding)
        host
        dev
        row.version
assign_version-boot_example =
    assign_version-boot works config row_id posted web_session before form (codes "t") mac binding
      host script filled known done refl booted
