-- ===== src/Tests/Editing.antt =====
-- An administrator's editing of a profile, and a day of the daemon, on the concrete machine.
use diskless.Base.{
  split, value_error, decimal, ℕ, ◌≡◌, refl, true, false, none, some, List, [], ◌∷◌, Text, codes,
  Result, ok, raise, arith, pos, list_eq, nat_eq, decode,
}
use diskless.Base.Dict.{Dict, lookup, insert}
use diskless.Base.Action.{◌>>=◌}
use diskless.Database.{exists_row}
use diskless.PrivHelper.{handle}
use diskless.Lio.{remove_lun}
use diskless.Models.{resolve_image_path, join_path}
use diskless.Orchestration.Lock
use diskless.Orchestration.Lock.Keys.{IsKeyed}
use diskless.Orchestration.Host.{Host, content, on_db, on_files, on_kernel}
use diskless.Orchestration.PrivClient
use diskless.Orchestration.Session.{Session, copy_path}
use diskless.Orchestration.Lifecycle.{present, end_session}
use diskless.Orchestration.Lifecycle.Merging.{merge_resolves}
use diskless.Web.{Args, arg_or}
use diskless.Web.Pairing.{IsPaired}
use diskless.Web.Updates.{Running, Form, action_of, finish_session}
use diskless.Web.Updates.Pairing.{finish_releases}
use diskless.Web.Routes.{begins, finishes}
use diskless.Daemon.{Event, asks, loads, reaps, life, systemd_fds_by_name}
use diskless.Daemon.Pairing.{life-IsPaired}
use diskless.Tests.Site.{site, config}
use diskless.Tests.Login.{signer}
use diskless.Tests.Helper.{Kernel, works, kernel}
use diskless.Tests.Lifecycle.{profile}

-- Profile 1 is edited by `lee`.
abbrev admin_session : Session
admin_session = record {
  initiator_iqn = codes ":admin-ui-lee";
  lun_name = codes "admin-1-v3";
  readonly = false;
  backing_dev = codes "/dev/loop0";
  base_loop_dev = codes "/dev/loop0";
  profile_id = pos 1;
  version_number = 3;
  overlay_loop_dev = none;
  overlay_path = none;
  snapshot_name = none;
  admin_file_path = some (codes "/images/win11/base-v3.img");
  admin_username = some (codes "lee");
}

abbrev editing : Running Kernel
editing = record {
  world = record {
    db = site (some (codes "lee"));
    files =
        (codes "/images/win11/v2.img", codes "disk")
        ∷ (codes "/images/win11/base-v3.img", codes "disks")
        ∷ [];
    admin_sessions = (1, admin_session) ∷ [];
  };
  kernel = kernel;
}

abbrev merging : Args
merging = (codes "_csrf", codes "x1" ∷ []) ∷ (codes "action", codes "merge" ∷ []) ∷ []

abbrev not_utf8 : Args
not_utf8 = (codes "_csrf", codes "x1" ∷ []) ∷ (codes "action", (255 ∷ []) ∷ []) ∷ []

edited : lookup 1 editing.world.admin_sessions ≡ some admin_session
unfolding lookup nat_eq
edited = refl

asked : action_of merging ≡ ok (codes "merge")
unfolding action_of lookup list_eq nat_eq decode arg_or
asked = refl

finish_releases_example :
    (Lock.is_locked 1 (finish_session works config (codes "t") 1 merging editing).1.world.db
      ≡ false)
    × (lookup 1 (finish_session works config (codes "t") 1 merging editing).1.world.admin_sessions
        ≡ none)
finish_releases_example =
    finish_releases works config (codes "t") 1 merging (codes "merge") admin_session editing edited
      asked

editing-IsKeyed : IsKeyed editing.world.db
unfolding exists_row
editing-IsKeyed = record { distinct = (refl, tt); below = refl }

abbrev starting : Args
starting = (codes "_csrf", codes "x1" ∷ []) ∷ (codes "base_version", codes "2" ∷ []) ∷ []

abbrev filled_in : Form
filled_in = record { base_version = pos 2; additional_bytes = pos 0 }

-- The descriptors by name.
fds_read : systemd_fds_by_name (codes "dhcp:tftp") ≡ (codes "dhcp", 3) ∷ (codes "tftp", 4) ∷ []
unfolding systemd_fds_by_name list_eq nat_eq split insert
fds_read = refl

abbrev fds : Dict Text ℕ
fds = (codes "tftp", 3) ∷ []

abbrev no_hosts : Text → Result (List Text)
no_hosts network = raise value_error

-- An administrator edits a profile while a client boots and a round of the reaper runs.
abbrev day : List Event
day =
    asks 10 (begins (codes "t") 1) merging (some (codes "token"))
    ∷ loads (codes "t") (codes "boot/02:00:00:00:00:01.ipxe")
    ∷ reaps (codes "t")
    ∷ asks 70 (finishes (codes "t") 1) merging (some (codes "token"))
    ∷ []

life-IsPaired_example : IsPaired (life works signer no_hosts fds config day editing).world
life-IsPaired_example = life-IsPaired works signer no_hosts fds config day editing editing-IsKeyed

abbrev edit_host : Host Kernel
edit_host = record { db = editing.world.db; files = editing.world.files; kernel = kernel }

copied : admin_session.admin_file_path ≡ some (copy_path config profile 3)
unfolding copy_path decimal join_path list_eq nat_eq
copied = refl

merged : (end_session works config (codes "t") admin_session true edit_host).0 ≡ ok tt
unfolding end_session remove_lun PrivClient.detach_loop handle lookup list_eq nat_eq ◌>>=◌ on_db
    on_files on_kernel content present exists_row
merged = refl

merge_resolves_example :
    (resolve_image_path config.images_root profile
        (pos 3)
        (end_session works config (codes "t") admin_session true edit_host).1.db
      ≡ ok (copy_path config profile 3))
    × ((end_session works config (codes "t") admin_session true edit_host).1.files
        ≡ edit_host.files)
merge_resolves_example =
    merge_resolves works config (codes "t") profile admin_session edit_host refl refl copied
      (omega arith) merged
