-- ===== src/Tests/Site.antt =====
-- The lock, the images and the settings on a concrete database.
use diskless.Base.{
  ◌≡◌, refl, true, Option, none, some, List, [], ◌∷◌, Text, codes, list_eq, nat_eq, pos,
}
use diskless.Database.{
  Database, ImageProfile, ImageVersion, ClientBinding, fetch_one, exists_row, has_id, is_version,
  is_binding,
}
use diskless.Config.{Config}
use diskless.Orchestration.Lock.Exclusion.{DistinctIds}
use diskless.Orchestration.Lock.Promises.{
  Call, acquiring, releasing, asking, releasing_all, answers, promises, locks,
}
use diskless.Orchestration.Lock.Refinement.{calls_refine}
use diskless.Web.{Args, WebSession, World}
use diskless.Web.Images.{delete_profile, delete_version}
use diskless.Web.Images.References.{
  IsReferential, delete_version_keeps_assigned, delete_profile-IsReferential,
}

abbrev profile : Option Text → ImageProfile
profile holder = record {
  id = 1;
  name = codes "win11";
  storage_dir = codes "win11";
  locked_by = holder;
  locked_at = none;
}

abbrev version : ImageVersion
version = record {
  id = 1;
  profile_id = 1;
  version_number = 2;
  file_path = codes "v2.img";
  checksum = [];
  created_at = [];
  created_by = codes "admin";
}

abbrev binding : ClientBinding
binding = record {
  id = 1;
  client_mac = codes "02:00:00:00:00:01";
  initiator_iqn = none;
  image_profile_id = 1;
  assigned_version = pos 2;
}

abbrev pub site : Option Text → Database
site holder = record {
  image_profile = profile holder ∷ [];
  image_version = version ∷ [];
  client_binding = binding ∷ [];
  active_session = [];
  admin_user = [];
  site_setting = [];
  next_profile = 2;
  next_image_version = 2;
  next_binding = 2;
}

distinct : (holder : Option Text) → DistinctIds (site holder).image_profile
unfolding exists_row
distinct holder = (refl, tt)

fetched :
    (holder : Option Text)
    → fetch_one (has_id 1) (site holder).image_profile ≡ some (profile holder)
unfolding fetch_one
fetched holder = refl

-- Lee edits, Kim is refused and told, a release lets Kim in, and a start lets everybody out.
abbrev calls : List Call
calls =
    acquiring 1 (codes "lee") (codes "t0")
    ∷ acquiring 1 (codes "kim") (codes "t1")
    ∷ releasing 1
    ∷ acquiring 1 (codes "kim") (codes "t2")
    ∷ asking 1
    ∷ releasing_all
    ∷ []

calls_refine_example :
    ((answers calls (site none)).0 ≡ (promises calls (locks (site none))).0)
    × (locks (answers calls (site none)).1 ≡ (promises calls (locks (site none))).1)
calls_refine_example = calls_refine calls (site none) (distinct none)

abbrev pub web_session : WebSession
web_session = record { user = codes "admin"; csrf = codes "x1" }

abbrev posted : Args
posted = (codes "_csrf", codes "x1" ∷ []) ∷ (codes "dhcp_mode", codes "proxy" ∷ []) ∷ []

abbrev pub world : Option Text → World
world holder = record {
  db = site holder;
  files = (codes "/images/win11/v2.img", codes "disk") ∷ [];
  admin_sessions = [];
}

assigned : exists_row (is_binding 1 2) (world none).db.client_binding ≡ true
unfolding exists_row
assigned = refl

delete_version_keeps_assigned_example :
    exists_row
      (is_version 1 2)
      (delete_version (codes "/images") 1 2 posted web_session (world none)).1.db.image_version
    ≡ exists_row (is_version 1 2) (world none).db.image_version
delete_version_keeps_assigned_example =
    delete_version_keeps_assigned (codes "/images") 1 2 posted web_session (world none) 1 2 assigned

site-IsReferential : (holder : Option Text) → IsReferential (site holder)
unfolding exists_row
site-IsReferential holder = record { versions = (refl, tt); bindings = (refl, tt) }

delete_profile-IsReferential_example :
    IsReferential (delete_profile 1 posted web_session (world none)).1.db
delete_profile-IsReferential_example =
    delete_profile-IsReferential 1 posted web_session (world none) (site-IsReferential none)

abbrev pub config : Config
config = record {
  db_path = codes "diskless.db";
  priv_helper_socket = [];
  images_root = codes "/images";
  web_port = pos 8080;
  ws_port = pos 8081;
  cookie_secret = codes "k";
  tftp_root = [];
  dhcp_mode = codes "proxy";
  dhcp_boot_filename = codes "undionly.kpxe";
  dhcp_standalone_lease_pool = [];
  iscsi_target_iqn_prefix = [];
  iscsi_target_wwn = [];
  iscsi_portal_ip = [];
  iscsi_portal_port = pos 3260;
}
