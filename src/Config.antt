-- ===== src/Config.antt =====
-- The configuration, from the environment and the stored overrides: src/diskless/config.py.
use diskless.Base.{
  ℤ, Bool, false, not, ◌&&◌, ◌||◌, eqb, int, split, ◌>>=◌, ◌≡◌, refl, List, ◌∷◌, ◌++◌, none, some,
  [], Text, codes, list_eq, nat_eq, Result, ok, raise, runtime_error, if◌then◌else◌, ◌==◌,
}
use diskless.Base.Dict.{Dict, lookup}
use diskless.Database.{Database}

pub record Config : Type 0 where
  pub db_path : Text
  pub priv_helper_socket : Text
  pub images_root : Text
  pub web_port : ℤ
  pub ws_port : ℤ
  pub cookie_secret : Text
  pub tftp_root : Text
  pub dhcp_mode : Text
  pub dhcp_boot_filename : Text
  pub dhcp_standalone_lease_pool : Text
  pub iscsi_target_iqn_prefix : Text
  pub iscsi_target_wwn : Text
  pub iscsi_portal_ip : Text
  pub iscsi_portal_port : ℤ

-- `os.environ.get(name, default)`
abbrev pub get : Text → Text → Dict Text Text → Text
get name default environ = elim (lookup name environ) [ none ↦ default | some value ↦ value ]

-- `str(Path(text))`: the parts but the empty ones and the single dots, behind the root.
root : Text → Text
root [] = []
root (a ∷ text) =
    if not (eqb a b'/') then [] else if starts_twice text then codes "//" else codes "/"
  where
    starts_twice : Text → Bool
    starts_twice [] = false
    starts_twice (b ∷ []) = eqb b b'/'
    starts_twice (b ∷ c ∷ _) = eqb b b'/' && not (eqb c b'/')

real_parts : List Text → List Text
real_parts [] = []
real_parts (part ∷ parts) =
    let rest = real_parts parts in if part == [] || part == codes "." then rest else part ∷ rest

joined : List Text → Text
joined [] = []
joined (part ∷ []) = part
joined (part ∷ parts) = part ++ b'/' ∷ joined parts

unfoldable pub path : Text → Text
unfolding root real_parts joined
path text =
    let shown = root text ++ joined (real_parts (split b'/' text)) in
    if shown == [] then codes "." else shown

-- The defaults of the fields, the ports when the module is loaded, and `load_config`.
unfoldable pub load_config : Dict Text Text → Result Config
unfolding path
load_config environ = do
  web_port ← int (get (codes "DISKLESS_WEB_PORT") (codes "8080") environ)
  ws_port ← int (get (codes "DISKLESS_WS_PORT") (codes "8081") environ)
  portal_port ← int (get (codes "DISKLESS_PORTAL_PORT") (codes "3260") environ)
  ok (record {
    db_path = path (get (codes "DISKLESS_DB") (codes "/var/lib/diskless/diskless.db") environ);
    priv_helper_socket =
        path (get (codes "DISKLESS_PRIV_SOCK") (codes "/run/diskless/priv-helper.sock") environ);
    images_root = path (get (codes "DISKLESS_IMAGES_ROOT") (codes "/images") environ);
    web_port = web_port;
    ws_port = ws_port;
    cookie_secret = get (codes "DISKLESS_COOKIE_SECRET") [] environ;
    tftp_root = path (get (codes "DISKLESS_TFTP_ROOT") (codes "/srv/tftp") environ);
    dhcp_mode = get (codes "DISKLESS_DHCP_MODE") (codes "proxy") environ;
    dhcp_boot_filename = get (codes "DISKLESS_DHCP_BOOT_FILENAME") (codes "undionly.kpxe") environ;
    dhcp_standalone_lease_pool = get (codes "DISKLESS_DHCP_POOL") [] environ;
    iscsi_target_iqn_prefix =
        get (codes "DISKLESS_IQN_PREFIX") (codes "iqn.2026-09.local.diskless") environ;
    iscsi_target_wwn =
        get (codes "DISKLESS_TARGET_WWN") (codes "iqn.2026-09.local.diskless:server") environ;
    iscsi_portal_ip = get (codes "DISKLESS_PORTAL_IP") (codes "0.0.0.0") environ;
    iscsi_portal_port = portal_port;
  })

path_runs : path (codes "//srv/./tftp//") ≡ codes "//srv/tftp"
unfolding path list_eq split nat_eq
path_runs = refl

unfoldable pub require_cookie_secret : Config → Result (Unit {0})
require_cookie_secret cfg = if cfg.cookie_secret == [] then raise runtime_error else ok tt

-- `DB_OVERRIDABLE_FIELDS` names one field, `dhcp_mode`.
unfoldable pub apply_db_overrides : Config → Database → Config
apply_db_overrides cfg db = elim (lookup (codes "dhcp_mode") db.site_setting) [
  | none ↦ cfg
  | some value ↦ record cfg { dhcp_mode = value }
]
