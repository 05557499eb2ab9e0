-- ===== src/Orchestration/Session.antt =====
-- The life of a session: src/diskless/orchestration/session.py. `at` is the database's
-- `datetime('now')`. A client's session is a snapshot over a loop device of its version; an
-- administrator's is a loop device of a copy, which becomes a version where the session is merged.
use Prim.Native.Nat.{max}
use diskless.Base.{
  ℕ, ◌+◌, ◌≤◌, ◌<◌, ◌≡◌, refl, Bool, false, Option, some, List, [], ◌∷◌, ◌++◌, map, arith, Text,
  codes, decimal, ℤ, pos, negsuc, Result, ok, raise, lookup_error, ◌||◌, ◌==◌, list_eq, nat_eq,
  contains, if◌then◌else◌, eqb,
}
use diskless.Database.{
  Database, ImageProfile, ImageVersion, ClientBinding, ActiveSession, delete, exists_row,
  is_version,
}
use diskless.Config.{Config}
use diskless.Models.{join_path}

pub record Session : Type 0 where
  pub initiator_iqn : Text
  pub lun_name : Text
  pub readonly : Bool
  pub backing_dev : Text
  pub base_loop_dev : Text
  pub profile_id : ℤ
  pub version_number : ℕ
  pub overlay_loop_dev : Option Text
  pub overlay_path : Option Text
  pub snapshot_name : Option Text
  pub admin_file_path : Option Text
  pub admin_username : Option Text

-- `_safe_id`
unfoldable pub safe_id : Text → Text
safe_id = map (λ c. if eqb c b':' || eqb c b'/' then b'_' else c)

without_colons : Text → Text
without_colons [] = []
without_colons (c ∷ s) = let rest = without_colons s in if eqb c b':' then rest else c ∷ rest

unfoldable pub initiator_iqn_for_mac : Config → Text → Text
unfolding without_colons
initiator_iqn_for_mac cfg client_mac =
    cfg.iscsi_target_iqn_prefix ++ (codes ":client-" ++ without_colons client_mac)

-- `_overlay_path`
unfoldable pub overlay_file : Config → Text → Text
unfolding safe_id
overlay_file cfg session_id =
    join_path (join_path cfg.images_root (codes "_overlays")) (safe_id session_id ++ codes ".cow")

-- `path.name`
unfoldable pub path_name : Text → Text
path_name [] = []
path_name (c ∷ s) =
    let rest = path_name s in if contains s b'/' then rest else if eqb c b'/' then s else c ∷ s

-- `COALESCE(MAX(version_number), 0)` over the versions of a profile
unfoldable pub last_version : ℕ → List ImageVersion → ℕ
last_version profile_id [] = 0
last_version profile_id (r ∷ rs) =
    let rest = last_version profile_id rs in
    if eqb r.profile_id profile_id then max r.version_number rest else rest

unfoldable pub next_version_number : ℕ → Database → ℕ
unfolding last_version
next_version_number profile_id db = last_version profile_id db.image_version + 1

-- No version has a negative number, so `resolve_image_path` has raised before.
unfoldable pub version_of : ℤ → Result ℕ
version_of (pos n) = ok n
version_of (negsuc n) = raise lookup_error

unfoldable pub copy_path : Config → ImageProfile → ℕ → Text
copy_path cfg profile version =
    join_path (join_path cfg.images_root profile.storage_dir)
      (codes "base-v" ++ (decimal version ++ codes ".img"))

-- `INSERT OR REPLACE INTO active_session`
unfoldable pub record_session : ActiveSession → Database → Database
record_session row db = record db {
  active_session =
      delete (λ (r : ActiveSession). r.initiator_iqn == row.initiator_iqn) db.active_session
      ++ row ∷ [];
}

unfoldable pub active_row : Text → Text → ClientBinding → Bool → Session → ActiveSession
active_row at initiator_iqn binding readonly s = record {
  initiator_iqn = initiator_iqn;
  client_mac = binding.client_mac;
  version = s.version_number;
  readonly = readonly;
  started_at = at;
  snapshot_name = s.snapshot_name;
  base_loop_dev = some s.base_loop_dev;
  overlay_loop_dev = s.overlay_loop_dev;
  overlay_path = s.overlay_path;
}

above_last :
    (i v : ℕ) (rs : List ImageVersion)
    → last_version i rs < v
    → exists_row (is_version i v) rs ≡ false
unfolding last_version exists_row
above_last i v [] h = refl
above_last i v (r ∷ rs) h = ground (arith, above_last i v rs)

-- No version of a profile has the next version number of the profile, or a higher number.
pub next_version_number_is_fresh :
    (i : ℕ) (db : Database) (v : ℕ)
    → next_version_number i db ≤ v
    → exists_row (is_version i v) db.image_version ≡ false
unfolding next_version_number
next_version_number_is_fresh i db v h = above_last i v db.image_version (omega arith)
