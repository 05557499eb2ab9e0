-- ===== src/Web/Images.antt =====
-- Image profiles and versions: the handlers of src/diskless/bootd/web/image_profiles.py that create,
-- delete and unlock.
pub mod References
pub mod Pairing
use diskless.Base.{
  ℕ, suc, Bool, true, false, Option, none, some, List, [], ◌∷◌, ◌++◌, Text, codes, decode, decimal,
  Result, ok, raise, integrity_error, ◌>>=◌, ◌==◌, list_eq, nat_eq, eqb, ◌||◌, contains,
  if◌then◌else◌,
}
use diskless.Base.Dict.{erase, has_key}
use diskless.Database.{
  Database, ImageProfile, ImageVersion, ClientBinding, fetch_one, delete, exists_row, has_id,
  is_version, is_binding,
}
use diskless.Models.{get_image_profile, join_path}
use diskless.Orchestration.Lock
use diskless.Web.{
  Args, WebSession, Response, redirect, refuse, World, Handler, arg, verify_csrf, checked,
}

abbrev pub versions_page : ℕ → Text
versions_page profile_id = codes "/images/" ++ decimal profile_id ++ codes "/versions"

-- `INSERT INTO image_profile`: names are unique.
unfoldable pub insert_profile : Text → Text → Database → Result Database
insert_profile name storage_dir db =
    if exists_row (λ (r : ImageProfile). r.name == name) db.image_profile
    then raise integrity_error
    else ok (record db {
      image_profile =
          db.image_profile
          ++ record {
            id = db.next_profile;
            name = name;
            storage_dir = storage_dir;
            locked_by = none;
            locked_at = none;
          }
            ∷ [];
      next_profile = suc db.next_profile;
    })

store : World → Result Database → Response → Result Response × World
store w (raise x) r = (raise x, w)
store w (ok db) r = (ok r, record w { db = db })

unfoldable pub create_profile : Args → WebSession → Handler
unfolding store
create_profile args session = checked (verify_csrf args session) λ w.
    store w
      (do
        raw_name ← arg (codes "name") args
        name ← decode raw_name
        raw_dir ← arg (codes "storage_dir") args
        storage_dir ← decode raw_dir
        insert_profile name storage_dir w.db)
      (redirect (codes "/images"))

-- What the foreign keys of `image_version` and `client_binding` hold on to.
unfoldable pub is_referenced : ℕ → Database → Bool
is_referenced profile_id db =
    exists_row (λ (r : ImageVersion). eqb r.profile_id profile_id) db.image_version
    || exists_row (λ (b : ClientBinding). eqb b.image_profile_id profile_id) db.client_binding

-- `DELETE FROM image_profile WHERE id = ?`
unfoldable pub delete_profile_row : ℕ → Database → Result Database
unfolding is_referenced
delete_profile_row profile_id db =
    if exists_row (has_id profile_id) db.image_profile
    then (if is_referenced profile_id db
        then raise integrity_error
        else ok (record db { image_profile = delete (has_id profile_id) db.image_profile }))
    else ok db

conflict : World → Result Database → Response → Result Response × World
conflict w (raise x) r = (ok (refuse 409), w)
conflict w (ok db) r = (ok r, record w { db = db })

unfoldable pub delete_profile : ℕ → Args → WebSession → Handler
unfolding conflict delete_profile_row
delete_profile profile_id args session = checked (verify_csrf args session) λ w.
    if Lock.is_locked profile_id w.db
    then (ok (refuse 409), w)
    else conflict w (delete_profile_row profile_id w.db) (redirect (codes "/images"))

unfoldable pub force_unlock : ℕ → Args → WebSession → Handler
force_unlock profile_id args session = checked (verify_csrf args session) λ w.
    if has_key profile_id w.admin_sessions
    then (ok (refuse 409), w)
    else (ok (redirect (versions_page profile_id)), record w { db = Lock.release profile_id w.db })

-- The file and the row of a version that no client is assigned to.
remove_version : Text → ℕ → ℕ → ImageVersion → Handler
remove_version images_root profile_id version_number row w =
    elim (get_image_profile profile_id w.db) [
      | raise x ↦ (raise x, w)
      | ok profile ↦ (
        ok (redirect (versions_page profile_id)),
        record w {
          files =
              erase (join_path (join_path images_root profile.storage_dir) row.file_path) w.files;
          db = record w.db {
            image_version = delete (is_version profile_id version_number) w.db.image_version;
          };
        },
      )
    ]

unfoldable pub delete_version : Text → ℕ → ℕ → Args → WebSession → Handler
unfolding remove_version
delete_version images_root profile_id version_number args session =
    checked (verify_csrf args session) λ w.
      if exists_row (is_binding profile_id version_number) w.db.client_binding
      then (ok (refuse 409), w)
      else elim (fetch_one (is_version profile_id version_number) w.db.image_version) [
        | none ↦ (ok (refuse 404), w)
        | some row ↦ remove_version images_root profile_id version_number row w
      ]
