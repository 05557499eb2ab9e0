-- ===== src/Database.antt =====
-- The tables of src/diskless/db.py as lists of rows, and the rows as the records of
-- src/diskless/models.py. Foreign keys are on, as in `connect`.
use diskless.Base.{
  ◌^◌, ltb, Result, ok, raise, overflow_error, ℕ, Bool, true, false, ◌&&◌, ◌||◌, Option, none, some,
  List, [], ◌∷◌, Text, ℤ, pos, negsuc, eqb, ◌==◌, list_eq, nat_eq, if◌then◌else◌,
}
use diskless.Base.Dict.{Dict}

pub record ImageProfile : Type 0 where
  pub id : ℕ
  pub name : Text
  pub storage_dir : Text
  pub locked_by : Option Text
  pub locked_at : Option Text

pub record ImageVersion : Type 0 where
  pub id : ℕ
  pub profile_id : ℕ
  pub version_number : ℕ
  pub file_path : Text
  pub checksum : Text
  pub created_at : Text
  pub created_by : Text

pub record ClientBinding : Type 0 where
  pub id : ℕ
  pub client_mac : Text
  pub initiator_iqn : Option Text
  pub image_profile_id : ℕ
  pub assigned_version : ℤ

pub record ActiveSession : Type 0 where
  pub initiator_iqn : Text
  pub client_mac : Text
  pub version : ℕ
  pub readonly : Bool
  pub started_at : Text
  pub snapshot_name : Option Text
  pub base_loop_dev : Option Text
  pub overlay_loop_dev : Option Text
  pub overlay_path : Option Text

-- The id of a row of `admin_user` is read nowhere.
pub record AdminUser : Type 0 where
  pub username : Text
  pub password_hash : Text

-- The last three fields are the AUTOINCREMENT counters of the tables that get rows here.
pub record Database : Type 0 where
  pub image_profile : List ImageProfile
  pub image_version : List ImageVersion
  pub client_binding : List ClientBinding
  pub active_session : List ActiveSession
  pub admin_user : List AdminUser
  pub site_setting : Dict Text Text
  pub next_profile : ℕ
  pub next_image_version : ℕ
  pub next_binding : ℕ

module _ {ℓ} {A : Type ℓ} where
  -- `SELECT * FROM t WHERE p`, all rows and the first one
  unfoldable pub select : (A → Bool) → List A → List A
  select p [] = []
  select p (r ∷ rs) = if p r then r ∷ select p rs else select p rs

  unfoldable pub fetch_one : (A → Bool) → List A → Option A
  fetch_one p [] = none
  fetch_one p (r ∷ rs) = if p r then some r else fetch_one p rs

  -- `DELETE FROM t WHERE p`
  unfoldable pub delete : (A → Bool) → List A → List A
  delete p [] = []
  delete p (r ∷ rs) = if p r then delete p rs else r ∷ delete p rs

  -- `UPDATE t SET f WHERE p`
  unfoldable pub update : (A → Bool) → (A → A) → List A → List A
  update p f [] = []
  update p f (r ∷ rs) = (if p r then f r else r) ∷ update p f rs

  -- Whether some row fits, `rowcount != 0`.
  unfoldable pub exists_row : (A → Bool) → List A → Bool
  exists_row p [] = false
  exists_row p (r ∷ rs) = p r || exists_row p rs

abbrev pub has_id : ℕ → ImageProfile → Bool
has_id i r = eqb r.id i

abbrev pub is_held : ImageProfile → Bool
is_held r = elim r.locked_by [ none ↦ false | some _ ↦ true ]

abbrev pub is_version : ℕ → ℕ → ImageVersion → Bool
is_version i v r = eqb r.profile_id i && eqb r.version_number v

abbrev pub is_number : ℕ → ℤ → Bool
is_number v (pos n) = eqb n v
is_number v (negsuc n) = false

abbrev pub is_binding : ℕ → ℕ → ClientBinding → Bool
is_binding i v b = eqb b.image_profile_id i && is_number v b.assigned_version

-- An integer that SQLite can hold.
unfoldable pub sqlite_integer : ℤ → Result ℤ
sqlite_integer (pos n) = if ltb n (2 ^ 63) then ok (pos n) else raise overflow_error
sqlite_integer (negsuc n) = if ltb n (2 ^ 63) then ok (negsuc n) else raise overflow_error

abbrev pub is_user : Text → AdminUser → Bool
is_user username u = u.username == username
