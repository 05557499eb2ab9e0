-- ===== src/Models.antt =====
-- The queries of src/diskless/models.py.
use diskless.Base.{
  ℕ, none, some, [], ◌∷◌, ◌++◌, Text, Option, Result, ok, raise, lookup_error,
  client_not_registered, ◌==◌, ◌>>=◌, codes, list_eq, nat_eq, option_eq, eqb, if◌then◌else◌, ℤ,
  ◌&&◌,
}
use diskless.Database.{
  Database, ImageProfile, ImageVersion, ClientBinding, fetch_one, has_id, is_number, sqlite_integer,
}

unfoldable pub get_image_profile : ℕ → Database → Result ImageProfile
get_image_profile profile_id db = elim (fetch_one (has_id profile_id) db.image_profile) [
  | none ↦ raise lookup_error
  | some row ↦ ok row
]

unfoldable pub lookup_client_binding : Text → Database → Result ClientBinding
lookup_client_binding initiator_iqn db =
    elim (fetch_one (λ (b : ClientBinding). b.initiator_iqn == some initiator_iqn)
      db.client_binding) [ none ↦ raise client_not_registered | some row ↦ ok row ]

unfoldable pub lookup_client_binding_by_mac : Text → Database → Result ClientBinding
lookup_client_binding_by_mac client_mac db =
    elim (fetch_one (λ (b : ClientBinding). b.client_mac == client_mac) db.client_binding) [
      | none ↦ raise client_not_registered
      | some row ↦ ok row
    ]

-- A base with one slash at its end, and an empty one as it is.
unfoldable pub slashed : Text → Text
slashed [] = []
slashed (c ∷ []) = if eqb c b'/' then c ∷ [] else c ∷ b'/' ∷ []
slashed (c ∷ d ∷ base) = c ∷ slashed (d ∷ base)

unfoldable pub slash_part : Text → Text → Text
unfolding slashed
slash_part base [] = base
slash_part base (c ∷ part) =
    if eqb c b'/'
    then c ∷ part
    else if base == codes "."
    then c ∷ part
    else slashed base ++ c ∷ part

-- `base / part` of pathlib, for parts with no `.` or `//`: an absolute part replaces the base. An empty
-- part leaves the base as it is written.
unfoldable pub join_path : Text → Text → Text
unfolding slash_part
join_path base part = slash_part base part

-- The row of a version, and the path to its file.
unfoldable pub path_of : Text → ImageProfile → Option ImageVersion → Result Text
unfolding join_path
path_of images_root profile none = raise lookup_error
path_of images_root profile (some row) =
    ok (join_path (join_path images_root profile.storage_dir) row.file_path)

unfoldable pub resolve_image_path : Text → ImageProfile → ℤ → Database → Result Text
unfolding path_of
resolve_image_path images_root profile version_number db = do
  number ← sqlite_integer version_number
  path_of images_root profile (
      fetch_one
        (λ (r : ImageVersion). eqb r.profile_id profile.id && is_number r.version_number number)
        db.image_version)
