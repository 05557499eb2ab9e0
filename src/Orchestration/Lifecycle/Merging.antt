-- ===== src/Orchestration/Lifecycle/Merging.antt =====
-- A merged copy is found again as the version that it became.
use diskless.Base.{
  ℕ, zero, suc, ◌+◌, ◌/◌, ◌%◌, ◌^◌, ◌<◌, ◌≡◌, refl, true, false, ◌&&◌, some, List, [], ◌∷◌, ◌++◌,
  Text, codes, pos, decimal, decimal_from, ok, arith, eqb, ◌==◌, list_eq, nat_eq, contains, inl,
  inr, Result-cases, Bool-cases, Option-cases, lt→ltb,
}
use diskless.Base.Action.{reads, changes, lift, ◌>>=◌}
use diskless.Config.{Config}
use diskless.Database.{
  ActiveSession, delete, Database, ImageProfile, ImageVersion, exists_row, fetch_one, is_version,
  is_number, has_id, sqlite_integer,
}
use diskless.Machine.{Machine}
use diskless.Lio.{remove_lun}
use diskless.Models.{resolve_image_path, path_of, join_path, slash_part, slashed}
use diskless.Orchestration.Host.{Host, on_kernel, on_db, on_files, content}
use diskless.Orchestration.PrivClient.{detach_loop}
use diskless.Orchestration.Session.{Session, path_name, copy_path}
use diskless.Orchestration.Lifecycle.{end_session, merge_copy, insert_version, present}

contains-append :
    (c : ℕ) (s t : Text) → contains s c ≡ false → contains t c ≡ false → contains (s ++ t) c ≡ false
unfolding contains
contains-append c [] t h e = e
contains-append c (d ∷ s) t h e = ground (arith, contains-append c s t)

-- A digit is no slash.
decimal_from-slash : (f n : ℕ) → contains (decimal_from f n) b'/' ≡ false
unfolding decimal_from contains nat_eq
decimal_from-slash zero n = refl
decimal_from-slash (suc f) n = ground (
  arith,
  decimal_from-slash f (n / 10),
  contains-append b'/' (decimal_from f (n / 10)) ((48 + n % 10) ∷ []),
)

contains-after : (c : ℕ) (base part : Text) → contains (slashed (c ∷ base) ++ part) b'/' ≡ true
unfolding slashed contains nat_eq
contains-after c [] part = ground arith
contains-after c (d ∷ base) part = ground (arith, contains-after d base part)

-- `path.name` of a name.
path_name-name : (part : Text) → contains part b'/' ≡ false → path_name part ≡ part
unfolding path_name contains nat_eq
path_name-name [] h = refl
path_name-name (c ∷ part) h = ground (arith, h)

-- `path.name` of a path that ends in a name after a slash.
path_name-append :
    (base part : Text) → contains part b'/' ≡ false → path_name (slashed base ++ part) ≡ part
unfolding slashed path_name contains nat_eq
path_name-append [] part h = path_name-name part h
path_name-append (c ∷ []) part h = ground (arith, h, path_name-name part h)
path_name-append (c ∷ d ∷ base) part h =
    ground (arith, contains-after d base part, path_name-append (d ∷ base) part h)

-- The name of the copy of a version.
copy_name : ℕ → Text
copy_name version = codes "base-v" ++ (decimal version ++ codes ".img")

copy_name-slash : (version : ℕ) → contains (copy_name version) b'/' ≡ false
unfolding copy_name decimal contains nat_eq
copy_name-slash version =
    contains-append b'/' (codes "base-v") (decimal version ++ codes ".img") refl (
      contains-append b'/' (decimal version) (codes ".img")
        (decimal_from-slash (suc version) version) refl)

path_name-copy_path :
    (cfg : Config) (p : ImageProfile) (version : ℕ)
    → path_name (copy_path cfg p version) ≡ copy_name version
unfolding copy_path copy_name join_path slash_part
path_name-copy_path cfg p version = ground (
  arith,
  path_name-append (join_path cfg.images_root p.storage_dir) (copy_name version)
      (copy_name-slash version),
  path_name-name (copy_name version) (copy_name-slash version),
)

fetch-append :
    (i v : ℕ) (rows : List ImageVersion) (r : ImageVersion)
    → exists_row (is_version i v) rows ≡ false
    → r.profile_id ≡ i
    → r.version_number ≡ v
    → fetch_one
        (λ (q : ImageVersion). eqb q.profile_id i && is_number q.version_number (pos v))
        (rows ++ r ∷ [])
      ≡ some r
unfolding exists_row fetch_one
fetch-append i v [] r absent mine numbered = ground (arith, mine, numbered)
fetch-append i v (q ∷ rows) r absent mine numbered = ground (arith, fetch-append i v rows r)

abbrev new_row : ℕ → ℕ → Text → Text → Text → Text → Database → ImageVersion
new_row i v file_path checksum at user db = record {
  id = db.next_image_version;
  profile_id = i;
  version_number = v;
  file_path = file_path;
  checksum = checksum;
  created_at = at;
  created_by = user;
}

-- A version that was inserted is resolved to its file.
inserted_resolves :
    (root : Text) (p : ImageProfile) (v : ℕ) (file_path checksum at user : Text) (db : Database)
    → (insert_version (pos p.id) v file_path checksum at user db).0 ≡ ok tt
    → v < 2 ^ 63
    → resolve_image_path root p
        (pos v)
        (insert_version (pos p.id) v file_path checksum at user db).1
      ≡ ok (join_path (join_path root p.storage_dir) file_path)
unfolding insert_version resolve_image_path path_of sqlite_integer
inserted_resolves root p v file_path checksum at user db done fits =
    elim (Bool-cases (exists_row (is_version p.id v) db.image_version)) [
      | inl there ↦ ground (arith, there, done)
      | inr absent ↦ elim (Bool-cases (exists_row (has_id p.id) db.image_profile)) [
        | inr unknown ↦ ground (arith, absent, unknown, done)
        | inl known ↦
            rw
              (
                absent,
                known,
                insert_version,
                resolve_image_path,
                sqlite_integer,
                lt→ltb v (2 ^ 63) fits,
                fetch-append p.id v db.image_version (new_row p.id v file_path checksum at user db)
                    absent refl refl,
              )
              refl
      ]
    ]

module _ {K : Type 0} (os : Machine K) (root at path : Text) (p : ImageProfile) (s : Session) where
  merge_copy_resolves :
      (h : Host K)
      → s.profile_id ≡ pos p.id
      → s.admin_file_path ≡ some path
      → s.version_number < 2 ^ 63
      → (merge_copy os at s h).0 ≡ ok tt
      → (resolve_image_path root p (pos s.version_number) (merge_copy os at s h).1.db
          ≡ ok (join_path (join_path root p.storage_dir) (path_name path)))
        × ((merge_copy os at s h).1.files ≡ h.files)
  unfolding merge_copy present on_files on_db reads lift ◌>>=◌
  merge_copy_resolves h mine copied fits done = elim (Result-cases (content path h.files)) [
    | inl (x, missing) ↦ ground (arith, copied, missing, done)
    | inr (bytes, read) ↦ elim (Option-cases s.admin_username) [
      | inl nobody ↦ ground (arith, copied, read, nobody, done)
      | inr (user, by) ↦
          rw (copied, read, by, mine, merge_copy, present, ◌>>=◌)
            (
              inserted_resolves root p s.version_number (path_name path) (os.sha256 bytes) at user
                  h.db (rw (copied, read, by, mine, merge_copy, present, ◌>>=◌) at done) fits,
              refl,
            )
    ]
  ]

-- The path of the copy, found again from its name.
copy_path_again :
    (cfg : Config) (p : ImageProfile) (version : ℕ)
    → join_path (join_path cfg.images_root p.storage_dir) (path_name (copy_path cfg p version))
      ≡ copy_path cfg p version
unfolding copy_path copy_name
copy_path_again cfg p version = rw (path_name-copy_path cfg p version) refl

-- The rest of the end, with the LUN gone.
abbrev forgotten : {K : Type 0} → Session → K → Host K → Host K
forgotten s k h = record h {
  db = record h.db {
    active_session =
        delete (λ (r : ActiveSession). r.initiator_iqn == s.initiator_iqn) h.db.active_session;
  };
  kernel = k;
}

-- Where the end of an administrator's session with merging returns, and the session's file is the copy that
-- `start_session` makes for its version, the version is resolved to that file, and no file has
-- changed.
pub merge_resolves :
    {K : Type 0} (os : Machine K) (cfg : Config) (at : Text) (p : ImageProfile) (s : Session)
    (h : Host K)
    → s.readonly ≡ false
    → s.profile_id ≡ pos p.id
    → s.admin_file_path ≡ some (copy_path cfg p s.version_number)
    → s.version_number < 2 ^ 63
    → (end_session os cfg at s true h).0 ≡ ok tt
    → (resolve_image_path cfg.images_root p
          (pos s.version_number)
          (end_session os cfg at s true h).1.db
        ≡ ok (copy_path cfg p s.version_number))
      × ((end_session os cfg at s true h).1.files ≡ h.files)
unfolding end_session on_kernel on_db changes ◌>>=◌
merge_resolves os cfg at p s h admin mine copied fits done =
    let path = copy_path cfg p s.version_number in
    let removing = remove_lun os cfg.iscsi_target_wwn s.initiator_iqn s.lun_name h.kernel in
    let detaching = detach_loop os (some s.base_loop_dev) removing.1 in
    elim (Result-cases removing.0) [
      | inl (x, stuck) ↦ ground (arith, stuck, done)
      | inr (_, removed) ↦ elim (Result-cases detaching.0) [
        | inl (x, busy) ↦ ground (arith, removed, admin, busy, done)
        | inr (_, detached) ↦
            rw
              (
                removed,
                admin,
                detached,
                end_session,
                ◌>>=◌,
                ← copy_path_again cfg p s.version_number,
              )
              (merge_copy_resolves os cfg.images_root at path p s (forgotten s detaching.1 h) mine
                copied fits (rw (removed, admin, detached, end_session, ◌>>=◌) at done))
      ]
    ]
