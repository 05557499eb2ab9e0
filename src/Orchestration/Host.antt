-- ===== src/Orchestration/Host.antt =====
-- What a session works on: the database, the image files by path, and the machine outside. The
-- directories exist, and a file of an image or an overlay can be written.
use diskless.Base.{
  ℕ, Bool, true, false, Exn, called_process_error, none, some, Bytes, Text, length, replicate,
  Result, ok, raise, file_not_found, ◌++◌, list_eq, nat_eq, ℤ, pos, negsuc, if◌then◌else◌, eqb,
}
use diskless.Base.Dict.{Dict, lookup, insert, erase}
use diskless.Base.Action.{Action, within, changes}
use diskless.Database.{Database}
use diskless.Machine.{Machine}

abbrev pub Files : Type 0
Files = Dict Text Bytes

pub record Host (K : Type 0) : Type 0 where
  pub db : Database
  pub files : Files
  pub kernel : K

module _ {K A : Type 0} where
  unfoldable pub on_kernel : Action K A → Action (Host K) A
  unfolding within
  on_kernel = within (λ h. h.kernel) (λ k h. record h { kernel = k })

  unfoldable pub on_files : Action Files A → Action (Host K) A
  unfolding within
  on_files = within (λ h. h.files) (λ files h. record h { files = files })

  unfoldable pub on_db : Action Database A → Action (Host K) A
  unfolding within
  on_db = within (λ h. h.db) (λ db h. record h { db = db })

unfoldable pub content : Text → Files → Result Bytes
content path files = elim (lookup path files) [
  | none ↦ raise file_not_found
  | some bytes ↦ ok bytes
]

-- `path.unlink(missing_ok=True)`
unfoldable pub unlink : Text → Action Files (Unit {0})
unfolding changes
unlink path = changes (erase path)

-- `path.stat().st_size`
unfoldable pub file_size : Text → Files → Result ℕ
unfolding content
file_size path files = elim (content path files) [
  | raise x ↦ raise x
  | ok bytes ↦ ok (length bytes)
]

-- `_create_sparse_overlay`
unfoldable pub create_sparse_overlay : Text → ℕ → Action Files (Unit {0})
unfolding changes
create_sparse_overlay overlay_path size_bytes =
    changes (insert overlay_path (replicate size_bytes 0))

-- `shutil.copy2`
copy2 : Text → Text → Action Files (Unit {0})
unfolding content
copy2 src dst files = elim (content src files) [
  | raise x ↦ (raise x, files)
  | ok bytes ↦ (ok tt, insert dst bytes files)
]

-- `except (subprocess.CalledProcessError, FileNotFoundError)`
is_caught : Exn → Bool
is_caught x = elim x [ called_process_error ↦ true | file_not_found ↦ true | _ ↦ false ]

-- `_reflink_or_copy`
unfoldable pub reflink_or_copy : {K : Type 0} → Machine K → Text → Text → Action Files (Unit {0})
unfolding copy2 is_caught
reflink_or_copy os src dst files =
    let (outcome, files') = os.reflink src dst files in
    elim outcome [
      | ok _ ↦ (ok tt, files')
      | raise x ↦ if is_caught x then copy2 src dst files' else (raise x, files')
    ]

grow : Text → ℕ → Action Files (Unit {0})
unfolding content
grow path more files = elim (content path files) [
  | raise x ↦ (raise x, files)
  | ok bytes ↦ (ok tt, insert path (bytes ++ replicate more 0) files)
]

-- `_grow_file`
unfoldable pub grow_file : Text → ℤ → Action Files (Unit {0})
unfolding grow
grow_file path (negsuc n) files = (ok tt, files)
grow_file path (pos n) files = if eqb n 0 then (ok tt, files) else grow path n files
