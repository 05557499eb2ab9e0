-- ===== src/Machine.antt =====
-- What diskless calls and does not contain: the programs that `subprocess.run` starts, the socket of
-- the privileged helper, rtslib's view of the kernel's iSCSI target, SHA-256, and SQLite's type affinity. `K` is the
-- state of all that outside of the process, of which nothing is assumed here.
use diskless.Base.{ℤ, ℕ, Bool, Option, List, Bytes, Text, Exn}
use diskless.Base.Dict.{Dict}
use diskless.Base.Action.{Action}

-- A NodeACL as `lio` reads it: `node_wwn`, and whether `session` is there.
pub record NodeAcl : Type 0 where
  pub node_wwn : Text
  pub has_session : Bool

-- A LUN as `lio` reads it: its number, and the name of its storage object.
pub record Lun : Type 0 where
  pub lun : ℕ
  pub storage_name : Text

pub record Machine (K : Type 0) : Type 0 where
  -- `str(exc)`
  pub str : Exn → Text
  -- `s.connect` to the helper's socket
  pub connect : Action K (Unit {0})
  -- `subprocess.run(cmd, capture_output=True, check=True).stdout`
  pub run : List Text → Action K Text
  -- `cp --reflink=always`, on the files
  pub reflink : Text → Text → Action (Dict Text Bytes) (Unit {0})
  -- `hashlib.sha256(content).hexdigest()`
  pub sha256 : Bytes → Text
  -- The integer that SQLite reads in a text that is compared with an integer key, if any.
  pub row_id : Text → Option ℕ
  -- rtslib. A TPG is given by the target's WWN and its tag.
  pub block_storage_object : Text → Text → Action K (Unit {0})
  pub target : Text → Action K (Unit {0})
  pub tpg : Text → ℕ → Action K (Unit {0})
  pub enable : Text → ℕ → Action K (Unit {0})
  pub network_portal : Text → ℕ → Text → ℤ → Action K (Unit {0})
  pub add_lun : Text → ℕ → Text → Action K ℕ
  pub node_acl : Text → ℕ → Text → Action K (Unit {0})
  pub mapped_lun : Text → ℕ → Text → ℕ → ℕ → Action K (Unit {0})
  pub node_acls : Text → ℕ → Action K (List NodeAcl)
  pub delete_acl : Text → ℕ → Text → Action K (Unit {0})
  pub luns : Text → ℕ → Action K (List Lun)
  pub delete_lun : Text → ℕ → ℕ → Action K (Unit {0})
  pub delete_storage : Text → Action K (Unit {0})
