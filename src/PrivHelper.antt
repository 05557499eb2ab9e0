-- ===== src/PrivHelper.antt =====
-- The privileged helper, src/diskless/priv_helper/server.py: the requests that it takes and the commands
-- that it runs for them. A message is its JSON value.
pub mod Whitelist
pub mod Serving
use diskless.Base.{
  ℕ, Bool, true, false, not, Option, none, some, List, [], ◌∷◌, ◌++◌, Text, codes, decimal,
  shown_int, strip, int, Exn, Result, ok, raise, key_error, value_error, type_error, ◌==◌, list_eq,
  nat_eq, if◌then◌else◌, eqb,
}
use diskless.Base.Dict.{Dict, lookup}
use diskless.Base.Action.{Action, return, lift, ◌>>=◌, ◌>>◌}
use diskless.Machine.{Machine}

-- The JSON values that arguments and results are; no request nests them deeper.
pub data Json : Type 0 where
  null : Json
  truth : Bool → Json
  number : ℕ → Json
  string : Text → Json

abbrev pub Args : Type 0
Args = Dict Text Json

pub record Request : Type 0 where
  pub op : Option Text
  pub args : Option Args

pub data Reply : Type 0 where
  result : Json → Reply
  error : Text → Reply

-- `args[name]`
unfoldable pub argument : Text → Args → Result Json
argument name args = elim (lookup name args) [ none ↦ raise key_error | some v ↦ ok v ]

-- An element of `cmd`: `subprocess` takes texts only.
unfoldable pub word : Json → Result Text
word null = raise type_error
word (truth b) = raise type_error
word (number n) = raise type_error
word (string s) = ok s

-- A value in an f-string.
unfoldable pub shown : Json → Text
shown null = codes "None"
shown (truth true) = codes "True"
shown (truth false) = codes "False"
shown (number n) = decimal n
shown (string s) = s

is_true : Json → Bool
is_true null = false
is_true (truth b) = b
is_true (number n) = not (eqb n 0)
is_true (string s) = not (s == [])

-- `args.get("readonly")` as a condition
asked : Text → Args → Bool
unfolding is_true
asked name args = elim (lookup name args) [ none ↦ false | some v ↦ is_true v ]

-- `args.get("chunk_size", DEFAULT_CHUNK_SIZE)`
chunk_size : Args → Json
chunk_size args = elim (lookup (codes "chunk_size") args) [ none ↦ number 8 | some v ↦ v ]

unfoldable pub losetup : Bool → Text → List Text
losetup readonly img_path =
    codes "losetup"
    ∷ codes "-f"
    ∷ codes "--show"
    ∷ (if readonly then codes "-r" ∷ img_path ∷ [] else img_path ∷ [])

unfoldable pub snapshot_table : Text → Text → Text → Text → Text
snapshot_table sectors origin_dev overlay_dev size =
    codes "0 "
    ++ (sectors
        ++ (codes " snapshot "
            ++ (origin_dev ++ (codes " " ++ (overlay_dev ++ (codes " P " ++ size))))))

-- `req.get("args", {})`
args_of : Request → Args
args_of req = elim req.args [ none ↦ [] | some args ↦ args ]

module _ {K : Type 0} (os : Machine K) where
  unfoldable pub attach_loop : Args → Action K Json
  unfolding argument word asked losetup
  attach_loop args = do
    given ← lift (argument (codes "img_path") args)
    img_path ← lift (word given)
    out ← os.run (losetup (asked (codes "readonly") args) img_path)
    return (string (strip out))

  unfoldable pub detach_loop : Args → Action K Json
  unfolding argument word
  detach_loop args = do
    given ← lift (argument (codes "dev") args)
    dev ← lift (word given)
    os.run (codes "losetup" ∷ codes "-d" ∷ dev ∷ [])
    return null

  unfoldable pub sector_count : Json → Action K Text
  unfolding word
  sector_count given = do
    dev ← lift (word given)
    out ← os.run (codes "blockdev" ∷ codes "--getsz" ∷ dev ∷ [])
    sectors ← lift (int (strip out))
    return (shown_int sectors)

  unfoldable pub create_snapshot : Args → Action K Json
  unfolding argument word shown chunk_size snapshot_table sector_count
  create_snapshot args = do
    origin_dev ← lift (argument (codes "origin_dev") args)
    sectors ← sector_count origin_dev
    overlay_dev ← lift (argument (codes "overlay_dev") args)
    given ← lift (argument (codes "name") args)
    name ← lift (word given)
    os.run (
        codes "dmsetup"
        ∷ codes "create"
        ∷ name
        ∷ codes "--table"
        ∷ snapshot_table sectors (shown origin_dev) (shown overlay_dev) (shown (chunk_size args))
        ∷ [])
    return null

  unfoldable pub remove_snapshot : Args → Action K Json
  unfolding argument word
  remove_snapshot args = do
    given ← lift (argument (codes "name") args)
    name ← lift (word given)
    os.run (codes "dmsetup" ∷ codes "remove" ∷ name ∷ [])
    return null

  -- `ALLOWED_OPS`
  unfoldable pub allowed_ops : Dict Text (Args → Action K Json)
  unfolding attach_loop detach_loop create_snapshot remove_snapshot
  allowed_ops =
      (codes "attach_loop", attach_loop)
      ∷ (codes "detach_loop", detach_loop)
      ∷ (codes "create_snapshot", create_snapshot)
      ∷ (codes "remove_snapshot", remove_snapshot)
      ∷ []

  -- What `_handle` tries, for a message that `json.loads` reads.
  unfoldable pub perform : Option Request → Action K Json
  unfolding allowed_ops args_of
  perform none = lift (raise value_error)
  perform (some req) = elim req.op [
    | none ↦ lift (raise key_error)
    | some op ↦ elim (lookup op allowed_ops) [
      | none ↦ lift (raise value_error)
      | some act ↦ act (args_of req)
    ]
  ]

  unfoldable pub reply_of : Result Json → Reply
  reply_of (ok v) = result v
  reply_of (raise x) = error (os.str x)

  -- `_handle`: every exception is an answer.
  unfoldable pub handle : Option Request → K → Reply × K
  unfolding perform reply_of
  handle req k = let (outcome, k') = perform req k in (reply_of outcome, k')
