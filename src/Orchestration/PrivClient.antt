-- ===== src/Orchestration/PrivClient.antt =====
-- The client of the privileged helper: src/diskless/orchestration/priv_client.py.
pub mod Transparent
use diskless.Base.{
  Bool, Option, none, some, List, [], ◌∷◌, Text, codes, Result, ok, raise, type_error,
  priv_helper_error,
}
use diskless.Base.Action.{Action, return, lift, ◌>>=◌, ◌>>◌}
use diskless.Machine.{Machine}
use diskless.PrivHelper.{
  Json, null, truth, number, string, Args, Request, Reply, result, error, handle, word,
}

-- `resp["result"]`, or the exception for `resp["error"]`
unfoldable pub from_reply : Reply → Result Json
from_reply (result v) = ok v
from_reply (error e) = raise (priv_helper_error e)

-- An argument that may be `None`.
abbrev pub optional : Option Text → Json
optional none = null
optional (some s) = string s

module _ {K : Type 0} (os : Machine K) where
  -- The exchange on the socket: one request, one reply.
  unfoldable pub exchange : Request → Action K Json
  unfolding from_reply
  exchange req k = let (reply, k') = handle os (some req) k in (from_reply reply, k')

  unfoldable pub call_priv_helper : Text → Args → Action K Json
  unfolding exchange
  call_priv_helper op args = do os.connect; exchange (record { op = some op; args = some args })

  unfoldable pub attach_loop : Text → Bool → Action K Text
  unfolding call_priv_helper
  attach_loop img_path readonly = do
    v ←
        call_priv_helper (codes "attach_loop")
          ((codes "img_path", string img_path) ∷ (codes "readonly", truth readonly) ∷ [])
    lift (word v)

  unfoldable pub detach_loop : Option Text → Action K (Unit {0})
  unfolding call_priv_helper
  detach_loop dev = do
    call_priv_helper (codes "detach_loop") ((codes "dev", optional dev) ∷ [])
    return tt

  unfoldable pub create_snapshot : Text → Text → Text → Action K (Unit {0})
  unfolding call_priv_helper
  create_snapshot name origin_dev overlay_dev = do
    call_priv_helper (codes "create_snapshot") (
        (codes "name", string name)
        ∷ (codes "origin_dev", string origin_dev)
        ∷ (codes "overlay_dev", string overlay_dev)
        ∷ (codes "chunk_size", number 8)
        ∷ [])
    return tt

  unfoldable pub remove_snapshot : Option Text → Action K (Unit {0})
  unfolding call_priv_helper
  remove_snapshot name = do
    call_priv_helper (codes "remove_snapshot") ((codes "name", optional name) ∷ [])
    return tt
