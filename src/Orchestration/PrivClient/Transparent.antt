-- ===== src/Orchestration/PrivClient/Transparent.antt =====
-- The helper behind its socket does what the command would do, and names its exceptions anew.
use diskless.Base.{
  ◌≡◌, Bool, some, [], ◌∷◌, Text, codes, Result, ok, raise, priv_helper_error, arith, list_eq,
  nat_eq, strip, int, shown_int, decimal, if◌then◌else◌,
}
use diskless.Base.Dict.{lookup}
use diskless.Base.Action.{Action, return, lift, ◌>>=◌, ◌>>◌}
use diskless.Machine.{Machine}
use diskless.PrivHelper
use diskless.PrivHelper.{handle, perform, allowed_ops, losetup, snapshot_table, shown, reply_of}
use diskless.Orchestration.PrivClient.{attach_loop, detach_loop, create_snapshot, remove_snapshot}

module _ {K A : Type 0} (os : Machine K) where
  -- What a client sees of an action of the helper.
  unfoldable pub renamed : Result A → Result A
  renamed (ok a) = ok a
  renamed (raise x) = raise (priv_helper_error (os.str x))

  unfoldable pub as_client : Action K A → Action K A
  unfolding renamed
  as_client act = do os.connect; λ k. let (outcome, k') = act k in (renamed outcome, k')

-- With the socket between them, each function of the client is its command on the machine: it
-- connects, runs exactly the commands below, and raises `PrivHelperError` with the text of
-- whatever exception they raise.
pub client-runs :
    {K : Type 0} (os : Machine K) (readonly : Bool)
    (img_path dev name origin_dev overlay_dev : Text) (k : K)
    → (attach_loop os img_path readonly k
        ≡ as_client os
            (do
              out ← os.run (
                  codes "losetup"
                  ∷ codes "-f"
                  ∷ codes "--show"
                  ∷ (if readonly then codes "-r" ∷ img_path ∷ [] else img_path ∷ []))
              return (strip out))
            k)
      × (detach_loop os (some dev) k
          ≡ as_client os (do os.run (codes "losetup" ∷ codes "-d" ∷ dev ∷ []); return tt) k)
      × (create_snapshot os name origin_dev overlay_dev k
          ≡ as_client os
              (do
                out ← os.run (codes "blockdev" ∷ codes "--getsz" ∷ origin_dev ∷ [])
                sectors ← lift (int (strip out))
                os.run (
                    codes "dmsetup"
                    ∷ codes "create"
                    ∷ name
                    ∷ codes "--table"
                    ∷ snapshot_table (shown_int sectors) origin_dev overlay_dev (codes "8")
                    ∷ [])
                return tt)
              k)
      × (remove_snapshot os (some name) k
          ≡ as_client os (do os.run (codes "dmsetup" ∷ codes "remove" ∷ name ∷ []); return tt) k)
unfolding attach_loop detach_loop create_snapshot remove_snapshot as_client handle lookup list_eq
    nat_eq ◌>>=◌ PrivHelper.word decimal losetup
client-runs os readonly img_path dev name origin_dev overlay_dev k =
    (ground arith, ground arith, ground arith, ground arith)
