-- ===== src/Tests/Helper.antt =====
-- A concrete machine, and the helper and the target on it: its state is the ACLs and the LUNs of the
-- target, and every command prints a number of sectors or the name of a loop device.
use diskless.Base.{
  ℕ, map, Option, ◌++◌, ◌≡◌, refl, true, false, none, some, List, [], ◌∷◌, Text, codes, Result, ok,
  raise, eqb, ◌==◌, list_eq, nat_eq, strip, int, shown_int, called_process_error, os_error,
  if◌then◌else◌,
}
use diskless.Base.Action.{Action, return, lift, ◌>>=◌, ◌>>◌}
use diskless.Database.{delete, exists_row}
use diskless.Machine.{Machine, NodeAcl, Lun}
use diskless.PrivHelper.{Request, handle, snapshot_table, string}
use diskless.PrivHelper.Whitelist.{handle-Keeps}
use diskless.PrivHelper.Serving.{Conn, serve, answered, staying, serve_ends}
use diskless.Lio.{remove_lun}
use diskless.Lio.Removal.{IsShown, is_of, is_named, remove_lun_lem}
use diskless.Orchestration.PrivClient
use diskless.Orchestration.PrivClient.Transparent.{client-runs, as_client}

abbrev pub Kernel : Type 0
Kernel = List NodeAcl × List Lun

abbrev nothing : Action Kernel (Unit {0})
nothing k = (ok tt, k)

abbrev printed : List Text → Text
printed [] = []
printed (program ∷ words) =
    if program == codes "blockdev" then codes "8192\n" else codes "/dev/loop0\n"

-- What adding a LUN and deleting a storage object do is given.
abbrev pub rig : Result ℕ → Result (Unit {0}) → Machine Kernel
rig added deleted = record {
  str = λ x. codes "refused";
  connect = nothing;
  run = λ words k. (ok (printed words), k);
  reflink = λ src dst files. (raise called_process_error, files);
  sha256 = λ bytes. bytes;
  row_id = λ s. none;
  block_storage_object = λ name dev. nothing;
  target = λ wwn. nothing;
  tpg = λ wwn tag. nothing;
  enable = λ wwn tag. nothing;
  network_portal = λ wwn tag ip port. nothing;
  add_lun = λ wwn tag name k. (added, k);
  node_acl = λ wwn tag iqn. nothing;
  mapped_lun = λ wwn tag iqn n m. nothing;
  node_acls = λ wwn tag k. (ok k.0, k);
  delete_acl = λ wwn tag iqn k. (ok tt, (delete (is_of iqn) k.0, k.1));
  luns = λ wwn tag k. (ok k.1, k);
  delete_lun = λ wwn tag n k. (ok tt, (k.0, delete (λ (l : Lun). eqb l.lun n) k.1));
  delete_storage = λ name k. (deleted, k);
}

abbrev pub works : Machine Kernel
works = rig (ok 0) (ok tt)

abbrev pub iqn : Text
iqn = codes "iqn:client-020000000001"

abbrev pub lun_name : Text
lun_name = codes "session-1"

abbrev pub kernel : Kernel
kernel = (
  record { node_wwn = iqn; has_session = false } ∷ [],
  record { lun = 0; storage_name = lun_name } ∷ [],
)

works-IsShown : IsShown works (codes "wwn") (λ (k : Kernel). k.0) (λ (k : Kernel). k.1)
works-IsShown = record {
  target = λ k. refl;
  tpg = λ k. refl;
  node_acls = λ k. refl;
  luns_read = λ k. refl;
  delete_acl = λ i k. (refl, refl, refl);
  delete_lun = λ n k. (refl, refl, refl);
  delete_storage = λ name k. (refl, refl);
}

remove_lun_lem_example :
    ((remove_lun works (codes "wwn") iqn lun_name kernel).1.0 ≡ delete (is_of iqn) kernel.0)
    × (exists_row (is_named lun_name) (remove_lun works (codes "wwn") iqn lun_name kernel).1.1
        ≡ false)
remove_lun_lem_example =
    remove_lun_lem works (codes "wwn") iqn lun_name {acls = λ k. k.0} {luns = λ k. k.1} kernel
      works-IsShown

client-runs_example :
    (PrivClient.attach_loop works (codes "a.img") true kernel
      ≡ as_client works
          (do
            out ←
                works.run
                  (codes "losetup" ∷ codes "-f" ∷ codes "--show" ∷ codes "-r" ∷ codes "a.img" ∷ [])
            return (strip out))
          kernel)
    × (PrivClient.detach_loop works (some (codes "/dev/loop0")) kernel
        ≡ as_client works
            (do works.run (codes "losetup" ∷ codes "-d" ∷ codes "/dev/loop0" ∷ []); return tt)
            kernel)
    × (PrivClient.create_snapshot works lun_name (codes "/dev/loop0") (codes "/dev/loop1") kernel
        ≡ as_client works
            (do
              out ← works.run (codes "blockdev" ∷ codes "--getsz" ∷ codes "/dev/loop0" ∷ [])
              sectors ← lift (int (strip out))
              works.run (
                  codes "dmsetup"
                  ∷ codes "create"
                  ∷ lun_name
                  ∷ codes "--table"
                  ∷ snapshot_table
                      (shown_int sectors)
                      (codes "/dev/loop0")
                      (codes "/dev/loop1")
                      (codes "8")
                  ∷ [])
              return tt)
            kernel)
    × (PrivClient.remove_snapshot works (some lun_name) kernel
        ≡ as_client works
            (do works.run (codes "dmsetup" ∷ codes "remove" ∷ lun_name ∷ []); return tt)
            kernel)
client-runs_example =
    client-runs works true (codes "a.img") (codes "/dev/loop0") lun_name (codes "/dev/loop0")
      (codes "/dev/loop1") kernel

abbrev losing : Request
losing = record {
  op = some (codes "detach_loop");
  args = some ((codes "dev", string (codes "/dev/loop0")) ∷ []);
}

handle-Keeps_example : (handle works (some losing) kernel).1 ≡ kernel
handle-Keeps_example =
    handle-Keeps works (λ k. k ≡ kernel) (some losing) kernel
      (λ words command. record { after = λ k same. same }) refl

-- Two messages, of which one cannot be read.
abbrev hung_up : Conn
hung_up = record {
  message = ok (some losing);
  sends = raise os_error;
  sends_error = raise os_error;
}

abbrev asked_first : List (Option Request)
asked_first = some losing ∷ none ∷ []

serve_ends_example :
    (serve works (map staying asked_first) kernel
      ≡ (ok tt, (answered works asked_first kernel).0, (answered works asked_first kernel).1))
    × (serve works (map staying asked_first ++ hung_up ∷ staying (some losing) ∷ []) kernel ≡ (
      raise os_error,
      (answered works asked_first kernel).0 ++ [] ∷ [],
      (handle works (some losing) (answered works asked_first kernel).1).1,
    ))
serve_ends_example =
    serve_ends works asked_first hung_up (staying (some losing) ∷ []) (some losing) os_error
      os_error kernel refl refl refl
