-- ===== src/Lio.antt =====
-- LUNs and ACLs of the shared iSCSI target: src/diskless/iscsi/lio.py.
pub mod Removal
use diskless.Base.{
  ℤ, ℕ, Bool, true, false, List, [], ◌∷◌, Text, ◌==◌, list_eq, nat_eq, if◌then◌else◌,
}
use diskless.Base.Action.{Action, return, ◌>>=◌, ◌>>◌}
use diskless.Machine.{Machine, NodeAcl, Lun}

abbrev pub tpg_tag : ℕ
tpg_tag = 1

-- `MAPPED_LUN`
abbrev pub only_lun : ℕ
only_lun = 0

-- `return getattr(acl, "session", None) is not None` at the first ACL of the initiator
unfoldable pub session_of : Text → List NodeAcl → Bool
session_of initiator_iqn [] = false
session_of initiator_iqn (acl ∷ acls) =
    if acl.node_wwn == initiator_iqn then acl.has_session else session_of initiator_iqn acls

module _ {K : Type 0} (os : Machine K) (target_wwn : Text) where
  unfoldable pub register_lun : Text → Text → Text → Text → ℤ → Action K ℕ
  register_lun initiator_iqn lun_name backing_dev portal_ip portal_port = do
    os.block_storage_object lun_name backing_dev
    os.target target_wwn
    os.tpg target_wwn tpg_tag
    os.enable target_wwn tpg_tag
    os.network_portal target_wwn tpg_tag portal_ip portal_port
    number ← os.add_lun target_wwn tpg_tag lun_name
    os.node_acl target_wwn tpg_tag initiator_iqn
    os.mapped_lun target_wwn tpg_tag initiator_iqn only_lun number
    return number

  unfoldable pub delete_acls : Text → List NodeAcl → Action K (Unit {0})
  delete_acls initiator_iqn [] = return tt
  delete_acls initiator_iqn (acl ∷ acls) =
      let rest = delete_acls initiator_iqn acls in
      if acl.node_wwn == initiator_iqn
      then os.delete_acl target_wwn tpg_tag acl.node_wwn >> rest
      else rest

  unfoldable pub delete_luns : Text → List Lun → Action K (Unit {0})
  delete_luns lun_name [] = return tt
  delete_luns lun_name (lun ∷ luns) =
      let rest = delete_luns lun_name luns in
      if lun.storage_name == lun_name
      then os.delete_lun target_wwn tpg_tag lun.lun >> rest
      else rest

  unfoldable pub remove_lun : Text → Text → Action K (Unit {0})
  unfolding delete_acls delete_luns
  remove_lun initiator_iqn lun_name = do
    os.target target_wwn
    os.tpg target_wwn tpg_tag
    acls ← os.node_acls target_wwn tpg_tag
    delete_acls initiator_iqn acls
    luns ← os.luns target_wwn tpg_tag
    delete_luns lun_name luns
    os.delete_storage lun_name

  unfoldable pub is_session_active : Text → Action K Bool
  unfolding session_of
  is_session_active initiator_iqn = do
    os.target target_wwn
    os.tpg target_wwn tpg_tag
    acls ← os.node_acls target_wwn tpg_tag
    return (session_of initiator_iqn acls)
