-- ===== src/Web/Updates.antt =====
-- An administrator's editing of an image: `start_update_session` and `finish_update_session` of
-- src/diskless/bootd/web/image_profiles.py.
pub mod Pairing
pub mod Sharing
pub mod Losing
use diskless.Base.{
  ℕ, suc, ◌+◌, ◌*◌, ◌-◌, ◌^◌, Bool, true, false, Option, none, some, List, [], ◌∷◌, ◌++◌, Text,
  Bytes, codes, decode, int, ℤ, pos, negsuc, ◌>>=◌, profile_locked, Result, ok, raise, ◌==◌,
  list_eq, nat_eq, if◌then◌else◌,
}
use diskless.Base.Dict.{Dict, lookup, insert, erase}
use diskless.Base.Action.{Action}
use diskless.Database.{Database, ClientBinding}
use diskless.Config.{Config}
use diskless.Machine.{Machine}
use diskless.Orchestration.Lock
use diskless.Orchestration.Host.{Host}
use diskless.Orchestration.Session.{Session}
use diskless.Orchestration.Lifecycle.{start_session, end_session}
use diskless.Web.{
  Args, WebSession, Response, redirect, refuse, World, arg, arg_or, verify_csrf, checked,
}
use diskless.Web.Images.{versions_page}

-- The state of the web interface, and the machine that sessions work on.
pub record Running (K : Type 0) : Type 0 where
  pub world : World
  pub kernel : K

-- `gb * 1024**3`
gigabytes : ℤ → ℤ
gigabytes (pos n) = pos (n * 1024 ^ 3)
gigabytes (negsuc n) = negsuc ((n + 1) * 1024 ^ 3 - 1)

pub record Form : Type 0 where
  pub base_version : ℤ
  pub additional_bytes : ℤ

-- An empty field is false, so that `or` goes on to 0.
additional : Bytes → Result ℤ
unfolding gigabytes
additional [] = ok (pos 0)
additional (c ∷ raw) = do n ← int (c ∷ raw); ok (gigabytes n)

unfoldable pub form : Args → Result Form
unfolding additional
form args = do
  raw_version ← arg (codes "base_version") args
  base_version ← int raw_version
  raw_gb ← arg_or (codes "additional_gb") (codes "0") args
  additional_bytes ← additional raw_gb
  ok (record { base_version = base_version; additional_bytes = additional_bytes })

-- `models.ClientBinding(id=0, client_mac=f"admin:{username}", ...)`
abbrev admin_binding : ℕ → Text → ℤ → ClientBinding
admin_binding profile_id username version = record {
  id = 0;
  client_mac = codes "admin:" ++ username;
  initiator_iqn = none;
  image_profile_id = profile_id;
  assigned_version = version;
}

abbrev pub admin_iqn : Config → Text → Text
admin_iqn cfg username = cfg.iscsi_target_iqn_prefix ++ (codes ":admin-ui-" ++ username)

unfoldable pub action_of : Args → Result Text
action_of args = do raw ← arg_or (codes "action") (codes "cancel") args; decode raw

module _ {K : Type 0} where
  abbrev pub host_of : Running K → Host K
  host_of r = record { db = r.world.db; files = r.world.files; kernel = r.kernel }

  abbrev pub with_host : Host K → Running K → Running K
  with_host h r = record {
    world = record r.world { db = h.db; files = h.files };
    kernel = h.kernel;
  }

  abbrev pub with_db : Database → Running K → Running K
  with_db db r = record r { world = record r.world { db = db } }

  abbrev pub with_sessions : Dict ℕ Session → Running K → Running K
  with_sessions sessions r = record r { world = record r.world { admin_sessions = sessions } }

  abbrev pub releasing : ℕ → Running K → Running K
  releasing profile_id r = with_db (Lock.release profile_id r.world.db) r

  -- What follows `start_session`: a failure gives the lock back and is raised again.
  unfoldable pub started : ℕ → Result Session → Action (Running K) Response
  started profile_id (raise x) r = (raise x, releasing profile_id r)
  started profile_id (ok s) r = (
    ok (redirect (versions_page profile_id)),
    with_sessions (insert profile_id s r.world.admin_sessions) r,
  )

  unfoldable pub popped : ℕ → Running K → Running K
  popped profile_id r = with_sessions (erase profile_id r.world.admin_sessions) r

module _ {K : Type 0} (os : Machine K) (cfg : Config) where
  unfoldable pub begin_update : Text → ℕ → Text → Form → Action (Running K) Response
  unfolding started
  begin_update at profile_id username f r =
      let (outcome, h) =
        start_session os cfg at (admin_binding profile_id username f.base_version)
          (admin_iqn cfg username) false (some username) f.additional_bytes (host_of r) in
      started profile_id outcome (with_host h r)

  -- What follows `lock.acquire`.
  unfoldable pub acquired : Text → ℕ → Text → Form → Result (Unit {0}) → Action (Running K) Response
  unfolding begin_update
  acquired at profile_id username f (ok _) r = begin_update at profile_id username f r
  acquired at profile_id username f (raise x) r = elim x [
    | profile_locked holder ↦ (ok (refuse 409), r)
    | other ↦ (raise other, r)
  ]

  unfoldable pub update_with : Text → ℕ → Text → Result Form → Action (Running K) Response
  unfolding acquired
  update_with at profile_id username (raise x) r = (raise x, r)
  update_with at profile_id username (ok f) r =
      let (outcome, db) = Lock.acquire profile_id username at r.world.db in
      acquired at profile_id username f outcome (with_db db r)

  unfoldable pub start_update_session : Text → ℕ → Args → WebSession → Action (Running K) Response
  unfolding update_with form
  start_update_session at profile_id args session =
      checked (verify_csrf args session) (update_with at profile_id session.user (form args))

  -- `end_session` and, whatever it does, the release of the lock.
  unfoldable pub finish_with : Text → ℕ → Session → Result Text → Action (Running K) Response
  finish_with at profile_id s (raise x) r = (raise x, r)
  finish_with at profile_id s (ok action) r =
      let (outcome, h) = end_session os cfg at s (action == codes "merge") (host_of r) in
      (
        elim outcome [ raise x ↦ raise x | ok _ ↦ ok (redirect (versions_page profile_id)) ],
        releasing profile_id (with_host h r),
      )

  -- The session leaves `_admin_sessions` before the action is read.
  unfoldable pub finish_session : Text → ℕ → Args → Action (Running K) Response
  unfolding finish_with action_of popped
  finish_session at profile_id args r = elim (lookup profile_id r.world.admin_sessions) [
    | none ↦ (ok (refuse 404), r)
    | some s ↦ finish_with at profile_id s (action_of args) (popped profile_id r)
  ]

  unfoldable pub finish_update_session : Text → ℕ → Args → WebSession → Action (Running K) Response
  unfolding finish_session
  finish_update_session at profile_id args session =
      checked (verify_csrf args session) (finish_session at profile_id args)
