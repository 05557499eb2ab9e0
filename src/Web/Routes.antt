-- ===== src/Web/Routes.antt =====
-- The state-changing routes of the web interface: the POST handlers of src/diskless/bootd/web, each
-- behind `require_auth`, with the request's cookie. One request is one step, for Klein calls the
-- handlers in the reactor's thread.
pub mod Pairing
use diskless.Base.{ℕ, Option, Bytes, List, [], ◌∷◌, Text, Result}
use diskless.Base.Action.{Action, within}
use diskless.Config.{Config}
use diskless.Machine.{Machine}
use diskless.Web.{Args, WebSession, Response, World, Handler}
use diskless.Web.Cookie.{Signer, authorized}
use diskless.Web.Images.{create_profile, delete_profile, force_unlock, delete_version}
use diskless.Web.Clients.{register_client, assign_version}
use diskless.Web.Settings.{update_settings}
use diskless.Web.Updates.{Running, start_update_session, finish_update_session}

-- The routes with their integers; `at` of the two with a time is the database's `datetime('now')`.
pub data Route : Type 0 where
  creates : Route
  deletes unlocks : ℕ → Route
  drops : ℕ → ℕ → Route
  begins finishes : Text → ℕ → Route
  registers assigns configures : Route

-- A handler that has nothing to do with the machine.
unfoldable pub on_world : {K : Type 0} → Handler → Action (Running K) Response
unfolding within
on_world = within (λ r. r.world) (λ w r. record r { world = w })

module _ {K : Type 0} (os : Machine K) (cfg : Config) where
  unfoldable pub handler : Route → Args → WebSession → Action (Running K) Response
  unfolding on_world
  handler creates args s = on_world (create_profile args s)
  handler (deletes i) args s = on_world (delete_profile i args s)
  handler (unlocks i) args s = on_world (force_unlock i args s)
  handler (drops i n) args s = on_world (delete_version cfg.images_root i n args s)
  handler (begins at i) args s = start_update_session os cfg at i args s
  handler (finishes at i) args s = finish_update_session os cfg at i args s
  handler registers args s = on_world (register_client args s)
  handler assigns args s = on_world (assign_version os.row_id args s)
  handler configures args s = on_world (update_settings args s)

  unfoldable pub serve : Signer → ℕ → Route → Args → Option Bytes → Action (Running K) Response
  unfolding handler authorized
  serve signer now route args cookie =
      authorized signer cfg.cookie_secret now cookie (λ s. handler route args s)
