-- ===== src/Web/Routes/Pairing.antt =====
-- Every route keeps sessions and locks paired.
use diskless.Base.{ℕ, Bytes, Text, arith, Option}
use diskless.Config.{Config}
use diskless.Machine.{Machine}
use diskless.Web.{Args, WebSession, World, verify_csrf, checked_cases}
use diskless.Web.Cookie.{Signer, authorized_cases}
use diskless.Web.Pairing.{IsPaired, same_pairs}
use diskless.Web.Images.Pairing.{
  create_profile-IsPaired, delete_profile-IsPaired, force_unlock-IsPaired, delete_version-IsPaired,
}
use diskless.Web.Clients.{register_client, assign_version, assigned, assign, insert_binding}
use diskless.Web.Settings.{update_settings}
use diskless.Web.Updates.{Running}
use diskless.Web.Updates.Pairing.{start_update_session-IsPaired, finish_update_session-IsPaired}
use diskless.Web.Routes.{
  Route, creates, deletes, unlocks, drops, begins, finishes, registers, assigns, configures,
  handler, serve,
}

register_client-IsPaired :
    (args : Args) (session : WebSession) (w : World)
    → IsPaired w
    → IsPaired (register_client args session w).1
unfolding register_client insert_binding
register_client-IsPaired args session w h =
    checked_cases IsPaired (verify_csrf args session) _ w h
      (same_pairs w _ (ground arith) (ground arith, ground arith) h)

assign_version-IsPaired :
    (row_id : Text → Option ℕ) (args : Args) (session : WebSession) (w : World)
    → IsPaired w
    → IsPaired (assign_version row_id args session w).1
unfolding assign_version assigned assign
assign_version-IsPaired row_id args session w h =
    checked_cases IsPaired (verify_csrf args session) _ w h
      (same_pairs w _ (ground arith) (ground arith, ground arith) h)

update_settings-IsPaired :
    (args : Args) (session : WebSession) (w : World)
    → IsPaired w
    → IsPaired (update_settings args session w).1
unfolding update_settings
update_settings-IsPaired args session w h =
    checked_cases IsPaired (verify_csrf args session) _ w h
      (same_pairs w _ (ground arith) (ground arith, ground arith) h)

module _ {K : Type 0} (os : Machine K) (cfg : Config) where
  handler-IsPaired :
      (route : Route) (args : Args) (s : WebSession) (r : Running K)
      → IsPaired r.world
      → IsPaired (handler os cfg route args s r).1.world
  unfolding handler
  handler-IsPaired creates args s r h = create_profile-IsPaired args s r.world h
  handler-IsPaired (deletes i) args s r h = delete_profile-IsPaired i args s r.world h
  handler-IsPaired (unlocks i) args s r h = force_unlock-IsPaired i args s r.world h
  handler-IsPaired (drops i n) args s r h =
      delete_version-IsPaired cfg.images_root i n args s r.world h
  handler-IsPaired (begins at i) args s r h = start_update_session-IsPaired os cfg at i args s r h
  handler-IsPaired (finishes at i) args s r h =
      finish_update_session-IsPaired os cfg at i args s r h
  handler-IsPaired registers args s r h = register_client-IsPaired args s r.world h
  handler-IsPaired assigns args s r h = assign_version-IsPaired os.row_id args s r.world h
  handler-IsPaired configures args s r h = update_settings-IsPaired args s r.world h

-- Where every profile that this process edits is locked and the ids of the profiles are a key, so it is
-- after any request to any of the state-changing routes, with whatever cookie and whatever the
-- machine does.
pub serve-IsPaired :
    {K : Type 0} (os : Machine K) (cfg : Config) (signer : Signer) (now : ℕ) (route : Route)
    (args : Args) (cookie : Option Bytes) (r : Running K)
    → IsPaired r.world
    → IsPaired (serve os cfg signer now route args cookie r).1.world
unfolding serve
serve-IsPaired os cfg signer now route args cookie r h =
    authorized_cases signer cfg.cookie_secret now (λ (q : Running _). IsPaired q.world) cookie
      (λ s. handler os cfg route args s) r h (λ s. handler-IsPaired os cfg route args s r h)
