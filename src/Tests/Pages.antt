-- ===== src/Tests/Pages.antt =====
-- The pages on a concrete site, and the posts from them.
use mathlib.Core.List.{Perm}
use diskless.Base.{
  ◌+◌, ◌≡◌, ◌⊎◌, refl, true, false, some, [], codes, is_ascii, contains, list_eq, nat_eq, eqb, ok,
  none,
}
use diskless.Config.{apply_db_overrides}
use diskless.Database.{ImageVersion, fetch_one, select}
use diskless.Orchestration.Lock.{is_locked}
use diskless.Orchestration.Session.{next_version_number}
use diskless.Web.{World, redirect, refuse}
use diskless.Web.Images.{force_unlock, versions_page}
use diskless.Web.Settings.{valid_dhcp_modes, update_settings}
use diskless.Web.Pages.{settings_html, render_template, list_versions, show_settings, versions_of}
use diskless.Web.Pages.Offering.{
  form_of, mode_form, list_versions-force_unlock, show_settings-update_settings,
}
use diskless.Web.Pages.Newest.{Descending, top, list_versions-next_version_number}
use diskless.Tests.Site.{config, web_session, world}

token_is_ascii : is_ascii web_session.csrf ≡ true
unfolding is_ascii
token_is_ascii = refl

locked : is_locked 1 (world (some (codes "lee"))).db ≡ true
unfolding is_locked fetch_one
locked = refl

list_versions-force_unlock_example :
    (((versions_of 1 (world (some (codes "lee")))).orphaned_lock ≡ true)
      × ((force_unlock 1
            (form_of (list_versions 1 web_session (world (some (codes "lee")))) [])
            web_session
            (world (some (codes "lee")))).0
          ≡ ok (redirect (versions_page 1)))
      × (is_locked 1
            (force_unlock 1
              (form_of (list_versions 1 web_session (world (some (codes "lee")))) [])
              web_session
              (world (some (codes "lee")))).1.db
          ≡ false)
      × ((versions_of 1
            (force_unlock 1
              (form_of (list_versions 1 web_session (world (some (codes "lee")))) [])
              web_session
              (world (some (codes "lee")))).1).orphaned_lock
          ≡ false))
    ⊎ (((versions_of 1 (world (some (codes "lee")))).orphaned_lock ≡ false)
        × (force_unlock 1
              (form_of (list_versions 1 web_session (world (some (codes "lee")))) [])
              web_session
              (world (some (codes "lee")))
            ≡ (ok (refuse 409), world (some (codes "lee")))))
list_versions-force_unlock_example =
    list_versions-force_unlock 1 web_session (world (some (codes "lee"))) token_is_ascii locked

a_mode : contains valid_dhcp_modes (codes "standalone") ≡ true
unfolding contains list_eq nat_eq
a_mode = refl

show_settings-update_settings_example :
    (w' : World) × (update_settings
        (form_of (show_settings config web_session (world none)) (mode_form (codes "standalone")))
        web_session
        (world none)
      ≡ (ok (redirect (codes "/settings")), w'))
    × (show_settings config web_session w'
        ≡ render_template web_session (
            settings_html (record {
              current_dhcp_mode = config.dhcp_mode;
              stored_dhcp_mode = some (codes "standalone");
              valid_modes = valid_dhcp_modes;
            })))
    × (show_settings (apply_db_overrides config w'.db) web_session w'
        ≡ render_template web_session (
            settings_html (record {
              current_dhcp_mode = codes "standalone";
              stored_dhcp_mode = some (codes "standalone");
              valid_modes = valid_dhcp_modes;
            })))
show_settings-update_settings_example =
    show_settings-update_settings config web_session (world none) (codes "standalone")
      token_is_ascii a_mode

list_versions-next_version_number_example :
    Perm
      (select (λ (r : ImageVersion). eqb r.profile_id 1) (world none).db.image_version)
      (versions_of 1 (world none)).versions
    × Descending (versions_of 1 (world none)).versions
    × (next_version_number 1 (world none).db ≡ top (versions_of 1 (world none)).versions + 1)
list_versions-next_version_number_example = list_versions-next_version_number 1 (world none)
