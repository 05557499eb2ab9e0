-- ===== src/Web/Pages.antt =====
-- The pages that only read: the GET handlers of src/diskless/bootd/web, with what
-- `render_template` of src/diskless/bootd/web/__init__.py gives to the template. Jinja's text is left out.
pub mod Offering
pub mod Newest
use diskless.Base.{
  ℕ, Bool, true, false, not, ◌&&◌, Option, none, some, List, [], ◌∷◌, Text, codes, ltb, eqb,
  list_eq, nat_eq, if◌then◌else◌,
}
use diskless.Base.Dict.{lookup, has_key}
use diskless.Config.{Config}
use diskless.Database.{Database, ImageProfile, ImageVersion, ClientBinding, select}
use diskless.Orchestration.Lock
use diskless.Web.{WebSession, World}
use diskless.Web.Settings.{valid_dhcp_modes}

-- The arguments of the page of a profile's versions.
pub record Versions : Type 0 where
  pub profile_id : ℕ
  pub versions : List ImageVersion
  pub editing : Bool
  pub orphaned_lock : Bool

-- The arguments of the settings page.
pub record Modes : Type 0 where
  pub current_dhcp_mode : Text
  pub stored_dhcp_mode : Option Text
  pub valid_modes : List Text

-- A template with its arguments.
pub data Template : Type 0 where
  dashboard_html : Template
  image_profiles_html : List ImageProfile → Template
  image_versions_html : Versions → Template
  client_bindings_html : List ClientBinding → List ImageProfile → Template
  settings_html : Modes → Template

pub record Page : Type 0 where
  pub current_user : Text
  pub xsrf_token : Text
  pub template : Template

unfoldable pub render_template : WebSession → Template → Page
render_template session template = record {
  current_user = session.user;
  xsrf_token = session.csrf;
  template = template;
}

unfoldable pub dashboard : WebSession → Page
unfolding render_template
dashboard session = render_template session dashboard_html

unfoldable pub list_profiles : WebSession → World → Page
unfolding render_template
list_profiles session w = render_template session (image_profiles_html w.db.image_profile)

unfoldable pub place : ImageVersion → List ImageVersion → List ImageVersion
place r [] = r ∷ []
place r (q ∷ rows) =
    let rest = place r rows in
    if ltb r.version_number q.version_number then q ∷ rest else r ∷ q ∷ rows

-- `ORDER BY version_number DESC`
unfoldable pub descending : List ImageVersion → List ImageVersion
unfolding place
descending [] = []
descending (r ∷ rows) = place r (descending rows)

unfoldable pub versions_of : ℕ → World → Versions
unfolding descending
versions_of profile_id w =
    let editing = has_key profile_id w.admin_sessions in
    record {
      profile_id = profile_id;
      versions =
          descending
            (select (λ (r : ImageVersion). eqb r.profile_id profile_id) w.db.image_version);
      editing = editing;
      orphaned_lock = not editing && Lock.is_locked profile_id w.db;
    }

unfoldable pub list_versions : ℕ → WebSession → World → Page
unfolding versions_of render_template
list_versions profile_id session w =
    render_template session (image_versions_html (versions_of profile_id w))

unfoldable pub list_bindings : WebSession → World → Page
unfolding render_template
list_bindings session w =
    render_template session (client_bindings_html w.db.client_binding w.db.image_profile)

unfoldable pub show_settings : Config → WebSession → World → Page
unfolding render_template
show_settings cfg session w = render_template session (
    settings_html (record {
      current_dhcp_mode = cfg.dhcp_mode;
      stored_dhcp_mode = lookup (codes "dhcp_mode") w.db.site_setting;
      valid_modes = valid_dhcp_modes;
    }))
