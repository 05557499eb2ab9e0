-- ===== src/Web/Settings.antt =====
-- The DHCP mode: src/diskless/bootd/web/settings.py.
pub mod Effect
use diskless.Base.{
  ℕ, Bool, true, false, List, [], ◌∷◌, Text, codes, decode, Result, ok, raise, ◌>>=◌, list_eq,
  nat_eq, contains, if◌then◌else◌,
}
use diskless.Base.Dict.{insert}
use diskless.Web.{
  Args, WebSession, Response, redirect, refuse, World, Handler, arg, verify_csrf, checked,
}

-- `VALID_DHCP_MODES`
abbrev pub valid_dhcp_modes : List Text
valid_dhcp_modes = codes "standalone" ∷ codes "proxy" ∷ []

unfoldable pub set_mode : Result Text → Handler
set_mode (raise x) w = (raise x, w)
set_mode (ok dhcp_mode) w =
    if contains valid_dhcp_modes dhcp_mode
    then (
      ok (redirect (codes "/settings")),
      record w {
        db = record w.db { site_setting = insert (codes "dhcp_mode") dhcp_mode w.db.site_setting };
      },
    )
    else (ok (refuse 400), w)

unfoldable pub update_settings : Args → WebSession → Handler
unfolding set_mode
update_settings args session =
    checked (verify_csrf args session)
      (set_mode (do raw ← arg (codes "dhcp_mode") args; decode raw))
