-- ===== src/Web/Pages/Offering.antt =====
-- What a page offers is what the handler behind it does.
use diskless.Base.{
  ℕ, ◌≡◌, refl, true, false, some, [], ◌∷◌, arith, Text, codes, decode_ascii, is_ascii, decode,
  ◌==◌, ◌⊎◌, same_if_equal, ok, list_eq, nat_eq, eq_refl, inl, inr, Bool-cases, contains,
}
use diskless.Base.Dict.{lookup, insert, has_key, lookup-insert}
use diskless.Config.{Config, apply_db_overrides}
use diskless.Orchestration.Lock
use diskless.Orchestration.Lock.Holding.{is_locked-release}
use diskless.Web.{
  Args, WebSession, World, redirect, refuse, verify_csrf, compare_digest, checked, arg, arg_or,
}
use diskless.Web.Images.{force_unlock, versions_page}
use diskless.Web.Settings.{update_settings, set_mode, valid_dhcp_modes}
use diskless.Web.Settings.Effect.{stored_mode}
use diskless.Web.Pages.{
  Page, render_template, list_versions, versions_of, show_settings, settings_html,
}

-- A form of a page that sends the page's token, and its own fields.
abbrev pub form_of : Page → Args → Args
form_of page fields = (codes "_csrf", page.xsrf_token ∷ []) ∷ fields

module _ (session : WebSession) (ascii : is_ascii session.csrf ≡ true) where
  token_accepted :
      (fields : Args) → verify_csrf ((codes "_csrf", session.csrf ∷ []) ∷ fields) session ≡ ok true
  unfolding verify_csrf arg_or lookup list_eq nat_eq compare_digest
  token_accepted fields = rw (decode_ascii session.csrf ascii, ascii, eq_refl session.csrf) refl

-- For a session whose token is ASCII and a profile that is locked, the page of its versions offers to
-- force the lock exactly where the form of that page does: either it offers it, the post redirects
-- to the page, and the profile is not locked after it and the page does not offer it any more, or it does
-- not, and the post is refused and changes nothing.
pub list_versions-force_unlock :
    (i : ℕ) (session : WebSession) (w : World)
    → is_ascii session.csrf ≡ true
    → Lock.is_locked i w.db ≡ true
    → (((versions_of i w).orphaned_lock ≡ true)
        × ((force_unlock i (form_of (list_versions i session w) []) session w).0
            ≡ ok (redirect (versions_page i)))
        × (Lock.is_locked i (force_unlock i (form_of (list_versions i session w) []) session w).1.db
            ≡ false)
        × ((versions_of i
              (force_unlock i (form_of (list_versions i session w) []) session w).1).orphaned_lock
            ≡ false))
      ⊎ (((versions_of i w).orphaned_lock ≡ false)
          × (force_unlock i (form_of (list_versions i session w) []) session w
              ≡ (ok (refuse 409), w)))
unfolding force_unlock checked list_versions versions_of render_template
list_versions-force_unlock i session w ascii locked =
    let accepted = token_accepted session ascii [] in
    elim (Bool-cases (has_key i w.admin_sessions)) [
      | inl edited ↦ inr (rw edited refl, rw (accepted, edited) refl)
      | inr idle ↦
          let freed = is_locked-release i w.db in
          inl (
            rw (idle, locked) refl,
            rw (accepted, idle) refl,
            rw (accepted, idle) freed,
            rw (accepted, idle, freed, idle) refl,
          )
    ]

valid_text : (mode : Text) → contains valid_dhcp_modes mode ≡ true → decode mode ≡ ok mode
unfolding contains decode
valid_text mode valid = elim (Bool-cases (mode == codes "standalone")) [
  | inl first ↦ rw (same_if_equal mode (codes "standalone") first) refl
  | inr other ↦ elim (Bool-cases (mode == codes "proxy")) [
    | inl second ↦ rw (same_if_equal mode (codes "proxy") second) refl
    | inr none_of ↦ ground (arith, valid)
  ]
]

abbrev pub mode_form : Text → Args
mode_form mode = (codes "dhcp_mode", mode ∷ []) ∷ []

-- For a session whose token is ASCII, a post of one of the valid modes from the settings page leads back to it;
-- the page then shows the mode as stored and the one of the running process as current, and after a
-- restart it shows the mode as both.
pub show_settings-update_settings :
    (cfg : Config) (session : WebSession) (w : World) (mode : Text)
    → is_ascii session.csrf ≡ true
    → contains valid_dhcp_modes mode ≡ true
    → (w' : World) × (update_settings
          (form_of (show_settings cfg session w) (mode_form mode))
          session
          w
        ≡ (ok (redirect (codes "/settings")), w'))
      × (show_settings cfg session w'
          ≡ render_template session (
              settings_html (record {
                current_dhcp_mode = cfg.dhcp_mode;
                stored_dhcp_mode = some mode;
                valid_modes = valid_dhcp_modes;
              })))
      × (show_settings (apply_db_overrides cfg w'.db) session w'
          ≡ render_template session (
              settings_html (record {
                current_dhcp_mode = mode;
                stored_dhcp_mode = some mode;
                valid_modes = valid_dhcp_modes;
              })))
unfolding update_settings set_mode checked show_settings render_template arg lookup list_eq nat_eq
show_settings-update_settings cfg session w mode ascii valid =
    let w' = record w {
      db = record w.db { site_setting = insert (codes "dhcp_mode") mode w.db.site_setting };
    } in
    let accepted = token_accepted session ascii (mode_form mode) in
    let stored : lookup (codes "dhcp_mode") w'.db.site_setting ≡ some mode =
      rw (lookup-insert (codes "dhcp_mode") (codes "dhcp_mode") mode w.db.site_setting) refl in
    (
      w',
      rw (accepted, valid_text mode valid, valid) refl,
      rw stored refl,
      rw (stored, stored_mode cfg mode w.db) refl,
    )
