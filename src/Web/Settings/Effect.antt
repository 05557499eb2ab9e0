-- ===== src/Web/Settings/Effect.antt =====
-- What the settings page stores is what the next start uses.
use diskless.Base.{
  ◌≡◌, ◌⊎◌, inl, inr, refl, true, some, arith, Text, codes, Result, ok, raise, list_eq, nat_eq,
  eq_refl, contains, Bool-cases,
}
use diskless.Base.Dict.{lookup, insert, lookup-insert}
use diskless.Database.{Database}
use diskless.Config.{Config, apply_db_overrides}
use diskless.Web.{Args, WebSession, World, verify_csrf, checked_cases}
use diskless.Web.Settings.{valid_dhcp_modes, update_settings, set_mode}

pub stored_mode :
    (cfg : Config) (mode : Text) (db : Database)
    → (apply_db_overrides cfg
        (record db { site_setting = insert (codes "dhcp_mode") mode db.site_setting })).dhcp_mode
      ≡ mode
unfolding apply_db_overrides
stored_mode cfg mode db =
    let e : lookup (codes "dhcp_mode") (insert (codes "dhcp_mode") mode db.site_setting)
        ≡ some mode =
      rw (lookup-insert, eq_refl) in
    ground (arith, e)

set_mode-effect :
    (cfg : Config) (r : Result Text) (w : World)
    → ((set_mode r w).1 ≡ w)
      ⊎ (contains valid_dhcp_modes (apply_db_overrides cfg (set_mode r w).1.db).dhcp_mode ≡ true)
unfolding set_mode
set_mode-effect cfg (raise x) w = inl refl
set_mode-effect cfg (ok mode) w = elim (Bool-cases (contains valid_dhcp_modes mode)) [
  | inl valid ↦ inr (rw valid (rw (stored_mode cfg mode w.db) valid))
  | inr bad ↦ inl (rw bad)
]

-- Whatever is posted to the settings page, either nothing changes, or the mode that the next start
-- reads from the database is one of the two valid ones.
pub update_settings-effect :
    (cfg : Config) (args : Args) (session : WebSession) (w : World)
    → ((update_settings args session w).1 ≡ w)
      ⊎ (contains valid_dhcp_modes
            (apply_db_overrides cfg (update_settings args session w).1.db).dhcp_mode
          ≡ true)
unfolding update_settings
update_settings-effect cfg args session w =
    checked_cases
      (λ after.
        (after ≡ w)
        ⊎ (contains valid_dhcp_modes (apply_db_overrides cfg after.db).dhcp_mode ≡ true))
      (verify_csrf args session) _ w (inl refl) (set_mode-effect cfg _ w)
