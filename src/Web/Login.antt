-- ===== src/Web/Login.antt =====
-- Logging in and out, src/diskless/bootd/web/auth.py, and the accounts that src/diskless/cli/create_admin.py
-- makes. bcrypt is a parameter.
pub mod Granting
use diskless.Base.{
  ℕ, Bool, false, Option, none, some, List, [], ◌∷◌, ◌++◌, Text, Bytes, codes, decode, Result, ok,
  raise, ◌>>=◌, ◌==◌, list_eq, nat_eq, if◌then◌else◌,
}
use diskless.Database.{Database, AdminUser, is_user, fetch_one, exists_row, update}
use diskless.Web.{Args, Response, redirect, page, arg}
use diskless.Web.Cookie.{Signer, new_session_payload, session_cookie}

pub record Bcrypt : Type 0 where
  pub hashpw : Bytes → Bytes → Result Bytes
  pub checkpw : Bytes → Bytes → Result Bool

-- What a handler answers, with the session cookie that it sets, if any.
pub record LoginReply : Type 0 where
  pub set_cookie : Option Text
  pub response : Response

abbrev login_form : LoginReply
login_form = record { set_cookie = none; response = page (codes "login.html") }

-- `clear_session_cookie` sets an empty cookie that has expired.
unfoldable pub logout : LoginReply
logout = record { set_cookie = some []; response = redirect (codes "/login") }

unfoldable pub upsert_admin : AdminUser → List AdminUser → List AdminUser
upsert_admin u users =
    if exists_row (is_user u.username) users
    then update (is_user u.username) (λ r. record r { password_hash = u.password_hash }) users
    else users ++ u ∷ []

module _ (bcrypt : Bcrypt) where
  -- `create_admin`, with the salt of `bcrypt.gensalt()`
  unfoldable pub create_admin : Bytes → Text → Text → Database → Result Database
  unfolding upsert_admin
  create_admin salt username password db = do
    hashed ← bcrypt.hashpw password salt
    password_hash ← decode hashed
    ok (record db {
      admin_user =
          upsert_admin (record { username = username; password_hash = password_hash })
            db.admin_user;
    })

  -- Whether there is such an account, and the password is its own.
  unfoldable pub checked_password : Bytes → Option AdminUser → Result Bool
  checked_password password none = ok false
  checked_password password (some row) = bcrypt.checkpw password row.password_hash

  module _ (signer : Signer) (cookie_secret : Text) where
    unfoldable pub login_submit : ℕ → Text → Args → Database → Result LoginReply
    unfolding checked_password session_cookie
    login_submit now csrf args db = do
      raw ← arg (codes "username") args
      username ← decode raw
      password ← arg (codes "password") args
      good ← checked_password password (fetch_one (is_user username) db.admin_user)
      ok (
          if good
          then record {
            set_cookie =
                some (session_cookie signer cookie_secret now (new_session_payload csrf username));
            response = redirect (codes "/");
          }
          else login_form)
