-- ===== src/Tests/Login.antt =====
-- An account, a login with it, and a request with its cookie, on a concrete signer and hash.
use diskless.Base.{
  if◌then◌else◌, ◌==◌, ◌≡◌, refl, true, none, some, [], ◌∷◌, ◌++◌, Text, Bytes, codes, decode, ok,
  raise, bad_signature, ◌==◌, list_eq, nat_eq, if◌then◌else◌,
}
use diskless.Base.Dict.{lookup}
use diskless.Base.Action.{Action, return}
use diskless.Database.{Database, AdminUser, is_user, fetch_one}
use diskless.Web.{Args, WebSession, Response, redirect, arg}
use diskless.Web.Cookie.{Signer, authorized, new_session_payload, session_cookie}
use diskless.Web.Login.{Bcrypt, LoginReply, create_admin, login_submit}
use diskless.Web.Login.Granting.{IsRead, IsHash, IsForm, create_admin-login, login_grants}
use diskless.Tests.Site.{site, web_session}

abbrev pub signer : Signer
signer = record {
  dumps = λ secret salt now payload. codes "token";
  loads = λ secret salt age now token.
      if token == codes "token" then ok web_session else raise bad_signature;
}

abbrev bcrypt : Bcrypt
bcrypt = record {
  hashpw = λ password salt. ok (salt ++ password);
  checkpw = λ password hash. ok (hash == codes "$" ++ password);
}

abbrev posted : Args
posted = (codes "username", codes "admin" ∷ []) ∷ (codes "password", codes "pw" ∷ []) ∷ []

hashed : IsHash bcrypt (codes "pw") (codes "$") (codes "$pw")
unfolding decode list_eq nat_eq
hashed = record { made = refl; ascii = refl; checked = refl }

posted-IsForm : IsForm posted (codes "admin") (codes "pw")
unfolding arg lookup decode list_eq nat_eq
posted-IsForm = record { username_given = refl; username_text = refl; password_given = refl }

token-IsRead : IsRead signer (codes "k") 0 60 web_session
unfolding session_cookie decode list_eq nat_eq
token-IsRead = record { ascii = refl; loads = refl }

abbrev dashboard : WebSession → Action Database Response
dashboard session = return (redirect session.user)

create_admin-login_example :
    (db' : Database) × (cookie : Text) × (create_admin bcrypt
        (codes "$")
        (codes "admin")
        (codes "pw")
        (site none)
      ≡ ok db')
    × (login_submit bcrypt signer (codes "k") 0 (codes "x1") posted db'
        ≡ ok (record { set_cookie = some cookie; response = redirect (codes "/") }))
    × (authorized signer (codes "k") 60 (some cookie) dashboard (site none)
        ≡ dashboard (new_session_payload (codes "x1") (codes "admin")) (site none))
    × ((other : Text)
        → fetch_one (is_user other) db'.admin_user ≡ (
            if other == codes "admin"
            then some (record { username = codes "admin"; password_hash = codes "$pw" })
            else fetch_one (is_user other) (site none).admin_user))
create_admin-login_example =
    create_admin-login bcrypt signer (codes "k") (codes "$") (codes "$pw") (codes "admin")
      (codes "pw") (codes "x1") 0 60 posted (site none) dashboard (site none) hashed posted-IsForm
      token-IsRead

abbrev accounts : Database
accounts = record (site none) {
  admin_user = record { username = codes "admin"; password_hash = codes "$pw" } ∷ [];
}

abbrev welcome : LoginReply
welcome = record { set_cookie = some (codes "token"); response = redirect (codes "/") }

logged_in : login_submit bcrypt signer (codes "k") 0 (codes "x1") posted accounts ≡ ok welcome
unfolding login_submit session_cookie arg lookup decode fetch_one list_eq nat_eq
logged_in = refl

login_grants_example :
    (username : Text) × (password : Bytes) × (row : AdminUser) × IsForm posted username password
    × (fetch_one (is_user username) accounts.admin_user ≡ some row)
    × (bcrypt.checkpw password row.password_hash ≡ ok true)
    × (codes "token"
        ≡ session_cookie signer (codes "k") 0 (new_session_payload (codes "x1") username))
login_grants_example =
    login_grants bcrypt signer (codes "k") (codes "x1") (codes "token") 0 posted accounts welcome
      logged_in refl
